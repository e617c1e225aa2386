-- ===== src/Io/Posix.antt =====
-- The POSIX backend: transfers in whole blocks by loops over `pread` and `pwrite`.
use mini_fs.Base.{
  ◌≡◌, refl, ℕ, ◌+◌, ◌-◌, ◌*◌, min, List, [], ◌∷◌, ltb, ◌==◌, if◌then◌else◌, add64, mul64, Result,
  ok, err, Cmd, eintr, eio, erange,
}
use mini_fs.Format.Bytes.{Bytes, zeros, copy}
use mini_fs.Format.Consts.{block_size}
use mini_fs.Io.Raw.{Io, Syscall, failed, moved}

-- The loop of `posix_read`: `done` of `total` bytes are in `buf`. A call moves at most what is
-- left, and with no outcome listed it moves all of it.
unfoldable pub read_loop :
    (disk : Bytes) (off total : ℕ) → List Syscall → ℕ → Bytes → Result Bytes × List Syscall
unfolding copy
read_loop disk off total [] done buf =
    (ok (if ltb done total then copy buf done disk (off + done) (total - done) else buf), [])
read_loop disk off total (failed e ∷ evs) done buf =
    let again = read_loop disk off total evs done buf in
    if ltb done total
    then (if e == eintr then again else (err e, evs))
    else (ok buf, failed e ∷ evs)
read_loop disk off total (moved r ∷ evs) done buf =
    let k = min r (total - done) in
    let rest = read_loop disk off total evs (done + k) (copy buf done disk (off + done) k) in
    if ltb done total then (if r == 0 then (err eio, evs) else rest) else (ok buf, moved r ∷ evs)

-- The loop of `posix_write`: the file after it.
unfoldable pub write_loop :
    (src : Bytes) (off total : ℕ)
    → List Syscall
    → ℕ
    → Bytes
    → Result (Unit {0}) × List Syscall × Bytes
unfolding copy
write_loop src off total [] done disk =
    (ok tt, [], if ltb done total then copy disk (off + done) src done (total - done) else disk)
write_loop src off total (failed e ∷ evs) done disk =
    let again = write_loop src off total evs done disk in
    if ltb done total
    then (if e == eintr then again else (err e, evs, disk))
    else (ok tt, failed e ∷ evs, disk)
write_loop src off total (moved r ∷ evs) done disk =
    let k = min r (total - done) in
    let rest = write_loop src off total evs (done + k) (copy disk (off + done) src done k) in
    if ltb done total
    then (if r == 0 then (err eio, evs, disk) else rest)
    else (ok tt, moved r ∷ evs, disk)

-- `nebula_io_read`, which is `posix_read`; a fresh buffer is taken to be zero.
unfoldable pub io_read : ℕ → ℕ → Cmd Io Bytes
unfolding read_loop
io_read lba n io =
    if ltb io.capacity_blocks (add64 lba n)
    then (err erange, io)
    else (let (r, evs) =
          read_loop io.disk (mul64 lba block_size) (n * block_size) io.syscalls 0 zeros in
        (r, record io { syscalls = evs }))

-- `nebula_io_write`, which is `posix_write`.
unfoldable pub io_write : ℕ → ℕ → Bytes → Cmd Io (Unit {0})
unfolding write_loop
io_write lba n buf io =
    if ltb io.capacity_blocks (add64 lba n)
    then (err erange, io)
    else (let (r, evs, disk) =
          write_loop buf (mul64 lba block_size) (n * block_size) io.syscalls 0 io.disk in
        (r, record io { syscalls = evs; disk = disk }))

fsync_answer : List Syscall → Cmd Io (Unit {0})
fsync_answer [] io = (ok tt, io)
fsync_answer (failed e ∷ evs) io = (err e, record io { syscalls = evs })
fsync_answer (moved r ∷ evs) io = (ok tt, record io { syscalls = evs })

-- `nebula_io_flush`, which is `posix_flush`: one call of `fsync`, not made again after EINTR.
unfoldable pub io_flush : Cmd Io (Unit {0})
unfolding fsync_answer
io_flush io = fsync_answer io.syscalls io

fsync_answer-same :
    (evs : List Syscall) (io : Io)
    → ((fsync_answer evs io).1.disk ≡ io.disk)
      × ((fsync_answer evs io).1.capacity_blocks ≡ io.capacity_blocks)
unfolding fsync_answer
fsync_answer-same [] io = (refl, refl)
fsync_answer-same (failed e ∷ evs) io = (refl, refl)
fsync_answer-same (moved r ∷ evs) io = (refl, refl)

pub io_flush-same :
    (io : Io)
    → ((io_flush io).1.disk ≡ io.disk) × ((io_flush io).1.capacity_blocks ≡ io.capacity_blocks)
unfolding io_flush
io_flush-same io = fsync_answer-same io.syscalls io

-- With no outcome listed `fsync` succeeds.
pub io_flush-ok : (io : Io) → io.syscalls ≡ [] → io_flush io ≡ (ok tt, io)
unfolding io_flush fsync_answer
io_flush-ok io e = flushed io.syscalls e
  where
    flushed : (evs : List Syscall) → evs ≡ [] → fsync_answer evs io ≡ (ok tt, io)
    flushed [] q = refl
    flushed (ev ∷ rest) q = cc
