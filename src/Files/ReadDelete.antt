-- ===== src/Files/ReadDelete.antt =====
-- `nebula_file_read` and `nebula_file_delete`.
use mini_fs.Base.{
  ℕ, zero, suc, ◌+◌, ◌-◌, ◌/◌, ◌%◌, min, bit_and, Option, none, some, ltb, leb, ◌==◌, if◌then◌else◌,
  add64, sub64, Result, ok, err, Cmd, pure, ◌>>=◌, ◌>>◌, ebadf,
}
use mini_fs.Format.Bytes.{Bytes, clear, copy, load, store}
use mini_fs.Format.Consts.{block_size, extents_per_inode}
use mini_fs.Format.Inode
use mini_fs.State.{Mount, on_io}
use mini_fs.Io.Raw.{alloc_buf, now_ns}
use mini_fs.Io.Posix.{io_read}
use mini_fs.Alloc.Block.{block_free}
use mini_fs.Inodes.Table.{inode_free}
use mini_fs.Files.Extents.{extent_base, extent_find, extent_lba, em_size_blocks, em_lba_of}
use mini_fs.Files.Handle.{o_rdonly}
use mini_fs.Files.Write.{Open, on_mount, partial_result}

-- One round: the bytes of one block into `dst`, zeros where no extent has it.
unfoldable pub read_round : (offset len done : ℕ) (dst : Bytes) → Option ℕ → Cmd Open Bytes
unfolding on_mount on_io
read_round offset len done dst idx (f, m) =
    let cur_off = add64 offset done in
    let blk = cur_off / block_size in
    let blk_off = cur_off % block_size in
    let to_read = min (block_size - blk_off) (len - done) in
    elim idx [
      | none ↦ (ok (clear done to_read dst), (f, m))
      | some i ↦
          (do
            on_mount (on_io alloc_buf)
            b ← on_mount (on_io (io_read (extent_lba f.inode blk i) 1))
            pure (copy dst done b blk_off to_read))
            (f, m)
    ]

-- The loop, on fuel: each round reads a byte at least. The value is the result and the buffer.
unfoldable pub read_rounds :
    (offset len fuel done : ℕ) (dst : Bytes) → Open → (Result ℕ × Bytes) × Open
unfolding read_round
read_rounds offset len zero done dst st = ((ok done, dst), st)
read_rounds offset len (suc fuel) done dst (f, m) =
    let cur_off = add64 offset done in
    let to_read = min (block_size - cur_off % block_size) (len - done) in
    let (r, st') =
      read_round offset len done dst (extent_find f.inode (cur_off / block_size)) (f, m) in
    let next = λ (b : Bytes). read_rounds offset len fuel (done + to_read) b st' in
    if ltb done len
    then (elim r [ ok b ↦ next b | err e ↦ ((partial_result done e, dst), st') ])
    else ((ok done, dst), (f, m))

-- The bytes to read: none behind the end of the file.
unfoldable pub clamp_len : (offset len size : ℕ) → ℕ
clamp_len offset len size = if ltb size (add64 offset len) then sub64 size offset else len

-- `atime` is set only where the loop ran to its end.
unfoldable pub touch : (len : ℕ) → (Result ℕ × Bytes) × Open → (Result ℕ × Bytes) × Open
touch len ((ok done, dst), (f, m)) =
    let (t, io) = now_ns m.io in
    let time : ℕ = elim t [ ok n ↦ n | err e ↦ 0 ] in
    if ltb done len then ((ok done, dst), (f, m)) else (
      (ok done, dst),
      (record f { inode = store Inode.atime_ns time f.inode }, record m { io = io }),
    )
touch len ((err e, dst), st) = ((err e, dst), st)

unfoldable pub file_read : (offset : ℕ) (buf : Bytes) (len : ℕ) → Open → (Result ℕ × Bytes) × Open
unfolding read_rounds touch clamp_len
file_read offset buf len (f, m) =
    let size = load Inode.size_bytes f.inode in
    let n = clamp_len offset len size in
    if bit_and f.flags o_rdonly == 0
    then ((err ebadf, buf), (f, m))
    else if len == 0
    then ((ok 0, buf), (f, m))
    else if leb size offset
    then ((ok 0, buf), (f, m))
    else touch n (read_rounds offset n n 0 buf (f, m))

-- The loop over the extents: an error is kept, and the loop goes on.
unfoldable pub free_extents : (rounds i : ℕ) → Result (Unit {0}) → Open → Result (Unit {0}) × Open
free_extents zero i rc st = (rc, st)
free_extents (suc rounds) i rc (f, m) =
    let (frc, m') = block_free (em_lba_of f.inode i) (em_size_blocks f.inode i) m in
    let skip = free_extents rounds (i + 1) rc (f, m) in
    let freed =
      free_extents rounds (i + 1) (elim frc [ ok _ ↦ rc | err e ↦ err e ])
        (record f { inode = clear (extent_base i) 16 f.inode }, m') in
    if em_size_blocks f.inode i == 0 then skip else freed

-- The first error of the two.
abbrev pub first_error : Result (Unit {0}) → Result (Unit {0}) → Result (Unit {0})
first_error (ok _) frc = frc
first_error (err e) frc = err e

unfoldable pub file_delete : Open → Result (Unit {0}) × Mount
unfolding free_extents
file_delete st =
    let (rc, (f, m)) = free_extents extents_per_inode 0 (ok tt) st in
    let (frc, m') = inode_free (load Inode.inode_num f.inode) m in (first_error rc frc, m')
