-- ===== src/Files/Write.antt =====
-- `nebula_file_write`: one block a round, with the extents that it needs.
use mini_fs.Base.{
  ℕ, zero, suc, ◌+◌, ◌-◌, ◌/◌, ◌%◌, min, bit_and, true, false, not, ◌||◌, Option, none, some, ltb,
  ◌==◌, if◌then◌else◌, add64, u32, Result, ok, err, Cmd, pure, ◌>>=◌, ◌>>◌, ebadf,
}
use mini_fs.Format.Bytes.{Bytes, zeros, copy, load, store}
use mini_fs.Format.Consts.{block_size, extents_per_inode}
use mini_fs.Format.Inode
use mini_fs.State.{Mount, on_io}
use mini_fs.Io.Raw.{alloc_buf, now_ns}
use mini_fs.Io.Posix.{io_read, io_write}
use mini_fs.Alloc.Block.{block_alloc, block_free}
use mini_fs.Inodes.Table.{inode_write}
use mini_fs.Files.Extents.{extent_find, extent_lba, extent_append, alloc_size}
use mini_fs.Files.Handle.{File, o_wronly}

-- The state of a call on a handle: the handle and the mount behind it.
abbrev pub Open : Type 0
Open = File × Mount

unfoldable pub on_mount : {A : Type 0} → Cmd Mount A → Cmd Open A
on_mount c (f, m) = let (r, m') = c m in (r, (f, m'))

-- The blocks to ask for: what is left to write, at most 256 and at least one.
unfoldable pub need_blocks : (bytes_left blk_off : ℕ) → ℕ
need_blocks bytes_left blk_off =
    let n = u32 (add64 (add64 bytes_left blk_off) (block_size - 1) / block_size) in
    if ltb 256 n then 256 else if n == 0 then 1 else n

-- What follows a successful allocation: the new extent, or the blocks given back.
unfoldable pub attach : (blk need phys_lba : ℕ) → Result Bytes → Cmd Open ℕ
attach blk need phys_lba (ok ino) (f, m) =
    (ok phys_lba, (record f { inode = ino; dirty = true }, m))
attach blk need phys_lba (err e) (f, m) = (err e, (f, (block_free phys_lba need m).1))

-- The physical block of logical block `blk`, allocated if it has none.
unfoldable pub place_block : (blk bytes_left blk_off : ℕ) → Option ℕ → Cmd Open ℕ
unfolding need_blocks attach on_mount
place_block blk bytes_left blk_off (some i) (f, m) = (ok (extent_lba f.inode blk i), (f, m))
place_block blk bytes_left blk_off none (f, m) =
    let need = need_blocks bytes_left blk_off in
    (do
      phys_lba ← on_mount (block_alloc need)
      λ (g, m'). attach blk need phys_lba (extent_append blk need phys_lba g.inode) (g, m'))
      (f, m)

-- One round of the loop; the value is the number of bytes that it wrote.
unfoldable pub write_round : (offset len : ℕ) (src : Bytes) (written : ℕ) → Cmd Open ℕ
unfolding place_block on_mount on_io
write_round offset len src written (f, m) =
    let cur_off = add64 offset written in
    let blk = cur_off / block_size in
    let blk_off = cur_off % block_size in
    let to_write = min (block_size - blk_off) (len - written) in
    (do
      phys_lba ← place_block blk (len - written) blk_off (extent_find f.inode blk)
      on_mount (on_io alloc_buf)
      old ←
          if not (blk_off == 0) || ltb to_write block_size
          then on_mount (on_io (io_read phys_lba 1))
          else pure zeros
      on_mount (on_io (io_write phys_lba 1 (copy old blk_off src written to_write)))
      λ (g, m'). (ok to_write, (record g { dirty = true }, m')))
      (f, m)

-- How the loop ended: by its test, or by the return of an error or of the bytes written so far.
pub data Ended : Type 0 where
  finished : ℕ → Ended
  returned : Result ℕ → Ended

abbrev pub partial_result : ℕ → ℕ → Result ℕ
partial_result written e = if ltb 0 written then ok written else err e

-- `fuel` bounds the rounds; each writes a byte at least.
unfoldable pub write_rounds :
    (offset len : ℕ) (src : Bytes) (fuel written : ℕ) → Open → Ended × Open
unfolding write_round
write_rounds offset len src zero written st = (finished written, st)
write_rounds offset len src (suc fuel) written st =
    let (r, st') = write_round offset len src written st in
    let next = λ (k : ℕ). write_rounds offset len src fuel (written + k) st' in
    if ltb written len
    then (elim r [ ok k ↦ next k | err e ↦ (returned (partial_result written e), st') ])
    else (finished written, st)

-- The logical size after the loop.
unfoldable pub grow : (offset written : ℕ) → Bytes → Bytes
grow offset written ino =
    let end = add64 offset written in
    if ltb (load Inode.size_bytes ino) end
    then store Inode.alloc_size_bytes (alloc_size ino extents_per_inode 0)
        (store Inode.size_bytes end ino)
    else ino

-- The inode is written back with its size and time.
unfoldable pub flush_inode : (written : ℕ) → Result Bytes × Mount → File → Result ℕ × Open
flush_inode written (ok ino, m) f = (ok written, (record f { inode = ino; dirty = false }, m))
flush_inode written (err e, m) f = (partial_result written e, (f, m))

unfoldable pub finish_write : (offset : ℕ) → Ended × Open → Result ℕ × Open
unfolding grow flush_inode on_io
finish_write offset (returned r, st) = (r, st)
finish_write offset (finished written, (f, m)) =
    let (t, io) = now_ns m.io in
    let time : ℕ = elim t [ ok n ↦ n | err e ↦ 0 ] in
    let g = record f { inode = store Inode.mtime_ns time (grow offset written f.inode) } in
    flush_inode written (inode_write g.inode (record m { io = io })) g

unfoldable pub file_write : (offset : ℕ) (buf : Bytes) (len : ℕ) → Open → Result ℕ × Open
unfolding write_rounds finish_write
file_write offset buf len (f, m) =
    if bit_and f.flags o_wronly == 0
    then (err ebadf, (f, m))
    else if len == 0
    then (ok 0, (f, m))
    else finish_write offset (write_rounds offset len buf len 0 (f, m))
