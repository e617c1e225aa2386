-- ===== src/Inodes/Table.antt =====
-- Reading, writing, allocating and freeing inodes.
use mini_fs.Base.{
  ℕ, zero, suc, ◌+◌, ◌-◌, not, ◌&&◌, leb, ◌==◌, if◌then◌else◌, add64, Result, ok, err, Cmd, pure,
  throw, ◌>>=◌, ◌>>◌, eio, einval, enospc,
}
use mini_fs.Format.Bytes.{Bytes, zeros, load}
use mini_fs.Format.Consts.{block_size, type_free, type_file, type_dir}
use mini_fs.Format.Crc.{checksum_of, seal}
use mini_fs.Format.Superblock
use mini_fs.Format.Inode
use mini_fs.Meta.Regions.{fresh_inode}
use mini_fs.State.{Mount, on_io}
use mini_fs.Io.Raw.{alloc_buf, now_ns}
use mini_fs.Io.Posix.{io_read, io_write}

abbrev pub inode_lba : Mount → ℕ → ℕ
inode_lba m inode_num = add64 (load Superblock.inode_page_lba m.sb) inode_num

abbrev pub inode_count : Mount → ℕ
inode_count m = load Superblock.inode_page_block_count m.sb

-- A free slot is not checked; a used one must carry its checksum.
unfoldable pub check_inode : Bytes → Result Bytes
check_inode buf =
    if load Inode.type buf == type_free
    then ok buf
    else if load Inode.checksum buf == checksum_of Inode.checksum block_size buf
    then ok buf
    else err eio

unfoldable pub lift : {A : Type 0} → Result A → Cmd Mount A
lift r m = (r, m)

unfoldable pub inode_read : ℕ → Cmd Mount Bytes
unfolding on_io check_inode lift
inode_read inode_num m =
    if leb (inode_count m) inode_num
    then (err einval, m)
    else (do
      on_io alloc_buf
      buf ← on_io (io_read (inode_lba m inode_num) 1)
      lift (check_inode buf))
        m

-- The value is the inode with its new checksum, as the caller's copy then has it.
unfoldable pub inode_write : Bytes → Cmd Mount Bytes
unfolding on_io
inode_write ino m =
    if leb (inode_count m) (load Inode.inode_num ino)
    then (err einval, m)
    else (do
      on_io alloc_buf
      on_io
          (io_write (inode_lba m (load Inode.inode_num ino)) 1 (seal Inode.checksum block_size ino))
      pure (seal Inode.checksum block_size ino))
        m

-- Initialise slot `n`, which was found free, and write it.
unfoldable pub take_inode : (type mode n : ℕ) → Cmd Mount ℕ
unfolding on_io
take_inode type mode n m =
    (do t ← on_io now_ns; on_io (io_write (inode_lba m n) 1 (fresh_inode n type mode t)); pure n) m

-- The scan: `rounds` slots are left from slot `n` on.
unfoldable pub scan_inodes : (type mode rounds n : ℕ) → Cmd Mount ℕ
unfolding on_io take_inode
scan_inodes type mode zero n m = (err enospc, m)
scan_inodes type mode (suc rounds) n m =
    let next = scan_inodes type mode rounds (n + 1) in
    (do
      buf ← on_io (io_read (inode_lba m n) 1)
      if load Inode.type buf == type_free then take_inode type mode n else next)
      m

unfoldable pub inode_alloc : (type mode : ℕ) → Cmd Mount ℕ
unfolding on_io scan_inodes
inode_alloc type mode m =
    if not (type == type_file) && not (type == type_dir)
    then (err einval, m)
    else (do on_io alloc_buf; scan_inodes type mode (inode_count m - 1) 1) m

unfoldable pub inode_free : ℕ → Cmd Mount (Unit {0})
unfolding on_io
inode_free inode_num m =
    if inode_num == 0
    then (err einval, m)
    else if leb (inode_count m) inode_num
    then (err einval, m)
    else (do
      on_io alloc_buf
      buf ← on_io (io_read (inode_lba m inode_num) 1)
      if load Inode.type buf == type_free
          then throw einval
          else on_io (io_write (inode_lba m inode_num) 1 zeros))
        m
