-- ===== src/Fs.antt =====
-- src/nebula/nebula_fs.c: the public operations, on a mounted device.
use mini_fs.Base.{ℕ, zero, suc, [], ◌∷◌, Result, ok, err, Cmd, ◌>>=◌, ◌>>◌}
use mini_fs.Format.Bytes.{Bytes, load}
use mini_fs.Format.Consts.{flag_file}
use mini_fs.Format.Superblock
use mini_fs.Format.Inode
use mini_fs.State.{Mount}
use mini_fs.Dirs.Entry.{Name}
use mini_fs.Dirs.Ops.{dir_add, dir_lookup, dir_remove, dir_list}
use mini_fs.Files.Handle.{File, file_create, file_open, file_close, o_rdwr}
use mini_fs.Files.Write.{Open, file_write}
use mini_fs.Files.ReadDelete.{file_read, file_delete}

-- What follows `nebula_dir_add` of a new file: its inode goes again if the name was refused.
unfoldable pub settle_created : File → Result (Unit {0}) × Mount → Result File × Mount
settle_created f (ok _, m) = (ok f, m)
settle_created f (err e, m) = (err e, (file_delete (f, m)).1)

unfoldable pub fs_create : Name → (mode : ℕ) → Cmd Mount File
unfolding settle_created
fs_create name mode = do
  f ← file_create mode
  λ m. settle_created f (dir_add name (load Inode.inode_num f.inode) flag_file m)

unfoldable pub fs_open : Name → (flags : ℕ) → Cmd Mount File
fs_open name flags = do inum ← dir_lookup name; file_open inum flags

unfoldable pub fs_write : (offset : ℕ) (buf : Bytes) (len : ℕ) → Open → Result ℕ × Open
fs_write = file_write

unfoldable pub fs_read : (offset : ℕ) (buf : Bytes) (len : ℕ) → Open → (Result ℕ × Bytes) × Open
fs_read = file_read

unfoldable pub fs_file_size : File → ℕ
fs_file_size fh = load Inode.size_bytes fh.inode

unfoldable pub fs_close : File → Cmd Mount (Unit {0})
fs_close = file_close

unfoldable pub fs_delete : Name → Cmd Mount (Unit {0})
fs_delete name = do
  inum ← dir_lookup name
  dir_remove name
  f ← file_open inum o_rdwr
  λ m. file_delete (f, m)

unfoldable pub fs_lookup : Name → Cmd Mount ℕ
fs_lookup = dir_lookup

-- The total and the free blocks.
unfoldable pub fs_statvfs : Mount → ℕ × ℕ
fs_statvfs fs = (load Superblock.device_capacity_blocks fs.sb, fs.bitmap.l2_total_free)

-- The buffer of `struct nebula_fs_dirent` holds 1000 characters of a name.
unfoldable pub take_name : ℕ → Name → Name
take_name zero name = []
take_name (suc n) [] = []
take_name (suc n) (c ∷ name) = c ∷ take_name n name

unfoldable pub fs_readdir :
    {Ud : Type 0} → (Name → (inode_num flags : ℕ) → Ud → ℕ × Ud) → Ud → Cmd Mount (ℕ × Ud)
unfolding take_name
fs_readdir cb = dir_list (λ name inode_num flags ud. cb (take_name 1000 name) inode_num flags ud)
