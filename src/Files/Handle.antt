-- ===== src/Files/Handle.antt =====
-- File handles: creating, opening and closing.
use mini_fs.Base.{
  ℕ, bit_and, Bool, false, ◌==◌, if◌then◌else◌, ok, err, Cmd, pure, throw, ◌>>=◌, ◌>>◌, enoent,
  einval,
}
use mini_fs.Format.Bytes.{Bytes, load, store}
use mini_fs.Format.Consts.{type_free, type_file}
use mini_fs.Format.Inode
use mini_fs.State.{Mount, on_io}
use mini_fs.Io.Raw.{alloc_buf, now_ns}
use mini_fs.Inodes.Table.{inode_read, inode_write, inode_alloc}

-- `struct nebula_file`; the mount that it points to is passed beside it.
pub record File : Type 0 where
  pub inode : Bytes
  pub pos : ℕ
  pub flags : ℕ
  pub dirty : Bool

abbrev pub o_rdonly : ℕ
o_rdonly = 1

abbrev pub o_wronly : ℕ
o_wronly = 2

abbrev pub o_rdwr : ℕ
o_rdwr = 3

abbrev pub new_handle : Bytes → ℕ → File
new_handle ino flags = record { inode = ino; pos = 0; flags = flags; dirty = false }

unfoldable pub file_create : (mode : ℕ) → Cmd Mount File
unfolding on_io
file_create mode = do
  on_io alloc_buf
  inum ← inode_alloc type_file mode
  ino ← inode_read inum
  pure (new_handle ino o_rdwr)

unfoldable pub file_open : (inode_num flags : ℕ) → Cmd Mount File
unfolding on_io
file_open inode_num flags m =
    if bit_and flags o_rdwr == 0
    then (err einval, m)
    else (do
      on_io alloc_buf
      ino ← inode_read inode_num
      if load Inode.type ino == type_free then throw enoent else pure (new_handle ino flags))
        m

unfoldable pub file_close : File → Cmd Mount (Unit {0})
unfolding on_io
file_close f m =
    if f.dirty
    then (do t ← on_io now_ns; _ ← inode_write (store Inode.mtime_ns t f.inode); pure tt) m
    else (ok tt, m)
