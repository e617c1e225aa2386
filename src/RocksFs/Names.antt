-- ===== src/RocksFs/Names.antt =====
-- `NebulaFileSystem` of src/rocksdb/nebula_rocksdb_fs.cc: the calls that take a name. The names are
-- flat: a path stands for what follows its last slash. The lock is left out.
use mini_fs.Base.{
  ℕ, bit_and, false, not, some, List, [], ◌∷◌, ◌++◌, ◌==◌, if◌then◌else◌, Result, ok, err,
}
use mini_fs.Format.Bytes.{Bytes, zeros}
use mini_fs.Format.Consts.{flag_dir}
use mini_fs.State.{Mount}
use mini_fs.Dirs.Entry.{Name}
use mini_fs.Files.Handle.{File, o_rdonly, o_rdwr}
use mini_fs.Fs.{
  fs_create, fs_open, fs_read, fs_write, fs_file_size, fs_close, fs_delete, fs_lookup, fs_readdir,
}
use mini_fs.RocksFs.Answer.{
  not_found, Answer, answered, refused, answer_of, transferred, Call, give, call, ignore, ◌>>=◌,
  ◌>>◌,
}
use mini_fs.RocksFs.Handles.{SequentialFile, WritableFile}

-- Everything up to and including the last slash is stripped; `kept` is what follows the last so far.
unfoldable pub base_from : (kept : Name) → Name → Name
base_from kept [] = kept
base_from kept (c ∷ rest) = base_from (if c == b'/' then [] else kept ++ (c ∷ [])) rest

unfoldable pub basename : Name → Name
unfolding base_from
basename path = base_from [] path

unfoldable pub new_sequential_file : Name → Call Mount SequentialFile
unfolding basename answer_of
new_sequential_file fname = do
  fh ← call (fs_open (basename fname) o_rdonly)
  give (record { fh = fh; pos = 0; size = fs_file_size fh })

unfoldable pub new_random_access_file : Name → Call Mount File
unfolding basename answer_of
new_random_access_file fname = call (fs_open (basename fname) o_rdonly)

-- An existing file is deleted first, and how that went is not looked at.
unfoldable pub new_writable_file : Name → Call Mount WritableFile
unfolding basename answer_of
new_writable_file fname = do
  ignore (fs_delete (basename fname))
  fh ← call (fs_create (basename fname) 420)
  give (record { fh = some fh; pos = 0; closed = false })

unfoldable pub reopen_writable_file : Name → Call Mount WritableFile
unfolding basename answer_of
reopen_writable_file fname = do
  fh ← call (fs_open (basename fname) o_rdwr)
  give (record { fh = some fh; pos = fs_file_size fh; closed = false })

abbrev existence : Result ℕ → Answer (Unit {0})
existence (ok inum) = answered tt
existence (err e) = refused not_found

unfoldable pub file_exists : Name → Call Mount (Unit {0})
unfolding basename
file_exists fname m = let (r, m') = fs_lookup (basename fname) m in (existence r, m')

-- `list_cb`: directories are passed over.
unfoldable pub list_cb : Name → (inode_num flags : ℕ) → List Name → ℕ × List Name
list_cb name inode_num flags names =
    (0, if not (bit_and flags flag_dir == 0) then names else names ++ (name ∷ []))

unfoldable pub get_children : Call Mount (List Name)
unfolding list_cb answer_of fs_readdir
get_children = do listed ← call (fs_readdir list_cb []); give listed.1

unfoldable pub delete_file : Name → Call Mount (Unit {0})
unfolding basename answer_of
delete_file fname = call (fs_delete (basename fname))

unfoldable pub get_file_size : Name → Call Mount ℕ
unfolding basename answer_of
get_file_size fname = do
  fh ← call (fs_open (basename fname) o_rdonly)
  ignore (fs_close fh)
  give (fs_file_size fh)

-- The read of a rename, where there is anything to read: a failure ends the rename, and a count that
-- is too small does not. The handle is closed either way.
unfoldable pub read_whole : File → Call Mount Bytes
unfolding transferred
read_whole rfh m =
    let sz = fs_file_size rfh in
    let ((r, b), (rfh', m')) = fs_read 0 zeros sz (rfh, m) in
    if sz == 0
    then (do ignore (fs_close rfh); give zeros) m
    else (do ignore (fs_close rfh'); _ ← λ s. (transferred r, s); give b) m'

unfoldable pub write_whole : (sz : ℕ) → Bytes → File → Call Mount (Unit {0})
unfolding transferred
write_whole sz b wfh m =
    let (r, (wfh', m')) = fs_write 0 b sz (wfh, m) in
    if sz == 0
    then ignore (fs_close wfh) m
    else (do ignore (fs_close wfh'); _ ← λ s. (transferred r, s); give tt) m'

-- The contents are read, both names are deleted, and a new file is written.
unfoldable pub rename_file : (src target : Name) → Call Mount (Unit {0})
unfolding basename answer_of read_whole write_whole
rename_file src target =
    let sname = basename src in
    let tname = basename target in
    (do
      _ ← call (fs_lookup sname)
      rfh ← call (fs_open sname o_rdonly)
      b ← read_whole rfh
      call (fs_delete sname)
      ignore (fs_delete tname)
      wfh ← call (fs_create tname 420)
      write_whole (fs_file_size rfh) b wfh)
