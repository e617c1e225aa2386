-- ===== src/RocksFs/Handles.antt =====
-- The three kinds of file handles of src/rocksdb/nebula_rocksdb_fs.cc. A handle's calls act on the
-- handle and the mount.
use mini_fs.Base.{
  ℕ, ◌-◌, min, Bool, true, Option, none, some, leb, if◌then◌else◌, add64, Result, ok, err,
}
use mini_fs.Format.Bytes.{Bytes}
use mini_fs.State.{Mount}
use mini_fs.Files.Handle.{File}
use mini_fs.Fs.{fs_read, fs_write, fs_file_size, fs_close}
use mini_fs.RocksFs.Answer.{io_error, Answer, answered, refused, answer_of, transferred, Call}

-- `NebulaSequentialFile`
pub record SequentialFile : Type 0 where
  pub fh : File
  pub pos : ℕ
  pub size : ℕ

-- `NebulaWritableFile`; the handle is NULL once it is closed.
pub record WritableFile : Type 0 where
  pub fh : Option File
  pub pos : ℕ
  pub closed : Bool

-- What is left of a handle after a transfer, and the cursor moved by what was transferred.
unfoldable pub moved_by : Result ℕ → ℕ → ℕ
moved_by (ok got) pos = add64 pos got
moved_by (err e) pos = pos

-- The bytes read, with their number.
unfoldable pub with_bytes : Answer ℕ → Bytes → Answer (ℕ × Bytes)
with_bytes (answered n) b = answered (n, b)
with_bytes (refused e) b = refused e

unfoldable pub sequential_read :
    (n : ℕ) (scratch : Bytes) → Call (SequentialFile × Mount) (ℕ × Bytes)
unfolding with_bytes moved_by transferred
sequential_read n scratch (sf, m) =
    if leb sf.size sf.pos
    then (answered (0, scratch), (sf, m))
    else (let ((r, b), (fh', m')) = fs_read sf.pos scratch (min n (sf.size - sf.pos)) (sf.fh, m) in
        (with_bytes (transferred r) b, (record sf { fh = fh'; pos = moved_by r sf.pos }, m')))

unfoldable pub sequential_skip : (n : ℕ) → SequentialFile → SequentialFile
sequential_skip n sf = record sf { pos = min (add64 sf.pos n) sf.size }

-- `NebulaRandomAccessFile::Read`
unfoldable pub random_read : (offset n : ℕ) (scratch : Bytes) → Call (File × Mount) (ℕ × Bytes)
unfolding with_bytes transferred
random_read offset n scratch (fh, m) =
    let sz = fs_file_size fh in
    if leb sz offset
    then (answered (0, scratch), (fh, m))
    else (let ((r, b), st) = fs_read offset scratch (min n (sz - offset)) (fh, m) in
        (with_bytes (transferred r) b, st))

-- The status of an append says only whether the write failed.
unfoldable pub status_of : Answer ℕ → Answer (Unit {0})
status_of (answered n) = answered tt
status_of (refused e) = refused e

append_to : Option File → (data_bytes : Bytes) (len : ℕ) → Call (WritableFile × Mount) (Unit {0})
unfolding status_of moved_by transferred
append_to none data_bytes len (wf, m) = (refused io_error, (wf, m))
append_to (some fh) data_bytes len (wf, m) =
    let (r, (fh', m')) = fs_write wf.pos data_bytes len (fh, m) in
    (status_of (transferred r), (record wf { fh = some fh'; pos = moved_by r wf.pos }, m'))

-- `NebulaWritableFile::Append`
unfoldable pub append_bytes :
    (data_bytes : Bytes) (len : ℕ) → Call (WritableFile × Mount) (Unit {0})
unfolding append_to
append_bytes data_bytes len (wf, m) =
    if wf.closed then (refused io_error, (wf, m)) else append_to wf.fh data_bytes len (wf, m)

-- `Flush` and `Sync`
unfoldable pub sync_file : Call (WritableFile × Mount) (Unit {0})
sync_file st = (answered tt, st)

close_handle : Option File → Call (WritableFile × Mount) (Unit {0})
unfolding answer_of
close_handle none (wf, m) = (answered tt, (wf, m))
close_handle (some fh) (wf, m) =
    let (r, m') = fs_close fh m in (answer_of r, (record wf { fh = none; closed = true }, m'))

unfoldable pub close_file : Call (WritableFile × Mount) (Unit {0})
unfolding close_handle
close_file (wf, m) = if wf.closed then (answered tt, (wf, m)) else close_handle wf.fh (wf, m)
