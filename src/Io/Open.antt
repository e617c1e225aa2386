-- ===== src/Io/Open.antt =====
-- `nebula_io_open` of src/io/nebula_io_posix.c: a file of the host becomes a device.
use mini_fs.Base.{
  ℕ, ◌/◌, ◌^◌, min, Bool, true, false, ◌&&◌, Option, none, some, List, [], ◌∷◌, ltb, leb,
  if◌then◌else◌, ok, err, Cmd, pure, ◌>>=◌, ◌>>◌, guard, enoent, enomem, einval,
}
use mini_fs.Format.Bytes.{Bytes, zeros}
use mini_fs.Format.Consts.{block_size}
use mini_fs.Io.Raw.{Io, Syscall}

-- The file that a path names: `st_size` and its bytes.
pub record Image : Type 0 where
  pub size : ℕ
  pub content : Bytes

-- The host: the file, if there is one; the errno with which `open`, `ftruncate` and `fstat` fail,
-- if they do; and what the calls on the open device will do.
pub record Host : Type 0 where
  pub image : Option Image
  pub open_fails : Option ℕ
  pub truncate_fails : Option ℕ
  pub stat_fails : Option ℕ
  pub syscalls : List Syscall
  pub allocs : List Bool
  pub clock : List ℕ

-- A call of the host that fails when an errno is given.
unfoldable pub answer : Option ℕ → Cmd Host (Unit {0})
answer none h = (ok tt, h)
answer (some e) h = (err e, h)

-- The file that the path names, made empty where it is to be created.
unfoldable pub found : Option Image → Bool → Cmd Host Image
found (some f) create h = (ok f, h)
found none true h =
    let empty : Image = record { size = 0; content = zeros } in
    (ok empty, record h { image = some empty })
found none false h = (err enoent, h)

-- `open(path, O_RDWR)`, with `O_CREAT` where the file is to be created
unfoldable pub open_file : Bool → Cmd Host Image
unfolding answer found
open_file create = do λ h. answer h.open_fails h; λ h. found h.image create h

-- The file cut off at `size`, or continued by zeros.
unfoldable pub resized : ℕ → Image → Image
resized size f = record {
  size = size;
  content = λ j. if ltb j (min f.size size) then f.content j else 0;
}

-- `ftruncate(fd, size)`, whose `off_t` has no room for 2^63 and above
unfoldable pub truncate_file : ℕ → Image → Cmd Host Image
unfolding answer resized
truncate_file size f = do
  λ h. answer h.truncate_fails h
  guard (ltb size (2 ^ 63)) einval
  λ h. (ok (resized size f), record h { image = some (resized size f) })

-- The device of an open file.
abbrev pub device_of : Image → Host → Io
device_of f h = record {
  capacity_blocks = f.size / block_size;
  disk = f.content;
  syscalls = h.syscalls;
  allocs = h.allocs;
  clock = h.clock;
}

-- `calloc` of the handle
unfoldable pub handle_from : List Bool → Image → Cmd Host Io
handle_from [] f h = (ok (device_of f h), h)
handle_from (true ∷ rest) f h = let h' = record h { allocs = rest } in (ok (device_of f h'), h')
handle_from (false ∷ rest) f h = (err enomem, record h { allocs = rest })

unfoldable pub io_open : (create : Bool) (size_bytes : ℕ) → Cmd Host Io
unfolding open_file truncate_file answer handle_from
io_open create size_bytes = do
  opened ← open_file create
  f ← if create && ltb 0 size_bytes then truncate_file size_bytes opened else pure opened
  λ h. answer h.stat_fails h
  guard (leb block_size f.size) einval
  λ h. handle_from h.allocs f h
