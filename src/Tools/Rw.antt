-- ===== src/Tools/Rw.antt =====
-- tools/nebula_rw.c: the commands on a mounted device. What a command prints is its value, and an
-- error is the exit code.
use mini_fs.Base.{
  ℕ, zero, suc, bit_and, Bool, not, Option, none, some, List, [], ◌∷◌, ltb, ◌==◌, if◌then◌else◌,
  length, u32, Result, ok, err, Cmd, pure, throw, ◌>>=◌, ◌>>◌,
}
use mini_fs.Format.Bytes.{Bytes, zeros, load}
use mini_fs.Format.Consts.{flag_file, flag_dir}
use mini_fs.Format.Inode
use mini_fs.State.{Mount, on_io}
use mini_fs.Io.Raw.{Io, alloc_buf}
use mini_fs.Mounting.Open.{mount_open_io}
use mini_fs.Dirs.Entry.{Name}
use mini_fs.Dirs.Ops.{dir_add, dir_lookup, dir_remove, dir_list}
use mini_fs.Files.Handle.{File, file_create, file_open, file_close, o_rdonly, o_rdwr}
use mini_fs.Files.Write.{file_write}
use mini_fs.Files.ReadDelete.{file_read, file_delete}
use mini_fs.Tools.Machine.{exit_on, or_exit}
use mini_fs.Tools.Args.{number_arg, same_text}

abbrev Args : Type 0
Args = List (List ℕ)

-- `nebula_file_close`, whose answer is not looked at
abbrev closing : File → Cmd Mount (Unit {0})
closing f m = let (r, m') = file_close f m in (ok tt, m')

-- The name, the inode and the mode.
create_file : Name → (mode : ℕ) → Cmd Mount (Name × ℕ × ℕ)
create_file name mode = do
  f ← or_exit 1 (file_create mode)
  closing f
  or_exit 1 (dir_add name (load Inode.inode_num f.inode) flag_file)
  pure (name, load Inode.inode_num f.inode, mode)

-- The mode is read as an octal number, 0644 where there is none.
cmd_create : Args → Cmd Mount (Name × ℕ × ℕ)
unfolding create_file number_arg
cmd_create [] = throw 1
cmd_create (name ∷ []) = create_file name 0o644
cmd_create (name ∷ mode ∷ rest) = create_file name (u32 (number_arg 8 mode))

-- A string as a buffer.
unfoldable pub buffer_of : List ℕ → Bytes
buffer_of [] i = 0
buffer_of (c ∷ s) zero = c
buffer_of (c ∷ s) (suc i) = buffer_of s i

-- The file is closed whether the write went well or not.
write_and_close : (text : List ℕ) → File → Cmd Mount ℕ
unfolding buffer_of
write_and_close text f m =
    let (n, (f', m')) = file_write 0 (buffer_of text) (length text) (f, m) in
    let (r, m'') = closing f' m' in (exit_on 1 n, m'')

-- The number of bytes written.
unfoldable pub cmd_write : Args → Cmd Mount ℕ
unfolding write_and_close number_arg
cmd_write [] = throw 1
cmd_write (inum ∷ []) = throw 1
cmd_write (inum ∷ text ∷ rest) = do
  f ← or_exit 1 (file_open (number_arg 10 inum) o_rdwr)
  write_and_close text f

-- The bytes that a read delivers, if it goes well; a read that fails is reported, but is no error.
content_of : Result ℕ × Bytes → Option (ℕ × Bytes)
content_of (ok n, buf) = some (n, buf)
content_of (err e, buf) = none

abbrev Shown : Type 0
Shown = Result (ℕ × Option (ℕ × Bytes)) × Mount

-- The size, and the content of a file that is not empty.
show_file : File → Cmd Mount (ℕ × Option (ℕ × Bytes))
unfolding content_of
show_file f m =
    let size = load Inode.size_bytes f.inode in
    let (a, m1) = on_io alloc_buf m in
    let (out, (f', m2)) = file_read 0 zeros size (f, m1) in
    let shown : Shown = (ok (size, content_of out), (closing f' m2).1) in
    let refused : Shown = (err 1, (closing f m1).1) in
    let empty : Shown = (ok (size, none), (closing f m).1) in
    if ltb 0 size then elim a [ ok u ↦ shown | err e ↦ refused ] else empty

unfoldable pub cmd_read : Args → Cmd Mount (ℕ × Option (ℕ × Bytes))
unfolding show_file number_arg
cmd_read [] = throw 1
cmd_read (inum ∷ rest) = do f ← or_exit 1 (file_open (number_arg 10 inum) o_rdonly); show_file f

cmd_delete : Args → Cmd Mount (Unit {0})
unfolding number_arg
cmd_delete [] = throw 1
cmd_delete (inum ∷ rest) = do
  f ← or_exit 1 (file_open (number_arg 10 inum) o_rdwr)
  or_exit 1 (λ m. file_delete (f, m))

abbrev dir_text : List ℕ
dir_text = b'd' ∷ b'i' ∷ b'r' ∷ []

cmd_diradd : Args → Cmd Mount (Unit {0})
unfolding number_arg same_text
cmd_diradd (name ∷ inum ∷ kind ∷ rest) =
    or_exit 1
      (dir_add name (number_arg 10 inum) (if same_text kind dir_text then flag_dir else flag_file))
cmd_diradd args = throw 1

cmd_dirlook : Args → Cmd Mount ℕ
cmd_dirlook [] = throw 1
cmd_dirlook (name ∷ rest) = or_exit 1 (dir_lookup name)

cmd_dirrm : Args → Cmd Mount (Unit {0})
cmd_dirrm [] = throw 1
cmd_dirrm (name ∷ rest) = or_exit 1 (dir_remove name)

-- A line of the listing: whether it is a directory, the inode and the name, the last line first.
abbrev Lines : Type 0
Lines = List (Bool × ℕ × Name)

unfoldable pub list_cb : Name → (inode_num flags : ℕ) → Lines → ℕ × Lines
list_cb name inode_num flags lines =
    (0, (not (bit_and flags flag_dir == 0), inode_num, name) ∷ lines)

cmd_dirlist : Cmd Mount (ℕ × Lines)
unfolding list_cb
cmd_dirlist = or_exit 1 (dir_list list_cb [])

abbrev create_text : List ℕ
create_text = b'c' ∷ b'r' ∷ b'e' ∷ b'a' ∷ b't' ∷ b'e' ∷ []

abbrev write_text : List ℕ
write_text = b'w' ∷ b'r' ∷ b'i' ∷ b't' ∷ b'e' ∷ []

abbrev read_text : List ℕ
read_text = b'r' ∷ b'e' ∷ b'a' ∷ b'd' ∷ []

abbrev delete_text : List ℕ
delete_text = b'd' ∷ b'e' ∷ b'l' ∷ b'e' ∷ b't' ∷ b'e' ∷ []

abbrev diradd_text : List ℕ
diradd_text = b'd' ∷ b'i' ∷ b'r' ∷ b'a' ∷ b'd' ∷ b'd' ∷ []

abbrev dirlook_text : List ℕ
dirlook_text = b'd' ∷ b'i' ∷ b'r' ∷ b'l' ∷ b'o' ∷ b'o' ∷ b'k' ∷ []

abbrev dirrm_text : List ℕ
dirrm_text = b'd' ∷ b'i' ∷ b'r' ∷ b'r' ∷ b'm' ∷ []

abbrev dirlist_text : List ℕ
dirlist_text = b'd' ∷ b'i' ∷ b'r' ∷ b'l' ∷ b'i' ∷ b's' ∷ b't' ∷ []

abbrev exit_code : {A : Type 0} → Result A → ℕ
exit_code (ok a) = 0
exit_code (err e) = e

-- The exit code of a command, and the mount after it.
code_of : {A : Type 0} → Cmd Mount A → Mount → ℕ × Mount
code_of m s = let (r, s') = m s in (exit_code r, s')

unfoldable pub run_command : (subcmd : List ℕ) → Args → Mount → ℕ × Mount
unfolding code_of same_text cmd_create cmd_write cmd_read cmd_delete cmd_diradd cmd_dirlook
    cmd_dirrm cmd_dirlist
run_command subcmd args m =
    if same_text subcmd create_text
    then code_of (cmd_create args) m
    else if same_text subcmd write_text
    then code_of (cmd_write args) m
    else if same_text subcmd read_text
    then code_of (cmd_read args) m
    else if same_text subcmd delete_text
    then code_of (cmd_delete args) m
    else if same_text subcmd diradd_text
    then code_of (cmd_diradd args) m
    else if same_text subcmd dirlook_text
    then code_of (cmd_dirlook args) m
    else if same_text subcmd dirrm_text
    then code_of (cmd_dirrm args) m
    else if same_text subcmd dirlist_text
    then code_of cmd_dirlist m
    else (1, m)

-- What follows the mount: a device that does not mount makes the tool exit with 1.
run_mounted : (subcmd : List ℕ) → Args → Result Mount × Io → ℕ × Option Mount
unfolding run_command
run_mounted subcmd args (err e, io) = (1, none)
run_mounted subcmd args (ok m, io) = let (code, m') = run_command subcmd args m in (code, some m')

-- The command and its arguments, on the device that the second argument names.
unfoldable pub rw_main : Args → Io → ℕ × Option Mount
unfolding run_mounted
rw_main (subcmd ∷ device ∷ args) io = run_mounted subcmd args (mount_open_io io)
rw_main args io = (1, none)
