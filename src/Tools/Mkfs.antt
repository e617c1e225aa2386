-- ===== src/Tools/Mkfs.antt =====
-- tools/nebula_format.c: the arguments, and the writing of a new file system on an open device.
use mini_fs.Base.{
  ℕ, Bool, true, false, not, ◌&&◌, ◌||◌, Option, none, some, List, [], ◌∷◌, ltb, ◌==◌,
  if◌then◌else◌, Result, ok, err, Cmd, ◌>>=◌, ◌>>◌,
}
use mini_fs.Layout.{DeviceLayout, layout_compute_ex}
use mini_fs.Io.Raw.{Io}
use mini_fs.Io.Posix.{io_flush}
use mini_fs.Io.Open.{Host, io_open}
use mini_fs.Meta.Mbr.{mbr_write}
use mini_fs.Meta.Uberblock.{uberblock_init_region}
use mini_fs.Meta.AllocRoots.{allocator_roots_init}
use mini_fs.Meta.Regions.{bitmap_init, inode_page_init, dir_page_init}
use mini_fs.Meta.Superblock.{superblock_write_both}
use mini_fs.Uuid.{Urandom, uuid_generate, uuid_number}
use mini_fs.Tools.Machine.{Tool, on_io, on_urandom}
use mini_fs.Tools.Args.{parse_size, number_arg, same_text}

-- The options that the loop over the arguments sets.
pub record Options : Type 0 where
  pub path : Option (List ℕ)
  pub size : ℕ
  pub inode_size : ℕ
  pub use_spdk : Bool
  pub verbose : Bool

abbrev pub default_options : Options
default_options = record {
  path = none;
  size = 0;
  inode_size = 4096;
  use_spdk = false;
  verbose = false;
}

abbrev path_text : List ℕ
path_text = b'-' ∷ b'-' ∷ b'p' ∷ b'a' ∷ b't' ∷ b'h' ∷ []

abbrev pub size_text : List ℕ
size_text = b'-' ∷ b'-' ∷ b's' ∷ b'i' ∷ b'z' ∷ b'e' ∷ []

abbrev inode_size_text : List ℕ
inode_size_text =
    b'-' ∷ b'-' ∷ b'i' ∷ b'n' ∷ b'o' ∷ b'd' ∷ b'e' ∷ b'-' ∷ b's' ∷ b'i' ∷ b'z' ∷ b'e' ∷ []

abbrev force_text : List ℕ
force_text = b'-' ∷ b'-' ∷ b'f' ∷ b'o' ∷ b'r' ∷ b'c' ∷ b'e' ∷ []

abbrev spdk_text : List ℕ
spdk_text = b'-' ∷ b'-' ∷ b's' ∷ b'p' ∷ b'd' ∷ b'k' ∷ []

abbrev verbose_text : List ℕ
verbose_text = b'-' ∷ b'-' ∷ b'v' ∷ b'e' ∷ b'r' ∷ b'b' ∷ b'o' ∷ b's' ∷ b'e' ∷ []

abbrev pub help_text : List ℕ
help_text = b'-' ∷ b'-' ∷ b'h' ∷ b'e' ∷ b'l' ∷ b'p' ∷ []

abbrev h_text : List ℕ
h_text = b'-' ∷ b'h' ∷ []

-- What the loop over the arguments comes to: options to run with, or an exit code.
pub data Parsed : Type 0 where
  proceed : Options → Parsed
  stop : ℕ → Parsed

-- The options that take the next argument.
set_size : Result ℕ → Options → Parsed
set_size (ok v) o = proceed (record o { size = v })
set_size (err e) o = stop 2

set_inode_size : ℕ → Options → Parsed
set_inode_size v o =
    if not (v == 4096) && not (v == 8192) then stop 2 else proceed (record o { inode_size = v })

-- An option with its value, if it is one of those that have one.
unfoldable pub valued : (arg value : List ℕ) → Options → Option Parsed
unfolding set_size set_inode_size parse_size number_arg same_text
valued arg value o =
    if same_text arg path_text
    then some (proceed (record o { path = some value }))
    else if same_text arg size_text
    then some (set_size (parse_size value) o)
    else if same_text arg inode_size_text
    then some (set_inode_size (number_arg 10 value) o)
    else none

-- An option that stands alone, or none that is known.
unfoldable pub alone : List ℕ → Options → Parsed
unfolding same_text
alone arg o =
    if same_text arg force_text
    then proceed o
    else if same_text arg spdk_text
    then proceed (record o { use_spdk = true })
    else if same_text arg verbose_text
    then proceed (record o { verbose = true })
    else if same_text arg help_text || same_text arg h_text
    then stop 0
    else stop 2

unfoldable pub parse_args : List (List ℕ) → Options → Parsed
unfolding valued alone
parse_args [] o = proceed o
parse_args (arg ∷ []) o = alone arg o
parse_args (arg ∷ value ∷ rest) o = elim (valued arg value o) [
  | some p ↦ elim p [ proceed o' ↦ parse_args rest o' | stop c ↦ stop c ]
  | none ↦ elim (alone arg o) [ proceed o' ↦ parse_args (value ∷ rest) o' | stop c ↦ stop c ]
]

-- The regions that are written before the superblocks.
unfoldable pub format_regions : ℕ → (capacity : ℕ) → DeviceLayout → Cmd Io (Unit {0})
format_regions device_uuid capacity l = do
  mbr_write device_uuid capacity
  uberblock_init_region l
  allocator_roots_init l
  bitmap_init l
  inode_page_init l
  dir_page_init l

-- "Write everything": the superblocks come last, and then a flush.
unfoldable pub write_everything : ℕ → (capacity : ℕ) → DeviceLayout → Cmd Io (Unit {0})
unfolding format_regions
write_everything device_uuid capacity l = do
  format_regions device_uuid capacity l
  superblock_write_both device_uuid l
  io_flush

-- From the open device on; every error makes the tool exit with 1.
unfoldable pub format_device : (inode_size : ℕ) → Cmd Tool (Unit {0})
unfolding write_everything layout_compute_ex
format_device inode_size t = run (layout_compute_ex t.io.capacity_blocks inode_size)
  where
    run : Result DeviceLayout → Result (Unit {0}) × Tool
    run (err e) = (err e, t)
    run (ok l) =
        (on_urandom uuid_generate >>= λ uuid.
        on_io (write_everything (uuid_number uuid) t.io.capacity_blocks l))
          t

-- The exit code, the host after the opening, and the device and the source of UUIDs if there was one.
abbrev pub Exit : Type 0
Exit = ℕ × Host × Option Tool

exit_code : Result (Unit {0}) → ℕ
exit_code (ok u) = 0
exit_code (err e) = 1

opened : ℕ → Urandom → Result Io × Host → Exit
unfolding format_device exit_code
opened inode_size u (err e, h) = (1, h, none)
opened inode_size u (ok io, h) =
    let (r, t) = format_device inode_size (record { io = io; urandom = u }) in
    (exit_code r, h, some t)

run_options : Options → Host → Urandom → Exit
unfolding opened io_open
run_options o h u = elim o.path [
  | none ↦ (2, h, none)
  | some path ↦
      if o.use_spdk then (1, h, none) else opened o.inode_size u (io_open (ltb 0 o.size) o.size h)
]

run_parsed : Parsed → Host → Urandom → Exit
unfolding run_options
run_parsed (stop code) h u = (code, h, none)
run_parsed (proceed o) h u = run_options o h u

-- The tool built without SPDK, where `h` has the file that the path names.
unfoldable pub format_main : (args : List (List ℕ)) → Host → Urandom → Exit
unfolding run_parsed parse_args
format_main args h u = run_parsed (parse_args args default_options) h u
