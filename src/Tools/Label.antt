-- ===== src/Tools/Label.antt =====
-- tools/nebula_label.c: the arguments, and the commands `read` and `write`.
use mini_fs.Base.{
  ℕ, false, Option, none, some, List, [], ◌∷◌, ltb, if◌then◌else◌, Result, ok, err, Cmd, pure,
  ◌>>=◌, ◌>>◌,
}
use mini_fs.Format.Bytes.{Bytes, store, load}
use mini_fs.Format.Consts.{block_size}
use mini_fs.Format.Crc.{seal}
use mini_fs.Format.Superblock
use mini_fs.Io.Raw.{Io}
use mini_fs.Io.Posix.{io_write, io_flush}
use mini_fs.Io.Open.{Host, io_open}
use mini_fs.Meta.Mbr.{mbr_write, mbr_read}
use mini_fs.Meta.Superblock.{superblock_read}
use mini_fs.Uuid.{Urandom, uuid_generate, uuid_number}
use mini_fs.Tools.Machine.{Tool, on_io, on_urandom, exit_on, or_exit}
use mini_fs.Tools.Args.{parse_uuid, number_arg, same_text}

abbrev auto_text : List ℕ
auto_text = b'a' ∷ b'u' ∷ b't' ∷ b'o' ∷ []

-- The UUID of the arguments: a generated one, or one that is written out.
label_uuid : Option (List ℕ) → Cmd Tool Bytes
unfolding uuid_generate parse_uuid same_text
label_uuid none = or_exit 1 (on_urandom uuid_generate)
label_uuid (some s) = if same_text s auto_text then or_exit 1 (on_urandom uuid_generate) else λ t.
    (exit_on 2 (parse_uuid s), t)

-- A superblock with another UUID and a fresh checksum.
relabelled : ℕ → Bytes → Bytes
relabelled device_uuid sb =
    seal Superblock.checksum block_size
      (store Superblock.checksum 0 (store Superblock.device_uuid device_uuid sb))

-- Both copies are written, also where the first write fails.
write_copies : Bytes → Cmd Io (Unit {0})
write_copies sb io =
    let (w1, io1) = io_write 1 1 sb io in
    let (w2, io2) = io_write (load Superblock.sb_tail_lba sb) 1 sb io1 in (both w1 w2, io2)
  where
    both : Result (Unit {0}) → Result (Unit {0}) → Result (Unit {0})
    both (ok u) w = w
    both (err e) w = err e

-- The superblocks follow the MBR where the head copy is valid.
sync_superblocks : ℕ → Cmd Io (Unit {0})
unfolding relabelled write_copies superblock_read
sync_superblocks device_uuid io = next (superblock_read 1 io)
  where
    next : Result Bytes × Io → Result (Unit {0}) × Io
    next (ok sb, io') = write_copies (relabelled device_uuid sb) io'
    next (err e, io') = (ok tt, io')

-- `(void)nebula_io_flush(io)`
abbrev flush_anyway : Cmd Io (Unit {0})
flush_anyway io = let (r, io') = io_flush io in (ok tt, io')

-- `cmd_write` from the open device on, which ends with the UUID and the capacity it prints.
unfoldable pub label_write : Option (List ℕ) → (capacity_override : ℕ) → Cmd Tool (Bytes × ℕ)
unfolding label_uuid sync_superblocks
label_write uuid_arg capacity_override t =
    let cap = if ltb 0 capacity_override then capacity_override else t.io.capacity_blocks in
    (do
      uuid ← label_uuid uuid_arg
      or_exit 1 (on_io (mbr_write (uuid_number uuid) cap))
      or_exit 1 (on_io (sync_superblocks (uuid_number uuid)))
      on_io flush_anyway
      pure (uuid, cap))
      t

-- `cmd_read` from the open device on, which ends with the MBR it prints.
unfoldable pub label_read : Cmd Tool Bytes
unfolding mbr_read
label_read = or_exit 1 (on_io mbr_read)

abbrev pub path_text : List ℕ
path_text = b'-' ∷ b'-' ∷ b'p' ∷ b'a' ∷ b't' ∷ b'h' ∷ []

abbrev uuid_text : List ℕ
uuid_text = b'-' ∷ b'-' ∷ b'u' ∷ b'u' ∷ b'i' ∷ b'd' ∷ []

abbrev capacity_text : List ℕ
capacity_text =
    b'-' ∷ b'-' ∷ b'c' ∷ b'a' ∷ b'p' ∷ b'a' ∷ b'c' ∷ b'i' ∷ b't' ∷ b'y' ∷ b'-' ∷ b'b' ∷ b'l' ∷ b'o'
    ∷ b'c' ∷ b'k' ∷ b's' ∷ []

abbrev read_text : List ℕ
read_text = b'r' ∷ b'e' ∷ b'a' ∷ b'd' ∷ []

abbrev pub write_text : List ℕ
write_text = b'w' ∷ b'r' ∷ b'i' ∷ b't' ∷ b'e' ∷ []

pub record Options : Type 0 where
  pub path : Option (List ℕ)
  pub uuid : Option (List ℕ)
  pub cap : ℕ

valued : (arg value : List ℕ) → Options → Option Options
unfolding same_text number_arg
valued arg value o =
    if same_text arg path_text
    then some (record o { path = some value })
    else if same_text arg uuid_text
    then some (record o { uuid = some value })
    else if same_text arg capacity_text
    then some (record o { cap = number_arg 10 value })
    else none

-- The loop over the arguments behind the command; every option takes a value.
label_args : List (List ℕ) → Options → Option Options
unfolding valued
label_args [] o = some o
label_args (arg ∷ []) o = none
label_args (arg ∷ value ∷ rest) o = elim (valued arg value o) [
  | none ↦ none
  | some o' ↦ label_args rest o'
]

-- The exit code, the host after the opening, and the tool after the command if a device was opened.
abbrev pub Exit : Type 0
Exit = ℕ × Host × Option Tool

exit_code : {A : Type 0} → Result A → ℕ
exit_code (ok a) = 0
exit_code (err e) = e

with_device : {A : Type 0} → Cmd Tool A → Urandom → Result Io × Host → Exit
unfolding exit_code
with_device m u (err e, h) = (1, h, none)
with_device m u (ok io, h) =
    let (r, t) = m (record { io = io; urandom = u }) in (exit_code r, h, some t)

run_command : (sub : List ℕ) → Option Options → Host → Urandom → Exit
unfolding with_device label_read label_write io_open same_text
run_command sub none h u = (2, h, none)
run_command sub (some o) h u = elim o.path [
  | none ↦ (2, h, none)
  | some path ↦
      if same_text sub read_text
      then with_device label_read u (io_open false 0 h)
      else if same_text sub write_text
      then with_device (label_write o.uuid o.cap) u (io_open false 0 h)
      else (2, h, none)
]

unfoldable pub label_main : List (List ℕ) → Host → Urandom → Exit
unfolding run_command label_args
label_main [] h u = (2, h, none)
label_main (sub ∷ args) h u =
    run_command sub (label_args args (record { path = none; uuid = none; cap = 0 })) h u
