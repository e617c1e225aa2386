-- ===== src/Tests/NewSystem.antt =====
-- A mkfs of a blank device of 256 MiB, the opening of a file, and the text of a UUID.
use mini_fs.Base.{
  ℕ, ◌*◌, ◌/◌, ◌^◌, ◌<◌, ◌≡◌, refl, true, none, some, [], ◌∷◌, arith, Result, ok, err, eintr,
  einval,
}
use mini_fs.Format.Bytes.{Bytes, at, zeros, put, copy}
use mini_fs.Io.Raw.{Io}
use mini_fs.Io.Open.{Image, Host, io_open}
use mini_fs.Io.OpenLaws.{Opened, io_open-Opened}
use mini_fs.Base.Hoare.{Yields}
use mini_fs.Meta.Keeps.{Keeps}
use mini_fs.Meta.Works.{Fine}
use mini_fs.Uuid.{Urandom, uuid_format, uuid_generate, drew, refused}
use mini_fs.Tools.Label.{label_main, write_text, path_text}
use mini_fs.Tools.Rw.{rw_main}
use mini_fs.Uuid.RoundTrip.{parse_uuid-uuid_format}
use mini_fs.Tools.Args.{parse_uuid, parse_size}
use mini_fs.Tools.Mkfs.{help_text, size_text, format_main, format_regions, write_everything}
use mini_fs.Tools.MkfsLaws.{Unpublished}
use mini_fs.Tools.MkfsClaims.{Formats, format_regions-Keeps, write_everything-Formats}
use mini_fs.Tools.MkfsRuns.{write_everything-Fine}
use mini_fs.Tools.Published.{Publishes, superblock_read-write_everything}
use mini_fs.Tests.Regions.{small_layout, small_layout_is}

abbrev blank : Io
blank = record { capacity_blocks = 65536; disk = zeros; syscalls = []; allocs = []; clock = [] }

format_regions-Keeps_example :
    Keeps (Unpublished small_layout) blank (format_regions 7 65536 small_layout blank).1
format_regions-Keeps_example =
    format_regions-Keeps 7 4096 small_layout blank (omega arith) small_layout_is

write_everything-Formats_example :
    Formats 7 small_layout blank (write_everything 7 65536 small_layout blank)
write_everything-Formats_example =
    write_everything-Formats 7 4096 small_layout blank (omega arith) small_layout_is

write_everything-Fine_example : Fine 65536 (write_everything 7 65536 small_layout blank)
write_everything-Fine_example =
    write_everything-Fine 7 4096 small_layout blank (omega arith) small_layout_is (refl, refl, refl)

formatted-Fine : Fine 65536 (write_everything 7 65536 small_layout blank)
formatted-Fine =
    write_everything-Fine 7 4096 small_layout blank (omega arith) small_layout_is (refl, refl, refl)

abbrev formatted : Io
formatted = (write_everything 7 65536 small_layout blank).1

success_of :
    (o : Result (Unit {0}) × Io)
    → Fine 65536 o
    → (o ≡ (ok tt, o.1)) × (o.1.syscalls ≡ []) × (o.1.allocs ≡ [])
success_of (ok u, io) q = (refl, q.0, q.1)
success_of (err e, io) q = absurd q

formatted_well :
    (write_everything 7 65536 small_layout blank ≡ (ok tt, formatted))
    × (formatted.syscalls ≡ [])
    × (formatted.allocs ≡ [])
formatted_well = success_of (write_everything 7 65536 small_layout blank) formatted-Fine

superblock_read-write_everything_example :
    Publishes 7 small_layout formatted 1 × Publishes 7 small_layout formatted 65535
superblock_read-write_everything_example =
    superblock_read-write_everything 7 4096 small_layout blank formatted formatted (omega arith)
      (omega arith) small_layout_is formatted_well.0
      (record { capacity = refl; disk = refl; no_failures = (formatted_well.1, formatted_well.2) })

abbrev counting : Bytes
counting i = i * 17

parse_uuid-uuid_format_example :
    (b : Bytes) × (parse_uuid (uuid_format counting) ≡ ok b)
    × ((i : ℕ) → i < 16 → at b i ≡ at counting i)
parse_uuid-uuid_format_example = parse_uuid-uuid_format counting

-- A file that is not there yet, and is created with 4096 * 3 + 5 bytes.
abbrev host : Host
host = record {
  image = none;
  open_fails = none;
  truncate_fails = none;
  stat_fails = none;
  syscalls = [];
  allocs = true ∷ [];
  clock = [];
}

io_open-Opened_example : Yields (Opened true 12293) (io_open true 12293 host)
io_open-Opened_example = io_open-Opened true 12293 host (λ f e. absurd (not_there f e))
  where
    not_there : (f : Image) → host.image ≡ some f → ⊥
    not_there f e = cc

-- `1G` and `2kB`; `12q` is refused, and so is a number without digits.
size_of_1g : parse_size (b'1' ∷ b'G' ∷ []) ≡ ok (2 ^ 30)
unfolding parse_size
size_of_1g = refl

size_of_2kb : parse_size (b'2' ∷ b'k' ∷ b'B' ∷ []) ≡ ok 2048
unfolding parse_size
size_of_2kb = refl

size_of_12q : parse_size (b'1' ∷ b'2' ∷ b'q' ∷ []) ≡ err einval
unfolding parse_size
size_of_12q = refl

abbrev urandom : Urandom
urandom = record { open_fails = none; draws = drew 5 counting ∷ refused eintr ∷ [] }

-- The version digit of a UUID that is drawn in two parts.
uuid_is_version_4 : elim (uuid_generate urandom).0 [ ok b ↦ at b 6 / 16 | err e ↦ 0 ] ≡ 4
unfolding uuid_generate put copy
uuid_is_version_4 = refl

help_exits : (format_main (help_text ∷ []) host urandom).0 ≡ 0
unfolding format_main
help_exits = refl

bad_size_exits : (format_main (size_text ∷ (b'x' ∷ []) ∷ []) host urandom).0 ≡ 2
unfolding format_main
bad_size_exits = refl

-- A label is never written to a file that is not there.
no_file_exits : (label_main (write_text ∷ path_text ∷ (b'f' ∷ []) ∷ []) host urandom).0 ≡ 1
unfolding label_main
no_file_exits = refl

no_command_exits : (rw_main [] blank).0 ≡ 1
unfolding rw_main
no_command_exits = refl
