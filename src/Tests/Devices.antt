-- ===== src/Tests/Devices.antt =====
-- A device of four blocks whose first calls are interrupted or fall short.
use mini_fs.Base.{◌%◌, ◌≡◌, refl, [], ◌∷◌, arith, Result, ok, err, eintr}
use mini_fs.Format.Bytes.{Bytes, zeros}
use mini_fs.Io.Raw.{Io, failed, moved}
use mini_fs.Io.Posix.{io_read, io_write}
use mini_fs.Io.RoundTrip.{Agree, io_read-io_write}

abbrev pattern_bytes : Bytes
pattern_bytes i = i % 251

-- The first call is interrupted, the second moves 100 bytes, the third all the rest.
abbrev device : Io
device = record {
  capacity_blocks = 4;
  disk = zeros;
  syscalls = failed eintr ∷ moved 100 ∷ [];
  allocs = [];
  clock = [];
}

abbrev written : Io
written = (io_write 2 1 pattern_bytes device).1

write_succeeds : io_write 2 1 pattern_bytes device ≡ (ok tt, written)
unfolding io_write
write_succeeds = refl

abbrev buffer_of : Result Bytes → Bytes
buffer_of (ok b) = b
buffer_of (err e) = zeros

abbrev read_back : Bytes
read_back = buffer_of (io_read 2 1 written).0

abbrev after_read : Io
after_read = (io_read 2 1 written).1

read_succeeds : io_read 2 1 written ≡ (ok read_back, after_read)
unfolding io_read io_write
read_succeeds = refl

io_read-io_write_example : Agree 4096 read_back pattern_bytes
io_read-io_write_example =
    io_read-io_write 2 1 pattern_bytes read_back device written after_read (omega arith)
      (omega arith) write_succeeds read_succeeds
