-- ===== src/Io/Contract.antt =====
-- What a backend of `struct nebula_io_ops` promises for reads and writes, whichever it is.
use mini_fs.Base.{
  ℕ, ◌+◌, ◌*◌, ◌^◌, ◌≤◌, ◌<◌, ◌≡◌, refl, sym, ◌∙◌, arith, u64_mod, Result, ok, err, Cmd,
}
use mathlib.Core.Path.{subst}
use mini_fs.Format.Bytes.{Bytes}
use mini_fs.Format.Consts.{block_size}
use mini_fs.Io.Raw.{Io}
use mini_fs.Io.Posix.{io_read, io_write}
use mini_fs.Io.Loops.{Filled, SameOutside}
use mini_fs.Io.Laws.{Read, Written, io_read-Read, io_write-Written}
use mini_fs.Io.RoundTrip.{Agree}

-- The operations, with the capacity in blocks and the bytes that the device holds.
pub record Backend (S : Type 0) : Type 0 where
  pub capacity : S → ℕ
  pub disk : S → Bytes
  pub read : (lba n : ℕ) → Cmd S Bytes
  pub write : (lba n : ℕ) → Bytes → Cmd S (Unit {0})

module _ {S : Type 0} (b : Backend S) where
  -- The device is of the same size and holds the same bytes.
  abbrev SameDevice : S → S → Type 0
  SameDevice s s' = (b.capacity s' ≡ b.capacity s) × (b.disk s' ≡ b.disk s)

  -- A read changes nothing, and has the bytes of the blocks, all inside the device, if it succeeds.
  abbrev pub ReadsBlocks : (lba n : ℕ) → S → Result Bytes × S → Type 0
  ReadsBlocks lba n s (ok buf, s') =
      SameDevice s s'
      × (lba + n ≤ b.capacity s)
      × Filled (b.disk s) buf (lba * block_size) (n * block_size)
  ReadsBlocks lba n s (err e, s') = SameDevice s s'

  -- A write changes nothing outside the blocks, and puts the bytes into them if it succeeds.
  abbrev pub WritesBlocks : (lba n : ℕ) → Bytes → S → Result (Unit {0}) × S → Type 0
  WritesBlocks lba n src s (ok u, s') =
      (b.capacity s' ≡ b.capacity s)
      × SameOutside (b.disk s) (b.disk s') (lba * block_size) (n * block_size)
      × (lba + n ≤ b.capacity s)
      × Filled (b.disk s') src (lba * block_size) (n * block_size)
  WritesBlocks lba n src s (err e, s') =
      (b.capacity s' ≡ b.capacity s)
      × SameOutside (b.disk s) (b.disk s') (lba * block_size) (n * block_size)

-- The promise, on a device of fewer than 2^63 bytes and for block numbers that do not wrap.
pub record IsBackend {S : Type 0} (b : Backend S) : Type 0 where
  pub reads :
      (lba n : ℕ) (s : S)
      → b.capacity s * block_size < 2 ^ 63
      → lba + n < u64_mod
      → ReadsBlocks b lba n s (b.read lba n s)
  pub writes :
      (lba n : ℕ) (src : Bytes) (s : S)
      → b.capacity s * block_size < 2 ^ 63
      → lba + n < u64_mod
      → WritesBlocks b lba n src s (b.write lba n src s)

-- `posix_ops`
abbrev pub posix_backend : Backend Io
posix_backend = record {
  capacity = λ io. io.capacity_blocks;
  disk = λ io. io.disk;
  read = io_read;
  write = io_write;
}

reads_of_Read :
    (lba n : ℕ) (io : Io) (o : Result Bytes × Io)
    → Read lba n io o
    → ReadsBlocks posix_backend lba n io o
reads_of_Read lba n io (ok b, io') r = ((r.capacity, r.disk), r.in_range b refl, r.bytes b refl)
reads_of_Read lba n io (err e, io') r = (r.capacity, r.disk)

writes_of_Written :
    (lba n : ℕ) (src : Bytes) (io : Io) (o : Result (Unit {0}) × Io)
    → Written lba n src io o
    → WritesBlocks posix_backend lba n src io o
writes_of_Written lba n src io (ok u, io') w =
    (w.capacity, w.outside, w.in_range u refl, w.bytes u refl)
writes_of_Written lba n src io (err e, io') w = (w.capacity, w.outside)

-- The POSIX backend keeps the promise of a backend, whatever its system calls do: on a device of
-- fewer than 2^63 bytes and for block numbers that do not wrap, a read changes nothing and has the
-- bytes of the blocks if it succeeds, a write touches no byte outside its blocks and puts the bytes
-- into them if it succeeds, and both are inside the device then.
pub posix_backend-IsBackend : IsBackend posix_backend
posix_backend-IsBackend = record {
  reads = λ lba n io dev small.
      reads_of_Read lba n io (io_read lba n io) (io_read-Read lba n io dev small);
  writes = λ lba n src io dev small.
      writes_of_Written lba n src io (io_write lba n src io)
        (io_write-Written lba n src io dev small);
}

-- Of any backend that keeps the promise: a read that succeeds after a write that succeeds, of the
-- same blocks, has the bytes written.
read-write :
    {S : Type 0} (b : Backend S) (keeps : IsBackend b) (lba n : ℕ) (src buf : Bytes) (s s' s'' : S)
    → b.capacity s * block_size < 2 ^ 63
    → lba + n < u64_mod
    → b.write lba n src s ≡ (ok tt, s')
    → b.read lba n s' ≡ (ok buf, s'')
    → Agree (n * block_size) buf src
read-write b keeps lba n src buf s s' s'' dev small e e' =
    let (cap, out, range, stored) : WritesBlocks b lba n src s (ok tt, s') =
      subst (WritesBlocks b lba n src s) e (keeps.writes lba n src s dev small) in
    let (same, range', found) : ReadsBlocks b lba n s' (ok buf, s'') =
      subst (ReadsBlocks b lba n s') e' (keeps.reads lba n s' (omega (arith, cap)) small) in
    λ j p. found j p ∙ sym (stored j p)
