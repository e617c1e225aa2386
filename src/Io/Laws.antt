-- ===== src/Io/Laws.antt =====
-- The outcomes of `nebula_io_read` and `nebula_io_write`.
use mini_fs.Base.{
  ℕ, ◌+◌, ◌*◌, ◌^◌, ◌≤◌, ◌<◌, ◌≡◌, refl, sym, ap, ◌∙◌, inl, inr, true, false, List, arith, ltb,
  ltb→le, lt→ltb, Bool-cases, u64_mod, add64, mul64, Result, ok, err, erange,
}
use mini_fs.Format.Bytes.{Bytes, at, zeros}
use mini_fs.Format.Consts.{block_size}
use mini_fs.Io.Raw.{Io, Syscall}
use mini_fs.Io.Posix.{read_loop, write_loop, io_read, io_write}
use mini_fs.Io.Loops.{
  IsDevice, Filled, SameOutside, ReadsTo, WritesTo, read_loop-ReadsTo, write_loop-WritesTo,
}

-- What a read of `n` blocks at `lba` leaves: the file as it was and, on success, its bytes.
pub record Read (lba n : ℕ) (io : Io) (out : Result Bytes × Io) : Type 0 where
  pub capacity : out.1.capacity_blocks ≡ io.capacity_blocks
  pub disk : out.1.disk ≡ io.disk
  pub bytes : (b : Bytes) → out.0 ≡ ok b → Filled io.disk b (lba * block_size) (n * block_size)
  pub in_range : (b : Bytes) → out.0 ≡ ok b → lba + n ≤ io.capacity_blocks

-- What a write leaves: the file outside the blocks as it was and, on success, the bytes inside.
pub record Written (lba n : ℕ) (src : Bytes) (io : Io) (out : Result (Unit {0}) × Io) : Type 0 where
  pub capacity : out.1.capacity_blocks ≡ io.capacity_blocks
  pub outside : SameOutside io.disk out.1.disk (lba * block_size) (n * block_size)
  pub bytes :
      (u : Unit {0}) → out.0 ≡ ok u → Filled out.1.disk src (lba * block_size) (n * block_size)
  pub in_range : (u : Unit {0}) → out.0 ≡ ok u → lba + n ≤ io.capacity_blocks

no_wrap :
    (lba n cap : ℕ)
    → cap * block_size < 2 ^ 63
    → lba + n < u64_mod
    → ltb cap (add64 lba n) ≡ false
    → (lba + n ≤ cap) × (mul64 lba block_size ≡ lba * block_size)
no_wrap lba n cap dev small t =
    let le : add64 lba n ≤ cap = ltb→le cap (add64 lba n) t in (omega arith, omega arith)

of_ReadsTo :
    (io : Io) (lba n : ℕ) (p : Result Bytes × List Syscall)
    → lba + n ≤ io.capacity_blocks
    → ReadsTo io.disk (lba * block_size) (n * block_size) p
    → Read lba n io (p.0, record io { syscalls = p.1 })
of_ReadsTo io lba n (ok b, evs) le h = record {
  capacity = refl;
  disk = refl;
  bytes = λ c e. let q : b ≡ c = cc in λ j p. ap (λ (f : Bytes). at f j) (sym q) ∙ h j p;
  in_range = λ c e. le;
}
of_ReadsTo io lba n (err x, evs) le h = record {
  capacity = refl;
  disk = refl;
  bytes = λ c e. cc;
  in_range = λ c e. cc;
}

pub io_read-Read :
    (lba n : ℕ) (io : Io) → IsDevice io → lba + n < u64_mod → Read lba n io (io_read lba n io)
unfolding io_read
io_read-Read lba n io dev small = elim (Bool-cases (ltb io.capacity_blocks (add64 lba n))) [
  | inl t ↦ rw t (record { capacity = refl; disk = refl; bytes = λ c e. cc; in_range = λ c e. cc })
  | inr t ↦
      let w = no_wrap lba n io.capacity_blocks dev small t in
      rw (t, w.1)
        (of_ReadsTo io lba n
          (read_loop io.disk (lba * block_size) (n * block_size) io.syscalls 0 zeros) w.0
          (read_loop-ReadsTo io.disk (lba * block_size) (n * block_size) io.syscalls 0 zeros
            (omega arith) (λ j p. absurd (omega arith))))
]

of_WritesTo :
    (io : Io) (lba n : ℕ) (src : Bytes) (p : Result (Unit {0}) × List Syscall × Bytes)
    → lba + n ≤ io.capacity_blocks
    → WritesTo src io.disk (lba * block_size) (n * block_size) p
    → Written lba n src io (p.0, record io { syscalls = p.1; disk = p.2 })
of_WritesTo io lba n src (ok b, evs, disk) le (same, h) = record {
  capacity = refl;
  outside = same;
  bytes = λ c e. h;
  in_range = λ c e. le;
}
of_WritesTo io lba n src (err x, evs, disk) le (same, h) = record {
  capacity = refl;
  outside = same;
  bytes = λ c e. cc;
  in_range = λ c e. cc;
}

pub io_write-Written :
    (lba n : ℕ) (src : Bytes) (io : Io)
    → IsDevice io
    → lba + n < u64_mod
    → Written lba n src io (io_write lba n src io)
unfolding io_write
io_write-Written lba n src io dev small = elim (Bool-cases (ltb io.capacity_blocks (add64 lba n))) [
  | inl t ↦
      rw t
        (record { capacity = refl; outside = λ j p. refl; bytes = λ c e. cc; in_range = λ c e. cc })
  | inr t ↦
      let w = no_wrap lba n io.capacity_blocks dev small t in
      rw (t, w.1)
        (of_WritesTo io lba n src
          (write_loop src (lba * block_size) (n * block_size) io.syscalls 0 io.disk) w.0
          (write_loop-WritesTo src io.disk (lba * block_size) (n * block_size) io.syscalls 0 io.disk
            (omega arith) (λ j p. refl) (λ j p. absurd (omega arith))))
]

-- A write that reaches past the end of the device, to a block number that does not wrap, is refused
-- with ERANGE and nothing is touched.
io_write-erange :
    (lba n : ℕ) (src : Bytes) (io : Io)
    → io.capacity_blocks < lba + n
    → lba + n < u64_mod
    → io_write lba n src io ≡ (err erange, io)
unfolding io_write
io_write-erange lba n src io past small =
    let t : ltb io.capacity_blocks (add64 lba n) ≡ true = lt→ltb _ _ (omega arith) in rw t

-- The outcomes of a write: in range, with the bytes in their place and the rest of the file as it
-- was; or an error, which leaves the file outside the blocks as it was.
abbrev Writes : ℕ → ℕ → Bytes → Io → Result (Unit {0}) × Io → Type 0
Writes lba n src io (ok _, io') =
    (lba + n ≤ io.capacity_blocks)
    × Filled io'.disk src (lba * block_size) (n * block_size)
    × SameOutside io.disk io'.disk (lba * block_size) (n * block_size)
Writes lba n src io (err e, io') = SameOutside io.disk io'.disk (lba * block_size) (n * block_size)

Written-Writes :
    (lba n : ℕ) (src : Bytes) (io : Io) (p : Result (Unit {0}) × Io)
    → Written lba n src io p
    → Writes lba n src io p
Written-Writes lba n src io (ok u, io') w = (w.in_range u refl, w.bytes u refl, w.outside)
Written-Writes lba n src io (err e, io') w = w.outside

-- On a device of fewer than 2^63 bytes, for block numbers that do not wrap: whatever short transfers, interruptions and errors a write meets, it never touches a byte outside
-- its blocks, and when it succeeds the blocks are inside the device and hold the bytes written.
io_write-Writes :
    (lba n : ℕ) (src : Bytes) (io : Io)
    → IsDevice io
    → lba + n < u64_mod
    → Writes lba n src io (io_write lba n src io)
io_write-Writes lba n src io dev small =
    Written-Writes lba n src io (io_write lba n src io) (io_write-Written lba n src io dev small)
