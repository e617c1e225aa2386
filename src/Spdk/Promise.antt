-- ===== src/Spdk/Promise.antt =====
-- `spdk_ops` of src/io/nebula_io_spdk.c as a backend of `struct nebula_io_ops`.
use mini_fs.Base.{
  ℕ, ◌+◌, ◌≤◌, ◌<◌, refl, inl, inr, arith, ltb, ltb→le, Bool-cases, u64_mod, add64, Result, ok, err,
}
use mini_fs.Format.Bytes.{Bytes, zeros}
use mini_fs.Io.Contract.{Backend, ReadsBlocks, WritesBlocks, IsBackend}
use mini_fs.Spdk.Nvme.{Driver, NvmeNs}
use mini_fs.Spdk.NvmeLaws.{DriverLaws, WholeSectors}
use mini_fs.Spdk.Backend.{read_batches, spdk_io_read, write_batches, spdk_io_write}
use mini_fs.Spdk.BackendLaws.{ReadsOn, read_batches-ReadsOn, WritesOn, write_batches-WritesOn}

module _ {D : Type 0} (driver : Driver D) (h : NvmeNs)
    (laws : DriverLaws driver h.sector_size) where
  open laws use {content}

  -- `spdk_ops`, on a namespace that holds `content`
  abbrev pub spdk_backend : Backend D
  spdk_backend = record {
    capacity = λ d. h.capacity_blocks;
    disk = content;
    read = spdk_io_read driver h;
    write = spdk_io_write driver h;
  }

  module _ (whole : WholeSectors h) (lba n : ℕ) (d : D) where
    reads_of :
        lba + n ≤ h.capacity_blocks
        → (o : Result Bytes × D) → ReadsOn driver h laws whole lba n d o
        → ReadsBlocks spdk_backend lba n d o
    reads_of le (ok buf, d') (same, filled) = ((refl, same), le, filled)
    reads_of le (err e, d') same = (refl, same)

    writes_of :
        (src : Bytes)
        → lba + n ≤ h.capacity_blocks
        → (o : Result (Unit {0}) × D) → WritesOn driver h laws whole (content d) lba n src o
        → WritesBlocks spdk_backend lba n src d o
    writes_of src le (ok u, d') (same, filled) = (refl, same, le, filled)
    writes_of src le (err e, d') same = (refl, same)

    spdk_io_read-ReadsBlocks :
        lba + n < u64_mod → ReadsBlocks spdk_backend lba n d (spdk_io_read driver h lba n d)
    unfolding spdk_io_read
    spdk_io_read-ReadsBlocks small = elim (Bool-cases (ltb h.capacity_blocks (add64 lba n))) [
      | inl t ↦ rw t (refl, refl)
      | inr t ↦
          let le : lba + n ≤ h.capacity_blocks =
            omega (arith, ltb→le h.capacity_blocks (add64 lba n) t) in
          rw t (
            reads_of le (read_batches driver h (n + 1) lba n 0 zeros d) (
              read_batches-ReadsOn driver h laws whole (n + 1) lba n 0 n zeros d (omega arith) le
                (omega arith) (λ j p. absurd (omega arith))))
    ]

    spdk_io_write-WritesBlocks :
        (src : Bytes)
        → lba + n < u64_mod
        → WritesBlocks spdk_backend lba n src d (spdk_io_write driver h lba n src d)
    unfolding spdk_io_write
    spdk_io_write-WritesBlocks src small = elim (Bool-cases (ltb h.capacity_blocks (add64 lba n))) [
      | inl t ↦ rw t (refl, λ j p. refl)
      | inr t ↦
          let le : lba + n ≤ h.capacity_blocks =
            omega (arith, ltb→le h.capacity_blocks (add64 lba n) t) in
          rw t (
            writes_of src le (write_batches driver h (n + 1) lba n 0 src d) (
              write_batches-WritesOn driver h laws whole (n + 1) lba n 0 n (content d) src d
                (omega arith) le (omega arith) (λ j p. refl) (λ j p. absurd (omega arith))))
    ]

  -- On a namespace whose sectors divide a block and which has fewer than 2^63 bytes, under a driver
  -- whose commands do what they document: the SPDK backend keeps the promise of a backend, as the
  -- POSIX one does. Its reads and writes, in batches through the bounce buffer, are of the blocks
  -- asked for and no others, whichever of its commands fails.
  pub spdk_backend-IsBackend : WholeSectors h → IsBackend spdk_backend
  spdk_backend-IsBackend whole = record {
    reads = λ lba n d dev small. spdk_io_read-ReadsBlocks whole lba n d small;
    writes = λ lba n src d dev small. spdk_io_write-WritesBlocks whole lba n d src small;
  }
