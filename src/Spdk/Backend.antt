-- ===== src/Spdk/Backend.antt =====
-- src/io/nebula_io_spdk.c: transfers of any length in batches through one bounce buffer.
use mini_fs.Base.{
  ℕ, zero, suc, ◌+◌, ◌-◌, ◌*◌, not, ltb, if◌then◌else◌, add64, Result, ok, err, Cmd, pure, ◌>>=◌,
  ◌>>◌, guard, eio, erange,
}
use mini_fs.Format.Bytes.{Bytes, zeros, copy}
use mini_fs.Format.Consts.{block_size}
use mini_fs.Spdk.Nvme.{Driver, NvmeNs, nvme_read, nvme_write, nvme_flush}

abbrev bounce_blocks : ℕ
bounce_blocks = 256

abbrev pub batch_of : ℕ → ℕ
batch_of remaining = if ltb remaining bounce_blocks then remaining else bounce_blocks

-- `if (rc != 0) return -EIO;`
abbrev pub io_status : {A : Type 0} → Result A → Result A
io_status (ok a) = ok a
io_status (err e) = err eio

abbrev or_eio : {S A : Type 0} → Cmd S A → Cmd S A
or_eio m s = let (r, s') = m s in (io_status r, s')

module _ {D : Type 0} (driver : Driver D) (h : NvmeNs) where
  -- The loop of `spdk_io_read`, with fuel for its rounds: `done` blocks are in `buf`.
  unfoldable pub read_batches : (fuel lba remaining done : ℕ) → Bytes → Cmd D Bytes
  unfolding copy
  read_batches zero lba remaining done buf = pure buf
  read_batches (suc fuel) lba remaining done buf =
      let batch = batch_of remaining in
      let more = or_eio (nvme_read driver h (add64 lba done) batch) >>= λ bounce.
      read_batches fuel lba (remaining - batch) (done + batch)
        (copy buf (done * block_size) bounce 0 (batch * block_size)) in
      if ltb 0 remaining then more else pure buf

  unfoldable pub spdk_io_read : (lba n_blocks : ℕ) → Cmd D Bytes
  unfolding read_batches
  spdk_io_read lba n_blocks = do
    guard (not (ltb h.capacity_blocks (add64 lba n_blocks))) erange
    read_batches (n_blocks + 1) lba n_blocks 0 zeros

  -- The loop of `spdk_io_write`; the bounce buffer of a batch has the bytes from `done` on.
  unfoldable pub write_batches : (fuel lba remaining done : ℕ) → Bytes → Cmd D (Unit {0})
  unfolding copy
  write_batches zero lba remaining done buf = pure tt
  write_batches (suc fuel) lba remaining done buf =
      let batch = batch_of remaining in
      let more =
        or_eio (
          nvme_write driver h (add64 lba done) batch
            (copy zeros 0 buf (done * block_size) (batch * block_size)))
        >> write_batches fuel lba (remaining - batch) (done + batch) buf in
      if ltb 0 remaining then more else pure tt

  unfoldable pub spdk_io_write : (lba n_blocks : ℕ) → Bytes → Cmd D (Unit {0})
  unfolding write_batches
  spdk_io_write lba n_blocks buf = do
    guard (not (ltb h.capacity_blocks (add64 lba n_blocks))) erange
    write_batches (n_blocks + 1) lba n_blocks 0 buf

  unfoldable pub spdk_io_flush : Cmd D (Unit {0})
  spdk_io_flush = or_eio (nvme_flush driver h)
