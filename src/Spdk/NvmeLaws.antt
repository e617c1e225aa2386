-- ===== src/Spdk/NvmeLaws.antt =====
-- What a transfer of one batch does, by what the driver's commands do.
use mini_fs.Base.{
  ℕ, zero, suc, ◌+◌, ◌*◌, ◌^◌, ◌≤◌, ◌<◌, ◌≡◌, refl, ap, ◌∙◌, true, false, arith, mul64, u32, ok,
}
use mathlib.Core.Path.{subst}
use mini_fs.Format.Bytes.{Bytes}
use mini_fs.Format.Consts.{block_size}
use mini_fs.Io.Loops.{Filled, SameOutside}
use mini_fs.Spdk.Nvme.{
  Completion, rejected, completed, status_of, with_data, Driver, NvmeNs, nvme_read, nvme_write,
}

-- The documented behaviour of the commands on a namespace with sectors of `sector_size` bytes,
-- where `content` is what the namespace holds: a read that completes without an error delivers the
-- sectors and changes none; a write changes no other sector, and has written its own where it
-- completes without an error.
pub record DriverLaws {D : Type 0} (driver : Driver D) (sector_size : ℕ) : Type 0 where
  pub content : D → Bytes
  pub read_data :
      (lba n : ℕ) (d : D)
      → (driver.cmd_read lba n d).0 ≡ completed false
      → Filled (content d) (driver.cmd_read lba n d).1 (lba * sector_size) (n * sector_size)
  pub read_keeps : (lba n : ℕ) (d : D) → content (driver.cmd_read lba n d).2 ≡ content d
  pub write_data :
      (src : Bytes) (lba n : ℕ) (d : D)
      → (driver.cmd_write src lba n d).0 ≡ completed false
      → Filled (content (driver.cmd_write src lba n d).1) src (lba * sector_size) (n * sector_size)
  pub write_outside :
      (src : Bytes) (lba n : ℕ) (d : D)
      → SameOutside
          (content d)
          (content (driver.cmd_write src lba n d).1)
          (lba * sector_size)
          (n * sector_size)

-- Sectors divide a block, and the namespace has fewer than 2^63 bytes.
pub record WholeSectors (h : NvmeNs) : Type 0 where
  pub divides : h.sectors_per_block * h.sector_size ≡ block_size
  pub small : h.capacity_blocks * block_size < 2 ^ 63

few_sectors : (s z : ℕ) → s * z ≡ block_size → s ≤ block_size
few_sectors s zero e = grind arith
few_sectors s (suc z) e = grind arith

sectors_bound : (b s m : ℕ) → s ≤ block_size → b ≤ m → b * s ≤ m * block_size
sectors_bound b s m le lb = grind arith

regroup : (b s z : ℕ) → s * z ≡ block_size → b * s * z ≡ b * block_size
regroup b s z e = grind arith

-- A command that went well was completed without an error.
status_of-ok : (c : Completion) → status_of c ≡ ok tt → c ≡ completed false
unfolding status_of
status_of-ok (rejected rc) e = cc
status_of-ok (completed true) e = cc
status_of-ok (completed false) e = refl

with_data-ok :
    (c : Completion) (bytes buf : Bytes)
    → with_data (status_of c) bytes ≡ ok buf
    → (c ≡ completed false) × (bytes ≡ buf)
unfolding status_of with_data
with_data-ok (rejected rc) bytes buf e = cc
with_data-ok (completed true) bytes buf e = cc
with_data-ok (completed false) bytes buf e = (refl, cc)

module _ {D : Type 0} (driver : Driver D) (h : NvmeNs) (laws : DriverLaws driver h.sector_size)
    (whole : WholeSectors h) (b n : ℕ) (inside : b + n ≤ h.capacity_blocks) (few : n ≤ 256) where
  open laws use {content}

  sectors_fit :
      (mul64 b h.sectors_per_block ≡ b * h.sectors_per_block)
      × (u32 (n * h.sectors_per_block) ≡ n * h.sectors_per_block)
  sectors_fit =
      let s = few_sectors h.sectors_per_block h.sector_size whole.divides in
      (
        omega (
          arith,
          sectors_bound b h.sectors_per_block h.capacity_blocks s (omega arith),
          whole.small,
        ),
        omega (arith, sectors_bound n h.sectors_per_block 256 s few),
      )

  -- The place and the length of the command, in bytes.
  places :
      (mul64 b h.sectors_per_block * h.sector_size ≡ b * block_size)
      × (u32 (n * h.sectors_per_block) * h.sector_size ≡ n * block_size)
  places = (
    ap (λ (x : ℕ). x * h.sector_size) sectors_fit.0
        ∙ regroup b h.sectors_per_block h.sector_size whole.divides,
    ap (λ (x : ℕ). x * h.sector_size) sectors_fit.1
        ∙ regroup n h.sectors_per_block h.sector_size whole.divides,
  )

  abbrev first : ℕ
  first = mul64 b h.sectors_per_block

  abbrev count : ℕ
  count = u32 (n * h.sectors_per_block)

  pub nvme_read-Filled :
      (d : D)
      → (content (nvme_read driver h b n d).1 ≡ content d)
        × ((buf : Bytes)
            → (nvme_read driver h b n d).0 ≡ ok buf
            → Filled (content d) buf (b * block_size) (n * block_size))
  unfolding nvme_read
  nvme_read-Filled d = (
    laws.read_keeps first count d,
    λ buf e.
        let (well, same) =
          with_data-ok (driver.cmd_read first count d).0 (driver.cmd_read first count d).1 buf e in
        subst (λ (x : ℕ). Filled (content d) buf x (n * block_size)) places.0
          (subst (λ (x : ℕ). Filled (content d) buf (first * h.sector_size) x) places.1
            (subst
              (λ (x : Bytes). Filled (content d) x (first * h.sector_size) (count * h.sector_size))
              same (laws.read_data first count d well))),
  )

  pub nvme_write-Filled :
      (src : Bytes) (d : D)
      → SameOutside
          (content d)
          (content (nvme_write driver h b n src d).1)
          (b * block_size)
          (n * block_size)
        × ((nvme_write driver h b n src d).0 ≡ ok tt
            → Filled
                (content (nvme_write driver h b n src d).1)
                src
                (b * block_size)
                (n * block_size))
  unfolding nvme_write
  nvme_write-Filled src d = (
    subst (λ (x : ℕ). SameOutside (content d) after x (n * block_size)) places.0
        (subst (λ (x : ℕ). SameOutside (content d) after (first * h.sector_size) x) places.1
          (laws.write_outside src first count d)),
    λ e.
        subst (λ (x : ℕ). Filled after src x (n * block_size)) places.0
          (subst (λ (x : ℕ). Filled after src (first * h.sector_size) x) places.1
            (laws.write_data src first count d
              (status_of-ok (driver.cmd_write src first count d).0 e))),
  )
    where
      after : Bytes
      after = content (driver.cmd_write src first count d).1
