-- ===== src/Alloc/Release.antt =====
-- `nebula_block_free` as a whole, and an allocation followed by its release.
use mini_fs.Base.{
  ℕ, ◌+◌, ◌≤◌, ◌<◌, ◌≡◌, refl, sym, ap, ◌∙◌, inl, inr, false, arith, if◌then◌else◌, le→ltb, ne→==,
  Bool-cases, u64_mod, add64, Result, ok, err, einval,
}
use mathlib.Core.Path.{subst}
use mini_fs.Format.Bytes.{load}
use mini_fs.Format.Superblock
use mini_fs.Bits.{within, all_set_of, all_set_not}
use mini_fs.State.{Mount}
use mini_fs.Alloc.Laws.{IsMounted, used, SameUsed, UsedRun, ReleaseRun, release_run-ReleaseRun}
use mini_fs.Alloc.Block.{block_alloc, block_free}
use mini_fs.Alloc.Claims.{Allocates, block_alloc-Allocates}

module _ (lba n : ℕ) (m : Mount) (v : IsMounted m) (pos : 0 < n) (small : lba + n < u64_mod) where
  -- On a mount whose summaries are right, for at least one block and an end that does not wrap: a
  -- release of a run inside the device with a free block in it is refused with EINVAL and changes
  -- nothing.
  pub block_free-einval :
      (i : ℕ)
      → lba ≤ i
      → i < lba + n
      → lba + n ≤ m.bitmap.total_blocks
      → used m i ≡ false
      → block_free lba n m ≡ (err einval, m)
  unfolding block_free
  block_free-einval i p q le f = rw (
    ne→== n 0 (omega arith),
    le→ltb (load Superblock.device_capacity_blocks m.sb) (add64 lba n) (omega (arith, v.sized)),
    all_set_not m.bitmap.l0_bits n lba i p q f,
  )

  -- On a mount whose summaries are right, for at least one block and an end that does not wrap: a
  -- release of a run in use inside the device clears exactly the blocks of the run when its write
  -- to the disk succeeds, and no block when it fails; the summaries stay right either way.
  pub block_free-ReleaseRun :
      UsedRun m lba n → lba + n ≤ m.bitmap.total_blocks → ReleaseRun n lba m (block_free lba n m)
  unfolding block_free
  block_free-ReleaseRun run le =
      rw
        (
          ne→== n 0 (omega arith),
          le→ltb (load Superblock.device_capacity_blocks m.sb) (add64 lba n)
              (omega (arith, v.sized)),
          all_set_of m.bitmap.l0_bits n lba run,
        )
        (release_run-ReleaseRun n lba m v pos le run)

-- The map after an allocation and the release of what it returned.
abbrev pub Restores : Mount → Result (Unit {0}) × Mount → Type 0
Restores m (ok _, m'') = SameUsed m m'' × IsMounted m''
Restores m (err e, m'') = IsMounted m''

Allocates-Restores :
    (n : ℕ) (m m' : Mount) (lba : ℕ)
    → 0 < n
    → Allocates n m (ok lba, m')
    → (p : Result (Unit {0}) × Mount) → ReleaseRun n lba m' p
    → Restores m p
Allocates-Restores n m m' lba pos (free, le, first, takes, v, same) (ok _, m'')
      (gives, v'', same'') =
    ((λ j. gives j ∙ back j), v'')
  where
    back : (j : ℕ) → (if within lba n j then false else used m' j) ≡ used m j
    back j = elim (Bool-cases (within lba n j)) [
      | inl here ↦ rw here (sym (free j (ground arith) (ground arith)))
      | inr away ↦ rw away (takes j ∙ rw away refl)
    ]
Allocates-Restores n m m' lba pos a (err x, m'') (same'', v'', sb) = v''

-- On a mount whose summaries are right: after an allocation of at least one block, the release of what
-- it returned leaves the summaries right, and if it succeeds the map is the one from before the
-- allocation.
pub block_free-block_alloc :
    (n lba : ℕ) (m m' : Mount)
    → IsMounted m
    → 0 < n
    → block_alloc n m ≡ (ok lba, m')
    → Restores m (block_free lba n m')
block_free-block_alloc n lba m m' v pos e =
    let a : Allocates n m (ok lba, m') = subst (Allocates n m) e (block_alloc-Allocates n m v) in
    go a
  where
    go : Allocates n m (ok lba, m') → Restores m (block_free lba n m')
    go (free, le, first, takes, v', same) =
        let size : m'.bitmap.total_blocks ≡ m.bitmap.total_blocks =
          v'.sized ∙ ap (load Superblock.device_capacity_blocks) same ∙ sym v.sized in
        Allocates-Restores n m m' lba pos (free, le, first, takes, v', same) (block_free lba n m')
          (block_free-ReleaseRun lba n m' v' pos (omega (arith, v.summed.covered, v.summed.small))
            (λ i p q. takes i ∙ ground arith) (omega (arith, size, le)))
