-- ===== src/Alloc/Ownership.antt =====
-- The block allocator over any sequence of calls, against the set of the runs that its callers hold.
use mini_fs.Base.{
  ℕ, zero, suc, ◌+◌, ◌≤◌, ◌<◌, ◌≡◌, refl, sym, ap, ◌∙◌, inl, inr, Bool, true, false, ◌||◌, List, [],
  ◌∷◌, arith, if◌then◌else◌, Bool-cases, ok, err,
}
use mathlib.Core.Path.{subst}
use mini_fs.Format.Bytes.{load}
use mini_fs.Format.Superblock
use mini_fs.Bits.{within}
use mini_fs.State.{Mount}
use mini_fs.Alloc.Laws.{IsMounted, used, Gives, SameUsed, UsedRun, ReleaseRun}
use mini_fs.Alloc.Block.{block_alloc, block_free}
use mini_fs.Alloc.Claims.{Allocates, block_alloc-Allocates}
use mini_fs.Alloc.Release.{block_free-ReleaseRun}
use mini_fs.Alloc.Held.{
  Held, holds, Removes, Apart, AllIn, holds-Removes, AllIn-Removes, Apart-Removes,
}

-- One call, which succeeds or fails; only runs that are held are released.
pub data Step : Mount × List Held → Mount × List Held → Type 0 where
  allocated :
      {m m' : Mount} {hs : List Held} (n lba : ℕ)
      → block_alloc n m ≡ (ok lba, m')
      → Step (m, hs) (m', record { lba = lba; size = n } ∷ hs)
  not_allocated :
      {m m' : Mount} {hs : List Held} (n e : ℕ)
      → block_alloc n m ≡ (err e, m')
      → Step (m, hs) (m', hs)
  released :
      {m m' : Mount} {hs hs' : List Held} (h : Held)
      → Removes h hs hs'
      → block_free h.lba h.size m ≡ (ok tt, m')
      → Step (m, hs) (m', hs')
  not_released :
      {m m' : Mount} {hs hs' : List Held} (h : Held) (e : ℕ)
      → Removes h hs hs'
      → block_free h.lba h.size m ≡ (err e, m')
      → Step (m, hs) (m', hs)

pub data Steps (s : Mount × List Held) : Mount × List Held → Type 0 where
  none_yet : Steps s s
  then_one : {t u : Mount × List Held} → Steps s t → Step t u → Steps s u

-- The map of used blocks is that of the runs held and of the blocks `base`, which nobody allocated.
pub record Implements (base : ℕ → Bool) (total : ℕ) (s : Mount × List Held) : Type 0 where
  pub mounted : IsMounted s.0
  pub sized : load Superblock.device_capacity_blocks s.0.sb ≡ total
  pub map : (j : ℕ) → used s.0 j ≡ (base j || holds s.1 j)
  pub apart : Apart base s.1
  pub all_in : AllIn total s.1

or_false : (b : Bool) → (b || false) ≡ b
or_false true = refl
or_false false = refl

or_true : (b : Bool) → (b || true) ≡ true
or_true true = refl
or_true false = refl

take_or : (x b c : Bool) → (if x then true else b || c) ≡ (b || (x || c))
take_or true true c = refl
take_or true false c = refl
take_or false b c = refl

within_bounds : (s n j : ℕ) → within s n j ≡ true → (s ≤ j) × (j < s + n)
within_bounds s n j h = (ground (arith, h), ground (arith, h))

bounds_within : (s n j : ℕ) → s ≤ j → j < s + n → within s n j ≡ true
bounds_within s n j p q = ground arith

block_alloc-pos : (n lba : ℕ) (m m' : Mount) → block_alloc n m ≡ (ok lba, m') → 0 < n
unfolding block_alloc
block_alloc-pos zero lba m m' e = absurd cc
block_alloc-pos (suc n) lba m m' e = omega arith

module _ (base : ℕ → Bool) (total : ℕ) (hs : List Held) (m : Mount)
    (i : Implements base total (m, hs)) where
  -- What keeps the map keeps all of it.
  SameUsed-Implements :
      (m' : Mount) → SameUsed m m' → IsMounted m' → m'.sb ≡ m.sb → Implements base total (m', hs)
  SameUsed-Implements m' same valid sb = record {
    mounted = valid;
    sized = ap (λ s. load Superblock.device_capacity_blocks s) sb ∙ i.sized;
    map = λ j. same j ∙ i.map j;
    apart = i.apart;
    all_in = i.all_in;
  }

  Allocates-Implements :
      (n lba : ℕ) (m' : Mount)
      → 0 < n
      → Allocates n m (ok lba, m')
      → Implements base total (m', record { lba = lba; size = n } ∷ hs)
  Allocates-Implements n lba m' pos (free, le, below, takes, valid, sb) = record {
    mounted = valid;
    sized = ap (λ s. load Superblock.device_capacity_blocks s) sb ∙ i.sized;
    map = λ j. takes j ∙ rw (i.map j) (take_or (within lba n j) (base j) (holds hs j));
    apart = (λ j w. let (p, q) = within_bounds lba n j w in sym (i.map j) ∙ free j p q, i.apart);
    all_in = (pos, omega (arith, i.mounted.sized, i.sized), i.all_in);
  }

  module _ (h : Held) (hs' : List Held) (r : Removes h hs hs') where
    held-UsedRun : UsedRun m h.lba h.size
    held-UsedRun j p q =
        i.map j
        ∙ rw (holds-Removes h hs hs' r j, bounds_within h.lba h.size j p q) (or_true (base j))

    Gives-Implements :
        (m' : Mount)
        → Gives h.lba h.size m m'
        → IsMounted m'
        → m'.sb ≡ m.sb
        → Implements base total (m', hs')
    Gives-Implements m' gives valid sb =
        let (alone, apart) = Apart-Removes base h hs hs' r i.apart in
        let (pos, le, rest) = AllIn-Removes total h hs hs' r i.all_in in
        record {
          mounted = valid;
          sized = ap (λ s. load Superblock.device_capacity_blocks s) sb ∙ i.sized;
          map = λ j. gives j ∙ elim (Bool-cases (within h.lba h.size j)) [
            | inl w ↦ rw w (sym (alone j w))
            | inr w ↦ rw w (i.map j ∙ rw (holds-Removes h hs hs' r j, w) refl)
          ];
          apart = apart;
          all_in = rest;
        }

    held-ReleaseRun : ReleaseRun h.size h.lba m (block_free h.lba h.size m)
    held-ReleaseRun =
        let (pos, le, rest) = AllIn-Removes total h hs hs' r i.all_in in
        block_free-ReleaseRun h.lba h.size m i.mounted pos
          (omega
            (arith, i.mounted.sized, i.sized, i.mounted.summed.covered, i.mounted.summed.small))
          held-UsedRun (omega (arith, i.mounted.sized, i.sized))

module _ (base : ℕ → Bool) (total : ℕ) where
  Step-Implements :
      {s t : Mount × List Held} → Step s t → Implements base total s → Implements base total t
  Step-Implements (allocated {m} {m'} {hs} n lba e) i =
      Allocates-Implements base total hs m i n lba m' (block_alloc-pos n lba m m' e)
        (subst (Allocates n m) e (block_alloc-Allocates n m i.mounted))
  Step-Implements (not_allocated {m} {m'} {hs} n er e) i =
      let (same, valid, sb) = subst (Allocates n m) e (block_alloc-Allocates n m i.mounted) in
      SameUsed-Implements base total hs m i m' same valid sb
  Step-Implements (released {m} {m'} {hs} {hs'} h r e) i =
      let (gives, valid, sb) =
        subst (ReleaseRun h.size h.lba m) e (held-ReleaseRun base total hs m i h hs' r) in
      Gives-Implements base total hs m i h hs' r m' gives valid sb
  Step-Implements (not_released {m} {m'} {hs} {hs'} h er r e) i =
      let (same, valid, sb) =
        subst (ReleaseRun h.size h.lba m) e (held-ReleaseRun base total hs m i h hs' r) in
      SameUsed-Implements base total hs m i m' same valid sb

  Steps-Step :
      {s t : Mount × List Held} → Steps s t → Implements base total s → Implements base total t
  Steps-Step none_yet i = i
  Steps-Step (then_one steps step) i = Step-Implements step (Steps-Step steps i)

-- From a mount whose summaries are right, over any sequence of allocations and of releases of runs
-- that are held, whether the calls succeed or fail: the runs that are held lie inside the device, have
-- at least one block each, have no block in common with each other or with the blocks in use at the
-- start, and the map of used blocks is exactly that of the runs held and of those blocks; the
-- summaries stay right.
pub Steps-Implements :
    (m : Mount) (t : Mount × List Held)
    → IsMounted m
    → Steps (m, []) t
    → Implements (used m) (load Superblock.device_capacity_blocks m.sb) t
Steps-Implements m t valid steps =
    Steps-Step (used m) (load Superblock.device_capacity_blocks m.sb) steps (record {
      mounted = valid;
      sized = refl;
      map = λ j. sym (or_false (used m j));
      apart = tt;
      all_in = tt;
    })
