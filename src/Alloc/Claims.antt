-- ===== src/Alloc/Claims.antt =====
-- `nebula_block_alloc` as a whole.
use mini_fs.Base.{
  ℕ, ◌+◌, ◌≤◌, ◌<◌, ◌≡◌, refl, inl, inr, Option, none, some, arith, ltb, ◌==◌, ==→ne, le→ltb, ne→==,
  Bool-cases, Result, ok, err, einval, enospc,
}
use mini_fs.State.{Mount}
use mini_fs.Alloc.Scan.{AllFree, Fits, find_run, find_run_first}
use mini_fs.Alloc.Valid.{free_run-le}
use mini_fs.Alloc.Laws.{IsMounted, Takes, SameUsed, TakeRun, scan_limit-le, take_run-TakeRun}
use mini_fs.Alloc.Block.{scan_limit, take_run, take_found, block_alloc}

-- No run of `n` free blocks starts below `s`.
abbrev pub NoneBelow : Mount → ℕ → ℕ → Type 0
NoneBelow m n s = (s' : ℕ) → s' < s → ¬ AllFree m.bitmap.l0_bits s' n

-- The outcomes of an allocation of `n` blocks.
abbrev pub Allocates : ℕ → Mount → Result ℕ × Mount → Type 0
Allocates n m (ok lba, m') =
    AllFree m.bitmap.l0_bits lba n
    × (lba + n ≤ m.bitmap.total_blocks)
    × NoneBelow m n lba
    × Takes lba n m m'
    × IsMounted m'
    × (m'.sb ≡ m.sb)
Allocates n m (err e, m') = SameUsed m m' × IsMounted m' × (m'.sb ≡ m.sb)

unchanged : (n e : ℕ) (m : Mount) → IsMounted m → Allocates n m (err e, m)
unchanged n e m v = ((λ j. refl), v, refl)

of_TakeRun :
    (n s : ℕ) (m : Mount) (p : Result ℕ × Mount)
    → AllFree m.bitmap.l0_bits s n
    → s + n ≤ m.bitmap.total_blocks
    → NoneBelow m n s
    → TakeRun n s m p
    → Allocates n m p
of_TakeRun n s m (ok lba, m') free le first (e, takes, valid, same) =
    rw e (free, le, first, takes, valid, same)
of_TakeRun n s m (err x, m') free le first t = t

take_found-Allocates :
    (n : ℕ) (m : Mount) (found : Option ℕ)
    → IsMounted m
    → 0 < n
    → Fits m.bitmap.l0_bits n m.bitmap.total_blocks found
    → Allocates n m (take_found n found m)
unfolding take_found
take_found-Allocates n m none v pos fit = unchanged n enospc m v
take_found-Allocates n m (some s) v pos (free, le, first) =
    of_TakeRun n s m (take_run n s m) free le first (take_run-TakeRun n s m v pos le free)

scan-Fits :
    (n : ℕ) (m : Mount)
    → IsMounted m
    → 0 < n
    → Fits m.bitmap.l0_bits n m.bitmap.total_blocks
        (find_run m.bitmap.l0_bits n (scan_limit m) 0 0 0)
scan-Fits n m v pos =
    rw (scan_limit-le m v) (find_run_first m.bitmap.l0_bits n m.bitmap.total_blocks pos)

-- On a mount whose summaries are right, an allocation that returns a block number returns the first
-- run of `n` free blocks below the capacity, marks exactly these blocks, and leaves the summaries
-- right; one that returns an error leaves every bit as it was and the summaries right.
pub block_alloc-Allocates : (n : ℕ) (m : Mount) → IsMounted m → Allocates n m (block_alloc n m)
unfolding block_alloc
block_alloc-Allocates n m v = elim (Bool-cases (n == 0)) [
  | inl z ↦ rw z (unchanged n einval m v)
  | inr z ↦ rw z (elim (Bool-cases (ltb m.bitmap.l2_total_free n)) [
    | inl few ↦ rw few (unchanged n enospc m v)
    | inr more ↦ rw more (
        take_found-Allocates n m (find_run m.bitmap.l0_bits n (scan_limit m) 0 0 0) v
          (omega (arith, ==→ne n 0 z)) (scan-Fits n m v (omega (arith, ==→ne n 0 z))))
  ])
]

take_found_none :
    (n : ℕ) (m : Mount) (found : Option ℕ)
    → ((s : ℕ) → s + n ≤ m.bitmap.total_blocks → ¬ AllFree m.bitmap.l0_bits s n)
    → Fits m.bitmap.l0_bits n m.bitmap.total_blocks found
    → take_found n found m ≡ (err enospc, m)
unfolding take_found
take_found_none n m none h fit = refl
take_found_none n m (some s) h (free, le, first) = absurd (h s le free)

-- On a mount whose summaries are right, where no run of `n` free blocks exists below the capacity and
-- `n` is not 0, an allocation of `n` blocks fails with ENOSPC and changes nothing.
pub block_alloc-enospc :
    (n : ℕ) (m : Mount)
    → IsMounted m
    → 0 < n
    → ((s : ℕ) → s + n ≤ m.bitmap.total_blocks → ¬ AllFree m.bitmap.l0_bits s n)
    → block_alloc n m ≡ (err enospc, m)
unfolding block_alloc
block_alloc-enospc n m v pos h =
    rw (ne→== n 0 (omega arith)) (elim (Bool-cases (ltb m.bitmap.l2_total_free n)) [
      | inl few ↦ rw few
      | inr more ↦ rw more (
          take_found_none n m (find_run m.bitmap.l0_bits n (scan_limit m) 0 0 0) h
            (scan-Fits n m v pos))
    ])

abbrev pub FirstFit : ℕ → Mount → ℕ → Type 0
FirstFit n m s = AllFree m.bitmap.l0_bits s n × (s + n ≤ m.bitmap.total_blocks) × NoneBelow m n s

take_found_some :
    (n : ℕ) (m : Mount) (found : Option ℕ) (s : ℕ)
    → s + n ≤ m.bitmap.total_blocks
    → AllFree m.bitmap.l0_bits s n
    → Fits m.bitmap.l0_bits n m.bitmap.total_blocks found
    → (s' : ℕ) × FirstFit n m s' × (take_found n found m ≡ take_run n s' m)
unfolding take_found
take_found_some n m none s le free fit = absurd (fit s le free)
take_found_some n m (some s') s le free fit = (s', fit, refl)

-- On a mount whose summaries are right, where a run of `n` free blocks exists below the capacity and
-- `n` is not 0, the allocation never stops short: it
-- goes on to take the first such run.
pub block_alloc_reaches :
    (n s : ℕ) (m : Mount)
    → IsMounted m
    → 0 < n
    → s + n ≤ m.bitmap.total_blocks
    → AllFree m.bitmap.l0_bits s n
    → (s' : ℕ) × FirstFit n m s' × (block_alloc n m ≡ take_run n s' m)
unfolding block_alloc
block_alloc_reaches n s m v pos le free =
    rw
      (
        ne→== n 0 (omega arith),
        le→ltb m.bitmap.l2_total_free n (free_run-le m.bitmap s n v.summed free pos le),
      )
      (take_found_some n m (find_run m.bitmap.l0_bits n (scan_limit m) 0 0 0) s le free
        (scan-Fits n m v pos))
