-- ===== src/Alloc/Laws.antt =====
-- What `nebula_block_alloc` and `nebula_block_free` do to the map of used blocks.
use mini_fs.Base.{
  ℕ, ◌+◌, ◌-◌, ◌/◌, ◌≤◌, ◌<◌, ◌≡◌, refl, sym, ap, ◌∙◌, inl, inr, Bool, true, false, arith,
  if◌then◌else◌, Bool-cases, Result, ok, err,
}
use mathlib.Core.Path.{subst}
use mini_fs.Format.Bytes.{Bytes, load}
use mini_fs.Format.Superblock
use mini_fs.Format.Consts.{bits_per_page}
use mini_fs.Bits.{bit_get, within, bit_get-set_run, bit_get-clr_run}
use mini_fs.State.{HierBitmap, Mount}
use mini_fs.Alloc.Summary.{Direction, taken, given}
use mini_fs.Alloc.Shares.{SameBits, SameBits-update_pages}
use mini_fs.Alloc.Count.{FreeIn}
use mini_fs.Alloc.Valid.{IsSummed, last_bit, mark-IsSummed, unmark-IsSummed}
use mini_fs.Alloc.Block.{
  flush_dirty_pages, update_summaries, mark, unmark, scan_limit, take_run, settle_taken,
  settle_given, release_run,
}

-- The mount's bitmap is that of its superblock's device, and its summaries are right.
pub record IsMounted (m : Mount) : Type 0 where
  pub summed : IsSummed m.bitmap
  pub sized : m.bitmap.total_blocks ≡ load Superblock.device_capacity_blocks m.sb

abbrev pub used : Mount → ℕ → Bool
used m j = bit_get m.bitmap.l0_bits j

-- Marking or unmarking leaves the sizes.
pub SameBits-update_summaries :
    (first last : ℕ) (dir : Direction) (h : HierBitmap)
    → SameBits h (update_summaries first last dir h)
unfolding update_summaries
SameBits-update_summaries first last dir h =
    SameBits-update_pages (last / bits_per_page + 1 - first / bits_per_page) (first / bits_per_page)
      first last dir h

-- A flush leaves all of the mount but its device.
pub flush-bitmap : (a b : ℕ) (m : Mount) → (flush_dirty_pages a b m).1.bitmap ≡ m.bitmap
unfolding flush_dirty_pages
flush-bitmap a b m = refl

pub flush-sb : (a b : ℕ) (m : Mount) → (flush_dirty_pages a b m).1.sb ≡ m.sb
unfolding flush_dirty_pages
flush-sb a b m = refl

-- The map after `n` blocks from `s` on were taken, the rest being as it was.
abbrev pub Takes : ℕ → ℕ → Mount → Mount → Type 0
Takes s n m m' = (j : ℕ) → used m' j ≡ (if within s n j then true else used m j)

abbrev pub Gives : ℕ → ℕ → Mount → Mount → Type 0
Gives s n m m' = (j : ℕ) → used m' j ≡ (if within s n j then false else used m j)

abbrev pub SameUsed : Mount → Mount → Type 0
SameUsed m m' = (j : ℕ) → used m' j ≡ used m j

abbrev pub UsedRun : Mount → ℕ → ℕ → Type 0
UsedRun m s n = (i : ℕ) → s ≤ i → i < s + n → used m i ≡ true

-- What `take_run` leaves, with its two outcomes.
abbrev pub TakeRun : ℕ → ℕ → Mount → Result ℕ × Mount → Type 0
TakeRun n s m (ok lba, m') = (lba ≡ s) × Takes s n m m' × IsMounted m' × (m'.sb ≡ m.sb)
TakeRun n s m (err e, m') = SameUsed m m' × IsMounted m' × (m'.sb ≡ m.sb)

-- What `release_run` leaves, with its two outcomes.
abbrev pub ReleaseRun : ℕ → ℕ → Mount → Result (Unit {0}) × Mount → Type 0
ReleaseRun n s m (ok _, m') = Gives s n m m' × IsMounted m' × (m'.sb ≡ m.sb)
ReleaseRun n s m (err e, m') = SameUsed m m' × IsMounted m' × (m'.sb ≡ m.sb)

pub scan_limit-le : (m : Mount) → IsMounted m → scan_limit m ≡ m.bitmap.total_blocks
unfolding scan_limit
scan_limit-le m v = rw (← v.sized) (ground (arith, v.summed.covered))

marked-Takes :
    (n s : ℕ) (h : HierBitmap) (j : ℕ)
    → bit_get (update_summaries s (last_bit s n) taken (mark s n h)).l0_bits j
      ≡ (if within s n j then true else bit_get h.l0_bits j)
unfolding mark
marked-Takes n s h j =
    ap (λ (b : Bytes). bit_get b j)
      (SameBits-update_summaries s (last_bit s n) taken (mark s n h)).bits
    ∙ bit_get-set_run n s h.l0_bits j

unmarked-Gives :
    (n s : ℕ) (h : HierBitmap) (j : ℕ)
    → bit_get (update_summaries s (last_bit s n) given (unmark s n h)).l0_bits j
      ≡ (if within s n j then false else bit_get h.l0_bits j)
unfolding unmark
unmarked-Gives n s h j =
    ap (λ (b : Bytes). bit_get b j)
      (SameBits-update_summaries s (last_bit s n) given (unmark s n h)).bits
    ∙ bit_get-clr_run n s h.l0_bits j

mark-blocks :
    (n s : ℕ) (h : HierBitmap)
    → (update_summaries s (last_bit s n) taken (mark s n h)).total_blocks ≡ h.total_blocks
unfolding mark
mark-blocks n s h = (SameBits-update_summaries s (last_bit s n) taken (mark s n h)).blocks

unmark-blocks :
    (n s : ℕ) (h : HierBitmap)
    → (update_summaries s (last_bit s n) given (unmark s n h)).total_blocks ≡ h.total_blocks
unfolding unmark
unmark-blocks n s h = (SameBits-update_summaries s (last_bit s n) given (unmark s n h)).blocks

within-true : (s n j : ℕ) → within s n j ≡ true → (s ≤ j) × (j < s + n)
within-true s n j h = (ground arith, ground arith)

unmark-mark :
    (n s : ℕ) (h : HierBitmap)
    → FreeIn h.l0_bits s (s + n)
    → (j : ℕ)
    → bit_get
        (update_summaries s
          (last_bit s n)
          given
          (unmark s n (update_summaries s (last_bit s n) taken (mark s n h)))).l0_bits
        j
      ≡ bit_get h.l0_bits j
unmark-mark n s h free j =
    unmarked-Gives n s (update_summaries s (last_bit s n) taken (mark s n h)) j
    ∙ elim (Bool-cases (within s n j)) [
      | inl here ↦ let (p, q) = within-true s n j here in rw here (sym (free j p q))
      | inr away ↦ rw away (marked-Takes n s h j ∙ rw away refl)
    ]

mark-unmark :
    (n s : ℕ) (h : HierBitmap)
    → ((i : ℕ) → s ≤ i → i < s + n → bit_get h.l0_bits i ≡ true)
    → (j : ℕ)
    → bit_get
        (update_summaries s
          (last_bit s n)
          taken
          (mark s n (update_summaries s (last_bit s n) given (unmark s n h)))).l0_bits
        j
      ≡ bit_get h.l0_bits j
mark-unmark n s h run j =
    marked-Takes n s (update_summaries s (last_bit s n) given (unmark s n h)) j
    ∙ elim (Bool-cases (within s n j)) [
      | inl here ↦ let (p, q) = within-true s n j here in rw here (sym (run j p q))
      | inr away ↦ rw away (unmarked-Gives n s h j ∙ rw away refl)
    ]

-- A mount whose bitmap is right and whose superblock was not touched.
IsMounted-with :
    (h : HierBitmap) (m m' : Mount)
    → IsMounted m
    → IsSummed h
    → h.total_blocks ≡ m.bitmap.total_blocks
    → m'.bitmap ≡ h
    → m'.sb ≡ m.sb
    → IsMounted m'
IsMounted-with h m m' v sum size b e = record {
  summed = subst (λ k. IsSummed k) (sym b) sum;
  sized =
      ap (λ (k : HierBitmap). k.total_blocks) b
      ∙ size
      ∙ v.sized
      ∙ ap (load Superblock.device_capacity_blocks) (sym e);
}

module _ (n s : ℕ) (m : Mount) (v : IsMounted m) (pos : 0 < n)
    (le : s + n ≤ m.bitmap.total_blocks) where
  module _ (free : FreeIn m.bitmap.l0_bits s (s + n)) where
    abbrev after_mark : HierBitmap
    after_mark = update_summaries s (last_bit s n) taken (mark s n m.bitmap)

    settle_taken-TakeRun :
        (p : Result (Unit {0}) × Mount)
        → p.1.bitmap ≡ after_mark
        → p.1.sb ≡ m.sb
        → TakeRun n s m (settle_taken n s p)
    unfolding settle_taken
    settle_taken-TakeRun (ok _, m') b e = (
      refl,
      (λ j. ap (λ (h : HierBitmap). bit_get h.l0_bits j) b ∙ marked-Takes n s m.bitmap j),
      IsMounted-with after_mark m m' v (mark-IsSummed m.bitmap s n v.summed free pos le)
          (mark-blocks n s m.bitmap) b e,
      e,
    )
    settle_taken-TakeRun (err x, m') b e = (
      (λ j.
          ap
            (λ (h : HierBitmap).
              bit_get (update_summaries s (last_bit s n) given (unmark s n h)).l0_bits j)
            b
          ∙ unmark-mark n s m.bitmap free j),
      IsMounted-with (update_summaries s (last_bit s n) given (unmark s n after_mark)) m
          (record m' { bitmap = update_summaries s (last_bit s n) given (unmark s n m'.bitmap) }) v
          (unmark-IsSummed after_mark s n (mark-IsSummed m.bitmap s n v.summed free pos le)
            (λ i p q. marked-Takes n s m.bitmap i ∙ ground arith) pos
            (rw (mark-blocks n s m.bitmap) le))
          (unmark-blocks n s after_mark ∙ mark-blocks n s m.bitmap)
          (ap (λ (h : HierBitmap). update_summaries s (last_bit s n) given (unmark s n h)) b) e,
      e,
    )

    pub take_run-TakeRun : TakeRun n s m (take_run n s m)
    unfolding take_run
    take_run-TakeRun =
        settle_taken-TakeRun (flush_dirty_pages s (last_bit s n) (record m { bitmap = after_mark }))
          (flush-bitmap s (last_bit s n) (record m { bitmap = after_mark }))
          (flush-sb s (last_bit s n) (record m { bitmap = after_mark }))

  module _ (run : UsedRun m s n) where
    abbrev after_unmark : HierBitmap
    after_unmark = update_summaries s (last_bit s n) given (unmark s n m.bitmap)

    after_unmark-free : FreeIn after_unmark.l0_bits s (s + n)
    after_unmark-free i p q = unmarked-Gives n s m.bitmap i ∙ ground arith

    settle_given-ReleaseRun :
        (p : Result (Unit {0}) × Mount)
        → p.1.bitmap ≡ after_unmark
        → p.1.sb ≡ m.sb
        → ReleaseRun n s m (settle_given s n p)
    unfolding settle_given
    settle_given-ReleaseRun (ok _, m') b e = (
      (λ j. ap (λ (h : HierBitmap). bit_get h.l0_bits j) b ∙ unmarked-Gives n s m.bitmap j),
      IsMounted-with after_unmark m m' v (unmark-IsSummed m.bitmap s n v.summed run pos le)
          (unmark-blocks n s m.bitmap) b e,
      e,
    )
    settle_given-ReleaseRun (err x, m') b e = (
      (λ j.
          ap
            (λ (h : HierBitmap).
              bit_get (update_summaries s (last_bit s n) taken (mark s n h)).l0_bits j)
            b
          ∙ mark-unmark n s m.bitmap run j),
      IsMounted-with (update_summaries s (last_bit s n) taken (mark s n after_unmark)) m
          (record m' { bitmap = update_summaries s (last_bit s n) taken (mark s n m'.bitmap) }) v
          (mark-IsSummed after_unmark s n (unmark-IsSummed m.bitmap s n v.summed run pos le)
            after_unmark-free pos (rw (unmark-blocks n s m.bitmap) le))
          (mark-blocks n s after_unmark ∙ unmark-blocks n s m.bitmap)
          (ap (λ (h : HierBitmap). update_summaries s (last_bit s n) taken (mark s n h)) b) e,
      e,
    )

    pub release_run-ReleaseRun : ReleaseRun n s m (release_run s n m)
    unfolding release_run
    release_run-ReleaseRun =
        settle_given-ReleaseRun
          (flush_dirty_pages s (last_bit s n) (record m { bitmap = after_unmark }))
          (flush-bitmap s (last_bit s n) (record m { bitmap = after_unmark }))
          (flush-sb s (last_bit s n) (record m { bitmap = after_unmark }))
