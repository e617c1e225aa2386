-- ===== src/Alloc/Valid.antt =====
-- The invariant of the hierarchical bitmap, and `update_summaries` after a run of blocks was marked
-- or unmarked.
use mini_fs.Base.{
  ℕ, ◌+◌, ◌-◌, ◌*◌, ◌/◌, ◌≤◌, ◌<◌, ◌≡◌, refl, ◌∙◌, inl, inr, Bool, true, arith, Bool-cases, u32_mod,
  u64_mod,
}
use mini_fs.Format.Bytes.{Bytes}
use mini_fs.Format.Consts.{bits_per_page}
use mini_fs.Bits.{bit_get, set_run, clr_run, within, bit_get-set_run, bit_get-clr_run}
use mini_fs.State.{HierBitmap}
use mini_fs.Alloc.Sums.{sum_pages, sum_pages_plus, sum_pages-le}
use mini_fs.Alloc.Summary.{taken, given, adjust, page_share}
use mini_fs.Alloc.Shares.{
  in_group, any_page, shares_any_page, l1-update_pages, l2-update_pages, SameBits-update_pages,
  shares_trim,
}
use mini_fs.Alloc.Count.{Differ, FreeIn, page_free, page_free-Differ, page_free-le}
use mini_fs.Alloc.Block.{update_summaries, mark, unmark}

-- The free blocks of the pages that `w` selects, counted bit by bit.
abbrev pub free_pages : (total pages : ℕ) → Bytes → (ℕ → Bool) → ℕ
free_pages total pages bm w = sum_pages w (page_free bm total) pages 0

-- The pages cover the blocks, and every summary is the number of free blocks that it stands for.
pub record Summed (total pages : ℕ) (bm : Bytes) (l1 : ℕ → ℕ) (l2 : ℕ) : Type 0 where
  pub covered : total ≤ pages * bits_per_page
  pub small : pages < u32_mod
  pub groups : (g : ℕ) → l1 g ≡ free_pages total pages bm (in_group g)
  pub whole : l2 ≡ free_pages total pages bm any_page

abbrev pub IsSummed : HierBitmap → Type 0
IsSummed h = Summed h.total_blocks h.num_pages h.l0_bits h.l1_free_counts h.l2_total_free

pub Summed-subst :
    {t t' p p' : ℕ} {b b' : Bytes} {l1 : ℕ → ℕ} {l2 : ℕ}
    → t' ≡ t
    → p' ≡ p
    → b' ≡ b
    → Summed t p b l1 l2
    → Summed t' p' b' l1 l2
Summed-subst et ep eb v = rw (et, ep, eb) v

pub free_pages-lt :
    (total pages : ℕ) (bm : Bytes) (w : ℕ → Bool)
    → pages < u32_mod
    → free_pages total pages bm w < u64_mod
free_pages-lt total pages bm w small =
    omega (arith, sum_pages-le w (page_free bm total) bits_per_page (page_free-le bm total) pages 0)

-- The share of the pages that `w` selects in the bits `first … last`.
abbrev pub shares : (ℕ → Bool) → ℕ → ℕ → ℕ
shares w first last =
    sum_pages w (λ p. page_share p first last) (last / bits_per_page + 1 - first / bits_per_page)
      (first / bits_per_page)

module _ (total pages first last : ℕ) (free used : Bytes) (covered : total ≤ pages * bits_per_page)
    (d : Differ free used first (last + 1)) (f : FreeIn free first (last + 1)) (le : first ≤ last)
    (lt : last < total) where
  free_pages-Differ :
      (w : ℕ → Bool)
      → free_pages total pages free w ≡ free_pages total pages used w + shares w first last
  free_pages-Differ w = omega (
    arith,
    sum_pages_plus w (page_free free total) (page_free used total) (λ p. page_share p first last)
        pages 0 (λ i a b. page_free-Differ free used total first last i d f lt),
    shares_trim w first last pages le (omega arith),
  )

  -- After blocks were marked the summaries go down by the shares of the pages.
  Summed-taken :
      (h : HierBitmap)
      → pages < u32_mod
      → h.total_blocks ≡ total
      → h.num_pages ≡ pages
      → h.l0_bits ≡ used
      → ((g : ℕ) → h.l1_free_counts g ≡ free_pages total pages free (in_group g))
      → h.l2_total_free ≡ free_pages total pages free any_page
      → IsSummed (update_summaries first last taken h)
  unfolding update_summaries adjust
  Summed-taken h small t p b l1 l2 =
      let lo = first / bits_per_page in
      let n = last / bits_per_page + 1 - lo in
      let same = SameBits-update_pages n lo first last taken h in
      Summed-subst (same.blocks ∙ t) (same.pages ∙ p) (same.bits ∙ b) (record {
        covered = covered;
        small = small;
        groups = λ g.
            let bound = free_pages-lt total pages free (in_group g) small in
            omega (
              arith,
              l1 g,
              bound,
              free_pages-Differ (in_group g),
              l1-update_pages n lo first last taken h g (omega arith) (omega (arith, l1 g, bound)),
            );
        whole =
            let bound = free_pages-lt total pages free any_page small in
            omega (
              arith,
              bound,
              free_pages-Differ any_page,
              l2-update_pages n lo first last taken h (omega (arith, bound)),
            );
      })

  -- After blocks were unmarked the summaries go up by the shares of the pages.
  Summed-given :
      (h : HierBitmap)
      → pages < u32_mod
      → h.total_blocks ≡ total
      → h.num_pages ≡ pages
      → h.l0_bits ≡ free
      → ((g : ℕ) → h.l1_free_counts g ≡ free_pages total pages used (in_group g))
      → h.l2_total_free ≡ free_pages total pages used any_page
      → IsSummed (update_summaries first last given h)
  unfolding update_summaries adjust
  Summed-given h small t p b l1 l2 =
      let lo = first / bits_per_page in
      let n = last / bits_per_page + 1 - lo in
      let same = SameBits-update_pages n lo first last given h in
      Summed-subst (same.blocks ∙ t) (same.pages ∙ p) (same.bits ∙ b) (record {
        covered = covered;
        small = small;
        groups = λ g.
            let bound = free_pages-lt total pages used (in_group g) small in
            let bound' = free_pages-lt total pages free (in_group g) small in
            omega (
              arith,
              l1 g,
              bound',
              free_pages-Differ (in_group g),
              l1-update_pages n lo first last given h g (omega arith) (omega (arith, l1 g, bound)),
            );
        whole =
            let bound = free_pages-lt total pages used any_page small in
            let bound' = free_pages-lt total pages free any_page small in
            omega (
              arith,
              bound',
              free_pages-Differ any_page,
              l2-update_pages n lo first last given h (omega (arith, bound)),
            );
      })

abbrev pub last_bit : ℕ → ℕ → ℕ
last_bit s n = s + n - 1

Differ-set_run : (n s : ℕ) (bm : Bytes) → 0 < n → Differ bm (set_run n s bm) s (last_bit s n + 1)
Differ-set_run n s bm pos j =
    let e : last_bit s n + 1 ≡ s + n = omega arith in rw e (bit_get-set_run n s bm j)

-- A run that is used in `bm` is free once it is cleared, and differs from `bm` there alone.
Differ-clr_run :
    (n s : ℕ) (bm : Bytes)
    → 0 < n
    → ((i : ℕ) → s ≤ i → i < s + n → bit_get bm i ≡ true)
    → Differ (clr_run n s bm) bm s (last_bit s n + 1)
Differ-clr_run n s bm pos used j =
    let e : last_bit s n + 1 ≡ s + n = omega arith in
    elim (Bool-cases (within s n j)) [
      | inl here ↦ rw (e, here) (used j (ground arith) (ground arith))
      | inr away ↦ rw (e, away, bit_get-clr_run n s bm j, away) refl
    ]

FreeIn-clr_run : (n s : ℕ) (bm : Bytes) → 0 < n → FreeIn (clr_run n s bm) s (last_bit s n + 1)
FreeIn-clr_run n s bm pos i p q = ground (arith, bit_get-clr_run n s bm i)

-- Marking a free run keeps the invariant.
pub mark-IsSummed :
    (h : HierBitmap) (s n : ℕ)
    → IsSummed h
    → FreeIn h.l0_bits s (s + n)
    → 0 < n
    → s + n ≤ h.total_blocks
    → IsSummed (update_summaries s (last_bit s n) taken (mark s n h))
unfolding mark
mark-IsSummed h s n v free pos le =
    Summed-taken h.total_blocks h.num_pages s (last_bit s n) h.l0_bits (set_run n s h.l0_bits)
      v.covered (Differ-set_run n s h.l0_bits pos) (λ i p q. free i p (omega arith)) (omega arith)
      (omega arith) (mark s n h) v.small refl refl refl v.groups v.whole

-- Unmarking a used run keeps the invariant.
pub unmark-IsSummed :
    (h : HierBitmap) (s n : ℕ)
    → IsSummed h
    → ((i : ℕ) → s ≤ i → i < s + n → bit_get h.l0_bits i ≡ true)
    → 0 < n
    → s + n ≤ h.total_blocks
    → IsSummed (update_summaries s (last_bit s n) given (unmark s n h))
unfolding unmark
unmark-IsSummed h s n v used pos le =
    Summed-given h.total_blocks h.num_pages s (last_bit s n) (clr_run n s h.l0_bits) h.l0_bits
      v.covered (Differ-clr_run n s h.l0_bits pos used) (FreeIn-clr_run n s h.l0_bits pos)
      (omega arith) (omega arith) (unmark s n h) v.small refl refl refl v.groups v.whole

-- A free run is counted in the total.
pub free_run-le :
    (h : HierBitmap) (s n : ℕ)
    → IsSummed h
    → FreeIn h.l0_bits s (s + n)
    → 0 < n
    → s + n ≤ h.total_blocks
    → n ≤ h.l2_total_free
free_run-le h s n v free pos le = omega (
  arith,
  v.whole,
  free_pages-Differ h.total_blocks h.num_pages s (last_bit s n) h.l0_bits (set_run n s h.l0_bits)
      v.covered (Differ-set_run n s h.l0_bits pos) (λ i p q. free i p (omega arith)) (omega arith)
      (omega arith) any_page,
  shares_any_page s (last_bit s n) (omega arith),
)
