-- ===== src/Mounting/Claims.antt =====
-- The bitmap that a mount loads, and the invariant of the allocator.
use mini_fs.Base.{
  ℕ, zero, suc, ◌+◌, ◌-◌, ◌*◌, ◌/◌, ◌≤◌, ◌<◌, ◌≡◌, refl, ap, ◌∙◌, inl, inr, Bool, arith,
  if◌then◌else◌, Bool-cases, u32_mod, u64_mod, add64, u32,
}
use mini_fs.Format.Bytes.{Bytes}
use mini_fs.Format.Consts.{bits_per_page, pages_per_group}
use mini_fs.State.{HierBitmap}
use mini_fs.Alloc.Sums.{sum_pages, sum_pages-suc, sum_pages_ext}
use mini_fs.Alloc.Shares.{in_group, any_page}
use mini_fs.Alloc.Count.{page_free}
use mini_fs.Alloc.Valid.{IsSummed, free_pages, free_pages-lt, Summed-subst}
use mini_fs.Mounting.Load.{free_in_page, add_page, summarise, loaded}
use mini_fs.Mounting.Summaries.{ClearBehind, free_in_page-eq-page_free}

-- What the loop leaves of the bitmap it started with.
record Summarised (rounds p : ℕ) (h h' : HierBitmap) : Type 0 where
  bits : h'.l0_bits ≡ h.l0_bits
  total : h'.total_blocks ≡ h.total_blocks
  pages : h'.num_pages ≡ h.num_pages

summarise-Summarised :
    (rounds p : ℕ) (h : HierBitmap) → Summarised rounds p h (summarise rounds p h)
unfolding summarise add_page
summarise-Summarised zero p h = record { bits = refl; total = refl; pages = refl }
summarise-Summarised (suc rounds) p h =
    let r = summarise-Summarised rounds (p + 1) (add_page p h) in
    record { bits = r.bits; total = r.total; pages = r.pages }

l1-add_page :
    (p : ℕ) (h : HierBitmap) (g : ℕ)
    → p / pages_per_group < u32_mod
    → (add_page p h).l1_free_counts g ≡ (
        if in_group g p
        then add64 (h.l1_free_counts g) (free_in_page h.l0_bits h.total_blocks p)
        else h.l1_free_counts g)
unfolding add_page
l1-add_page p h g small =
    let e : u32 (p / pages_per_group) ≡ p / pages_per_group = omega arith in rw e

l2-add_page :
    (p : ℕ) (h : HierBitmap)
    → (add_page p h).l2_total_free ≡ add64 h.l2_total_free (free_in_page h.l0_bits h.total_blocks p)
unfolding add_page
l2-add_page p h = refl

bits-add_page : (p : ℕ) (h : HierBitmap) → (add_page p h).l0_bits ≡ h.l0_bits
unfolding add_page
bits-add_page p h = refl

total-add_page : (p : ℕ) (h : HierBitmap) → (add_page p h).total_blocks ≡ h.total_blocks
unfolding add_page
total-add_page p h = refl

module _ (bm : Bytes) (total : ℕ) where
  abbrev page_sum : (ℕ → Bool) → ℕ → ℕ → ℕ
  page_sum w rounds p = sum_pages w (free_in_page bm total) rounds p

  free_in_page-of :
      (p : ℕ) (h : HierBitmap)
      → h.l0_bits ≡ bm
      → h.total_blocks ≡ total
      → free_in_page h.l0_bits h.total_blocks p ≡ free_in_page bm total p
  free_in_page-of p h b t =
      ap (λ (x : Bytes). free_in_page x h.total_blocks p) b ∙ ap (λ (y : ℕ). free_in_page bm y p) t

  summarise-l1 :
      (rounds p : ℕ) (h : HierBitmap) (g : ℕ)
      → h.l0_bits ≡ bm
      → h.total_blocks ≡ total
      → (p + rounds) / pages_per_group < u32_mod
      → h.l1_free_counts g + page_sum (in_group g) rounds p < u64_mod
      → (summarise rounds p h).l1_free_counts g
        ≡ h.l1_free_counts g + page_sum (in_group g) rounds p
  unfolding summarise
  summarise-l1 zero p h g b t small lt = unfold sum_pages in omega arith
  summarise-l1 (suc rounds) p h g b t small lt =
      let step = sum_pages-suc (in_group g) (free_in_page bm total) rounds p in
      let one = l1-add_page p h g (omega arith) in
      let ih =
        summarise-l1 rounds (p + 1) (add_page p h) g (bits-add_page p h ∙ b)
          (total-add_page p h ∙ t) (omega arith) in
      let fe = free_in_page-of p h b t in
      elim (Bool-cases (in_group g p)) [
        | inl e ↦
            let one' : (add_page p h).l1_free_counts g
                ≡ add64 (h.l1_free_counts g) (free_in_page h.l0_bits h.total_blocks p) =
              one ∙ (rw e) in
            let step' : page_sum (in_group g) (suc rounds) p
                ≡ free_in_page bm total p + page_sum (in_group g) rounds (p + 1) =
              step ∙ (rw e) in
            omega (arith, one', step', fe, ih (omega (arith, one', step', fe)))
        | inr e ↦
            let one' : (add_page p h).l1_free_counts g ≡ h.l1_free_counts g = one ∙ (rw e) in
            let step' : page_sum (in_group g) (suc rounds) p
                ≡ 0 + page_sum (in_group g) rounds (p + 1) =
              step ∙ (rw e) in
            omega (arith, one', step', ih (omega (arith, one', step')))
      ]

  summarise-l2 :
      (rounds p : ℕ) (h : HierBitmap)
      → h.l0_bits ≡ bm
      → h.total_blocks ≡ total
      → h.l2_total_free + page_sum any_page rounds p < u64_mod
      → (summarise rounds p h).l2_total_free ≡ h.l2_total_free + page_sum any_page rounds p
  unfolding summarise
  summarise-l2 zero p h b t lt = unfold sum_pages in omega arith
  summarise-l2 (suc rounds) p h b t lt =
      let step = sum_pages-suc any_page (free_in_page bm total) rounds p in
      let one = l2-add_page p h in
      let ih =
        summarise-l2 rounds (p + 1) (add_page p h) (bits-add_page p h ∙ b)
          (total-add_page p h ∙ t) in
      let fe = free_in_page-of p h b t in
      omega (arith, one, step, fe, ih (omega (arith, one, step, fe)))

-- The summaries of a loaded bitmap are the numbers of free blocks of the groups and of the device,
-- where the pages cover the device, fewer than 2^32 of them, and no bit behind its end is set.
pub loaded-IsSummed :
    (pages total : ℕ) (bm : Bytes)
    → total ≤ pages * bits_per_page
    → pages < u32_mod
    → ClearBehind bm total
    → IsSummed (loaded pages total bm)
unfolding loaded
loaded-IsSummed pages total bm covered small clear =
    let h0 : HierBitmap = record {
      total_blocks = total;
      num_pages = pages;
      l0_bits = bm;
      num_groups = u32 ((pages + pages_per_group - 1) / pages_per_group);
      l1_free_counts = λ g. 0;
      l2_total_free = 0;
    } in
    let same = summarise-Summarised pages 0 h0 in
    Summed-subst same.total same.pages same.bits (record {
      covered = covered;
      small = small;
      groups = λ g.
          let sums = page_sums (in_group g) in
          let bound = free_pages-lt total pages bm (in_group g) small in
          omega (
            arith,
            sums,
            bound,
            summarise-l1 bm total pages 0 h0 g refl refl (omega arith) (omega (arith, sums, bound)),
          );
      whole =
          let sums = page_sums any_page in
          let bound = free_pages-lt total pages bm any_page small in
          omega (
            arith,
            sums,
            bound,
            summarise-l2 bm total pages 0 h0 refl refl (omega (arith, sums, bound)),
          );
    })
  where
    page_sums :
        (w : ℕ → Bool) → sum_pages w (free_in_page bm total) pages 0 ≡ free_pages total pages bm w
    page_sums w =
        sum_pages_ext w (free_in_page bm total) (page_free bm total) pages 0
          (λ i. free_in_page-eq-page_free bm total i clear)
