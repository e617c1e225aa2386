-- ===== src/Alloc/Shares.antt =====
-- What `update_summaries` does to the counts of free blocks, in closed form.
use mini_fs.Base.{
  ℕ, zero, suc, ◌+◌, ◌-◌, ◌*◌, ◌/◌, ◌≤◌, ◌<◌, min, max, ◌≡◌, refl, sym, ap, ◌∙◌, ◌⊎◌, inl, inr,
  Bool, true, arith, ◌==◌, if◌then◌else◌, Bool-cases, u32_mod, u64_mod, u32,
}
use mini_fs.Format.Consts.{bits_per_page, pages_per_group}
use mini_fs.State.{HierBitmap}
use mini_fs.Alloc.Sums.{sum_pages, sum_pages_trim}
use mini_fs.Alloc.Summary.{Direction, taken, given, adjust, page_share, update_page, update_pages}

-- How many numbers `s ≤ i < e` lie in `lo ≤ i < hi`.
abbrev pub overlap : ℕ → ℕ → ℕ → ℕ → ℕ
overlap s e lo hi = min e hi - max s lo

-- The pages of group `g`, and all pages.
abbrev pub in_group : ℕ → ℕ → Bool
in_group g p = g == p / pages_per_group

abbrev pub any_page : ℕ → Bool
any_page p = true

pub page_share-eq-overlap :
    (p first last : ℕ)
    → page_share p first last
      ≡ overlap first (last + 1) (p * bits_per_page) (p * bits_per_page + bits_per_page)
unfolding page_share
page_share-eq-overlap p first last = ground arith

pub adjust-adjust :
    (dir : Direction) (a b c : ℕ) → adjust dir a (adjust dir b c) ≡ adjust dir (b + a) c
unfolding adjust
adjust-adjust taken a b c = omega arith
adjust-adjust given a b c = omega arith

pub adjust_zero : (dir : Direction) (c : ℕ) → c < u64_mod → adjust dir 0 c ≡ c
unfolding adjust
adjust_zero taken c h = omega arith
adjust_zero given c h = omega arith

pub adjust-lt : (dir : Direction) (a c : ℕ) → adjust dir a c < u64_mod
unfolding adjust
adjust-lt taken a c = omega arith
adjust-lt given a c = omega arith

l1-update_page :
    (share p : ℕ) (dir : Direction) (h : HierBitmap) (g : ℕ)
    → p / pages_per_group < u32_mod
    → (update_page share (u32 (p / pages_per_group)) dir h).l1_free_counts g ≡ (
        if g == p / pages_per_group
        then adjust dir share (h.l1_free_counts g)
        else h.l1_free_counts g)
unfolding update_page
l1-update_page share p dir h g small =
    let e : u32 (p / pages_per_group) ≡ p / pages_per_group = omega arith in rw e

-- The count of group `g` changes by the shares of the pages that belong to it.
pub l1-update_pages :
    (rounds p first last : ℕ) (dir : Direction) (h : HierBitmap) (g : ℕ)
    → (p + rounds) / pages_per_group < u32_mod
    → h.l1_free_counts g < u64_mod
    → (update_pages rounds p first last dir h).l1_free_counts g
      ≡ adjust dir
          (sum_pages (in_group g) (λ i. page_share i first last) rounds p)
          (h.l1_free_counts g)
unfolding update_pages sum_pages
l1-update_pages zero p first last dir h g small lt = sym (adjust_zero dir (h.l1_free_counts g) lt)
l1-update_pages (suc rounds) p first last dir h g small lt =
    let share = page_share p first last in
    let h' = update_page share (u32 (p / pages_per_group)) dir h in
    let one = l1-update_page share p dir h g (omega arith) in
    let rest = l1-update_pages rounds (p + 1) first last dir h' g (omega arith) in
    elim (Bool-cases (g == p / pages_per_group)) [
      | inl e ↦
          let one' : h'.l1_free_counts g ≡ adjust dir share (h.l1_free_counts g) = one ∙ (rw e) in
          rw e (
            rest (rw one' (adjust-lt dir share (h.l1_free_counts g)))
            ∙ ap (adjust dir (sum_pages (in_group g) (λ i. page_share i first last) rounds (p + 1)))
                one'
            ∙ adjust-adjust dir
                (sum_pages (in_group g) (λ i. page_share i first last) rounds (p + 1)) share
                (h.l1_free_counts g))
      | inr e ↦
          let one' : h'.l1_free_counts g ≡ h.l1_free_counts g = one ∙ (rw e) in
          rw e (
            rest (rw one' lt)
            ∙ ap (adjust dir (sum_pages (in_group g) (λ i. page_share i first last) rounds (p + 1)))
                one'
            ∙ ap (λ k. adjust dir k (h.l1_free_counts g)) (omega arith))
    ]

-- The total changes by the shares of all the pages.
pub l2-update_pages :
    (rounds p first last : ℕ) (dir : Direction) (h : HierBitmap)
    → h.l2_total_free < u64_mod
    → (update_pages rounds p first last dir h).l2_total_free
      ≡ adjust dir (sum_pages any_page (λ i. page_share i first last) rounds p) h.l2_total_free
unfolding update_pages update_page sum_pages
l2-update_pages zero p first last dir h lt = sym (adjust_zero dir h.l2_total_free lt)
l2-update_pages (suc rounds) p first last dir h lt =
    let share = page_share p first last in
    l2-update_pages rounds (p + 1) first last dir
      (update_page share (u32 (p / pages_per_group)) dir h) (adjust-lt dir share h.l2_total_free)
    ∙ adjust-adjust dir (sum_pages any_page (λ i. page_share i first last) rounds (p + 1)) share
        h.l2_total_free

-- The bits and the sizes are not touched.
pub record SameBits (h h' : HierBitmap) : Type 0 where
  pub bits : h'.l0_bits ≡ h.l0_bits
  pub blocks : h'.total_blocks ≡ h.total_blocks
  pub pages : h'.num_pages ≡ h.num_pages
  pub groups : h'.num_groups ≡ h.num_groups

pub SameBits-update_pages :
    (rounds p first last : ℕ) (dir : Direction) (h : HierBitmap)
    → SameBits h (update_pages rounds p first last dir h)
unfolding update_pages update_page
SameBits-update_pages zero p first last dir h = record {
  bits = refl;
  blocks = refl;
  pages = refl;
  groups = refl;
}
SameBits-update_pages (suc rounds) p first last dir h =
    let r =
      SameBits-update_pages rounds (p + 1) first last dir
        (update_page (page_share p first last) (u32 (p / pages_per_group)) dir h) in
    record { bits = r.bits; blocks = r.blocks; pages = r.pages; groups = r.groups }

-- Only the pages of the range have a share.
page_share-outside :
    (p first last : ℕ)
    → first ≤ last
    → (p < first / bits_per_page) ⊎ (last / bits_per_page < p)
    → page_share p first last ≡ 0
page_share-outside p first last le (inl h) = omega (arith, page_share-eq-overlap p first last)
page_share-outside p first last le (inr h) = omega (arith, page_share-eq-overlap p first last)

-- So the shares of all pages make up the loop over the pages of the range.
pub shares_trim :
    (w : ℕ → Bool) (first last n : ℕ)
    → first ≤ last
    → last < n * bits_per_page
    → sum_pages w (λ p. page_share p first last) n 0
      ≡ sum_pages w
          (λ p. page_share p first last)
          (last / bits_per_page + 1 - first / bits_per_page)
          (first / bits_per_page)
shares_trim w first last n le lt =
    sum_pages_trim w (λ p. page_share p first last) (first / bits_per_page)
      (last / bits_per_page + 1) n (omega arith) (omega arith) (outside first last le)
  where
    outside :
        (first last : ℕ)
        → first ≤ last
        → (i : ℕ) → (i < first / bits_per_page) ⊎ (last / bits_per_page + 1 ≤ i)
        → page_share i first last ≡ 0
    outside first last le i (inl h) = page_share-outside i first last le (inl h)
    outside first last le i (inr h) = page_share-outside i first last le (inr (omega arith))

share_sum-eq-overlap :
    (rounds p first last : ℕ)
    → sum_pages any_page (λ i. page_share i first last) rounds p
      ≡ overlap first (last + 1) (p * bits_per_page) ((p + rounds) * bits_per_page)
unfolding sum_pages
share_sum-eq-overlap zero p first last = omega arith
share_sum-eq-overlap (suc rounds) p first last =
    omega
      (arith, page_share-eq-overlap p first last, share_sum-eq-overlap rounds (p + 1) first last)

-- Over all pages the shares make up the range.
pub shares_any_page :
    (first last : ℕ)
    → first ≤ last
    → sum_pages any_page
        (λ p. page_share p first last)
        (last / bits_per_page + 1 - first / bits_per_page)
        (first / bits_per_page)
      ≡ last + 1 - first
shares_any_page first last le = omega (
  arith,
  share_sum-eq-overlap (last / bits_per_page + 1 - first / bits_per_page) (first / bits_per_page)
      first last,
)
