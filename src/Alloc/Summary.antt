-- ===== src/Alloc/Summary.antt =====
-- The loop of `update_summaries` over the pages of a range of bits.
use mini_fs.Base.{ℕ, zero, suc, ◌+◌, ◌-◌, ◌*◌, ◌/◌, ltb, ◌==◌, if◌then◌else◌, add64, sub64, u32}
use mini_fs.Format.Consts.{bits_per_page, pages_per_group}
use mini_fs.State.{HierBitmap}

-- `alloc_dir`: +1 when blocks were just taken, -1 when they were given back
pub data Direction : Type 0 where
  taken given : Direction

-- A count of free blocks after `k` were taken or given back.
unfoldable pub adjust : Direction → ℕ → ℕ → ℕ
adjust taken k count = sub64 count k
adjust given k count = add64 count k

-- The bits of page `p` in `first_bit … last_bit`: `e - s`.
unfoldable pub page_share : ℕ → ℕ → ℕ → ℕ
page_share p first_bit last_bit =
    let ps = p * bits_per_page in
    let pe = ps + bits_per_page in
    let s = if ltb ps first_bit then first_bit else ps in
    let e = if ltb (last_bit + 1) pe then last_bit + 1 else pe in e - s

unfoldable pub update_page : ℕ → ℕ → Direction → HierBitmap → HierBitmap
unfolding adjust page_share
update_page share group dir h = record h {
  l1_free_counts =
      λ g. if g == group then adjust dir share (h.l1_free_counts g) else h.l1_free_counts g;
  l2_total_free = adjust dir share h.l2_total_free;
}

-- `rounds` pages are left from page `p` on.
unfoldable pub update_pages : ℕ → ℕ → ℕ → ℕ → Direction → HierBitmap → HierBitmap
unfolding update_page
update_pages zero p first_bit last_bit dir h = h
update_pages (suc rounds) p first_bit last_bit dir h =
    update_pages rounds (p + 1) first_bit last_bit dir
      (update_page (page_share p first_bit last_bit) (u32 (p / pages_per_group)) dir h)
