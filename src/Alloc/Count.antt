-- ===== src/Alloc/Count.antt =====
-- The number of free blocks, counted bit by bit, against the summaries of the bitmap.
use mini_fs.Base.{
  ℕ, zero, suc, ◌+◌, ◌-◌, ◌*◌, ◌≤◌, ◌<◌, min, ◌≡◌, ◌⊎◌, inl, inr, true, false, ◌&&◌, arith, ltb,
  leb, if◌then◌else◌, Bool-cases,
}
use mini_fs.Format.Bytes.{Bytes}
use mini_fs.Format.Consts.{bits_per_page}
use mini_fs.Bits.{bit_get}
use mini_fs.Alloc.Summary.{page_share}
use mini_fs.Alloc.Shares.{overlap, page_share-eq-overlap}

-- The free blocks among the `k` from `lo` on.
unfoldable pub count_free : Bytes → ℕ → ℕ → ℕ
count_free bm zero lo = 0
count_free bm (suc k) lo = (if bit_get bm lo then 0 else 1) + count_free bm k (lo + 1)

-- Two maps that differ on the run `s … e - 1` alone, which is free in one and used in the other.
abbrev pub Differ : Bytes → Bytes → ℕ → ℕ → Type 0
Differ free used s e =
    (j : ℕ) → bit_get used j ≡ (if leb s j && ltb j e then true else bit_get free j)

abbrev pub FreeIn : Bytes → ℕ → ℕ → Type 0
FreeIn bm s e = (i : ℕ) → s ≤ i → i < e → bit_get bm i ≡ false

count_free-Differ :
    (free used : Bytes) (s e : ℕ)
    → Differ free used s e
    → FreeIn free s e
    → (k lo : ℕ) → count_free free k lo ≡ count_free used k lo + overlap s e lo (lo + k)
unfolding count_free
count_free-Differ free used s e d f zero lo = omega arith
count_free-Differ free used s e d f (suc k) lo =
    let ih = count_free-Differ free used s e d f k (lo + 1) in
    elim (Bool-cases (leb s lo && ltb lo e)) [
      | inl here ↦
          let p : (s ≤ lo) × (lo < e) = (ground arith, ground arith) in
          rw (d lo, here, f lo p.0 p.1) (omega arith)
      | inr away ↦ let p : (lo < s) ⊎ (e ≤ lo) = grind arith in rw (d lo, away) (omega arith)
    ]

-- The blocks of page `p`, of `total` blocks in all.
abbrev pub page_blocks : ℕ → ℕ → ℕ
page_blocks total p = min (p * bits_per_page + bits_per_page) total - p * bits_per_page

unfoldable pub page_free : Bytes → ℕ → ℕ → ℕ
page_free bm total p = count_free bm (page_blocks total p) (p * bits_per_page)

pub page_free-Differ :
    (free used : Bytes) (total first last p : ℕ)
    → Differ free used first (last + 1)
    → FreeIn free first (last + 1)
    → last < total
    → page_free free total p ≡ page_free used total p + page_share p first last
unfolding page_free
page_free-Differ free used total first last p d f lt = omega (
  arith,
  count_free-Differ free used first (last + 1) d f (page_blocks total p) (p * bits_per_page),
  page_share-eq-overlap p first last,
)

count_free-le : (bm : Bytes) (k lo : ℕ) → count_free bm k lo ≤ k
unfolding count_free
count_free-le bm zero lo = omega arith
count_free-le bm (suc k) lo = ground (arith, count_free-le bm k (lo + 1))

pub page_free-le : (bm : Bytes) (total p : ℕ) → page_free bm total p ≤ bits_per_page
unfolding page_free
page_free-le bm total p = omega (arith, count_free-le bm (page_blocks total p) (p * bits_per_page))
