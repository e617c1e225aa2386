-- ===== src/Mounting/Summaries.antt =====
-- Lemmas on the counts of `nebula_hbm_load`: its bytes against single bits.
use mini_fs.Base.{
  ℕ, zero, suc, ◌+◌, ◌-◌, ◌*◌, ◌/◌, ◌%◌, ◌≤◌, ◌<◌, ◌≡◌, refl, sym, ap, true, false, arith, ◌==◌,
  if◌then◌else◌, ==→eq,
}
use mini_fs.Format.Bytes.{Bytes, at}
use mini_fs.Format.Consts.{block_size, bits_per_page}
use mini_fs.Bits.{bit_get, test_bit, table, table_at}
use native.Mathlib.Nat.{add-zero, zero-add}
use mini_fs.Alloc.Count.{count_free, page_free, page_blocks}
use mini_fs.Mounting.Load.{popcount8, count_bits, blocks_of_page, free_in_page}

abbrev ones : ℕ → ℕ → ℕ
ones x k = if test_bit x k then 1 else 0

abbrev bits_of : ℕ → ℕ
bits_of x = ones x 0 + ones x 1 + ones x 2 + ones x 3 + ones x 4 + ones x 5 + ones x 6 + ones x 7

popcount_table : table (λ x. popcount8 x == bits_of x) 256 ≡ true
unfolding table popcount8
popcount_table = refl

popcount8-bits_of : (x : ℕ) → x < 256 → popcount8 x ≡ bits_of x
popcount8-bits_of x h = ==→eq (popcount8 x) (bits_of x) (table_at _ 256 popcount_table h)

-- The used blocks among the `k` from `lo` on.
count_used : Bytes → ℕ → ℕ → ℕ
count_used bm zero lo = 0
count_used bm (suc k) lo = (if bit_get bm lo then 1 else 0) + count_used bm k (lo + 1)

bit_at :
    (bm : Bytes) (i j p : ℕ)
    → j < 8
    → p ≡ i * 8 + j
    → (if bit_get bm p then 1 else 0) ≡ ones (at bm i) j
unfolding bit_get
bit_at bm i j p h e =
    let q : p / 8 ≡ i = omega arith in let r : p % 8 ≡ j = omega arith in rw (q, r)

byte-count_used :
    (bm : Bytes) (i k lo : ℕ)
    → lo ≡ i * 8
    → count_used bm (suc (suc (suc (suc (suc (suc (suc (suc k)))))))) lo
      ≡ bits_of (at bm i) + count_used bm k (lo + 8)
unfolding count_used
byte-count_used bm i k lo e = omega (
  arith,
  bit_at bm i 0 lo (omega arith) (omega arith),
  bit_at bm i 1 (lo + 1) (omega arith) (omega arith),
  bit_at bm i 2 (lo + 1 + 1) (omega arith) (omega arith),
  bit_at bm i 3 (lo + 1 + 1 + 1) (omega arith) (omega arith),
  bit_at bm i 4 (lo + 1 + 1 + 1 + 1) (omega arith) (omega arith),
  bit_at bm i 5 (lo + 1 + 1 + 1 + 1 + 1) (omega arith) (omega arith),
  bit_at bm i 6 (lo + 1 + 1 + 1 + 1 + 1 + 1) (omega arith) (omega arith),
  bit_at bm i 7 (lo + 1 + 1 + 1 + 1 + 1 + 1 + 1) (omega arith) (omega arith),
  ap (λ (t : ℕ). count_used bm k t) (eight lo),
)
  where
    eight : (lo : ℕ) → lo + 1 + 1 + 1 + 1 + 1 + 1 + 1 + 1 ≡ lo + 8
    eight lo = omega arith

-- The bytes counted one by one hold the bits counted one by one.
count_bits-eq-count_used :
    (bm : Bytes) (n i : ℕ) → count_bits bm n i ≡ count_used bm (n * 8) (i * 8)
unfolding count_bits
count_bits-eq-count_used bm zero i = unfold count_used in refl
count_bits-eq-count_used bm (suc n) i =
    let e : suc n * 8 ≡ suc (suc (suc (suc (suc (suc (suc (suc (n * 8)))))))) = omega arith in
    let q : i * 8 + 8 ≡ (i + 1) * 8 = omega arith in
    rw (
      e,
      byte-count_used bm i (n * 8) (i * 8) refl,
      q,
      popcount8-bits_of (at bm i) (omega arith),
      count_bits-eq-count_used bm n (i + 1),
    )

-- The bits of a page split into those of blocks of the device and those behind its end.
count_used_split :
    (bm : Bytes) (a b lo : ℕ)
    → count_used bm (a + b) lo ≡ count_used bm a lo + count_used bm b (lo + a)
unfolding count_used
count_used_split bm zero b lo = rw (zero-add, add-zero) (sym (zero-add _))
count_used_split bm (suc a) b lo =
    let e : suc a + b ≡ suc (a + b) = omega arith in
    let q : lo + suc a ≡ lo + 1 + a = omega arith in
    rw (e, q, count_used_split bm a b (lo + 1)) (omega arith)

count_used_clear :
    (bm : Bytes) (k lo : ℕ)
    → ((i : ℕ) → lo ≤ i → i < lo + k → bit_get bm i ≡ false)
    → count_used bm k lo ≡ 0
unfolding count_used
count_used_clear bm zero lo h = refl
count_used_clear bm (suc k) lo h =
    rw
      (
        h lo (omega arith) (omega arith),
        count_used_clear bm k (lo + 1) (λ i p q. h i (omega arith) (omega arith)),
      )
      (omega arith)

count_used-add-count_free : (bm : Bytes) (k lo : ℕ) → count_used bm k lo + count_free bm k lo ≡ k
unfolding count_used count_free
count_used-add-count_free bm zero lo = omega arith
count_used-add-count_free bm (suc k) lo = ground (arith, count_used-add-count_free bm k (lo + 1))

-- No block behind the end of the device is marked.
abbrev pub ClearBehind : Bytes → ℕ → Type 0
ClearBehind bm total = (i : ℕ) → total ≤ i → bit_get bm i ≡ false

used_in_page :
    (bm : Bytes) (total page : ℕ)
    → ClearBehind bm total
    → count_bits bm block_size (page * block_size) + page_free bm total page
      ≡ page_blocks total page
unfolding page_free
used_in_page bm total page clear =
    let lo = page * bits_per_page in
    let k = page_blocks total page in
    let back : k + (bits_per_page - k) ≡ block_size * 8 = omega arith in
    let place : page * block_size * 8 ≡ lo = omega arith in
    omega (
      arith,
      count_bits-eq-count_used bm block_size (page * block_size),
      ap (λ (t : ℕ). count_used bm (block_size * 8) t) place,
      ap (λ (t : ℕ). count_used bm t lo) back,
      count_used_split bm k (bits_per_page - k) lo,
      count_used_clear bm (bits_per_page - k) (lo + k) (λ i p q. clear i (omega arith)),
      count_used-add-count_free bm k lo,
    )

blocks_of_page-eq : (total page : ℕ) → blocks_of_page total page ≡ page_blocks total page
unfolding blocks_of_page
blocks_of_page-eq total page = ground arith

-- The free blocks that the load counts in a page are those whose bit is clear.
pub free_in_page-eq-page_free :
    (bm : Bytes) (total page : ℕ)
    → ClearBehind bm total
    → free_in_page bm total page ≡ page_free bm total page
unfolding free_in_page
free_in_page-eq-page_free bm total page clear =
    rw (blocks_of_page-eq total page) (ground (arith, used_in_page bm total page clear))
