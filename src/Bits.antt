-- ===== src/Bits.antt =====
-- The bit helpers `bit_get`, `bit_set` and `bit_clr` of block_alloc.c and root_sub_alloc.c, over
-- an array of bytes, and their laws.
use mini_fs.Base.{
  ◌≤◌, ℕ, zero, suc, ◌+◌, ◌-◌, ◌/◌, ◌%◌, ◌^◌, ◌<◌, ◌≡◌, refl, Bool, true, false, not, ◌&&◌, bit_and,
  bit_or, arith, ◌==◌, if◌then◌else◌, Bool-cases, inl, inr, ==→eq, ==→ne, leb, ltb,
}
use mini_fs.Format.Bytes.{Bytes, at, put}

-- `(x >> k) & 1`
abbrev pub test_bit : ℕ → ℕ → Bool
test_bit x k = x / 2 ^ k % 2 == 1

unfoldable pub bit_get : Bytes → ℕ → Bool
bit_get bm i = test_bit (at bm (i / 8)) (i % 8)

unfoldable pub bit_set : Bytes → ℕ → Bytes
unfolding put
bit_set bm i = put bm (i / 8) (bit_or (at bm (i / 8)) (2 ^ (i % 8) % 256))

unfoldable pub bit_clr : Bytes → ℕ → Bytes
unfolding put
bit_clr bm i = put bm (i / 8) (bit_and (at bm (i / 8)) (255 - 2 ^ (i % 8) % 256))

-- A table of the first `n` answers of `p`, all true.
unfoldable pub table : (ℕ → Bool) → ℕ → Bool
table p zero = true
table p (suc n) = if p n then table p n else false

pub table_at : (p : ℕ → Bool) (n : ℕ) → table p n ≡ true → {x : ℕ} → x < n → p x ≡ true
unfolding table
table_at p zero whole below = absurd (omega arith)
table_at p (suc n) whole {x} below = elim (Bool-cases (x == n)) [
  | inl last ↦ rw (==→eq x n last) (ground arith)
  | inr earlier ↦ table_at p n (ground arith) (omega (arith, ==→ne x n earlier))
]

same : Bool → Bool → Bool
same true b = b
same false b = not b

same_sound : (a b : Bool) → same a b ≡ true → a ≡ b
unfolding same
same_sound true b h = ground arith
same_sound false b h = ground arith

abbrev or_case : ℕ → ℕ → ℕ → Bool
unfolding same
or_case k j x =
    same (test_bit (bit_or x (2 ^ k % 256) % 256 % 256) j) (if k == j then true else test_bit x j)

abbrev and_case : ℕ → ℕ → ℕ → Bool
unfolding same
and_case k j x =
    same (test_bit (bit_and x (255 - 2 ^ k % 256) % 256 % 256) j)
      (if k == j then false else test_bit x j)

or_table : table (λ k. table (λ j. table (or_case k j) 256) 8) 8 ≡ true
unfolding table same
or_table = refl

and_table : table (λ k. table (λ j. table (and_case k j) 256) 8) 8 ≡ true
unfolding table same
and_table = refl

or_bit :
    (k j x : ℕ)
    → k < 8
    → j < 8
    → x < 256
    → test_bit (bit_or x (2 ^ k % 256) % 256 % 256) j ≡ (if k == j then true else test_bit x j)
unfolding same
or_bit k j x p q r = same_sound _ _ (
    table_at (or_case k j) 256
      (table_at (λ j. table (or_case k j) 256) 8
        (table_at (λ k. table (λ j. table (or_case k j) 256) 8) 8 or_table p) q)
      r)

and_bit :
    (k j x : ℕ)
    → k < 8
    → j < 8
    → x < 256
    → test_bit (bit_and x (255 - 2 ^ k % 256) % 256 % 256) j
      ≡ (if k == j then false else test_bit x j)
unfolding same
and_bit k j x p q r = same_sound _ _ (
    table_at (and_case k j) 256
      (table_at (λ j. table (and_case k j) 256) 8
        (table_at (λ k. table (λ j. table (and_case k j) 256) 8) 8 and_table p) q)
      r)

-- What a bit is after another is set.
pub bit_get-bit_set :
    (bm : Bytes) (i j : ℕ) → bit_get (bit_set bm i) j ≡ (if i == j then true else bit_get bm j)
unfolding bit_get bit_set put
bit_get-bit_set bm i j = ground (arith, or_bit (i % 8) (j % 8) (at bm (i / 8)))

pub bit_get-bit_clr :
    (bm : Bytes) (i j : ℕ) → bit_get (bit_clr bm i) j ≡ (if i == j then false else bit_get bm j)
unfolding bit_get bit_clr put
bit_get-bit_clr bm i j = ground (arith, and_bit (i % 8) (j % 8) (at bm (i / 8)))

-- The loops `for (i = 0; i < n; i++) bit_set(bm, s + i)` and its like for `bit_clr`.
unfoldable pub set_run : ℕ → ℕ → Bytes → Bytes
set_run zero s bm = bm
set_run (suc n) s bm = set_run n (suc s) (bit_set bm s)

unfoldable pub clr_run : ℕ → ℕ → Bytes → Bytes
clr_run zero s bm = bm
clr_run (suc n) s bm = clr_run n (suc s) (bit_clr bm s)

abbrev pub within : ℕ → ℕ → ℕ → Bool
within s n j = leb s j && ltb j (s + n)

pub bit_get-set_run :
    (n s : ℕ) (bm : Bytes) (j : ℕ)
    → bit_get (set_run n s bm) j ≡ (if within s n j then true else bit_get bm j)
unfolding set_run
bit_get-set_run zero s bm j = ground arith
bit_get-set_run (suc n) s bm j =
    ground (arith, bit_get-set_run n (suc s) (bit_set bm s) j, bit_get-bit_set bm s j)

pub bit_get-clr_run :
    (n s : ℕ) (bm : Bytes) (j : ℕ)
    → bit_get (clr_run n s bm) j ≡ (if within s n j then false else bit_get bm j)
unfolding clr_run
bit_get-clr_run zero s bm j = ground arith
bit_get-clr_run (suc n) s bm j =
    ground (arith, bit_get-clr_run n (suc s) (bit_clr bm s) j, bit_get-bit_clr bm s j)

-- The loops that look for a clear bit among `s … s + n - 1`: whether there is none.
unfoldable pub all_set : Bytes → ℕ → ℕ → Bool
all_set bm zero s = true
all_set bm (suc n) s = bit_get bm s && all_set bm n (suc s)

pub all_set_at :
    (bm : Bytes) (n s : ℕ)
    → all_set bm n s ≡ true
    → (i : ℕ) → s ≤ i
    → i < s + n
    → bit_get bm i ≡ true
unfolding all_set
all_set_at bm zero s h i p q = absurd (omega arith)
all_set_at bm (suc n) s h i p q = elim (Bool-cases (i == s)) [
  | inl e ↦ rw (==→eq i s e) (ground arith)
  | inr ne ↦ all_set_at bm n (suc s) (ground arith) i (omega (arith, ==→ne i s ne)) (omega arith)
]

pub all_set_of :
    (bm : Bytes) (n s : ℕ)
    → ((i : ℕ) → s ≤ i → i < s + n → bit_get bm i ≡ true)
    → all_set bm n s ≡ true
unfolding all_set
all_set_of bm zero s h = refl
all_set_of bm (suc n) s h =
    rw (h s (omega arith) (omega arith))
      (all_set_of bm n (suc s) (λ i p q. h i (omega arith) (omega arith)))

pub all_set_not :
    (bm : Bytes) (n s i : ℕ) → s ≤ i → i < s + n → bit_get bm i ≡ false → all_set bm n s ≡ false
all_set_not bm n s i p q f = elim (Bool-cases (all_set bm n s)) [
  | inl all ↦ let t : bit_get bm i ≡ true = all_set_at bm n s all i p q in cc
  | inr e ↦ e
]
