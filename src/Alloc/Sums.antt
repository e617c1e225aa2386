-- ===== src/Alloc/Sums.antt =====
-- Sums over the bitmap pages that a test selects.
use mini_fs.Base.{
  ℕ, zero, suc, ◌+◌, ◌-◌, ◌*◌, ◌≤◌, ◌<◌, ◌≡◌, refl, sym, ap, ◌∙◌, fun_ext, ◌⊎◌, inl, inr, Bool,
  arith, if◌then◌else◌,
}
use native.Mathlib.Nat.{add-zero, zero-add}

-- The sum of `f` over the pages `p … p + rounds - 1` with `w`.
unfoldable pub sum_pages : (ℕ → Bool) → (ℕ → ℕ) → ℕ → ℕ → ℕ
sum_pages w f zero p = 0
sum_pages w f (suc rounds) p = (if w p then f p else 0) + sum_pages w f rounds (p + 1)

pub sum_pages-suc :
    (w : ℕ → Bool) (f : ℕ → ℕ) (rounds p : ℕ)
    → sum_pages w f (suc rounds) p ≡ (if w p then f p else 0) + sum_pages w f rounds (p + 1)
unfolding sum_pages
sum_pages-suc w f rounds p = refl

module _ (w : ℕ → Bool) where
  pub sum_pages_none :
      (f : ℕ → ℕ) (rounds p : ℕ)
      → ((i : ℕ) → p ≤ i → i < p + rounds → f i ≡ 0)
      → sum_pages w f rounds p ≡ 0
  unfolding sum_pages
  sum_pages_none f zero p h = refl
  sum_pages_none f (suc rounds) p h =
      rw
        (
          h p (omega arith) (omega arith),
          sum_pages_none f rounds (p + 1) (λ i a b. h i (omega arith) (omega arith)),
        )
        (ground arith)

  pub sum_pages_split :
      (f : ℕ → ℕ) (a b p : ℕ)
      → sum_pages w f (a + b) p ≡ sum_pages w f a p + sum_pages w f b (p + a)
  unfolding sum_pages
  sum_pages_split f zero b p = rw (add-zero, zero-add) (sym (zero-add _))
  sum_pages_split f (suc a) b p =
      let e : suc a + b ≡ suc (a + b) = omega arith in
      let q : p + suc a ≡ p + 1 + a = omega arith in
      rw (e, q, sum_pages_split f a b (p + 1)) (omega arith)

  pub sum_pages_plus :
      (f g h : ℕ → ℕ) (rounds p : ℕ)
      → ((i : ℕ) → p ≤ i → i < p + rounds → f i ≡ g i + h i)
      → sum_pages w f rounds p ≡ sum_pages w g rounds p + sum_pages w h rounds p
  unfolding sum_pages
  sum_pages_plus f g h zero p e = omega arith
  sum_pages_plus f g h (suc rounds) p e = ground (
    arith,
    e p (omega arith) (omega arith),
    sum_pages_plus f g h rounds (p + 1) (λ i a b. e i (omega arith) (omega arith)),
  )

  -- Where `f` is zero outside `lo … hi` the sum runs over those pages alone.
  pub sum_pages_trim :
      (f : ℕ → ℕ) (lo hi n : ℕ)
      → lo ≤ hi
      → hi ≤ n
      → ((i : ℕ) → (i < lo) ⊎ (hi ≤ i) → f i ≡ 0)
      → sum_pages w f n 0 ≡ sum_pages w f (hi - lo) lo
  sum_pages_trim f lo hi n p q h =
      let e : n ≡ lo + ((hi - lo) + (n - hi)) = omega arith in
      let m : lo + (hi - lo) ≡ hi = omega arith in
      let below = sum_pages_none f lo 0 (λ i a b. h i (inl (omega arith))) in
      let above = sum_pages_none f (n - hi) hi (λ i a b. h i (inr (omega arith))) in
      rw e (
        sum_pages_split f lo ((hi - lo) + (n - hi)) 0
        ∙ omega (
          arith,
          below,
          above,
          sum_pages_split f (hi - lo) (n - hi) lo,
          ap (λ (t : ℕ). sum_pages w f (hi - lo + (n - hi)) t) (zero-add lo),
          ap (λ (t : ℕ). sum_pages w f (n - hi) t) m,
        ))

  pub sum_pages-le :
      (f : ℕ → ℕ) (c : ℕ)
      → ((i : ℕ) → f i ≤ c)
      → (rounds p : ℕ) → sum_pages w f rounds p ≤ rounds * c
  unfolding sum_pages
  sum_pages-le f c h zero p = omega arith
  sum_pages-le f c h (suc rounds) p = ground (arith, h p, sum_pages-le f c h rounds (p + 1))

  pub sum_pages_ext :
      (f g : ℕ → ℕ) (rounds p : ℕ)
      → ((i : ℕ) → f i ≡ g i)
      → sum_pages w f rounds p ≡ sum_pages w g rounds p
  sum_pages_ext f g rounds p h = rw (fun_ext h)
