-- ===== src/Files/Slots.antt =====
-- What `extent_append` does to the slots of the extent map, and the search of a slot.
use mini_fs.Base.{
  ℕ, zero, suc, ◌+◌, ◌%◌, ◌^◌, ◌≤◌, ◌<◌, ◌≡◌, refl, sym, ap, ◌∙◌, ◌≢◌, ◌⊎◌, inl, inr, true, false,
  ◌&&◌, Option, none, some, arith, ltb, leb, ◌==◌, if◌then◌else◌, ==→eq, ==→ne, Bool-cases, u32_mod,
  u64_mod, ok,
}
use mini_fs.Format.Bytes.{Bytes, Field, load, store, load-store_self, load-store-Apart}
use mini_fs.Format.Consts.{extents_per_inode}
use mini_fs.Format.Extent
use mini_fs.Files.Extents.{
  extent_base, em_size_blocks, em_offset_of, em_lba_of, covers, find_from, free_from, put_extent,
  append_at, extent_append,
}

-- The slot that `extent_append` takes is a free one.
free_from-free :
    (ino : Bytes) (rounds s i : ℕ)
    → free_from ino rounds s ≡ some i
    → (s ≤ i) × (i < s + rounds) × (em_size_blocks ino i ≡ 0)
unfolding free_from
free_from-free ino zero s i h = cc
free_from-free ino (suc rounds) s i h = elim (Bool-cases (em_size_blocks ino s == 0)) [
  | inl free ↦
      let e : s ≡ i = ground arith in
      (
        omega (arith, e),
        omega (arith, e),
        ap (em_size_blocks ino) (sym e) ∙ ==→eq (em_size_blocks ino s) 0 free,
      )
  | inr taken ↦
      let (p, q, r) = free_from-free ino rounds (s + 1) i (ground arith) in
      (omega (arith, p), omega (arith, q), r)
]

-- Stores to the three fields of slot `i` leave every other field.
put_extent-Apart :
    (f : Field) (i blk n lba : ℕ) (ino : Bytes)
    → (f.offset + f.width ≤ extent_base i) ⊎ (extent_base i + 16 ≤ f.offset)
    → load f (put_extent i blk n lba ino) ≡ load f ino
unfolding put_extent
put_extent-Apart f i blk n lba ino h =
    load-store-Apart f (Extent.em_lba (extent_base i)) lba _ (ground arith)
    ∙ load-store-Apart f (Extent.em_size_and_flags (extent_base i)) (n % 2 ^ 24) _ (ground arith)
    ∙ load-store-Apart f (Extent.em_offset (extent_base i)) blk ino (ground arith)

module _ (i blk n lba : ℕ) (ino : Bytes) where
  em_size_blocks-put_extent : n < 2 ^ 24 → em_size_blocks (put_extent i blk n lba ino) i ≡ n
  unfolding em_size_blocks put_extent
  em_size_blocks-put_extent small =
      let a =
        load-store-Apart (Extent.em_size_and_flags (extent_base i)) (Extent.em_lba (extent_base i))
          lba
          (store (Extent.em_size_and_flags (extent_base i)) (n % 2 ^ 24)
            (store (Extent.em_offset (extent_base i)) blk ino))
          (inl (omega arith)) in
      let b =
        load-store_self (Extent.em_size_and_flags (extent_base i)) (n % 2 ^ 24)
          (store (Extent.em_offset (extent_base i)) blk ino) (omega arith) in
      omega (arith, a, b)

  pub em_offset_of-put_extent : blk < u64_mod → em_offset_of (put_extent i blk n lba ino) i ≡ blk
  unfolding em_offset_of put_extent
  em_offset_of-put_extent small =
      load-store-Apart (Extent.em_offset (extent_base i)) (Extent.em_lba (extent_base i)) lba _
        (inl (omega arith))
      ∙ load-store-Apart (Extent.em_offset (extent_base i))
          (Extent.em_size_and_flags (extent_base i)) (n % 2 ^ 24) _ (inl (omega arith))
      ∙ load-store_self (Extent.em_offset (extent_base i)) blk ino (omega arith)

  pub em_lba_of-put_extent : lba < u32_mod → em_lba_of (put_extent i blk n lba ino) i ≡ lba
  unfolding em_lba_of put_extent
  em_lba_of-put_extent small = load-store_self (Extent.em_lba (extent_base i)) lba _ (omega arith)

module _ (i k blk n lba : ℕ) (ino : Bytes) (ne : k ≢ i) where
  within_slot :
      (o w : ℕ)
      → o + w ≤ 16
      → (extent_base k + o + w ≤ extent_base i) ⊎ (extent_base i + 16 ≤ extent_base k + o)
  within_slot o w h = grind arith

  em_size_blocks_other : em_size_blocks (put_extent i blk n lba ino) k ≡ em_size_blocks ino k
  unfolding em_size_blocks
  em_size_blocks_other =
      ap (λ (x : ℕ). x % 2 ^ 24)
        (put_extent-Apart (Extent.em_size_and_flags (extent_base k)) i blk n lba ino
          (within_slot 8 4 (omega arith)))

  pub em_offset_of_other : em_offset_of (put_extent i blk n lba ino) k ≡ em_offset_of ino k
  unfolding em_offset_of
  em_offset_of_other =
      put_extent-Apart (Extent.em_offset (extent_base k)) i blk n lba ino
        (grind (arith, within_slot 0 8 (omega arith)))

  pub em_lba_of_other : em_lba_of (put_extent i blk n lba ino) k ≡ em_lba_of ino k
  unfolding em_lba_of
  em_lba_of_other =
      put_extent-Apart (Extent.em_lba (extent_base k)) i blk n lba ino
        (grind (arith, within_slot 12 4 (omega arith)))

-- A slot covers the same blocks as before, but the slot that was filled covers the new ones.
pub covers-put_extent :
    (i blk n lba b k : ℕ) (ino : Bytes)
    → n < 2 ^ 24
    → blk + n < u64_mod
    → 0 < n
    → covers (put_extent i blk n lba ino) b k
      ≡ (if k == i then leb blk b && ltb b (blk + n) else covers ino b k)
unfolding covers
covers-put_extent i blk n lba b k ino small fits pos = elim (Bool-cases (k == i)) [
  | inl e ↦
      let s = em_size_blocks-put_extent i blk n lba ino small in
      let o = em_offset_of-put_extent i blk n lba ino (omega arith) in
      rw (e, ==→eq k i e, s, o) (ground arith)
  | inr ne ↦
      let ne' = ==→ne k i ne in
      rw (ne, em_size_blocks_other i k blk n lba ino ne', em_offset_of_other i k blk n lba ino ne')
]

pub covers_free : (ino : Bytes) (b k : ℕ) → em_size_blocks ino k ≡ 0 → covers ino b k ≡ false
unfolding covers
covers_free ino b k h = rw h

-- Searching two maps that cover the same way finds the same slot.
pub find_from_same :
    (ino ino' : Bytes) (b rounds s : ℕ)
    → ((k : ℕ) → covers ino' b k ≡ covers ino b k)
    → find_from ino' b rounds s ≡ find_from ino b rounds s
unfolding find_from
find_from_same ino ino' b zero s h = refl
find_from_same ino ino' b (suc rounds) s h = rw (h s, find_from_same ino ino' b rounds (s + 1) h)

-- Where only slot `i` covers, the search finds it.
pub find_from_only :
    (ino : Bytes) (b i rounds s : ℕ)
    → s ≤ i
    → i < s + rounds
    → covers ino b i ≡ true
    → ((k : ℕ) → s ≤ k → k < i → covers ino b k ≡ false)
    → find_from ino b rounds s ≡ some i
unfolding find_from
find_from_only ino b i zero s p q c h = absurd (omega arith)
find_from_only ino b i (suc rounds) s p q c h = elim (Bool-cases (s == i)) [
  | inl e ↦ let e' = ==→eq s i e in let c' = ap (covers ino b) e' ∙ c in rw c' (ap some e')
  | inr ne ↦ rw (h s (omega arith) (omega (arith, ==→ne s i ne))) (
      find_from_only ino b i rounds (s + 1) (omega (arith, ==→ne s i ne)) (omega arith) c
        (λ k x y. h k (omega arith) y))
]

-- Where the search finds nothing, no slot covers.
pub find_from-none :
    (ino : Bytes) (b rounds s : ℕ)
    → find_from ino b rounds s ≡ none
    → (k : ℕ) → s ≤ k
    → k < s + rounds
    → covers ino b k ≡ false
unfolding find_from
find_from-none ino b zero s h k p q = absurd (omega arith)
find_from-none ino b (suc rounds) s h k p q = elim (Bool-cases (covers ino b s)) [
  | inl c ↦ ground arith
  | inr nc ↦ elim (Bool-cases (k == s)) [
    | inl e ↦ ap (covers ino b) (==→eq k s e) ∙ nc
    | inr ne ↦
        find_from-none ino b rounds (s + 1) (ground arith) k (omega (arith, ==→ne k s ne))
          (omega arith)
  ]
]

pub appended :
    (blk n lba : ℕ) (ino ino' : Bytes)
    → extent_append blk n lba ino ≡ ok ino'
    → (i : ℕ) × (i < extents_per_inode)
      × (em_size_blocks ino i ≡ 0)
      × (ino' ≡ put_extent i blk n lba ino)
unfolding extent_append append_at
appended blk n lba ino ino' h = go (free_from ino extents_per_inode 0) refl h
  where
    go :
        (r : Option ℕ)
        → free_from ino extents_per_inode 0 ≡ r
        → append_at blk n lba ino r ≡ ok ino'
        → (i : ℕ) × (i < extents_per_inode)
          × (em_size_blocks ino i ≡ 0)
          × (ino' ≡ put_extent i blk n lba ino)
    go none e q = ground arith
    go (some i) e q =
        let (a, b, c) = free_from-free ino extents_per_inode 0 i e in
        (i, omega (arith, b), c, ground arith)

pub find_from-some :
    (ino : Bytes) (b rounds s i : ℕ) → find_from ino b rounds s ≡ some i → covers ino b i ≡ true
unfolding find_from
find_from-some ino b zero s i h = cc
find_from-some ino b (suc rounds) s i h = elim (Bool-cases (covers ino b s)) [
  | inl c ↦ let e : s ≡ i = ground arith in ap (covers ino b) (sym e) ∙ c
  | inr nc ↦ find_from-some ino b rounds (s + 1) i (ground arith)
]
