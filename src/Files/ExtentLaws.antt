-- ===== src/Files/ExtentLaws.antt =====
-- `extent_append` against `extent_find`: the blocks of a file before and after an extent is added.
use mini_fs.Base.{
  ℕ, ◌+◌, ◌-◌, ◌^◌, ◌≤◌, ◌<◌, ◌≡◌, refl, sym, ap, ◌∙◌, ◌≢◌, ◌⊎◌, inl, inr, true, false, ◌&&◌,
  Option, none, some, arith, ltb, leb, ◌==◌, ==→eq, ==_refl, ne→==, Bool-cases, u32_mod, u64_mod,
  ok,
}
use mini_fs.Format.Bytes.{Bytes}
use mini_fs.Format.Consts.{extents_per_inode}
use mini_fs.Files.Extents.{
  em_size_blocks, covers, find_from, extent_find, extent_lba, put_extent, extent_append,
}
use mini_fs.Files.Slots.{
  em_offset_of-put_extent, em_lba_of-put_extent, em_offset_of_other, em_lba_of_other,
  covers-put_extent, covers_free, find_from_same, find_from_only, find_from-none, find_from-some,
  appended,
}

extent_find-eq : (ino : Bytes) (b : ℕ) → extent_find ino b ≡ find_from ino b extents_per_inode 0
unfolding extent_find
extent_find-eq ino b = refl

module _ (i blk n lba b : ℕ) (ino : Bytes) (small : n < 2 ^ 24) (fits : blk + n < u64_mod)
    (pos : 0 < n) where
  abbrev new_map : Bytes
  new_map = put_extent i blk n lba ino

  found_new :
      (slots : ℕ)
      → i < slots
      → blk ≤ b
      → b < blk + n
      → find_from ino b slots 0 ≡ none
      → find_from new_map b slots 0 ≡ some i
  found_new slots bound p q nothing =
      find_from_only new_map b i slots 0 (omega arith) (omega arith)
        (covers-put_extent i blk n lba b i ino small fits pos ∙ rw (==_refl i) here)
        (λ k x y.
          covers-put_extent i blk n lba b k ino small fits pos
          ∙ rw (ne→== k i (omega (arith, y)))
              (find_from-none ino b slots 0 nothing k x (omega (arith, bound, y))))
    where
      here : (leb blk b && ltb b (blk + n)) ≡ true
      here = ground arith

  found_same :
      (slots : ℕ)
      → em_size_blocks ino i ≡ 0
      → (b < blk) ⊎ (blk + n ≤ b)
      → find_from new_map b slots 0 ≡ find_from ino b slots 0
  found_same slots free out = find_from_same ino new_map b slots 0 λ k.
      covers-put_extent i blk n lba b k ino small fits pos ∙ elim (Bool-cases (k == i)) [
        | inl at_slot ↦
            rw at_slot
              (outside ∙ sym (ap (covers ino b) (==→eq k i at_slot) ∙ covers_free ino b i free))
        | inr ne ↦ rw ne refl
      ]
    where
      outside : (leb blk b && ltb b (blk + n)) ≡ false
      outside = ground arith

extent_lba_new :
    (i blk n lba b : ℕ) (ino : Bytes)
    → blk + n < u64_mod
    → lba + n < u32_mod
    → blk ≤ b
    → b < blk + n
    → extent_lba (put_extent i blk n lba ino) b i ≡ lba + (b - blk)
unfolding extent_lba
extent_lba_new i blk n lba b ino fits low p q =
    let x = em_lba_of-put_extent i blk n lba ino (omega arith) in
    let y = em_offset_of-put_extent i blk n lba ino (omega arith) in omega (arith, x, y)

extent_lba_other :
    (i k blk n lba b : ℕ) (ino : Bytes)
    → k ≢ i
    → extent_lba (put_extent i blk n lba ino) b k ≡ extent_lba ino b k
unfolding extent_lba
extent_lba_other i k blk n lba b ino ne =
    rw (em_lba_of_other i k blk n lba ino ne, em_offset_of_other i k blk n lba ino ne)

-- Append an extent of fewer than 2^24 blocks, where its blocks of the file have numbers below 2^64 and
-- its blocks of the device numbers below 2^32. For a block of the file that the extent covers and no
-- extent covered before, the search then finds an extent, and this gives the block of the device at
-- the same distance from the start of the run.
pub extent_find-extent_append :
    (blk n lba b : ℕ) (ino ino' : Bytes)
    → n < 2 ^ 24
    → blk + n < u64_mod
    → lba + n < u32_mod
    → extent_append blk n lba ino ≡ ok ino'
    → blk ≤ b
    → b < blk + n
    → extent_find ino b ≡ none
    → (i : ℕ) × (extent_find ino' b ≡ some i) × (extent_lba ino' b i ≡ lba + (b - blk))
extent_find-extent_append blk n lba b ino ino' small fits low h p q nothing =
    let (i, bound, free, e) = appended blk n lba ino ino' h in
    let new = put_extent i blk n lba ino in
    (
      i,
      ap (λ (x : Bytes). extent_find x b) e
          ∙ extent_find-eq new b
          ∙ found_new i blk n lba b ino small fits (omega arith) extents_per_inode bound p q
              (sym (extent_find-eq ino b) ∙ nothing),
      ap (λ (x : Bytes). extent_lba x b i) e ∙ extent_lba_new i blk n lba b ino fits low p q,
    )

abbrev pub located : Bytes → ℕ → Option ℕ → Option ℕ
located ino b none = none
located ino b (some i) = some (extent_lba ino b i)

-- The block on the device that the code reads or writes for block `b` of the file, if there is one.
abbrev pub block_of : Bytes → ℕ → Option ℕ
block_of ino b = located ino b (extent_find ino b)

located_other :
    (i blk n lba b : ℕ) (ino : Bytes) (r : Option ℕ)
    → find_from ino b extents_per_inode 0 ≡ r
    → em_size_blocks ino i ≡ 0
    → located (put_extent i blk n lba ino) b r ≡ located ino b r
located_other i blk n lba b ino none q free = refl
located_other i blk n lba b ino (some j) q free = ap some (extent_lba_other i j blk n lba b ino ne)
  where
    ne : j ≢ i
    ne eq =
        let used = find_from-some ino b extents_per_inode 0 j q in
        let unused = ap (covers ino b) eq ∙ covers_free ino b i free in cc

-- A new extent changes nothing for a block of the file that it does not cover: such a block has the
-- block on the device that it had before, or still none. The size of the extent is between 1 and
-- 2^24 - 1, and the blocks of the file that it covers have numbers below 2^64.
pub block_of-extent_append :
    (blk n lba b : ℕ) (ino ino' : Bytes)
    → 0 < n
    → n < 2 ^ 24
    → blk + n < u64_mod
    → extent_append blk n lba ino ≡ ok ino'
    → (b < blk) ⊎ (blk + n ≤ b)
    → block_of ino' b ≡ block_of ino b
block_of-extent_append blk n lba b ino ino' pos small fits h out =
    let (i, bound, free, e) = appended blk n lba ino ino' h in
    let new = put_extent i blk n lba ino in
    ap (λ (x : Bytes). block_of x b) e
    ∙ ap (located new b) (
        extent_find-eq new b
        ∙ found_same i blk n lba b ino small fits pos extents_per_inode free out
        ∙ sym (extent_find-eq ino b))
    ∙ located_other i blk n lba b ino (extent_find ino b) (sym (extent_find-eq ino b)) free
