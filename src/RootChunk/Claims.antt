-- ===== src/RootChunk/Claims.antt =====
-- The slot allocator against the set of its free slots.
use mini_fs.Base.{
  ℕ, zero, suc, ◌+◌, ◌-◌, ◌≤◌, ◌<◌, ◌≡◌, refl, ◌∙◌, ◌⊎◌, inl, inr, true, false, ◌||◌, Option, none,
  some, arith, leb, ◌==◌, if◌then◌else◌, leb→le, ==→eq, ==→ne, Bool-cases, Result, ok, err, einval,
  enospc,
}
use mini_fs.Format.Bytes.{Bytes}
use mini_fs.Bits.{
  bit_get, set_run, clr_run, within, bit_get-set_run, bit_get-clr_run, all_set, all_set_at,
}
use mini_fs.RootChunk.Slots.{
  slot_subblocks, slots_per_chunk, slot_base_subblock, none_set, slot_is_free, find_slot, take_slot,
  chunk_alloc_dir, chunk_free_dir,
}

none_set_ext :
    (b c : Bytes) (n s : ℕ)
    → ((i : ℕ) → s ≤ i → i < s + n → bit_get b i ≡ bit_get c i)
    → none_set b n s ≡ none_set c n s
unfolding none_set
none_set_ext b c zero s h = refl
none_set_ext b c (suc n) s h = rw (
  h s (omega arith) (omega arith),
  none_set_ext b c n (suc s) (λ i p q. h i (omega arith) (omega arith)),
)

none_set_of :
    (b : Bytes) (n s : ℕ)
    → ((i : ℕ) → s ≤ i → i < s + n → bit_get b i ≡ false)
    → none_set b n s ≡ true
unfolding none_set
none_set_of b zero s h = refl
none_set_of b (suc n) s h =
    rw (h s (omega arith) (omega arith))
      (none_set_of b n (suc s) (λ i p q. h i (omega arith) (omega arith)))

none_set_at :
    (b : Bytes) (n s : ℕ)
    → none_set b n s ≡ true
    → (i : ℕ) → s ≤ i
    → i < s + n
    → bit_get b i ≡ false
unfolding none_set
none_set_at b zero s h i p q = absurd (omega arith)
none_set_at b (suc n) s h i p q = elim (Bool-cases (i == s)) [
  | inl e ↦ rw (==→eq i s e) (ground arith)
  | inr ne ↦ none_set_at b n (suc s) (ground arith) i (omega (arith, ==→ne i s ne)) (omega arith)
]

-- Taking a slot changes the state of this slot alone.
slot_is_free-set_run :
    (bm : Bytes) (slot k : ℕ)
    → slot_is_free (set_run slot_subblocks (slot_base_subblock slot) bm) k
      ≡ (if k == slot then false else slot_is_free bm k)
unfolding slot_is_free
slot_is_free-set_run bm slot k = elim (Bool-cases (k == slot)) [
  | inl e ↦ rw e (
      ground (
        arith,
        ==→eq k slot e,
        bit_get-set_run slot_subblocks (slot_base_subblock slot) bm (slot_base_subblock k),
      ))
  | inr ne ↦ rw ne (
      none_set_ext (set_run slot_subblocks (slot_base_subblock slot) bm) bm slot_subblocks
        (slot_base_subblock k)
        (λ i p q.
          bit_get-set_run slot_subblocks (slot_base_subblock slot) bm i
          ∙ ground (arith, ==→ne k slot ne)))
]

slot_is_free-clr_run :
    (bm : Bytes) (slot k : ℕ)
    → slot_is_free (clr_run slot_subblocks (slot_base_subblock slot) bm) k
      ≡ (if k == slot then true else slot_is_free bm k)
unfolding slot_is_free
slot_is_free-clr_run bm slot k = elim (Bool-cases (k == slot)) [
  | inl e ↦ rw e (
      none_set_of (clr_run slot_subblocks (slot_base_subblock slot) bm) slot_subblocks
        (slot_base_subblock k)
        (λ i p q.
          bit_get-clr_run slot_subblocks (slot_base_subblock slot) bm i
          ∙ ground (arith, ==→eq k slot e)))
  | inr ne ↦ rw ne (
      none_set_ext (clr_run slot_subblocks (slot_base_subblock slot) bm) bm slot_subblocks
        (slot_base_subblock k)
        (λ i p q.
          bit_get-clr_run slot_subblocks (slot_base_subblock slot) bm i
          ∙ ground (arith, ==→ne k slot ne)))
]

-- The first free slot among `rounds` from `slot` on, or that there is none.
abbrev pub FirstSlot : Bytes → ℕ → ℕ → Option ℕ → Type 0
FirstSlot bm slot rounds none = (k : ℕ) → slot ≤ k → k < slot + rounds → slot_is_free bm k ≡ false
FirstSlot bm slot rounds (some s) =
    (slot ≤ s)
    × (s < slot + rounds)
    × (slot_is_free bm s ≡ true)
    × ((k : ℕ) → slot ≤ k → k < s → slot_is_free bm k ≡ false)

find_slot-FirstSlot :
    (bm : Bytes) (rounds slot : ℕ) → FirstSlot bm slot rounds (find_slot bm rounds slot)
unfolding find_slot
find_slot-FirstSlot bm zero slot = λ k p q. absurd (omega arith)
find_slot-FirstSlot bm (suc rounds) slot = elim (Bool-cases (slot_is_free bm slot)) [
  | inl f ↦ rw f (omega arith, omega arith, f, λ k p q. absurd (omega arith))
  | inr u ↦
      rw u (later (find_slot bm rounds (slot + 1)) (find_slot-FirstSlot bm rounds (slot + 1)) u)
]
  where
    later :
        (r : Option ℕ)
        → FirstSlot bm (slot + 1) rounds r
        → slot_is_free bm slot ≡ false
        → FirstSlot bm slot (suc rounds) r
    later none h u = λ k p q. elim (Bool-cases (k == slot)) [
      | inl e ↦ rw (==→eq k slot e) u
      | inr ne ↦ h k (omega (arith, ==→ne k slot ne)) (omega arith)
    ]
    later (some s) (a, b, c, d) u = (
      omega arith,
      omega arith,
      c,
      λ k p q. elim (Bool-cases (k == slot)) [
        | inl e ↦ rw (==→eq k slot e) u
        | inr ne ↦ d k (omega (arith, ==→ne k slot ne)) q
      ],
    )

-- The outcomes of an allocation: the first free slot of 1 to 4095, whose eight bits are then set
-- and no others, or ENOSPC with the bitmap as it was and no slot free.
abbrev pub AllocatesSlot : Bytes → Result ℕ × Bytes → Type 0
AllocatesSlot bm (ok slot, bm') =
    FirstSlot bm 1 (slots_per_chunk - 1) (some slot)
    × ((j : ℕ)
        → bit_get bm' j
          ≡ (if within (slot_base_subblock slot) slot_subblocks j then true else bit_get bm j))
    × ((k : ℕ) → slot_is_free bm' k ≡ (if k == slot then false else slot_is_free bm k))
AllocatesSlot bm (err e, bm') =
    (e ≡ enospc) × (bm' ≡ bm) × FirstSlot bm 1 (slots_per_chunk - 1) none

take_slot-AllocatesSlot :
    (bm : Bytes) (r : Option ℕ)
    → FirstSlot bm 1 (slots_per_chunk - 1) r
    → AllocatesSlot bm (take_slot bm r)
unfolding take_slot
take_slot-AllocatesSlot bm none h = (refl, refl, h)
take_slot-AllocatesSlot bm (some slot) h =
    (h, bit_get-set_run slot_subblocks (slot_base_subblock slot) bm, slot_is_free-set_run bm slot)

-- An allocation returns the first free slot other than slot 0 and sets exactly its eight bits, so
-- that this slot and no other stops being free; it fails with ENOSPC exactly when no such slot is
-- free, and then changes nothing.
pub chunk_alloc_dir-AllocatesSlot : (bm : Bytes) → AllocatesSlot bm (chunk_alloc_dir bm)
unfolding chunk_alloc_dir
chunk_alloc_dir-AllocatesSlot bm =
    take_slot-AllocatesSlot bm (find_slot bm (slots_per_chunk - 1) 1)
      (find_slot-FirstSlot bm (slots_per_chunk - 1) 1)

all_set_missing :
    (bm : Bytes) (n s : ℕ)
    → all_set bm n s ≡ false
    → (i : ℕ) × (s ≤ i) × (i < s + n) × (bit_get bm i ≡ false)
unfolding all_set
all_set_missing bm zero s h = cc
all_set_missing bm (suc n) s h = elim (Bool-cases (bit_get bm s)) [
  | inl t ↦
      let (i, p, q, f) = all_set_missing bm n (suc s) (ground arith) in
      (i, omega arith, omega arith, f)
  | inr f ↦ (s, omega arith, omega arith, f)
]

-- The outcomes of a release: the eight bits, all set before, are cleared and no others, or EINVAL
-- with the bitmap as it was, for slot 0, a slot past the chunk and a slot with a clear bit.
abbrev pub ReleasesSlot : Bytes → ℕ → Result (Unit {0}) × Bytes → Type 0
ReleasesSlot bm slot (ok _, bm') =
    (1 ≤ slot)
    × (slot < slots_per_chunk)
    × ((i : ℕ)
        → slot_base_subblock slot ≤ i
        → i < slot_base_subblock slot + slot_subblocks
        → bit_get bm i ≡ true)
    × ((j : ℕ)
        → bit_get bm' j
          ≡ (if within (slot_base_subblock slot) slot_subblocks j then false else bit_get bm j))
    × ((k : ℕ) → slot_is_free bm' k ≡ (if k == slot then true else slot_is_free bm k))
ReleasesSlot bm slot (err e, bm') =
    (e ≡ einval)
    × (bm' ≡ bm)
    × ((slot ≡ 0)
        ⊎ (slots_per_chunk ≤ slot)
        ⊎ ((i : ℕ) × (slot_base_subblock slot ≤ i)
            × (i < slot_base_subblock slot + slot_subblocks)
            × (bit_get bm i ≡ false)))

-- A release clears exactly the eight bits of a slot from 1 to 4095 whose bits are all set; it
-- refuses every other slot with EINVAL and changes nothing.
pub chunk_free_dir-ReleasesSlot :
    (bm : Bytes) (slot : ℕ) → ReleasesSlot bm slot (chunk_free_dir bm slot)
unfolding chunk_free_dir
chunk_free_dir-ReleasesSlot bm slot = elim (Bool-cases (slot == 0 || leb slots_per_chunk slot)) [
  | inl bad ↦ rw bad (refl, refl, out_of_chunk slot bad)
  | inr good ↦ rw good (elim (Bool-cases (all_set bm slot_subblocks (slot_base_subblock slot))) [
    | inl all ↦ rw all (
      ground arith,
      ground arith,
      all_set_at bm slot_subblocks (slot_base_subblock slot) all,
      bit_get-clr_run slot_subblocks (slot_base_subblock slot) bm,
      slot_is_free-clr_run bm slot,
    )
    | inr some_clear ↦ rw some_clear (
      refl,
      refl,
      inr (inr (all_set_missing bm slot_subblocks (slot_base_subblock slot) some_clear)),
    )
  ])
]
  where
    out_of_chunk :
        (slot : ℕ)
        → (slot == 0 || leb slots_per_chunk slot) ≡ true
        → (slot ≡ 0)
          ⊎ (slots_per_chunk ≤ slot)
          ⊎ ((i : ℕ) × (slot_base_subblock slot ≤ i)
              × (i < slot_base_subblock slot + slot_subblocks)
              × (bit_get bm i ≡ false))
    out_of_chunk slot bad = elim (Bool-cases (slot == 0)) [
      | inl z ↦ inl (==→eq slot 0 z)
      | inr nz ↦ inr (inl (leb→le slots_per_chunk slot (ground arith)))
    ]
