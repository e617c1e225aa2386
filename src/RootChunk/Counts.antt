-- ===== src/RootChunk/Counts.antt =====
-- The number of free slots before and after an operation.
use mini_fs.Base.{
  ℕ, zero, suc, ◌+◌, ◌-◌, ◌≤◌, ◌<◌, ◌≡◌, refl, sym, ap, ◌∙◌, inl, inr, true, false, arith, ◌==◌,
  if◌then◌else◌, ==→eq, ==→ne, ==_refl, ne→==, Bool-cases, ok,
}
use mathlib.Core.Path.{subst}
use mini_fs.Format.Bytes.{Bytes}
use mini_fs.Bits.{bit_get}
use mini_fs.RootChunk.Slots.{
  slots_per_chunk, slot_base_subblock, none_set, slot_is_free, chunk_alloc_dir, chunk_free_dir,
  count_slots, chunk_free_slots,
}
use mini_fs.RootChunk.Claims.{
  AllocatesSlot, ReleasesSlot, chunk_alloc_dir-AllocatesSlot, chunk_free_dir-ReleasesSlot,
}

count_slots_same :
    (b c : Bytes) (rounds slot : ℕ)
    → ((k : ℕ) → slot ≤ k → k < slot + rounds → slot_is_free c k ≡ slot_is_free b k)
    → count_slots c rounds slot ≡ count_slots b rounds slot
unfolding count_slots
count_slots_same b c zero slot h = refl
count_slots_same b c (suc rounds) slot h = rw (
  h slot (omega arith) (omega arith),
  count_slots_same b c rounds (slot + 1) (λ k p q. h k (omega arith) (omega arith)),
)

-- Where `c` has one free slot less than `b`, it counts one less.
count_slots_less :
    (b c : Bytes) (s rounds slot : ℕ)
    → slot ≤ s
    → s < slot + rounds
    → slot_is_free b s ≡ true
    → ((k : ℕ) → slot_is_free c k ≡ (if k == s then false else slot_is_free b k))
    → count_slots c rounds slot + 1 ≡ count_slots b rounds slot
unfolding count_slots
count_slots_less b c s zero slot p q f h = absurd (omega arith)
count_slots_less b c s (suc rounds) slot p q f h = elim (Bool-cases (slot == s)) [
  | inl e ↦
      let same =
        count_slots_same b c rounds (slot + 1)
          (λ k x y. h k ∙ rw (ne→== k s (omega (arith, ==→eq slot s e))) refl) in
      let eq = ==→eq slot s e in
      let fb : slot_is_free b slot ≡ true = ap (slot_is_free b) eq ∙ f in
      rw (h slot, e, fb, same) (omega arith)
  | inr ne ↦
      let ih =
        count_slots_less b c s rounds (slot + 1) (omega (arith, ==→ne slot s ne)) (omega arith) f
          h in
      rw (h slot, ne) (omega (arith, ih))
]

not_free_of_used :
    (bm : Bytes) (slot : ℕ)
    → bit_get bm (slot_base_subblock slot) ≡ true
    → slot_is_free bm slot ≡ false
unfolding slot_is_free none_set
not_free_of_used bm slot h = rw h

count_slots_more :
    (b c : Bytes) (s rounds slot : ℕ)
    → slot ≤ s
    → s < slot + rounds
    → slot_is_free b s ≡ false
    → ((k : ℕ) → slot_is_free c k ≡ (if k == s then true else slot_is_free b k))
    → count_slots c rounds slot ≡ count_slots b rounds slot + 1
count_slots_more b c s rounds slot p q f h =
    sym (count_slots_less c b s rounds slot p q (h s ∙ rw (==_refl s) refl) back)
  where
    back : (k : ℕ) → slot_is_free b k ≡ (if k == s then false else slot_is_free c k)
    back k = elim (Bool-cases (k == s)) [
      | inl e ↦ rw e (ap (slot_is_free b) (==→eq k s e) ∙ f)
      | inr ne ↦ rw ne (sym (h k ∙ rw ne refl))
    ]

taken_one :
    (bm bm' : Bytes) (slot : ℕ)
    → AllocatesSlot bm (ok slot, bm')
    → count_slots bm' (slots_per_chunk - 1) 1 + 1 ≡ count_slots bm (slots_per_chunk - 1) 1
taken_one bm bm' slot ((p, q, f, first), bits, slots) =
    count_slots_less bm bm' slot (slots_per_chunk - 1) 1 p q f slots

given_one :
    (bm bm' : Bytes) (slot : ℕ)
    → ReleasesSlot bm slot (ok tt, bm')
    → count_slots bm' (slots_per_chunk - 1) 1 ≡ count_slots bm (slots_per_chunk - 1) 1 + 1
given_one bm bm' slot (p, q, all, bits, slots) =
    count_slots_more bm bm' slot (slots_per_chunk - 1) 1 p (omega arith)
      (not_free_of_used bm slot (all (slot_base_subblock slot) (omega arith) (omega arith))) slots

-- An allocation that succeeds lowers the number of free slots by one.
chunk_free_slots-chunk_alloc_dir :
    (bm bm' : Bytes) (slot : ℕ)
    → chunk_alloc_dir bm ≡ (ok slot, bm')
    → chunk_free_slots bm' + 1 ≡ chunk_free_slots bm
unfolding chunk_free_slots
chunk_free_slots-chunk_alloc_dir bm bm' slot e =
    taken_one bm bm' slot (subst (AllocatesSlot bm) e (chunk_alloc_dir-AllocatesSlot bm))

-- A release that succeeds raises the number of free slots by one.
chunk_free_slots-chunk_free_dir :
    (bm bm' : Bytes) (slot : ℕ)
    → chunk_free_dir bm slot ≡ (ok tt, bm')
    → chunk_free_slots bm' ≡ chunk_free_slots bm + 1
unfolding chunk_free_slots
chunk_free_slots-chunk_free_dir bm bm' slot e =
    given_one bm bm' slot (subst (ReleasesSlot bm slot) e (chunk_free_dir-ReleasesSlot bm slot))
