-- ===== src/Alloc/Held.antt =====
-- The runs that the callers of the block allocator hold.
use mini_fs.Base.{
  ℕ, ◌+◌, ◌≤◌, ◌<◌, ◌≡◌, refl, inl, inr, Bool, true, false, ◌||◌, List, [], ◌∷◌, arith, Bool-cases,
}
use mini_fs.Bits.{within}

-- A run that an allocation returned and that was not released.
pub record Held : Type 0 where
  pub lba : ℕ
  pub size : ℕ

abbrev pub inside : Held → ℕ → Bool
inside h j = within h.lba h.size j

abbrev pub holds : List Held → ℕ → Bool
holds [] j = false
holds (h ∷ hs) j = inside h j || holds hs j

-- Taking one run out of the runs that are held.
pub data Removes (h : Held) : List Held → List Held → Type 0 where
  first : {hs : List Held} → Removes h (h ∷ hs) hs
  later : {k : Held} {hs hs' : List Held} → Removes h hs hs' → Removes h (k ∷ hs) (k ∷ hs')

-- No two runs have a block in common, and none has one of the blocks `base`.
abbrev pub Apart : (base : ℕ → Bool) → List Held → Type 0
Apart base [] = Unit {0}
Apart base (h ∷ hs) = ((j : ℕ) → inside h j ≡ true → (base j || holds hs j) ≡ false) × Apart base hs

abbrev pub AllIn : (total : ℕ) → List Held → Type 0
AllIn total [] = Unit {0}
AllIn total (h ∷ hs) = (0 < h.size) × (h.lba + h.size ≤ total) × AllIn total hs

swap_or : (a b c : Bool) → (a || (b || c)) ≡ (b || (a || c))
swap_or true true c = refl
swap_or true false c = refl
swap_or false b c = refl

drop_or : (a b c : Bool) → (a || (b || c)) ≡ false → (a || c) ≡ false
drop_or true b c h = h
drop_or false true c h = absurd (cc)
drop_or false false c h = h

no_or : (a b c : Bool) → b ≡ true → (a || (b || c)) ≡ false → ⊥
no_or a b c t h = ground (arith, t, h)

pub holds-Removes :
    (h : Held) (hs hs' : List Held)
    → Removes h hs hs'
    → (j : ℕ) → holds hs j ≡ (inside h j || holds hs' j)
holds-Removes h hs hs' first j = refl
holds-Removes h (k ∷ hs) (_ ∷ hs') (later r) j =
    rw (holds-Removes h hs hs' r j) (swap_or (inside k j) (inside h j) (holds hs' j))

pub AllIn-Removes :
    (total : ℕ) (h : Held) (hs hs' : List Held)
    → Removes h hs hs'
    → AllIn total hs
    → (0 < h.size) × (h.lba + h.size ≤ total) × AllIn total hs'
AllIn-Removes total h hs hs' first a = a
AllIn-Removes total h (k ∷ hs) (_ ∷ hs') (later r) (p, q, rest) =
    let (p', q', rest') = AllIn-Removes total h hs hs' r rest in (p', q', (p, q, rest'))

pub Apart-Removes :
    (base : ℕ → Bool) (h : Held) (hs hs' : List Held)
    → Removes h hs hs'
    → Apart base hs
    → ((j : ℕ) → inside h j ≡ true → (base j || holds hs' j) ≡ false) × Apart base hs'
Apart-Removes base h hs hs' first a = a
Apart-Removes base h (k ∷ hs) (_ ∷ hs') (later r) (p, rest) =
    let (p', rest') = Apart-Removes base h hs hs' r rest in
    (
      λ j i. elim (Bool-cases (inside k j)) [
        | inr outside ↦ rw outside (p' j i)
        | inl both ↦ absurd (
            no_or (base j) (inside h j) (holds hs' j) i
              (rw (← holds-Removes h hs hs' r j) (p j both)))
      ],
      (
        λ j i.
            drop_or (base j) (inside h j) (holds hs' j) (rw (← holds-Removes h hs hs' r j) (p j i)),
        rest',
      ),
    )
