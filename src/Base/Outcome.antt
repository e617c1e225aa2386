-- ===== src/Base/Outcome.antt =====
-- Commands over a state that return a value or a negative errno. A C function that returns
-- `NEBULA_OK` or `-e` is a command; `err e` stands for the return value `-e`.
use Prim.Native.Nat.{ℕ}
use mathlib.Core.Path.{◌≡◌, refl}
use mathlib.Core.Bool.{Bool, true, false}
use mathlib.Core.Logic.{◌⊎◌, inl, inr}

pub data Result {ℓ} (A : Type ℓ) : Type ℓ where
  ok : A → Result A
  err : ℕ → Result A

abbrev pub Cmd : Type 0 → Type 0 → Type 0
Cmd S A = S → Result A × S

module _ {S A : Type 0} where
  abbrev pub pure : A → Cmd S A
  pure a s = (ok a, s)

  abbrev pub throw : ℕ → Cmd S A
  throw e s = (err e, s)

  abbrev pub and_then : {B : Type 0} → (A → Cmd S B) → Result A → S → Result B × S
  and_then k (ok a) s = k a s
  and_then k (err e) s = (err e, s)

module _ {S A B : Type 0} where
  infixl 5 ◌>>=◌
  abbrev pub ◌>>=◌ : Cmd S A → (A → Cmd S B) → Cmd S B
  ◌>>=◌ m k s = let (r, s') = m s in and_then k r s'

module _ {S B : Type 0} where
  infixl 5 ◌>>◌
  abbrev pub ◌>>◌ : Cmd S (Unit {0}) → Cmd S B → Cmd S B
  m >> k = m >>= λ _. k

module _ {S : Type 0} where
  -- `if (!test) return -e;`
  abbrev pub guard : Bool → ℕ → Cmd S (Unit {0})
  guard true e s = (ok tt, s)
  guard false e s = (err e, s)

module _ {ℓ} {A : Type ℓ} where
  pub Result-cases : (r : Result A) → ((a : A) × (r ≡ ok a)) ⊎ ((e : ℕ) × (r ≡ err e))
  Result-cases (ok a) = inl (a, refl)
  Result-cases (err e) = inr (e, refl)
