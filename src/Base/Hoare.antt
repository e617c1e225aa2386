-- ===== src/Base/Hoare.antt =====
-- Triples for commands: what holds after a success.
use mathlib.Core.Path.{◌≡◌, refl}
use mathlib.Core.Bool.{Bool, true, false}
use Prim.Native.Nat.{ℕ}
use mini_fs.Base.Outcome.{Result, ok, err, Cmd, pure, and_then, ◌>>=◌, ◌>>◌, guard}

-- Nothing is said of a failure.
abbrev pub Yields : {S A : Type 0} → (A → S → Type 0) → Result A × S → Type 0
Yields Q (ok a, s) = Q a s
Yields Q (err e, s) = Unit {0}

-- From a state of `P`, a success of `m` with the value `a` ends in a state of `Q a`.
pub record Triple {S A : Type 0} (P : S → Type 0) (m : Cmd S A) (Q : A → S → Type 0) : Type 0 where
  pub run : (s : S) → P s → Yields Q (m s)

module _ {S A B : Type 0} {P : S → Type 0} {Q : A → S → Type 0} {R : B → S → Type 0} where
  pub Triple-bind :
      {m : Cmd S A} {k : A → Cmd S B}
      → Triple P m Q
      → ((a : A) → Triple (Q a) (k a) R)
      → Triple P (m >>= k) R
  Triple-bind {m = m} {k = k} first next = record { run = λ s p. from (m s) (first.run s p) }
    where
      from : (o : Result A × S) → Yields Q o → Yields R (and_then k o.0 o.1)
      from (ok a, s1) h = (next a).run s1 h
      from (err x, s1) h = tt

module _ {S B : Type 0} {P Q : S → Type 0} {R : B → S → Type 0} where
  pub Triple-seq :
      {m : Cmd S (Unit {0})} {k : Cmd S B}
      → Triple P m (λ u. Q)
      → Triple Q k R
      → Triple P (m >> k) R
  Triple-seq first next = Triple-bind first (λ u. next)

module _ {S : Type 0} {P : S → Type 0} where
  pub guard-Triple : (t : Bool) (e : ℕ) → Triple P (guard t e) (λ u s. (t ≡ true) × P s)
  guard-Triple true e = record { run = λ s p. (refl, p) }
  guard-Triple false e = record { run = λ s p. tt }

  pure-Triple : {A : Type 0} (a : A) → Triple P (pure a) (λ b s. (b ≡ a) × P s)
  pure-Triple a = record { run = λ s p. (refl, p) }
