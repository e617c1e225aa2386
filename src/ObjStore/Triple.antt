-- ===== src/ObjStore/Triple.antt =====
-- Rules for what an action of the object store leaves behind, on success and on failure.
use mini_fs.ObjStore.Status.{Status, Reply, done, fail, Act, chain}

-- `Q` of the value and the state where the action succeeds, `E` of the state where it fails.
pub data Post {S A : Type 0} (Q : A → S → Type 0) (E : S → Type 0) : Reply A × S → Type 0 where
  succeeds : {a : A} {s : S} → Q a s → Post Q E (done a, s)
  fails : {e : Status} {s : S} → E s → Post Q E (fail e, s)

module _ {S A : Type 0} where
  -- What holds of the state alone holds after any reply.
  pub Post-state : (P : S → Type 0) (r : Reply A) (s : S) → P s → Post (λ a. P) P (r, s)
  Post-state P (done a) s h = succeeds h
  Post-state P (fail e) s h = fails h

module _ {S A B : Type 0} {Q : A → S → Type 0} {R : B → S → Type 0} {E : S → Type 0} where
  pub Post-chain :
      (k : A → Act S B) (r : Reply A × S)
      → Post Q E r
      → ((a : A) (s : S) → Q a s → Post R E (k a s))
      → Post R E (chain k r.0 r.1)
  Post-chain k (done a, s) (succeeds h) next = next a s h
  Post-chain k (fail e, s) (fails h) next = fails h

module _ {S A : Type 0} {Q Q' : A → S → Type 0} {E : S → Type 0} where
  pub Post-weaken :
      ((a : A) (s : S) → Q a s → Q' a s) → (r : Reply A × S) → Post Q E r → Post Q' E r
  Post-weaken f (done a, s) (succeeds h) = succeeds (f a s h)
  Post-weaken f (fail e, s) (fails h) = fails h
