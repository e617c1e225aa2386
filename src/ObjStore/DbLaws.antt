-- ===== src/ObjStore/DbLaws.antt =====
-- What the metadata store relies on in the store of keys and values.
use mini_fs.Base.{
  ℕ, ◌^◌, ◌<◌, ◌≡◌, refl, Bool, true, false, ◌&&◌, some, List, [], ◌∷◌, ◌==◌, if◌then◌else◌,
  ==_refl,
}
use mini_fs.ObjStore.Status.{Reply, done, fail}
use mini_fs.ObjStore.Triple.{Post, succeeds, fails}
use mini_fs.ObjStore.Codec.{Str, pod_to_string, string_to_pod}
use mini_fs.ObjStore.CodecLaws.{get_pod-put_pod_last}
use mini_fs.ObjStore.Db.{Db, Got, found}

abbrev pub same : Str → Str → Bool
same [] [] = true
same [] (b ∷ t) = false
same (a ∷ s) [] = false
same (a ∷ s) (b ∷ t) = a == b && same s t

pub same_refl : (s : Str) → same s s ≡ true
same_refl [] = refl
same_refl (a ∷ s) = rw (==_refl a, same_refl s) refl

-- What a lookup answers after the entries are stored in their order, where it was `old` before.
abbrev pub newest : (key : Str) (old : Got) → List (Str × Str) → Got
newest key old [] = old
newest key old ((k, v) ∷ rest) = newest key (if same key k then found v else old) rest

-- A lookup changes no answer, and what was stored with success is found.
pub record DbLaws {D : Type 0} (rocks : Db D) : Type 0 where
  pub get-get : (k k' : Str) (d : D) → (rocks.get k (rocks.get k' d).1).0 ≡ (rocks.get k d).0
  pub get-put :
      (sync : Bool) (k k' v : Str) (d : D)
      → (rocks.put sync k' v d).0 ≡ true
      → (rocks.get k (rocks.put sync k' v d).1).0 ≡ newest k (rocks.get k d).0 ((k', v) ∷ [])
  pub get-write :
      (sync : Bool) (k : Str) (batch : List (Str × Str)) (d : D)
      → (rocks.write sync batch d).0 ≡ true
      → (rocks.get k (rocks.write sync batch d).1).0 ≡ newest k (rocks.get k d).0 batch

pub string_to_pod-pod_to_string :
    (w n : ℕ) → n < 256 ^ w → string_to_pod w (pod_to_string w n) ≡ some n
unfolding string_to_pod pod_to_string
string_to_pod-pod_to_string w n h = rw (get_pod-put_pod_last w n h)

-- Nothing is said of a failure.
abbrev pub Success : {S A : Type 0} → (A → S → Type 0) → Reply A × S → Type 0
Success Q = Post Q (λ s. Unit {0})

pub any_reply :
    {S A : Type 0} (P : S → Type 0) (r : Reply A) (s : S) → P s → Success (λ a. P) (r, s)
any_reply P (done a) s h = succeeds h
any_reply P (fail e) s h = fails tt
