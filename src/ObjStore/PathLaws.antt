-- ===== src/ObjStore/PathLaws.antt =====
-- `validate_object_path` against a description of the paths that it is meant to accept.
use mini_fs.Base.{
  ℕ, ◌+◌, ◌≤◌, ◌≡◌, refl, sym, ap, ◌∙◌, inl, inr, Bool, true, false, not, ◌&&◌, List, [], ◌∷◌,
  arith, ltb, ◌==◌, if◌then◌else◌, ==_refl, ne→==, Bool-cases, length,
}
use mini_fs.ObjStore.Codec.{Str}
use mini_fs.ObjStore.ObjectPath.{components, begins, validate_object_path}

abbrev join_part : ℕ → List Str → List Str
join_part c [] = (c ∷ []) ∷ []
join_part c (x ∷ xs) = (c ∷ x) ∷ xs

-- The parts of a text between its slashes.
unfoldable pub split : Str → List Str
split [] = [] ∷ []
split (c ∷ s) = let parts = split s in if c == b'/' then [] ∷ parts else join_part c parts

abbrev pub is_empty : Str → Bool
is_empty [] = true
is_empty (c ∷ s) = false

-- `/<tenant>/<sub>/<ds>/<oid>`: a slash, and then four parts, none of them empty.
abbrev pub four_names : List Str → Bool
four_names (a ∷ b ∷ c ∷ d ∷ []) =
    not (is_empty a) && not (is_empty b) && not (is_empty c) && not (is_empty d)
four_names _ = false

abbrev pub is_object_path : Str → Bool
is_object_path [] = false
is_object_path (c ∷ s) = c == b'/' && four_names (split s)

split-cons : (s : Str) → (x : Str) × (xs : List Str) × (split s ≡ x ∷ xs)
unfolding split
split-cons [] = ([], [], refl)
split-cons (c ∷ s) = elim (Bool-cases (c == b'/')) [
  | inl slash ↦ ([], split s, rw slash refl)
  | inr other ↦ let (x, xs, e) = split-cons s in (c ∷ x, xs, rw (other, e) refl)
]

-- What the loop of the code accepts, by the parts that are left: `fresh` says that nothing of the
-- first one was read yet, `count` how many were.
abbrev accepts : (fresh : Bool) (count : ℕ) → List Str → Bool
accepts fresh count [] = false
accepts fresh count (x ∷ []) = not (fresh && is_empty x) && count + 1 == 4
accepts fresh count (x ∷ y ∷ ys) = not (fresh && is_empty x) && accepts true (count + 1) (y ∷ ys)

accepts-join :
    (fresh : Bool) (count c : ℕ) (x : Str) (xs : List Str)
    → accepts fresh count ((c ∷ x) ∷ xs) ≡ accepts false count (x ∷ xs)
accepts-join true count c x [] = refl
accepts-join false count c x [] = refl
accepts-join true count c x (y ∷ ys) = refl
accepts-join false count c x (y ∷ ys) = refl

components-accepts :
    (s : Str) (i start count : ℕ)
    → start ≤ i
    → components s i start count ≡ accepts (i == start) count (split s)
unfolding components split
components-accepts [] i start count h = ground arith
components-accepts (c ∷ s) i start count h = elim (Bool-cases (c == b'/')) [
  | inl slash ↦
      let (x, xs, e) = split-cons s in
      let ih = components-accepts s (i + 1) (i + 1) (count + 1) (omega arith) in
      elim (Bool-cases (i == start)) [
        | inl same ↦ rw (slash, same, e) refl
        | inr later ↦ rw (slash, later, ih, ==_refl (i + 1), e) refl
      ]
  | inr other ↦
      let (x, xs, e) = split-cons s in
      let ih = components-accepts s (i + 1) start count (omega arith) in
      let later : (i + 1 == start) ≡ false = ne→== (i + 1) start (omega arith) in
      rw (other, ih, later, e, accepts-join (i == start) count c x xs) refl
]

&&-false : (b : Bool) → (b && false) ≡ false
&&-false true = refl
&&-false false = refl

-- Once four parts are behind it, the loop accepts nothing.
accepts-many : (fresh : Bool) (count : ℕ) (l : List Str) → 4 ≤ count → accepts fresh count l ≡ false
accepts-many fresh count [] h = refl
accepts-many fresh count (x ∷ []) h =
    let off : (count + 1 == 4) ≡ false = ne→== (count + 1) 4 (omega arith) in
    rw off (&&-false (not (fresh && is_empty x)))
accepts-many fresh count (x ∷ y ∷ ys) h =
    rw (accepts-many true (count + 1) (y ∷ ys) (omega arith)) (&&-false (not (fresh && is_empty x)))

accepts-four_names : (l : List Str) → accepts true 0 l ≡ four_names l
accepts-four_names [] = refl
accepts-four_names (a ∷ []) = ground arith
accepts-four_names (a ∷ b ∷ []) = ground arith
accepts-four_names (a ∷ b ∷ c ∷ []) = ground arith
accepts-four_names (a ∷ b ∷ c ∷ d ∷ []) = ground arith
accepts-four_names (a ∷ b ∷ c ∷ d ∷ x ∷ xs) =
    rw (accepts-many true 4 (x ∷ xs) (omega arith)) (ground arith)

-- A text and its parts: each part counts with one slash.
weight : List Str → ℕ
weight [] = 0
weight (x ∷ xs) = length x + 1 + weight xs

weight-split : (s : Str) → weight (split s) ≡ length s + 1
unfolding split weight
weight-split [] = refl
weight-split (c ∷ s) = elim (Bool-cases (c == b'/')) [
  | inl slash ↦ let ih = weight-split s in rw slash (omega arith)
  | inr other ↦
      let (x, xs, e) = split-cons s in
      let ih : weight (x ∷ xs) ≡ length s + 1 = ap weight (sym e) ∙ weight-split s in
      rw (other, e) (omega arith)
]

weight-four_names : (l : List Str) → four_names l ≡ true → 8 ≤ weight l
unfolding weight
weight-four_names [] h = ground arith
weight-four_names ([] ∷ xs) h = ground arith
weight-four_names ((a ∷ a') ∷ []) h = ground arith
weight-four_names ((a ∷ a') ∷ [] ∷ xs) h = ground arith
weight-four_names ((a ∷ a') ∷ (b ∷ b') ∷ []) h = ground arith
weight-four_names ((a ∷ a') ∷ (b ∷ b') ∷ [] ∷ xs) h = ground arith
weight-four_names ((a ∷ a') ∷ (b ∷ b') ∷ (c ∷ c') ∷ []) h = ground arith
weight-four_names ((a ∷ a') ∷ (b ∷ b') ∷ (c ∷ c') ∷ [] ∷ xs) h = ground arith
weight-four_names ((a ∷ a') ∷ (b ∷ b') ∷ (c ∷ c') ∷ (d ∷ d') ∷ x ∷ xs) h = ground arith
weight-four_names ((a ∷ a') ∷ (b ∷ b') ∷ (c ∷ c') ∷ (d ∷ d') ∷ []) h = omega arith

-- The code accepts exactly the paths `/<tenant>/<sub>/<ds>/<oid>`: those that begin with a slash
-- and whose rest, parted at its slashes, has four parts of which none is empty.
pub validate_object_path-is_object_path : (p : Str) → validate_object_path p ≡ is_object_path p
unfolding validate_object_path begins
validate_object_path-is_object_path [] = refl
validate_object_path-is_object_path (c ∷ s) =
    let loop = components-accepts s 1 1 0 (omega arith) ∙ accepts-four_names (split s) in
    elim (Bool-cases (four_names (split s))) [
      | inl good ↦
          let w = weight-four_names (split s) good in
          let l = weight-split s in
          let long : ltb (length s + 1) 5 ≡ false = ground arith in rw (loop, good) (ground arith)
      | inr bad ↦ rw (loop, bad) (ground arith)
    ]
