-- ===== src/ObjStore/Codec.antt =====
-- src/objstore/common.cc: numbers in byte strings. Keys hold them big-endian; values hold them as
-- the host does, which is little-endian, and a value is read at a position that moves: the string
-- that is left.
use mini_fs.Base.{ℕ, zero, suc, ◌+◌, ◌*◌, ◌/◌, ◌%◌, ◌^◌, List, [], ◌∷◌, Option, none, some}

abbrev pub Str : Type 0
Str = List ℕ

-- `put_be16`, `put_be32` and `put_be64` append 2, 4 and 8 bytes.
unfoldable pub put_be : (width v : ℕ) → Str
put_be zero v = []
put_be (suc width) v = (v / 256 ^ width % 256) ∷ put_be width v

-- `get_be64` of the bytes that are left, where `v` was read so far.
unfoldable pub get_be : (v : ℕ) → Str → ℕ
get_be v [] = v
get_be v (b ∷ s) = get_be (v * 256 + b % 256) s

-- `put_pod` of a number of `width` bytes.
unfoldable pub put_pod : (width v : ℕ) → Str
put_pod zero v = []
put_pod (suc width) v = (v % 256) ∷ put_pod width (v / 256)

abbrev pub carry : ℕ → Option (ℕ × Str) → Option (ℕ × Str)
carry b none = none
carry b (some (v, rest)) = some (b % 256 + 256 * v, rest)

-- `get_pod`: the number and what is left, or nothing where the string is too short.
unfoldable pub get_pod : (width : ℕ) → Str → Option (ℕ × Str)
get_pod zero s = some (0, s)
get_pod (suc width) [] = none
get_pod (suc width) (b ∷ s) = carry b (get_pod width s)

module _ {A B : Type 0} where
  infixl 5 ◌>>=◌
  abbrev pub ◌>>=◌ : Option A → (A → Option B) → Option B
  none >>= f = none
  some a >>= f = f a

-- `return pos == buf.size()`
abbrev pub at_end : {A : Type 0} → A → Str → Option A
at_end a [] = some a
at_end a (b ∷ s) = none

-- `pod_to_string` and `string_to_pod`
unfoldable pub pod_to_string : (width v : ℕ) → Str
unfolding put_pod
pod_to_string width v = put_pod width v

unfoldable pub string_to_pod : (width : ℕ) → Str → Option ℕ
unfolding get_pod
string_to_pod width s = do (v, rest) ← get_pod width s; at_end v rest
