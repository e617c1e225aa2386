-- ===== src/Tools/Args.antt =====
-- What the tools read from their arguments: UUIDs, and numbers by `strtoull`. A string is the list
-- of its bytes, without the NUL that ends it.
use mini_fs.Base.{
  ℕ, ◌+◌, ◌-◌, ◌*◌, ◌^◌, Bool, true, false, ◌&&◌, ◌||◌, Option, none, some, List, [], ◌∷◌, leb, ltb,
  ◌==◌, if◌then◌else◌, u64_mod, sub64, mul64, Result, ok, err, einval,
}
use mini_fs.Format.Bytes.{Bytes, zeros, put}

-- The value of a hexadecimal digit, in either case.
unfoldable pub hex_value : ℕ → Option ℕ
hex_value c =
    if leb b'0' c && leb c b'9'
    then some (c - b'0')
    else if leb b'a' c && leb c b'f'
    then some (c - b'a' + 10)
    else if leb b'A' c && leb c b'F'
    then some (c - b'A' + 10)
    else none

both_digits : Option ℕ → Option ℕ → Option ℕ
both_digits (some hi) (some lo) = some (hi * 16 + lo)
both_digits (some hi) none = none
both_digits none lo = none

-- The byte that two digits write.
unfoldable pub hex_pair : ℕ → ℕ → Option ℕ
unfolding hex_value both_digits
hex_pair c d = both_digits (hex_value c) (hex_value d)

-- The loop of `parse_uuid`: `n` bytes are in `tmp`. A digit at the end of the string has no partner.
unfoldable pub parse_loop : List ℕ → (n : ℕ) → Bytes → Result (ℕ × Bytes)
unfolding hex_pair
parse_loop [] n tmp = ok (n, tmp)
parse_loop (c ∷ []) n tmp = if leb 16 n || c == b'-' then ok (n, tmp) else err einval
parse_loop (c ∷ d ∷ s) n tmp =
    let after_dash = parse_loop (d ∷ s) n tmp in
    let after_byte : Result (ℕ × Bytes) = elim (hex_pair c d) [
      | none ↦ err einval
      | some v ↦ parse_loop s (n + 1) (put tmp n v)
    ] in
    if leb 16 n then ok (n, tmp) else if c == b'-' then after_dash else after_byte

all_16 : Result (ℕ × Bytes) → Result Bytes
all_16 (ok (n, tmp)) = if n == 16 then ok tmp else err einval
all_16 (err e) = err e

unfoldable pub parse_uuid : List ℕ → Result Bytes
unfolding parse_loop all_16
parse_uuid s = all_16 (parse_loop s 0 zeros)

is_space : ℕ → Bool
is_space c = c == 32 || (leb 9 c && leb c 13)

-- A digit of a base of at most 10
is_digit : (base c : ℕ) → Bool
is_digit base c = leb b'0' c && ltb (c - b'0') base

skip_spaces : List ℕ → List ℕ
unfolding is_space
skip_spaces [] = []
skip_spaces (c ∷ s) = let rest = skip_spaces s in if is_space c then rest else c ∷ s

-- The digits in front of a string: how many, their number, and what follows.
take_digits : (base : ℕ) → List ℕ → (count value : ℕ) → ℕ × ℕ × List ℕ
unfolding is_digit
take_digits base [] count value = (count, value, [])
take_digits base (c ∷ s) count value =
    let rest = take_digits base s (count + 1) (value * base + (c - b'0')) in
    if is_digit base c then rest else (count, value, c ∷ s)

-- The sign: whether it is a minus, and what follows.
take_sign : List ℕ → Bool × List ℕ
take_sign [] = (false, [])
take_sign (c ∷ s) =
    if c == b'-' then (true, s) else if c == b'+' then (false, s) else (false, c ∷ s)

-- `strtoull(s, &end, base)` of C: the number and the rest of the string, if there are digits. A number
-- that is too large is `ULLONG_MAX`, and a minus negates it as an unsigned number.
unfoldable pub strtoull : (base : ℕ) → List ℕ → Option (ℕ × List ℕ)
unfolding skip_spaces take_sign take_digits
strtoull base s =
    let (minus, t) = take_sign (skip_spaces s) in
    let (count, value, end) = take_digits base t 0 0 in
    if count == 0
    then none
    else if leb u64_mod value
    then some (u64_mod - 1, end)
    else if minus
    then some (sub64 0 value, end)
    else some (value, end)

-- The value where nobody asks for the end: 0 without digits.
unfoldable pub number_arg : (base : ℕ) → List ℕ → ℕ
unfolding strtoull
number_arg base s = elim (strtoull base s) [ none ↦ 0 | some p ↦ p.0 ]

-- The factor that the first character behind the number stands for.
size_unit : List ℕ → Option ℕ
size_unit [] = some 1
size_unit (c ∷ s) =
    if c == b'k' || c == b'K'
    then some (2 ^ 10)
    else if c == b'm' || c == b'M'
    then some (2 ^ 20)
    else if c == b'g' || c == b'G'
    then some (2 ^ 30)
    else if c == b't' || c == b'T'
    then some (2 ^ 40)
    else none

scaled : ℕ → Option ℕ → Result ℕ
scaled v none = err einval
scaled v (some unit) = ok (mul64 v unit)

sized : Option (ℕ × List ℕ) → Result ℕ
unfolding size_unit scaled
sized none = err einval
sized (some (v, end)) = scaled v (size_unit end)

unfoldable pub parse_size : List ℕ → Result ℕ
unfolding strtoull sized
parse_size s = sized (strtoull 10 s)

-- `!strcmp(a, b)`
unfoldable pub same_text : List ℕ → List ℕ → Bool
same_text [] [] = true
same_text [] (d ∷ t) = false
same_text (c ∷ s) [] = false
same_text (c ∷ s) (d ∷ t) = c == d && same_text s t
