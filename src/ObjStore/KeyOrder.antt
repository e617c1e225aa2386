-- ===== src/ObjStore/KeyOrder.antt =====
-- The order of the keys of extents in a store that compares keys byte by byte.
use mini_fs.Base.{
  ℕ, zero, suc, ◌+◌, ◌*◌, ◌^◌, ◌<◌, ◌≡◌, refl, sym, ap, ◌∙◌, inl, inr, Bool, true, false, [], ◌∷◌,
  ◌++◌, arith, ltb, ◌==◌, if◌then◌else◌, ltb→lt, ltb→le, ==→eq, ==→ne, ==_refl, lt→ltb, le→ltb,
  Bool-cases, length,
}
use native.Mathlib.Nat.{pow-suc, mod-lt}
use mini_fs.ObjStore.Codec.{Str, put_be, get_be}
use mini_fs.ObjStore.Keys.{
  key_extent_prefix, key_extent, starts_with, drop, is_extent_key, extent_key_offset,
}

-- The store's order of keys: `memcmp` on the common part, and then the shorter one first.
unfoldable pub lex_lt : Str → Str → Bool
lex_lt s [] = false
lex_lt [] (b ∷ t) = true
lex_lt (a ∷ s) (b ∷ t) =
    let rest = lex_lt s t in if ltb a b then true else if a == b then rest else false

-- The number that the bytes stand for, the first one highest.
abbrev big : Str → ℕ
big [] = 0
big (b ∷ s) = b * 256 ^ length s + big s

abbrev AllBytes : Str → Type 0
AllBytes [] = Unit {0}
AllBytes (b ∷ s) = (b < 256) × AllBytes s

scaled-lt : (b c p v : ℕ) → b < c → v < p → b * p + v < c * p
scaled-lt b c p v h k = grind arith

big-lt : (s : Str) → AllBytes s → big s < 256 ^ length s
big-lt [] h = omega arith
big-lt (b ∷ s) h =
    omega
      (arith, pow-suc 256 (length s), scaled-lt b 256 (256 ^ length s) (big s) h.0 (big-lt s h.1))

ltb_shift : (k x y : ℕ) → ltb (k + x) (k + y) ≡ ltb x y
ltb_shift k x y = ground arith

lex_lt-big :
    (s t : Str) → AllBytes s → AllBytes t → length s ≡ length t → lex_lt s t ≡ ltb (big s) (big t)
unfolding lex_lt
lex_lt-big [] [] hs ht e = refl
lex_lt-big [] (b ∷ t) hs ht e = absurd (omega arith)
lex_lt-big (a ∷ s) [] hs ht e = absurd (omega arith)
lex_lt-big (a ∷ s) (b ∷ t) hs ht e =
    let e' : length t ≡ length s = omega arith in
    let p = 256 ^ length s in
    let ih = lex_lt-big s t hs.1 ht.1 (sym e') in
    let low = big-lt s hs.1 in
    let low' : big t < p = rw (← e') (big-lt t ht.1) in
    rw e' (elim (Bool-cases (ltb a b)) [
      | inl less ↦ rw (
        less,
        lt→ltb (a * p + big s) (b * p + big t)
            (omega (arith, scaled-lt a b p (big s) (ltb→lt a b less) low)),
      )
      | inr not_less ↦ rw not_less (elim (Bool-cases (a == b)) [
        | inl same ↦ rw (same, ==→eq a b same) (ih ∙ sym (ltb_shift (b * p) (big s) (big t)))
        | inr differ ↦
            let more : b < a = omega (arith, ltb→le a b not_less, ==→ne a b differ) in
            rw (
              differ,
              le→ltb (a * p + big s) (b * p + big t)
                  (omega (arith, scaled-lt b a p (big t) more low')),
            )
      ])
    ])

lex_lt-append : (p s t : Str) → lex_lt (p ++ s) (p ++ t) ≡ lex_lt s t
unfolding lex_lt
lex_lt-append [] s t = refl
lex_lt-append (a ∷ p) s t = ground (arith, lex_lt-append p s t)

big-put_be : (v : ℕ) → v < 2 ^ 64 → big (put_be 8 v) ≡ v
unfolding put_be
big-put_be v h = omega arith

AllBytes-put_be : (w v : ℕ) → AllBytes (put_be w v)
unfolding put_be
AllBytes-put_be zero v = tt
AllBytes-put_be (suc w) v = (mod-lt _ (omega arith), AllBytes-put_be w v)

length-put_be : (w v : ℕ) → length (put_be w v) ≡ w
unfolding put_be
length-put_be zero v = refl
length-put_be (suc w) v = ap suc (length-put_be w v)

-- The keys of two extents of an object stand in the order of their offsets in the object, for offsets
-- below 2^64.
pub lex_lt-key_extent :
    (oid a b : ℕ) → a < 2 ^ 64 → b < 2 ^ 64 → lex_lt (key_extent oid a) (key_extent oid b) ≡ ltb a b
unfolding key_extent
lex_lt-key_extent oid a b ha hb =
    lex_lt-append (key_extent_prefix oid) (put_be 8 a) (put_be 8 b)
    ∙ lex_lt-big (put_be 8 a) (put_be 8 b) (AllBytes-put_be 8 a) (AllBytes-put_be 8 b)
        (length-put_be 8 a ∙ sym (length-put_be 8 b))
    ∙ rw (big-put_be a ha, big-put_be b hb) refl

-- The offset that is read from the key of an extent is the one that was put, below 2^64.
pub extent_key_offset-key_extent :
    (oid a : ℕ) → a < 2 ^ 64 → extent_key_offset (key_extent oid a) ≡ a
unfolding extent_key_offset key_extent key_extent_prefix put_be get_be drop
extent_key_offset-key_extent oid a h = omega arith

starts_with_self : (p t : Str) → starts_with p (p ++ t) ≡ true
unfolding starts_with
starts_with_self [] t = refl
starts_with_self (a ∷ p) t = rw (==_refl a) (starts_with_self p t)

starts_with_prefix : (p s t : Str) → length p ≡ length s → starts_with p (s ++ t) ≡ true → p ≡ s
unfolding starts_with
starts_with_prefix [] [] t e h = refl
starts_with_prefix [] (b ∷ s) t e h = absurd (omega arith)
starts_with_prefix (a ∷ p) [] t e h = absurd (omega arith)
starts_with_prefix (a ∷ p) (b ∷ s) t e h = ground (arith, starts_with_prefix p s t (omega arith))

length-append : (s t : Str) → length (s ++ t) ≡ length s + length t
length-append [] t = omega arith
length-append (a ∷ s) t = omega (arith, length-append s t)

length-key_extent : (oid a : ℕ) → length (key_extent oid a) ≡ 19
unfolding key_extent
length-key_extent oid a =
    omega (arith, length-append (put_be 8 oid) (put_be 8 a), length-put_be 8 oid, length-put_be 8 a)

-- The key of an extent is taken for one of object `oid` exactly when it is: for object identifiers
-- below 2^64, whatever the offset.
pub is_extent_key-key_extent :
    (oid oid' a : ℕ)
    → oid < 2 ^ 64
    → oid' < 2 ^ 64
    → is_extent_key (key_extent_prefix oid) (key_extent oid' a) ≡ (oid == oid')
unfolding is_extent_key
is_extent_key-key_extent oid oid' a h h' =
    rw (length-key_extent oid' a) (elim (Bool-cases (oid == oid')) [
      | inl same ↦ rw (same, ==→eq oid oid' same) (self oid')
      | inr differ ↦
          rw differ (elim (Bool-cases (starts_with (key_extent_prefix oid) (key_extent oid' a))) [
            | inr no_prefix ↦ no_prefix
            | inl is_prefix ↦ absurd (==→ne oid oid' differ (same_oid is_prefix))
          ])
    ])
  where
    self : (o : ℕ) → starts_with (key_extent_prefix o) (key_extent o a) ≡ true
    self o = unfold key_extent in starts_with_self (key_extent_prefix o) (put_be 8 a)

    same_oid : starts_with (key_extent_prefix oid) (key_extent oid' a) ≡ true → oid ≡ oid'
    same_oid p =
        let q : put_be 8 oid ≡ put_be 8 oid' =
          (unfold starts_with key_extent key_extent_prefix in
            starts_with_prefix (put_be 8 oid) (put_be 8 oid') (put_be 8 a)
              (length-put_be 8 oid ∙ sym (length-put_be 8 oid')) (ground (arith, p))) in
        sym (big-put_be oid h) ∙ ap big q ∙ big-put_be oid' h'
