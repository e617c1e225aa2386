-- ===== src/Uuid/RoundTrip.antt =====
-- The text of `nebula_uuid_format` against `parse_uuid` of tools/nebula_label.c.
use mini_fs.Base.{
  ℕ, ◌+◌, ◌/◌, ◌%◌, ◌<◌, ◌≡◌, refl, ap, ◌∙◌, inl, inr, false, some, List, [], ◌∷◌, arith, leb, ◌==◌,
  if◌then◌else◌, ==→eq, ==→ne, Bool-cases, ok,
}
use mini_fs.Format.Bytes.{Bytes, at, zeros, put}
use mini_fs.Uuid.{hex_digit, hex_byte, uuid_format}
use mini_fs.Tools.Args.{hex_value, hex_pair, parse_loop, parse_uuid}

-- The first `n` bytes are those of the UUID.
abbrev Holds : Bytes → ℕ → Bytes → Type 0
Holds uuid n tmp = (i : ℕ) → i < n → at tmp i ≡ at uuid i

-- From `n` bytes on, the loop reads the rest of the UUID out of `s`.
record Parses (uuid : Bytes) (s : List ℕ) (n : ℕ) : Type 0 where
  run :
      (tmp : Bytes)
      → Holds uuid n tmp
      → (b : Bytes) × (parse_loop s n tmp ≡ ok (16, b)) × Holds uuid 16 b

hex_value-hex_digit : (d : ℕ) → d < 16 → hex_value (hex_digit d) ≡ some d
unfolding hex_value hex_digit
hex_value-hex_digit d h = ground arith

hex_pair-hex_digit : (v : ℕ) → v < 256 → hex_pair (hex_digit (v / 16)) (hex_digit (v % 16)) ≡ some v
unfolding hex_pair
hex_pair-hex_digit v h =
    rw (hex_value-hex_digit (v / 16) (omega arith), hex_value-hex_digit (v % 16) (omega arith))
      (ap some (omega arith))

not_dash : (d : ℕ) → (hex_digit d == b'-') ≡ false
unfolding hex_digit
not_dash d = ground arith

Holds-put :
    (uuid tmp : Bytes) (n : ℕ) → Holds uuid n tmp → Holds uuid (n + 1) (put tmp n (at uuid n))
unfolding put
Holds-put uuid tmp n h i p = elim (Bool-cases (i == n)) [
  | inl e ↦ ground (arith, ==→eq i n e)
  | inr e ↦ ground (arith, ==→ne i n e, h i)
]

Parses-byte :
    (uuid : Bytes) (n : ℕ) {s : List ℕ}
    → leb 16 n ≡ false
    → Parses uuid s (n + 1)
    → Parses uuid (hex_byte uuid n s) n
unfolding parse_loop
Parses-byte uuid n t rest = record {
  run = λ tmp h.
      rw (hex_pair-hex_digit (at uuid n) (omega arith), not_dash (at uuid n / 16), t)
        (rest.run (put tmp n (at uuid n)) (Holds-put uuid tmp n h));
}

skip_dash :
    (c : ℕ) (s : List ℕ) (n : ℕ) (tmp : Bytes)
    → leb 16 n ≡ false
    → parse_loop (b'-' ∷ c ∷ s) n tmp ≡ parse_loop (c ∷ s) n tmp
unfolding parse_loop
skip_dash c s n tmp t = ap (λ full. if full then ok (n, tmp) else parse_loop (c ∷ s) n tmp) t

Parses-dash :
    (uuid : Bytes) (n : ℕ) {c : ℕ} {s : List ℕ}
    → leb 16 n ≡ false
    → Parses uuid (c ∷ s) n
    → Parses uuid (b'-' ∷ c ∷ s) n
Parses-dash uuid n {c = c} {s = s} t rest = record {
  run = λ tmp h. let (b, e, all) = rest.run tmp h in (b, skip_dash c s n tmp t ∙ e, all);
}

Parses-end : (uuid : Bytes) → Parses uuid [] 16
unfolding parse_loop
Parses-end uuid = record { run = λ tmp h. (tmp, refl, h) }

module _ (uuid : Bytes) where
  Parses-text : Parses uuid (uuid_format uuid) 0
  unfolding uuid_format
  Parses-text = Parses-byte uuid 0 refl (
      Parses-byte uuid 1 refl (
        Parses-byte uuid 2 refl (
          Parses-byte uuid 3 refl (
            Parses-dash uuid 4 refl (
              Parses-byte uuid 4 refl (
                Parses-byte uuid 5 refl (
                  Parses-dash uuid 6 refl (
                    Parses-byte uuid 6 refl (
                      Parses-byte uuid 7 refl (
                        Parses-dash uuid 8 refl (
                          Parses-byte uuid 8 refl (
                            Parses-byte uuid 9 refl (
                              Parses-dash uuid 10 refl (
                                Parses-byte uuid 10 refl (
                                  Parses-byte uuid 11 refl (
                                    Parses-byte uuid 12 refl (
                                      Parses-byte uuid 13 refl (
                                        Parses-byte uuid 14 refl (
                                          Parses-byte uuid 15 refl
                                            (Parses-end uuid))))))))))))))))))))

-- The text of a UUID, read again, is the UUID: `parse_uuid` accepts what `nebula_uuid_format`
-- writes and finds the same 16 bytes.
pub parse_uuid-uuid_format :
    (uuid : Bytes)
    → (b : Bytes) × (parse_uuid (uuid_format uuid) ≡ ok b) × ((i : ℕ) → i < 16 → at b i ≡ at uuid i)
unfolding parse_uuid
parse_uuid-uuid_format uuid =
    let (b, e, all) = (Parses-text uuid).run zeros (λ i p. absurd (omega arith)) in
    (b, (rw e refl), all)
