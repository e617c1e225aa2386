-- ===== src/Uuid.antt =====
-- src/util/uuid.c: UUIDs from `/dev/urandom`, and their text.
pub mod RoundTrip
use mini_fs.Base.{
  ℕ, zero, suc, ◌+◌, ◌-◌, ◌*◌, ◌/◌, ◌%◌, ◌^◌, ◌≤◌, ◌<◌, min, max, bit_and, bit_or, bit_xor, ◌≡◌,
  refl, sym, ap, ◌∙◌, fun_ext, ◌≢◌, ◌↔◌, ◌⊎◌, inl, inr, Bool, true, false, not, ◌&&◌, ◌||◌, Option,
  none, some, List, [], ◌∷◌, ◌++◌, arith, ltb, leb, ◌==◌, if◌then◌else◌, ltb→lt, ltb→le, leb→le,
  leb→lt, ==→eq, ==→ne, ==_refl, lt→ltb, le→ltb, ne→==, tests, Bool-cases, length, u32_mod, u64_mod,
  add64, sub64, mul64, u32, Result, ok, err, Cmd, pure, throw, and_then, ◌>>=◌, ◌>>◌, guard,
  Result-cases, enoent, eintr, eio, ebadf, enomem, eexist, einval, enospc, erange, enametoolong,
}
use mini_fs.Format.Bytes.{Bytes, at, zeros, put, copy, read_le}

-- What a `read` of `/dev/urandom` does: it fails with an errno, or delivers this many bytes.
pub data Draw : Type 0 where
  refused : ℕ → Draw
  drew : ℕ → Bytes → Draw

-- The errno with which `open` fails, if it does, and the outcomes of the next reads. When none are
-- left a read delivers all the bytes it was asked for, all of them 0.
pub record Urandom : Type 0 where
  pub open_fails : Option ℕ
  pub draws : List Draw

-- The loop of `nebula_uuid_generate`: `got` of the 16 bytes are in `uuid`.
draw_loop : List Draw → (got : ℕ) → Bytes → Result Bytes × List Draw
draw_loop [] got uuid = (ok (if ltb got 16 then copy uuid got zeros 0 (16 - got) else uuid), [])
draw_loop (refused e ∷ ds) got uuid =
    let again = draw_loop ds got uuid in
    if ltb got 16 then (if e == eintr then again else (err e, ds)) else (ok uuid, refused e ∷ ds)
draw_loop (drew r bytes ∷ ds) got uuid =
    let k = min r (16 - got) in
    let rest = draw_loop ds (got + k) (copy uuid got bytes 0 k) in
    if ltb got 16 then (if r == 0 then (err eio, ds) else rest) else (ok uuid, drew r bytes ∷ ds)

-- The version and variant bits of RFC 4122.
version_4 : Bytes → Bytes
version_4 uuid =
    let u = put uuid 6 (bit_or (bit_and (at uuid 6) 0x0F) 0x40) in
    put u 8 (bit_or (bit_and (at u 8) 0x3F) 0x80)

drawn : Result Bytes → Result Bytes
unfolding version_4
drawn (ok uuid) = ok (version_4 uuid)
drawn (err e) = err e

generate_from : Option ℕ → Cmd Urandom Bytes
unfolding draw_loop drawn
generate_from (some e) s = (err e, s)
generate_from none s = let (r, ds) = draw_loop s.draws 0 zeros in (drawn r, record s { draws = ds })

unfoldable pub uuid_generate : Cmd Urandom Bytes
unfolding generate_from
uuid_generate s = generate_from s.open_fails s

-- The 16 bytes as the number that a store of a UUID field writes.
abbrev pub uuid_number : Bytes → ℕ
uuid_number uuid = read_le 16 0 uuid

-- A digit of `%02x`
unfoldable pub hex_digit : ℕ → ℕ
hex_digit d = if ltb d 10 then b'0' + d else b'a' + (d - 10)

-- `%02x` of byte `i`, in front of `rest`
abbrev pub hex_byte : Bytes → ℕ → List ℕ → List ℕ
hex_byte uuid i rest = hex_digit (at uuid i / 16) ∷ hex_digit (at uuid i % 16) ∷ rest

unfoldable pub uuid_format : Bytes → List ℕ
uuid_format uuid =
    let b = hex_byte uuid in
    b 0 (
      b 1 (
        b 2 (
          b 3 (
            b'-'
            ∷ b 4 (
                b 5 (
                  b'-'
                  ∷ b 6 (
                      b 7 (
                        b'-' ∷ b 8 (b 9 (b'-' ∷ b 10 (b 11 (b 12 (b 13 (b 14 (b 15 [])))))))))))))))
