-- ===== src/Files/Fuel.antt =====
-- The rounds of the loops of `nebula_file_write` and `nebula_file_read`.
use mini_fs.Base.{
  ℕ, zero, suc, ◌+◌, ◌-◌, ◌/◌, ◌%◌, ◌≤◌, ◌<◌, min, ◌≡◌, refl, sym, ap, inl, inr, arith, ltb, ltb→lt,
  ltb→le, le→ltb, Bool-cases, add64, Result, ok, err, Result-cases,
}
use mini_fs.Format.Bytes.{Bytes}
use mini_fs.Format.Consts.{block_size}
use mini_fs.Files.Extents.{extent_find}
use mini_fs.Files.ReadDelete.{read_round, read_rounds}
use mini_fs.Files.Write.{Open, write_round, Ended, finished, returned, partial_result, write_rounds}

abbrev round_size : (offset len written : ℕ) → ℕ
round_size offset len written = min (block_size - add64 offset written % block_size) (len - written)

-- A round that succeeds writes all bytes that it set out to write.
write_round-size :
    (offset len : ℕ) (src : Bytes) (written n : ℕ) (st st' : Open)
    → write_round offset len src written st ≡ (ok n, st')
    → n ≡ round_size offset len written
unfolding write_round
write_round-size offset len src written n (f, m) st' e = ground arith

write_rounds_done :
    (offset len : ℕ) (src : Bytes) (fuel written : ℕ) (st : Open)
    → len ≤ written
    → write_rounds offset len src fuel written st ≡ (finished written, st)
unfolding write_rounds
write_rounds_done offset len src zero written st h = refl
write_rounds_done offset len src (suc fuel) written st h = rw (le→ltb written len h)

-- The loop of a write ends in the same way with any two amounts of fuel that are at least the number
-- of bytes that are left to write.
write_rounds_fuel :
    (offset len : ℕ) (src : Bytes) (fuel fuel' written : ℕ) (st : Open)
    → len ≤ written + fuel
    → len ≤ written + fuel'
    → write_rounds offset len src fuel written st ≡ write_rounds offset len src fuel' written st
unfolding write_rounds
write_rounds_fuel offset len src zero fuel' written st h h' =
    sym (write_rounds_done offset len src fuel' written st (omega arith))
write_rounds_fuel offset len src (suc fuel) zero written st h h' =
    write_rounds_done offset len src (suc fuel) written st (omega arith)
write_rounds_fuel offset len src (suc fuel) (suc fuel') written st h h' =
    elim (Bool-cases (ltb written len)) [
      | inr done ↦ rw done
      | inl more ↦ rw more (elim (Result-cases (write_round offset len src written st).0) [
        | inr (e, failed) ↦ rw failed
        | inl (k, wrote) ↦
            let rest = (write_round offset len src written st).1 in
            let size =
              write_round-size offset len src written k st rest
                (ap (λ (r : Result ℕ). (r, rest)) wrote) in
            rw wrote (
              write_rounds_fuel offset len src fuel fuel' (written + k) rest
                (omega (arith, size, ltb→lt written len more))
                (omega (arith, size, ltb→lt written len more)))
      ])
    ]

-- How the loop ends: with all `len` bytes written, or by the return of an error or of fewer bytes.
pub data EndsWell (len : ℕ) : Ended → Type 0 where
  all_written : EndsWell len (finished len)
  some_written : (n : ℕ) → n < len → EndsWell len (returned (ok n))
  none_written : (e : ℕ) → EndsWell len (returned (err e))

stopped_at :
    (len written e : ℕ) → written < len → EndsWell len (returned (partial_result written e))
stopped_at len written e lt = elim (Bool-cases (ltb 0 written)) [
  | inl some_bytes ↦ rw some_bytes (some_written written lt)
  | inr no_bytes ↦ rw no_bytes (none_written e)
]

-- With at least as much fuel as there are bytes left, the loop never runs out of it: it ends with
-- all bytes written, or returns an error, or a number of bytes smaller than was asked for.
pub write_rounds-EndsWell :
    (offset len : ℕ) (src : Bytes) (fuel written : ℕ) (st : Open)
    → written ≤ len
    → len ≤ written + fuel
    → EndsWell len (write_rounds offset len src fuel written st).0
unfolding write_rounds
write_rounds-EndsWell offset len src zero written st le h =
    let e : written ≡ len = omega arith in rw e all_written
write_rounds-EndsWell offset len src (suc fuel) written st le h =
    elim (Bool-cases (ltb written len)) [
      | inr done ↦
          let e : written ≡ len = omega (arith, ltb→le written len done) in rw (done, e) all_written
      | inl more ↦ rw more (elim (Result-cases (write_round offset len src written st).0) [
        | inr (e, failed) ↦ rw failed (stopped_at len written e (ltb→lt written len more))
        | inl (k, wrote) ↦
            let size =
              write_round-size offset len src written k st (write_round offset len src written st).1
                (ap (λ (r : Result ℕ). (r, (write_round offset len src written st).1)) wrote) in
            rw wrote (
              write_rounds-EndsWell offset len src fuel (written + k)
                (write_round offset len src written st).1
                (omega (arith, size, ltb→lt written len more))
                (omega (arith, size, ltb→lt written len more)))
      ])
    ]

read_rounds_done :
    (offset len fuel done : ℕ) (dst : Bytes) (st : Open)
    → len ≤ done
    → read_rounds offset len fuel done dst st ≡ ((ok done, dst), st)
unfolding read_rounds
read_rounds_done offset len zero done dst st h = refl
read_rounds_done offset len (suc fuel) done dst st h = rw (le→ltb done len h)

-- The loop of a read ends in the same way with any two amounts of fuel that are at least the number
-- of bytes that are left to read.
read_rounds_fuel :
    (offset len fuel fuel' done : ℕ) (dst : Bytes) (st : Open)
    → len ≤ done + fuel
    → len ≤ done + fuel'
    → read_rounds offset len fuel done dst st ≡ read_rounds offset len fuel' done dst st
unfolding read_rounds
read_rounds_fuel offset len zero fuel' done dst st h h' =
    sym (read_rounds_done offset len fuel' done dst st (omega arith))
read_rounds_fuel offset len (suc fuel) zero done dst st h h' =
    read_rounds_done offset len (suc fuel) done dst st (omega arith)
read_rounds_fuel offset len (suc fuel) (suc fuel') done dst (f, m) h h' =
    elim (Bool-cases (ltb done len)) [
      | inr at_end ↦ rw at_end
      | inl more ↦
          let idx = extent_find f.inode (add64 offset done / block_size) in
          rw more (elim (Result-cases (read_round offset len done dst idx (f, m)).0) [
            | inr (e, failed) ↦ rw failed
            | inl (b, got) ↦ rw got (
                read_rounds_fuel offset len fuel fuel' (done + round_size offset len done) b
                  (read_round offset len done dst idx (f, m)).1
                  (omega (arith, ltb→lt done len more)) (omega (arith, ltb→lt done len more)))
          ])
    ]
