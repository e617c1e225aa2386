-- ===== src/Meta/Zeroing.antt =====
-- `zero_region` and `write_zeros`: what a region holds after they have run.
use mini_fs.Base.{
  ℕ, zero, suc, ◌+◌, ◌-◌, ◌*◌, ◌%◌, ◌≤◌, ◌<◌, ◌≡◌, refl, sym, ap, ◌∙◌, inl, inr, arith, ltb,
  if◌then◌else◌, ltb→lt, ltb→le, Bool-cases, u64_mod, add64, Result, ok, err, Cmd, and_then, ◌>>◌,
}
use mathlib.Core.Path.{subst}
use mini_fs.Format.Bytes.{Bytes, at, zeros}
use mini_fs.Format.Consts.{block_size}
use mini_fs.Io.Raw.{Io, alloc_buf, alloc_buf-same}
use mini_fs.Io.Posix.{io_write}
use mini_fs.Io.Loops.{IsDevice, SameOutside}
use mini_fs.Io.Laws.{Written, io_write-Written}
use mini_fs.Meta.Regions.{zero_batches, zero_region}

-- The outcomes of zeroing `n` blocks: all their bytes are zero and the rest of the file is as it
-- was; or an error, and the rest of the file is as it was.
abbrev pub Zeroes : (lba n : ℕ) → Io → Result (Unit {0}) × Io → Type 0
Zeroes lba n io (ok _, io') =
    ((j : ℕ) → j < n * block_size → at io'.disk (lba * block_size + j) ≡ 0)
    × SameOutside io.disk io'.disk (lba * block_size) (n * block_size)
Zeroes lba n io (err e, io') = SameOutside io.disk io'.disk (lba * block_size) (n * block_size)

-- A batch that was written, and then what follows it.
join :
    (lba c r : ℕ) (io io' : Io)
    → Written lba c zeros io (ok tt, io')
    → (q : Result (Unit {0}) × Io) → Zeroes (lba + c) r io' q
    → Zeroes lba (c + r) io q
join lba c r io io' w (ok _, io'') (zero_rest, same) = (
  (λ j p. elim (Bool-cases (ltb j (c * block_size))) [
    | inl first ↦
        ap (λ (x : ℕ). x % 256)
          (same (lba * block_size + j) (inl (omega (arith, ltb→lt j (c * block_size) first))))
        ∙ sym (w.bytes tt refl j (ltb→lt j (c * block_size) first))
    | inr later ↦
        let le = ltb→le j (c * block_size) later in
        let e : lba * block_size + j ≡ (lba + c) * block_size + (j - c * block_size) =
          omega (arith, le) in
        rw e (zero_rest (j - c * block_size) (omega (arith, le)))
  ]),
  (λ j p. same j (omega arith) ∙ w.outside j (omega arith)),
)
join lba c r io io' w (err e, io'') same = λ j p. same j (omega arith) ∙ w.outside j (omega arith)

after_batch :
    (lba c r : ℕ) (io : Io) (p : Result (Unit {0}) × Io) (k : Cmd Io (Unit {0}))
    → Written lba c zeros io p
    → ((io' : Io) → io'.capacity_blocks ≡ io.capacity_blocks → Zeroes (lba + c) r io' (k io'))
    → Zeroes lba (c + r) io (and_then (λ u. k) p.0 p.1)
after_batch lba c r io (ok tt, io') k w rest = join lba c r io io' w (k io') (rest io' w.capacity)
after_batch lba c r io (err e, io') k w rest = λ j q. w.outside j (omega arith)

zero_batches-Zeroes :
    (fuel lba n : ℕ) (io : Io)
    → IsDevice io
    → lba + n < u64_mod
    → n < fuel
    → Zeroes lba n io (zero_batches fuel lba n io)
unfolding zero_batches
zero_batches-Zeroes zero lba n io dev small enough = absurd (omega arith)
zero_batches-Zeroes (suc fuel) lba n io dev small enough = elim (Bool-cases (ltb 0 n)) [
  | inr none_left ↦
      let le = ltb→le 0 n none_left in
      rw none_left ((λ j p. absurd (omega (arith, le))), λ j p. refl)
  | inl some_left ↦
      let lt = ltb→lt 0 n some_left in
      let c = if ltb 64 n then 64 else n in
      let bounds : (0 < c) × (c ≤ n) = ground (arith, lt) in
      let total : c + (n - c) ≡ n = omega (arith, bounds.1) in
      let next : add64 lba c ≡ lba + c = omega (arith, bounds.1) in
      let step =
        after_batch lba c (n - c) io (io_write lba c zeros io)
          (zero_batches fuel (add64 lba c) (n - c))
          (io_write-Written lba c zeros io dev (omega (arith, bounds.1)))
          (λ io' cap.
            subst (λ x. Zeroes (lba + c) (n - c) io' (zero_batches fuel x (n - c) io')) (sym next)
              (zero_batches-Zeroes fuel (lba + c) (n - c) io' (omega (arith, cap))
                (omega (arith, bounds.1)) (omega (arith, bounds.0, bounds.1)))) in
      rw some_left (
        subst
          (λ x.
            Zeroes lba x io ((io_write lba c zeros >> zero_batches fuel (add64 lba c) (n - c)) io))
          total step)
]

after_alloc :
    (lba n : ℕ) (io : Io) (p : Result (Unit {0}) × Io) (k : Cmd Io (Unit {0}))
    → p.1.disk ≡ io.disk
    → p.1.capacity_blocks ≡ io.capacity_blocks
    → ((io' : Io) → io'.capacity_blocks ≡ io.capacity_blocks → Zeroes lba n io' (k io'))
    → Zeroes lba n io (and_then (λ u. k) p.0 p.1)
after_alloc lba n io (ok u, io') k d c h = moved (k io') (h io' c)
  where
    moved : (q : Result (Unit {0}) × Io) → Zeroes lba n io' q → Zeroes lba n io q
    moved (ok v, io'') (zero_all, same) = (zero_all, λ j p. same j p ∙ ap (λ (b : Bytes). b j) d)
    moved (err e, io'') same = λ j p. same j p ∙ ap (λ (b : Bytes). b j) d
after_alloc lba n io (err e, io') k d c h = λ j p. ap (λ (b : Bytes). b j) d

-- On a device of fewer than 2^63 bytes, for block numbers that do not wrap: zeroing a region of `n`
-- blocks leaves all its bytes zero when it succeeds, however its writes were
-- cut up, and never touches a byte outside the region.
pub zero_region-Zeroes :
    (lba n : ℕ) (io : Io) → IsDevice io → lba + n < u64_mod → Zeroes lba n io (zero_region lba n io)
unfolding zero_region
zero_region-Zeroes lba n io dev small =
    after_alloc lba n io (alloc_buf io) (zero_batches (n + 1) lba n) (alloc_buf-same io).0
      (alloc_buf-same io).1
      (λ io' cap. zero_batches-Zeroes (n + 1) lba n io' (omega (arith, cap)) small (omega arith))
