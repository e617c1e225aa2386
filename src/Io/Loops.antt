-- ===== src/Io/Loops.antt =====
-- What the two transfer loops leave, whatever the system calls do.
use mini_fs.Base.{
  ℕ, ◌+◌, ◌-◌, ◌*◌, ◌^◌, ◌≤◌, ◌<◌, min, ◌≡◌, ◌⊎◌, inl, inr, List, [], ◌∷◌, arith, ltb, ◌==◌, ltb→le,
  Bool-cases, Result, ok, err, eintr,
}
use mini_fs.Format.Bytes.{Bytes, at, copy}
use mini_fs.Format.Consts.{block_size}
use mini_fs.Io.Raw.{Io, Syscall, failed, moved}
use mini_fs.Io.Posix.{read_loop, write_loop}

-- The device is small enough for `off_t`.
abbrev pub IsDevice : Io → Type 0
IsDevice io = io.capacity_blocks * block_size < 2 ^ 63

abbrev pub Filled : Bytes → Bytes → ℕ → ℕ → Type 0
Filled disk buf off n = (j : ℕ) → j < n → at buf j ≡ at disk (off + j)

abbrev pub ReadsTo : (disk : Bytes) (off total : ℕ) → Result Bytes × List Syscall → Type 0
ReadsTo disk off total (ok b, _) = Filled disk b off total
ReadsTo disk off total (err e, _) = Unit {0}

Filled-copy :
    (disk buf : Bytes) (off done k : ℕ)
    → Filled disk buf off done
    → Filled disk (copy buf done disk (off + done) k) off (done + k)
unfolding copy
Filled-copy disk buf off done k h j p = elim (Bool-cases (ltb j done)) [
  | inl low ↦ ground (arith, h j)
  | inr high ↦
      let e : off + done + (j - done) ≡ off + j = omega (arith, ltb→le j done high) in
      ground (arith, e)
]

pub read_loop-ReadsTo :
    (disk : Bytes) (off total : ℕ) (evs : List Syscall) (done : ℕ) (buf : Bytes)
    → done ≤ total
    → Filled disk buf off done
    → ReadsTo disk off total (read_loop disk off total evs done buf)
unfolding read_loop
read_loop-ReadsTo disk off total [] done buf le h = λ j p. elim (Bool-cases (ltb done total)) [
  | inl t ↦ rw t (Filled-copy disk buf off done (total - done) h j (omega arith))
  | inr t ↦ rw t (h j (omega (arith, ltb→le done total t)))
]
read_loop-ReadsTo disk off total (failed e ∷ evs) done buf le h =
    elim (Bool-cases (ltb done total)) [
      | inl t ↦ rw t (elim (Bool-cases (e == eintr)) [
        | inl r ↦ rw r (read_loop-ReadsTo disk off total evs done buf le h)
        | inr r ↦ rw r tt
      ])
      | inr t ↦ rw t (λ j p. h j (omega (arith, ltb→le done total t)))
    ]
read_loop-ReadsTo disk off total (moved r ∷ evs) done buf le h =
    elim (Bool-cases (ltb done total)) [
      | inl t ↦ rw t (elim (Bool-cases (r == 0)) [
        | inl z ↦ rw z tt
        | inr z ↦ rw z (
            read_loop-ReadsTo disk off total evs (done + min r (total - done))
              (copy buf done disk (off + done) (min r (total - done))) (omega arith)
              (Filled-copy disk buf off done (min r (total - done)) h))
      ])
      | inr t ↦ rw t (λ j p. h j (omega (arith, ltb→le done total t)))
    ]

-- The file after a write of `n` bytes at `off`, of which the first `done` have arrived at least:
-- outside the range nothing has changed.
abbrev pub SameOutside : Bytes → Bytes → ℕ → ℕ → Type 0
SameOutside disk disk' off n = (j : ℕ) → (j < off) ⊎ (off + n ≤ j) → disk' j ≡ disk j

abbrev pub WritesTo :
    (src disk : Bytes) (off total : ℕ) → Result (Unit {0}) × List Syscall × Bytes → Type 0
WritesTo src disk off total (ok _, _, disk') =
    SameOutside disk disk' off total × Filled disk' src off total
WritesTo src disk off total (err e, _, disk') = SameOutside disk disk' off total × Unit {0}

Filled-write :
    (src disk : Bytes) (off done k : ℕ)
    → Filled disk src off done
    → Filled (copy disk (off + done) src done k) src off (done + k)
unfolding copy
Filled-write src disk off done k h j p = elim (Bool-cases (ltb j done)) [
  | inl low ↦ ground (arith, h j)
  | inr high ↦
      let e : done + (off + j - (off + done)) ≡ j = omega (arith, ltb→le j done high) in
      ground (arith, e)
]

SameOutside-copy :
    (old disk src : Bytes) (off total done k : ℕ)
    → done + k ≤ total
    → SameOutside old disk off total
    → SameOutside old (copy disk (off + done) src done k) off total
unfolding copy
SameOutside-copy old disk src off total done k le h j (inl p) = ground (arith, h j (inl p))
SameOutside-copy old disk src off total done k le h j (inr p) = ground (arith, h j (inr p))

pub write_loop-WritesTo :
    (src old : Bytes) (off total : ℕ) (evs : List Syscall) (done : ℕ) (disk : Bytes)
    → done ≤ total
    → SameOutside old disk off total
    → Filled disk src off done
    → WritesTo src old off total (write_loop src off total evs done disk)
unfolding write_loop
write_loop-WritesTo src old off total [] done disk le same h = elim (Bool-cases (ltb done total)) [
  | inl t ↦ rw t (
    SameOutside-copy old disk src off total done (total - done) (omega arith) same,
    λ j p. Filled-write src disk off done (total - done) h j (omega arith),
  )
  | inr t ↦ rw t (same, λ j p. h j (omega (arith, ltb→le done total t)))
]
write_loop-WritesTo src old off total (failed e ∷ evs) done disk le same h =
    elim (Bool-cases (ltb done total)) [
      | inl t ↦ rw t (elim (Bool-cases (e == eintr)) [
        | inl r ↦ rw r (write_loop-WritesTo src old off total evs done disk le same h)
        | inr r ↦ rw r (same, tt)
      ])
      | inr t ↦ rw t (same, λ j p. h j (omega (arith, ltb→le done total t)))
    ]
write_loop-WritesTo src old off total (moved r ∷ evs) done disk le same h =
    elim (Bool-cases (ltb done total)) [
      | inl t ↦ rw t (elim (Bool-cases (r == 0)) [
        | inl z ↦ rw z (same, tt)
        | inr z ↦ rw z (
            write_loop-WritesTo src old off total evs (done + min r (total - done))
              (copy disk (off + done) src done (min r (total - done))) (omega arith)
              (SameOutside-copy old disk src off total done (min r (total - done)) (omega arith)
                same)
              (Filled-write src disk off done (min r (total - done)) h))
      ])
      | inr t ↦ rw t (same, λ j p. h j (omega (arith, ltb→le done total t)))
    ]
