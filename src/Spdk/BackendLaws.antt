-- ===== src/Spdk/BackendLaws.antt =====
-- The batches of the SPDK backend: what they leave in the buffer of a read and on the namespace.
use mini_fs.Base.{
  ℕ, zero, suc, ◌+◌, ◌-◌, ◌*◌, ◌%◌, ◌≤◌, ◌<◌, ◌≡◌, refl, sym, ap, ◌∙◌, ◌⊎◌, inl, inr, arith, ltb,
  ltb→lt, ltb→le, Bool-cases, add64, Result, ok, err, Cmd, and_then,
}
use mathlib.Core.Path.{subst}
use mini_fs.Format.Bytes.{Bytes, at, zeros, copy}
use mini_fs.Format.Consts.{block_size}
use mini_fs.Io.Loops.{Filled, SameOutside}
use mini_fs.Spdk.Nvme.{Driver, NvmeNs, nvme_read, nvme_write}
use mini_fs.Spdk.NvmeLaws.{DriverLaws, WholeSectors, nvme_read-Filled, nvme_write-Filled}
use mini_fs.Spdk.Backend.{batch_of, io_status, read_batches, write_batches}

-- One batch more in the buffer of a read.
Filled-batch :
    (disk buf bounce : Bytes) (lba done k : ℕ)
    → Filled disk buf (lba * block_size) (done * block_size)
    → Filled disk bounce ((lba + done) * block_size) (k * block_size)
    → Filled disk
        (copy buf (done * block_size) bounce 0 (k * block_size))
        (lba * block_size)
        ((done + k) * block_size)
unfolding copy
Filled-batch disk buf bounce lba done k h new j p = elim (Bool-cases (ltb j (done * block_size))) [
  | inl low ↦ ground (arith, h j)
  | inr high ↦
      let le = ltb→le j (done * block_size) high in
      let e : (lba + done) * block_size + (j - done * block_size) ≡ lba * block_size + j =
        omega (arith, le) in
      let q : at bounce (j - done * block_size) ≡ at disk (lba * block_size + j) =
        new (j - done * block_size) (omega (arith, le)) ∙ ap (λ (x : ℕ). at disk x) e in
      ground (arith, q)
]

-- The bounce buffer of a write has the bytes of its batch.
bounce_of :
    (src : Bytes) (done k : ℕ) (j : ℕ) → j < k → at (copy zeros 0 src done k) j ≡ at src (done + j)
unfolding copy
bounce_of src done k j p = ground arith

module _ {D : Type 0} (driver : Driver D) (h : NvmeNs) (laws : DriverLaws driver h.sector_size)
    (whole : WholeSectors h) where
  open laws use {content}

  -- The outcomes of reading the blocks `first` up to `end` behind `lba`.
  abbrev pub ReadsOn : (lba total : ℕ) → D → Result Bytes × D → Type 0
  ReadsOn lba total d (ok buf, d') =
      (content d' ≡ content d) × Filled (content d) buf (lba * block_size) (total * block_size)
  ReadsOn lba total d (err e, d') = content d' ≡ content d

  -- A batch, and then what follows it.
  read_join :
      (lba total : ℕ) (d : D) (o : Result Bytes × D) (k : Bytes → Cmd D Bytes)
      → content o.1 ≡ content d
      → ((buf : Bytes) → o.0 ≡ ok buf → ReadsOn lba total o.1 (k buf o.1))
      → ReadsOn lba total d (and_then k (io_status o.0) o.1)
  read_join lba total d (ok bounce, d1) k same next = onto (k bounce d1) (next bounce refl)
    where
      onto : (r : Result Bytes × D) → ReadsOn lba total d1 r → ReadsOn lba total d r
      onto (ok buf, d2) (same', filled) = (
        same' ∙ same,
        subst (λ (c : Bytes). Filled c buf (lba * block_size) (total * block_size)) same filled,
      )
      onto (err e, d2) same' = same' ∙ same
  read_join lba total d (err e, d1) k same next = same

  pub read_batches-ReadsOn :
      (fuel lba remaining done total : ℕ) (buf : Bytes) (d : D)
      → done + remaining ≡ total
      → lba + total ≤ h.capacity_blocks
      → remaining < fuel
      → Filled (content d) buf (lba * block_size) (done * block_size)
      → ReadsOn lba total d (read_batches driver h fuel lba remaining done buf d)
  unfolding read_batches
  read_batches-ReadsOn zero lba remaining done total buf d sum inside enough filled =
      absurd (omega arith)
  read_batches-ReadsOn (suc fuel) lba remaining done total buf d sum inside enough filled =
      elim (Bool-cases (ltb 0 remaining)) [
        | inr t ↦
            let z : done ≡ total = omega (arith, ltb→le 0 remaining t) in
            rw t (
              refl,
              subst (λ (x : ℕ). Filled (content d) buf (lba * block_size) (x * block_size)) z
                  filled,
            )
        | inl t ↦
            let batch = batch_of remaining in
            let bounds : (0 < batch) × (batch ≤ remaining) × (batch ≤ 256) =
              ground (arith, ltb→lt 0 remaining t) in
            let next : add64 lba done ≡ lba + done = omega (arith, whole.small) in
            let read =
              nvme_read-Filled driver h laws whole (lba + done) batch (omega (arith, bounds))
                bounds.2 d in
            let after = λ (c bounce : Bytes).
              Filled c (copy buf (done * block_size) bounce 0 (batch * block_size))
                (lba * block_size) ((done + batch) * block_size) in
            rw (t, next)
              (read_join lba total d (nvme_read driver h (lba + done) batch d) _ read.0 (λ bounce e.
                read_batches-ReadsOn fuel lba (remaining - batch) (done + batch) total _
                  (nvme_read driver h (lba + done) batch d).1 (omega (arith, bounds)) inside
                  (omega (arith, bounds))
                  (subst (λ (c : Bytes). after c bounce) (sym read.0)
                    (Filled-batch (content d) buf bounce lba done batch filled (read.1 bounce e)))))
      ]

  -- The outcomes of writing `total` blocks behind `lba` of a device that held `old`.
  abbrev pub WritesOn : Bytes → (lba total : ℕ) → Bytes → Result (Unit {0}) × D → Type 0
  WritesOn old lba total src (ok u, d') =
      SameOutside old (content d') (lba * block_size) (total * block_size)
      × Filled (content d') src (lba * block_size) (total * block_size)
  WritesOn old lba total src (err e, d') =
      SameOutside old (content d') (lba * block_size) (total * block_size)

  write_join :
      (old : Bytes) (lba total : ℕ) (src : Bytes) (o : Result (Unit {0}) × D) (k : Cmd D (Unit {0}))
      → SameOutside old (content o.1) (lba * block_size) (total * block_size)
      → (o.0 ≡ ok tt → WritesOn old lba total src (k o.1))
      → WritesOn old lba total src (and_then (λ u. k) (io_status o.0) o.1)
  write_join old lba total src (ok u, d1) k same next = next refl
  write_join old lba total src (err e, d1) k same next = same

  -- The bytes that a batch leaves are those of the batches before it, and its own.
  Filled-write :
      (old now src bounce : Bytes) (lba done k : ℕ)
      → Filled old src (lba * block_size) (done * block_size)
      → SameOutside old now ((lba + done) * block_size) (k * block_size)
      → Filled now bounce ((lba + done) * block_size) (k * block_size)
      → ((j : ℕ) → j < k * block_size → at bounce j ≡ at src (done * block_size + j))
      → Filled now src (lba * block_size) ((done + k) * block_size)
  Filled-write old now src bounce lba done k h same new is_src j p =
      elim (Bool-cases (ltb j (done * block_size))) [
        | inl low ↦
            let lt = ltb→lt j (done * block_size) low in
            h j lt
            ∙ sym (ap (λ (x : ℕ). x % 256) (same (lba * block_size + j) (inl (omega (arith, lt)))))
        | inr high ↦
            let le = ltb→le j (done * block_size) high in
            let i = j - done * block_size in
            let lt : i < k * block_size = omega (arith, le) in
            let e : (lba + done) * block_size + i ≡ lba * block_size + j = omega (arith, le) in
            let f : done * block_size + i ≡ j = omega (arith, le) in
            ap (λ (x : ℕ). at src x) (sym f)
            ∙ sym (is_src i lt)
            ∙ new i lt
            ∙ ap (λ (x : ℕ). at now x) e
      ]

  pub write_batches-WritesOn :
      (fuel lba remaining done total : ℕ) (old src : Bytes) (d : D)
      → done + remaining ≡ total
      → lba + total ≤ h.capacity_blocks
      → remaining < fuel
      → SameOutside old (content d) (lba * block_size) (total * block_size)
      → Filled (content d) src (lba * block_size) (done * block_size)
      → WritesOn old lba total src (write_batches driver h fuel lba remaining done src d)
  unfolding write_batches
  write_batches-WritesOn zero lba remaining done total old src d sum inside enough same filled =
      absurd (omega arith)
  write_batches-WritesOn (suc fuel) lba remaining done total old src d sum inside enough same
        filled =
      elim (Bool-cases (ltb 0 remaining)) [
        | inr t ↦
            let z : done ≡ total = omega (arith, ltb→le 0 remaining t) in
            rw t (
              same,
              subst (λ (x : ℕ). Filled (content d) src (lba * block_size) (x * block_size)) z
                  filled,
            )
        | inl t ↦
            let batch = batch_of remaining in
            let bounds : (0 < batch) × (batch ≤ remaining) × (batch ≤ 256) =
              ground (arith, ltb→lt 0 remaining t) in
            let next : add64 lba done ≡ lba + done = omega (arith, whole.small) in
            let bounce = copy zeros 0 src (done * block_size) (batch * block_size) in
            let o = nvme_write driver h (lba + done) batch bounce d in
            let written =
              nvme_write-Filled driver h laws whole (lba + done) batch (omega (arith, bounds))
                bounds.2 bounce d in
            let same' : SameOutside old (content o.1) (lba * block_size) (total * block_size) =
              λ j p. written.0 j (further j p) ∙ same j p in
            rw (t, next)
              (write_join old lba total src o _ same' (λ e.
                write_batches-WritesOn fuel lba (remaining - batch) (done + batch) total old src o.1
                  (omega (arith, bounds)) inside (omega (arith, bounds)) same'
                  (Filled-write (content d) (content o.1) src bounce lba done batch filled written.0
                    (written.1 e) (bounce_of src (done * block_size) (batch * block_size)))))
      ]
    where
      further :
          (j : ℕ)
          → (j < lba * block_size) ⊎ (lba * block_size + total * block_size ≤ j)
          → (j < (lba + done) * block_size)
            ⊎ ((lba + done) * block_size + batch_of remaining * block_size ≤ j)
      further j (inl p) = inl (omega arith)
      further j (inr p) = inr (ground arith)
