-- ===== src/Meta/Keeps.antt =====
-- Bytes of the device that a command leaves as they are, whatever its transfers meet.
use mini_fs.Base.{
  ℕ, zero, suc, ◌+◌, ◌-◌, ◌*◌, ◌≤◌, ◌<◌, ◌≡◌, refl, ap, ◌∙◌, ◌⊎◌, inl, inr, arith, ltb,
  if◌then◌else◌, Bool-cases, u64_mod, add64, Result, ok, err, Cmd, pure, and_then, ◌>>=◌, ◌>>◌,
}
use mini_fs.Format.Bytes.{Bytes, zeros}
use mini_fs.Format.Consts.{block_size}
use mini_fs.Io.Raw.{Io, alloc_buf, alloc_buf-same, now_ns, now_ns-same}
use mini_fs.Io.Posix.{io_write, io_flush, io_flush-same}
use mini_fs.Io.Loops.{IsDevice}
use mini_fs.Io.Laws.{io_write-Written}
use mini_fs.Meta.Regions.{zero_batches, zero_region}

-- `io'` is a device of the size of `io`, with the same bytes at the addresses of `P`.
pub record Keeps (P : ℕ → Type 0) (io io' : Io) : Type 0 where
  pub capacity : io'.capacity_blocks ≡ io.capacity_blocks
  pub bytes : (j : ℕ) → P j → io'.disk j ≡ io.disk j

-- The blocks have no byte at an address of `P`.
abbrev pub Avoids : (ℕ → Type 0) → (lba n : ℕ) → Type 0
Avoids P lba n = (j : ℕ) → P j → (j < lba * block_size) ⊎ ((lba + n) * block_size ≤ j)

-- On a device small enough for `off_t`, the command keeps the bytes of `P`.
pub record Preserves (P : ℕ → Type 0) {A : Type 0} (m : Cmd Io A) : Type 0 where
  pub keeps : (io : Io) → IsDevice io → Keeps P io (m io).1

module _ {P : ℕ → Type 0} where
  Keeps-refl : (io : Io) → Keeps P io io
  Keeps-refl io = record { capacity = refl; bytes = λ j p. refl }

  Keeps-trans : {a b c : Io} → Keeps P a b → Keeps P b c → Keeps P a c
  Keeps-trans h k = record {
    capacity = k.capacity ∙ h.capacity;
    bytes = λ j p. k.bytes j p ∙ h.bytes j p;
  }

  pub IsDevice-Keeps : {io io' : Io} → IsDevice io → Keeps P io io' → IsDevice io'
  IsDevice-Keeps dev k = omega (arith, k.capacity)

  bind_from :
      {A B : Type 0}
      → (k : A → Cmd Io B) (io : Io) (p : Result A × Io) → Keeps P io p.1
      → ((a : A) → Keeps P p.1 (k a p.1).1)
      → Keeps P io (and_then k p.0 p.1).1
  bind_from k io (ok a, io') h next = Keeps-trans h (next a)
  bind_from k io (err e, io') h next = h

  pub Preserves-bind :
      {A B : Type 0} {m : Cmd Io A} {k : A → Cmd Io B}
      → Preserves P m
      → ((a : A) → Preserves P (k a))
      → Preserves P (m >>= k)
  Preserves-bind {m = m} {k = k} h next = record {
    keeps = λ io dev.
        bind_from k io (m io) (h.keeps io dev)
          (λ a. (next a).keeps (m io).1 (IsDevice-Keeps dev (h.keeps io dev)));
  }

  pub Preserves-seq :
      {B : Type 0} {m : Cmd Io (Unit {0})} {k : Cmd Io B}
      → Preserves P m
      → Preserves P k
      → Preserves P (m >> k)
  Preserves-seq h next = Preserves-bind h (λ u. next)

  pub Preserves-pure : {A : Type 0} {a : A} → Preserves P (pure a)
  Preserves-pure = record { keeps = λ io dev. Keeps-refl io }

  same_disk-Keeps :
      {io io' : Io}
      → (io'.disk ≡ io.disk) × (io'.capacity_blocks ≡ io.capacity_blocks)
      → Keeps P io io'
  same_disk-Keeps (d, c) = record { capacity = c; bytes = λ j p. ap (λ (b : Bytes). b j) d }

  pub alloc_buf-Preserves : Preserves P alloc_buf
  alloc_buf-Preserves = record { keeps = λ io dev. same_disk-Keeps (alloc_buf-same io) }

  pub now_ns-Preserves : Preserves P now_ns
  now_ns-Preserves = record { keeps = λ io dev. same_disk-Keeps (now_ns-same io) }

  pub io_flush-Preserves : Preserves P io_flush
  io_flush-Preserves = record { keeps = λ io dev. same_disk-Keeps (io_flush-same io) }

  pub io_write-Preserves :
      (lba n : ℕ) (src : Bytes)
      → lba + n < u64_mod
      → Avoids P lba n
      → Preserves P (io_write lba n src)
  io_write-Preserves lba n src small away = record {
    keeps = λ io dev.
        let w = io_write-Written lba n src io dev small in
        record { capacity = w.capacity; bytes = λ j p. w.outside j (apart j (away j p)) };
  }
    where
      apart :
          (j : ℕ)
          → (j < lba * block_size) ⊎ ((lba + n) * block_size ≤ j)
          → (j < lba * block_size) ⊎ (lba * block_size + n * block_size ≤ j)
      apart j (inl h) = inl h
      apart j (inr h) = inr (omega arith)

  zero_batches-Preserves :
      (fuel lba n : ℕ) → lba + n < u64_mod → Avoids P lba n → Preserves P (zero_batches fuel lba n)
  unfolding zero_batches
  zero_batches-Preserves zero lba n small away = Preserves-pure
  zero_batches-Preserves (suc fuel) lba n small away = elim (Bool-cases (ltb 0 n)) [
    | inr t ↦ rw t Preserves-pure
    | inl t ↦
        let c = if ltb 64 n then 64 else n in
        let le : c ≤ n = ground arith in
        let next : add64 lba c ≡ lba + c = omega (arith, le) in
        rw t (
          Preserves-seq
            (io_write-Preserves lba c zeros (omega (arith, le)) (λ j p. front c le j (away j p)))
            (rw next (
              zero_batches-Preserves fuel (lba + c) (n - c) (omega (arith, le))
                (λ j p. back c le j (away j p)))))
  ]
    where
      front :
          (c : ℕ)
          → c ≤ n
          → (j : ℕ) → (j < lba * block_size) ⊎ ((lba + n) * block_size ≤ j)
          → (j < lba * block_size) ⊎ ((lba + c) * block_size ≤ j)
      front c le j (inl h) = inl h
      front c le j (inr h) = inr (omega arith)

      back :
          (c : ℕ)
          → c ≤ n
          → (j : ℕ) → (j < lba * block_size) ⊎ ((lba + n) * block_size ≤ j)
          → (j < (lba + c) * block_size) ⊎ ((lba + c + (n - c)) * block_size ≤ j)
      back c le j (inl h) = inl (omega arith)
      back c le j (inr h) = inr (omega arith)

  pub zero_region-Preserves :
      (lba n : ℕ) → lba + n < u64_mod → Avoids P lba n → Preserves P (zero_region lba n)
  unfolding zero_region
  zero_region-Preserves lba n small away =
      Preserves-seq alloc_buf-Preserves (zero_batches-Preserves (n + 1) lba n small away)

module _ {P Q : ℕ → Type 0} where
  pub Preserves-weaken :
      {A : Type 0} {m : Cmd Io A} → ((j : ℕ) → P j → Q j) → Preserves Q m → Preserves P m
  Preserves-weaken sub h = record {
    keeps = λ io dev.
        let k = h.keeps io dev in
        record { capacity = k.capacity; bytes = λ j p. k.bytes j (sub j p) };
  }
