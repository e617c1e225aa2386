-- ===== src/Meta/Works.antt =====
-- Commands on a device whose calls of the system do not fail.
use mini_fs.Base.{
  ℕ, zero, suc, ◌+◌, ◌-◌, ◌^◌, ◌≤◌, ◌<◌, ◌≡◌, refl, inl, inr, false, [], arith, ltb, if◌then◌else◌,
  le→ltb, Bool-cases, add64, Result, ok, err, Cmd, pure, and_then, ◌>>=◌, ◌>>◌,
}
use mini_fs.Format.Bytes.{Bytes, zeros}
use mini_fs.Io.Raw.{Io, alloc_buf, alloc_buf-granted, now_ns, now_ns_read}
use mini_fs.Io.Posix.{io_write, write_loop, io_flush, io_flush-ok}
use mini_fs.Meta.Regions.{zero_batches, zero_region}

-- No failure is to come, and the device has this capacity.
abbrev pub Quiet : ℕ → Io → Type 0
Quiet cap io = (io.syscalls ≡ []) × (io.allocs ≡ []) × (io.capacity_blocks ≡ cap)

-- A success, on a device that is quiet after it.
abbrev pub Fine : ℕ → {A : Type 0} → Result A × Io → Type 0
Fine cap (ok a, io) = Quiet cap io
Fine cap (err e, io) = ⊥

-- From a quiet device the command succeeds, and the device is quiet again.
pub record Works (cap : ℕ) {A : Type 0} (m : Cmd Io A) : Type 0 where
  pub run : (io : Io) → Quiet cap io → Fine cap (m io)

module _ {cap : ℕ} where
  pub Works-bind :
      {A B : Type 0} {m : Cmd Io A} {k : A → Cmd Io B}
      → Works cap m
      → ((a : A) → Works cap (k a))
      → Works cap (m >>= k)
  Works-bind {A = A} {m = m} {k = k} h next = record { run = λ io q. from (m io) (h.run io q) }
    where
      from : (o : Result A × Io) → Fine cap o → Fine cap (and_then k o.0 o.1)
      from (ok a, io1) q = (next a).run io1 q
      from (err e, io1) q = q

  pub Works-seq :
      {B : Type 0} {m : Cmd Io (Unit {0})} {k : Cmd Io B}
      → Works cap m
      → Works cap k
      → Works cap (m >> k)
  Works-seq h next = Works-bind h (λ u. next)

  pub Works-pure : {A : Type 0} {a : A} → Works cap (pure a)
  Works-pure = record { run = λ io q. q }

  pub alloc_buf-Works : Works cap alloc_buf
  alloc_buf-Works = record { run = λ io q. rw (alloc_buf-granted io q.1) q }

  pub now_ns-Works : Works cap now_ns
  now_ns-Works = record { run = λ io q. let (t, rest, e) = now_ns_read io in rw e q }

  pub io_flush-Works : Works cap io_flush
  io_flush-Works = record { run = λ io q. rw (io_flush-ok io q.0) q }

  pub io_write-Works :
      (lba n : ℕ) (src : Bytes) → cap < 2 ^ 51 → lba + n ≤ cap → Works cap (io_write lba n src)
  unfolding io_write write_loop
  io_write-Works lba n src small le = record {
    run = λ io q.
        let t : ltb io.capacity_blocks (add64 lba n) ≡ false = le→ltb _ _ (omega (arith, q.2)) in
        rw (t, q.0) (refl, q.1, q.2);
  }

  zero_batches-Works :
      (fuel lba n : ℕ) → cap < 2 ^ 51 → lba + n ≤ cap → Works cap (zero_batches fuel lba n)
  unfolding zero_batches
  zero_batches-Works zero lba n small le = Works-pure
  zero_batches-Works (suc fuel) lba n small le = elim (Bool-cases (ltb 0 n)) [
    | inr t ↦ rw t Works-pure
    | inl t ↦
        let c = if ltb 64 n then 64 else n in
        let fits : c ≤ n = ground arith in
        let next : add64 lba c ≡ lba + c = omega (arith, fits) in
        rw t (
          Works-seq (io_write-Works lba c zeros small (omega (arith, fits)))
            (rw next (zero_batches-Works fuel (lba + c) (n - c) small (omega (arith, fits)))))
  ]

  pub zero_region-Works : (lba n : ℕ) → cap < 2 ^ 51 → lba + n ≤ cap → Works cap (zero_region lba n)
  unfolding zero_region
  zero_region-Works lba n small le =
      Works-seq alloc_buf-Works (zero_batches-Works (n + 1) lba n small le)
