-- ===== src/DmaLaws.antt =====
-- The buffers of src/io/nebula_dma_pool.c over any sequence of calls.
use mini_fs.Base.{
  ℕ, ◌+◌, ◌*◌, ◌≤◌, ◌<◌, ◌≡◌, refl, sym, inl, inr, Bool, ◌||◌, Option, none, some, List, [], arith,
  ◌==◌, ==→ne, Bool-cases, u32_mod, u64_mod, mul64,
}
use mathlib.Core.Path.{subst}
use mini_fs.Format.Bytes.{Bytes}
use mini_fs.DmaPool.{Pool, align_up, aligned_size, link_buffers, pool_create}
use mini_fs.DmaChain.{link_buffers-Linked}
use mini_fs.DmaSteps.{Shares, Steps, Steps-Step}

-- What `pool_create` makes.
abbrev Made : (dma_alloc : ℕ → ℕ) (n buf_size : ℕ) → Option Pool → Type 0
Made dma_alloc n buf_size none = Unit {0}
Made dma_alloc n buf_size (some p) =
    (p.buf_size ≡ aligned_size buf_size)
    × (p.dma_base ≡ dma_alloc (n * p.buf_size))
    × (0 < p.dma_base)
    × Shares n p.dma_base p.buf_size (p, [])

aligned_size_enough : (k : ℕ) → k + 4096 ≤ u64_mod → (8 ≤ aligned_size k) × (k ≤ aligned_size k)
unfolding aligned_size align_up
aligned_size_enough k h = ground arith

abbrev new_pool : (base n size : ℕ) → Bytes → Pool
new_pool base n size memory = record {
  dma_base = base;
  free_head = (link_buffers n base size (0, memory)).0;
  n_bufs = n;
  buf_size = size;
  available = n;
  memory = (link_buffers n base size (0, memory)).1;
}

new_pool-Shares :
    (base n size : ℕ) (memory : Bytes)
    → 0 < base
    → 8 ≤ size
    → base + n * size ≤ u64_mod
    → Shares n base size (new_pool base n size memory, [])
new_pool-Shares base n size memory real long fits =
    let (l, chain, len, all, once) =
      link_buffers-Linked base size n real long fits n 0 base 0 memory [] (omega arith)
        (λ more. omega arith) refl refl tt (λ j. omega arith) in
    record {
      free = l;
      chain = chain;
      count = sym len;
      whole = omega (arith, len);
      once = λ j. omega (arith, once j);
      free_places = all;
      out_places = tt;
      stride = refl;
    }

module _ (dma_alloc : ℕ → ℕ) (has_struct : Bool) (memory : Bytes) (n buf_size : ℕ)
    (sized : buf_size + 4096 ≤ u64_mod) (no_wrap : n * aligned_size buf_size < u64_mod)
    (inside : (k : ℕ) → k < u64_mod → dma_alloc k + k ≤ u64_mod) where
  pool_create-Made : Made dma_alloc n buf_size (pool_create dma_alloc has_struct memory n buf_size)
  unfolding pool_create
  pool_create-Made =
      let size = aligned_size buf_size in
      let total : mul64 n size ≡ n * size = omega (arith, no_wrap) in
      elim (Bool-cases (n == 0 || buf_size == 0)) [
        | inl nothing ↦ rw nothing tt
        | inr wanted ↦ elim (Bool-cases (dma_alloc (n * size) == 0)) [
          | inl refused ↦ rw (total, wanted, refused) tt
          | inr granted ↦ elim (Bool-cases has_struct) [
            | inr no_struct ↦ rw (total, wanted, granted, no_struct) tt
            | inl struct ↦
                let real : 0 < dma_alloc (n * size) =
                  let ne = ==→ne (dma_alloc (n * size)) 0 granted in omega arith in
                rw (total, wanted, granted, struct)
                  (
                    refl,
                    refl,
                    real,
                    new_pool-Shares (dma_alloc (n * size)) n size memory real
                        (aligned_size_enough buf_size sized).0 (inside (n * size) no_wrap),
                  )
          ]
        ]
      ]

  of_Made :
      (p : Pool) (t : Pool × List ℕ)
      → n < u32_mod
      → Made dma_alloc n buf_size (some p)
      → Steps (p, []) t
      → (p.dma_base ≡ dma_alloc (n * p.buf_size))
        × (buf_size ≤ p.buf_size)
        × Shares n p.dma_base p.buf_size t
  of_Made p t small (stride, base, real, shares) steps =
      let (long, enough) = aligned_size_enough buf_size sized in
      let fits : p.dma_base + n * p.buf_size ≤ u64_mod =
        rw base (inside (n * p.buf_size) (rw stride no_wrap)) in
      (
        base,
        rw stride enough,
        Steps-Step n p.dma_base p.buf_size small real (rw stride long) fits steps shares,
      )

  -- Where the bytes of a buffer and of all `n` buffers, fewer than 2^32, fit in 64 bits, and SPDK
  -- allocates memory of as many bytes as it is asked for: from a pool just made, over any sequence of
  -- calls that get a buffer, of calls that give back one that is out, and of changes that holders of
  -- buffers that are out make to the bytes of these: each buffer that is out or free has its own
  -- place, as large as was asked for or larger, in the memory that was allocated, none is out twice
  -- or is out and free, the free ones are linked in memory, and the pool counts them.
  pub Steps-Shares :
      (p : Pool) (t : Pool × List ℕ)
      → n < u32_mod
      → pool_create dma_alloc has_struct memory n buf_size ≡ some p
      → Steps (p, []) t
      → (p.dma_base ≡ dma_alloc (n * p.buf_size))
        × (buf_size ≤ p.buf_size)
        × Shares n p.dma_base p.buf_size t
  Steps-Shares p t small made steps =
      of_Made p t small (subst (Made dma_alloc n buf_size) made pool_create-Made) steps
