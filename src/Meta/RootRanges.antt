-- ===== src/Meta/RootRanges.antt =====
-- The ranges of the allocator roots and the data region.
use mini_fs.Base.{
  ℕ, ◌+◌, ◌-◌, ◌*◌, ◌^◌, ◌≤◌, ◌<◌, ◌≡◌, refl, ◌≢◌, inl, inr, arith, ◌==◌, ==→eq, ==→ne, ne→==,
  Bool-cases,
}
use mini_fs.Format.Consts.{alloc_roots_total}
use mini_fs.Meta.AllocRoots.{per_root, range_start, range_end}

product-le : (id q d : ℕ) → id ≤ 128 → q * 128 ≤ d → id * q ≤ d
product-le id q d h k = grind arith

module _ (s e : ℕ) (le : s ≤ e) (small : e < 2 ^ 51) where
  per_root-le : per_root s e alloc_roots_total * 128 ≤ e - s
  unfolding per_root
  per_root-le = omega arith

  -- The start is not cut off by the width of the fields.
  range_start-eq :
      (id : ℕ)
      → id ≤ 128
      → range_start s e alloc_roots_total id ≡ s + id * per_root s e alloc_roots_total
  unfolding range_start
  range_start-eq id h =
      let p = product-le id (per_root s e alloc_roots_total) (e - s) h per_root-le in
      omega (arith, p)

  range_end-eq :
      (id : ℕ)
      → id ≢ 127
      → range_end s e alloc_roots_total id ≡ range_start s e alloc_roots_total (id + 1)
  unfolding range_end range_start
  range_end-eq id h = rw (ne→== id 127 h)

  range_end_last : range_end s e alloc_roots_total 127 ≡ e
  unfolding range_end
  range_end_last = refl

  ordered :
      (id : ℕ)
      → id < alloc_roots_total
      → range_start s e alloc_roots_total id ≤ range_end s e alloc_roots_total id
  ordered id h = elim (Bool-cases (id == 127)) [
    | inl e' ↦ rw (==→eq id 127 e') (
        rw (range_end_last, range_start-eq 127 (omega arith))
          (omega (
            arith,
            product-le 127 (per_root s e alloc_roots_total) (e - s) (omega arith) per_root-le,
          )))
    | inr ne ↦
        let q = per_root s e alloc_roots_total in
        let n = ==→ne id 127 ne in
        rw
          (
            range_end-eq id n,
            range_start-eq id (omega arith),
            range_start-eq (id + 1) (omega arith),
          )
          (grind arith)
  ]

  -- For a data region that ends below block 2^51 the ranges of roots 0 to 127 follow one another:
  -- the first starts at the start of the region, each other starts where the one before it ends, the
  -- last ends at the end of the region, and no range ends before it starts.
  pub ranges_partition :
      (range_start s e alloc_roots_total 0 ≡ s)
      × ((id : ℕ)
          → id + 1 < alloc_roots_total
          → range_end s e alloc_roots_total id ≡ range_start s e alloc_roots_total (id + 1))
      × (range_end s e alloc_roots_total 127 ≡ e)
      × ((id : ℕ)
          → id < alloc_roots_total
          → range_start s e alloc_roots_total id ≤ range_end s e alloc_roots_total id)
  ranges_partition = (
    omega (arith, range_start-eq 0 (omega arith)),
    (λ id h. range_end-eq id (omega arith)),
    range_end_last,
    ordered,
  )
