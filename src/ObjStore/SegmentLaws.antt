-- ===== src/ObjStore/SegmentLaws.antt =====
-- Step 1 of a round of `ObjectStore::write`: the bytes of a segment on the device.
use mini_fs.Base.{
  ℕ, ◌+◌, ◌-◌, ◌*◌, ◌/◌, ◌%◌, ◌≤◌, ◌<◌, ◌≡◌, refl, sym, ap, ◌∙◌, inl, inr, Bool, true, false, arith,
  ltb, if◌then◌else◌, ltb→lt, ltb→le, Bool-cases, u64_mod, add64, Result, ok, err,
}
use mathlib.Core.Path.{subst}
use mini_fs.Format.Bytes.{Bytes, at, copy, zeros}
use mini_fs.Io.Raw.{Io}
use mini_fs.Io.Loops.{IsDevice, SameOutside}
use mini_fs.Io.Laws.{Written, io_write-Written}
use mini_fs.State.{on_io}
use mini_fs.Alloc.Block.{slice}
use mini_fs.ObjStore.Status.{error_io_failure, give, or_status}
use mini_fs.ObjStore.Triple.{Post, succeeds, fails, Post-chain, Post-weaken}
use mini_fs.ObjStore.Chunks.{Store, Reservation, on_mount}
use mini_fs.ObjStore.ReserveLaws.{IsActive}
use mini_fs.ObjStore.Append.{write_blocks, write_segment}

-- The whole blocks of a segment of `len` bytes, and the bytes behind them.
abbrev bulk : (len : ℕ) → ℕ
bulk len = len / 4096

abbrev tail : (len : ℕ) → ℕ
tail len = len - len / 4096 * 4096

abbrev padded_tail : (src : Bytes) (cursor len : ℕ) → Bytes
padded_tail src cursor len = copy zeros 0 src (cursor + bulk len * 4096) (tail len)

module _ (src : Bytes) (cursor len : ℕ) where
  tail_byte :
      (j : ℕ)
      → j < tail len
      → at (padded_tail src cursor len) j ≡ at src (cursor + (bulk len * 4096 + j))
  unfolding copy
  tail_byte j p =
      let e : cursor + bulk len * 4096 + (j - 0) ≡ cursor + (bulk len * 4096 + j) = omega arith in
      ground (arith, e)

  tail_zero : (j : ℕ) → tail len ≤ j → at (padded_tail src cursor len) j ≡ 0
  unfolding copy
  tail_zero j p = ground arith

-- The bytes on the disk after the whole blocks were written at block `lba`, and the `k` blocks with
-- the tail behind them.
module _ (src : Bytes) (cursor len lba k : ℕ) (d d' d'' : Bytes)
    (first : (j : ℕ) → j < bulk len * 4096 → at d' (lba * 4096 + j) ≡ at src (cursor + j))
    (first_outside : SameOutside d d' (lba * 4096) (bulk len * 4096))
    (last : (j : ℕ)
      → j < k * 4096
      → at d'' ((lba + bulk len) * 4096 + j) ≡ at (padded_tail src cursor len) j)
    (last_outside : SameOutside d' d'' ((lba + bulk len) * 4096) (k * 4096))
    (enough : tail len ≤ k * 4096) where
  behind :
      (j : ℕ)
      → bulk len * 4096 ≤ j
      → j < bulk len * 4096 + k * 4096
      → at d'' (lba * 4096 + j) ≡ at (padded_tail src cursor len) (j - bulk len * 4096)
  behind j p q =
      let e : (lba + bulk len) * 4096 + (j - bulk len * 4096) ≡ lba * 4096 + j = omega arith in
      ap (at d'') (sym e) ∙ last (j - bulk len * 4096) (omega arith)

  segment_bytes : (j : ℕ) → j < len → at d'' (lba * 4096 + j) ≡ at src (cursor + j)
  segment_bytes j p = elim (Bool-cases (ltb j (bulk len * 4096))) [
    | inl low ↦
        ap (λ b. b % 256)
          (last_outside (lba * 4096 + j) (inl (omega (arith, ltb→lt j (bulk len * 4096) low))))
        ∙ first j (ltb→lt j (bulk len * 4096) low)
    | inr high ↦
        let le = ltb→le j (bulk len * 4096) high in
        let e : cursor + (bulk len * 4096 + (j - bulk len * 4096)) ≡ cursor + j =
          omega (arith, le) in
        behind j le (omega arith)
        ∙ tail_byte src cursor len (j - bulk len * 4096) (omega (arith, le))
        ∙ ap (at src) e
  ]

  segment_padding : (j : ℕ) → len ≤ j → j < bulk len * 4096 + k * 4096 → at d'' (lba * 4096 + j) ≡ 0
  segment_padding j p q =
      behind j (omega arith) q ∙ tail_zero src cursor len (j - bulk len * 4096) (omega arith)

  segment_outside : SameOutside d d'' (lba * 4096) (bulk len * 4096 + k * 4096)
  segment_outside j (inl p) = last_outside j (inl (omega arith)) ∙ first_outside j (inl p)
  segment_outside j (inr p) =
      last_outside j (inr (omega arith)) ∙ first_outside j (inr (omega arith))

-- The counts of the two transfers.
bulk_count : (len : ℕ) → (if ltb 0 (bulk len * 4096) then bulk len * 4096 / 4096 else 0) ≡ bulk len
bulk_count len = ground arith

tail_count :
    (len pad : ℕ)
    → len ≤ pad
    → pad < len + 4096
    → pad % 4096 ≡ 0
    → bulk len * 4096 + (if ltb 0 (tail len) then 1 else 0) * 4096 ≡ pad
tail_count len pad long short whole = ground arith

tail_fits : (len : ℕ) → tail len ≤ (if ltb 0 (tail len) then 1 else 0) * 4096
tail_fits len = ground arith

module _ {D : Type 0} where
  abbrev pub disk_of : Store D → Bytes
  disk_of s = s.mount.io.disk

  -- All of the store is as it was, but the device, which keeps its size.
  pub record OnlyDevice (s s' : Store D) : Type 0 where
    pub same : s' ≡ record s { mount = record s.mount { io = s'.mount.io } }
    pub capacity : s'.mount.io.capacity_blocks ≡ s.mount.io.capacity_blocks

  -- `k` blocks from block `lba` on hold the bytes of `buf`, and the rest is as it was.
  record Blocks (lba k : ℕ) (buf : Bytes) (s s' : Store D) : Type 0 where
    only : OnlyDevice s s'
    bytes : (j : ℕ) → j < k * 4096 → at (disk_of s') (lba * 4096 + j) ≡ at buf j
    outside : SameOutside (disk_of s) (disk_of s') (lba * 4096) (k * 4096)

  Blocks-of :
      (lba n : ℕ) (buf : Bytes) (s : Store D) (out : Result (Unit {0}) × Io)
      → IsActive s.active
      → Written lba n buf s.mount.io out
      → Post
          (λ u s'. Blocks lba n buf s s')
          (λ s'. IsActive s'.active)
          (or_status error_io_failure out.0, record s { mount = record s.mount { io = out.1 } })
  Blocks-of lba n buf s (ok u, io) h w = succeeds (record {
    only = record { same = refl; capacity = w.capacity };
    bytes = λ j p. sym (w.bytes u refl j p);
    outside = w.outside;
  })
  Blocks-of lba n buf s (err e, io) h w = fails h

  -- A block transfer, or none.
  write_blocks-Blocks :
      (needed : Bool) (lba n : ℕ) (buf : Bytes) (s : Store D)
      → IsActive s.active
      → IsDevice s.mount.io
      → (needed ≡ true → lba + n < u64_mod)
      → Post
          (λ u s'. Blocks lba (if needed then n else 0) buf s s')
          (λ s'. IsActive s'.active)
          ((if needed then write_blocks lba buf n else give tt) s)
  unfolding write_blocks on_mount on_io
  write_blocks-Blocks false lba n buf s h dev small = succeeds (record {
    only = record { same = refl; capacity = refl };
    bytes = λ j p. absurd (omega arith);
    outside = λ j p. refl;
  })
  write_blocks-Blocks true lba n buf s h dev small =
      Blocks-of lba n buf s _ h (io_write-Written lba n buf s.mount.io dev (small refl))

  -- What a segment leaves: its bytes, and zeros behind them to the end of the last block; the rest of
  -- the store is as it was.
  pub record Segment (src : Bytes) (cursor : ℕ) (r : Reservation) (s s' : Store D) : Type 0 where
    pub only : OnlyDevice s s'
    pub bytes :
        (j : ℕ)
        → j < r.length_bytes
        → at (disk_of s') (r.physical_lba * 4096 + j) ≡ at src (cursor + j)
    pub padding :
        (j : ℕ)
        → r.length_bytes ≤ j
        → j < r.padded_bytes
        → at (disk_of s') (r.physical_lba * 4096 + j) ≡ 0
    pub outside : SameOutside (disk_of s) (disk_of s') (r.physical_lba * 4096) r.padded_bytes

  pub active_kept : (s s' : Store D) → OnlyDevice s s' → s'.active ≡ s.active
  active_kept s s' h = ap (λ (t : Store D). t.active) h.same

  OnlyDevice-OnlyDevice :
      (s s' s'' : Store D) → OnlyDevice s s' → OnlyDevice s' s'' → OnlyDevice s s''
  OnlyDevice-OnlyDevice s s' s'' h k = record {
    same =
        k.same
        ∙ ap (λ (t : Store D). record t { mount = record t.mount { io = s''.mount.io } }) h.same;
    capacity = k.capacity ∙ h.capacity;
  }

  module _ (src : Bytes) (cursor : ℕ) (r : Reservation) where
    Blocks-Segment :
        (s s' s'' : Store D)
        → r.length_bytes ≤ r.padded_bytes
        → r.padded_bytes < r.length_bytes + 4096
        → r.padded_bytes % 4096 ≡ 0
        → Blocks r.physical_lba (bulk r.length_bytes) (slice cursor src) s s'
        → Blocks
            (r.physical_lba + bulk r.length_bytes)
            (if ltb 0 (tail r.length_bytes) then 1 else 0)
            (padded_tail src cursor r.length_bytes)
            s'
            s''
        → Segment src cursor r s s''
    unfolding slice
    Blocks-Segment s s' s'' long short whole b t =
        let len = r.length_bytes in
        let k = if ltb 0 (tail len) then 1 else 0 in
        let e : bulk len * 4096 + k * 4096 ≡ r.padded_bytes =
          tail_count len r.padded_bytes long short whole in
        record {
          only = OnlyDevice-OnlyDevice s s' s'' b.only t.only;
          bytes =
              segment_bytes src cursor len r.physical_lba k (disk_of s) (disk_of s') (disk_of s'')
                b.bytes b.outside t.bytes t.outside (tail_fits len);
          padding = λ j p q.
              segment_padding src cursor len r.physical_lba k (disk_of s) (disk_of s') (disk_of s'')
                b.bytes b.outside t.bytes t.outside (tail_fits len) j p (rw e q);
          outside = rw⁻¹ e (
              segment_outside src cursor len r.physical_lba k (disk_of s) (disk_of s') (disk_of s'')
                b.bytes b.outside t.bytes t.outside (tail_fits len));
        }

    pub write_segment-Segment :
        (s : Store D)
        → IsActive s.active
        → IsDevice s.mount.io
        → r.length_bytes ≤ r.padded_bytes
        → r.padded_bytes < r.length_bytes + 4096
        → r.padded_bytes % 4096 ≡ 0
        → r.physical_lba + r.padded_bytes / 4096 < u64_mod
        → Post
            (λ u s'. Segment src cursor r s s')
            (λ s'. IsActive s'.active)
            (write_segment src cursor r s)
    unfolding write_segment
    write_segment-Segment s h dev long short whole small =
        let len = r.length_bytes in
        let e : add64 r.physical_lba (bulk len * 4096 / 4096) ≡ r.physical_lba + bulk len =
          omega arith in
        Post-chain _ _
          (write_blocks-Blocks (ltb 0 (bulk len * 4096)) r.physical_lba (bulk len * 4096 / 4096)
            (slice cursor src) s h dev (λ t. omega arith))
          (λ u s' b.
            let first =
              subst (λ k. Blocks r.physical_lba k (slice cursor src) s s') (bulk_count len) b in
            rw e (
              Post-weaken (λ u' s'' t. Blocks-Segment s s' s'' long short whole first t) _
                (write_blocks-Blocks (ltb 0 (tail len)) (r.physical_lba + bulk len) 1
                  (padded_tail src cursor len) s' (rw (active_kept s s' b.only) h)
                  (omega (arith, dev, b.only.capacity)) (last_fits whole small))))
      where
        last_fits :
            r.padded_bytes % 4096 ≡ 0
            → r.physical_lba + r.padded_bytes / 4096 < u64_mod
            → ltb 0 (tail r.length_bytes) ≡ true
            → r.physical_lba + bulk r.length_bytes + 1 < u64_mod
        last_fits whole small t =
            let some_tail = ltb→lt 0 (tail r.length_bytes) t in
            omega (arith, some_tail, long, short)
