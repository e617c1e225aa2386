-- ===== src/ObjStore/ReadyLaws.antt =====
-- What the loop of `ObjectStore::write` needs of the store, over a reservation and a segment.
use mini_fs.Base.{
  ℕ, ◌+◌, ◌≤◌, ◌<◌, ◌≡◌, refl, ap, ◌∙◌, inl, inr, Option, none, some, arith, ltb, ◌==◌, Bool-cases,
  u64_mod, add64, Result, ok, err,
}
use mathlib.Core.Path.{subst}
use mini_fs.Format.Bytes.{Bytes, load-lt}
use mini_fs.Format.Superblock
use mini_fs.Io.Raw.{Io}
use mini_fs.Io.Posix.{io_write}
use mini_fs.Io.Loops.{IsDevice}
use mini_fs.State.{Mount, on_io}
use mini_fs.Alloc.Block.{flush_dirty_pages, settle_taken, take_run, take_found, block_alloc}
use mini_fs.Alloc.Laws.{IsMounted}
use mini_fs.Alloc.Claims.{Allocates, block_alloc-Allocates}
use mini_fs.ObjStore.Records.{Chunk}
use mini_fs.ObjStore.Chunks.{chunk_blocks, Store}
use mini_fs.ObjStore.ChunkLaws.{IsChunk}
use mini_fs.ObjStore.ReserveLaws.{IsActive, Source, kept, fresh}
use mini_fs.ObjStore.SegmentLaws.{OnlyDevice, active_kept}

-- The blocks of the active chunk, if there is one, have numbers of 64 bits.
abbrev pub InReach : Option Chunk → Type 0
InReach none = Unit {0}
InReach (some c) = c.lba_start + chunk_blocks < u64_mod

-- A device of fewer than 2^63 bytes, a mount whose summaries are right, and an active chunk, if there
-- is one, that is well formed and in reach.
pub record IsReady {D : Type 0} (s : Store D) : Type 0 where
  pub device : IsDevice s.mount.io
  pub mounted : IsMounted s.mount
  pub active : IsActive s.active
  pub reach : InReach s.active

io_write-capacity :
    (lba n : ℕ) (b : Bytes) (io : Io) → (io_write lba n b io).1.capacity_blocks ≡ io.capacity_blocks
unfolding io_write
io_write-capacity lba n b io = elim (Bool-cases (ltb io.capacity_blocks (add64 lba n))) [
  | inl t ↦ rw t refl
  | inr t ↦ rw t refl
]

settle_taken-io :
    (n s : ℕ) (out : Result (Unit {0}) × Mount) → (settle_taken n s out).1.io ≡ out.1.io
unfolding settle_taken
settle_taken-io n s (ok u, m) = refl
settle_taken-io n s (err e, m) = refl

take_found-capacity :
    (n : ℕ) (found : Option ℕ) (m : Mount)
    → (take_found n found m).1.io.capacity_blocks ≡ m.io.capacity_blocks
unfolding take_found take_run flush_dirty_pages on_io
take_found-capacity n none m = refl
take_found-capacity n (some s) m =
    ap (λ (io : Io). io.capacity_blocks) (settle_taken-io n s _) ∙ io_write-capacity _ _ _ m.io

block_alloc-capacity :
    (n : ℕ) (m : Mount) → (block_alloc n m).1.io.capacity_blocks ≡ m.io.capacity_blocks
unfolding block_alloc
block_alloc-capacity n m = elim (Bool-cases (n == 0)) [
  | inl z ↦ rw z refl
  | inr z ↦ elim (Bool-cases (ltb m.bitmap.l2_total_free n)) [
    | inl few ↦ rw (z, few) refl
    | inr more ↦ rw (z, more) (take_found-capacity n _ m)
  ]
]

-- Where an allocation went well.
taken_place :
    (n lba : ℕ) (m : Mount) (out : Result ℕ × Mount)
    → Allocates n m out
    → out.0 ≡ ok lba
    → (lba + n ≤ m.bitmap.total_blocks) × IsMounted out.1
taken_place n lba m (ok k, m') (free, le, first, takes, valid, same) e =
    let q : k ≡ lba = cc in (rw⁻¹ q le, valid)
taken_place n lba m (err x, m') h e = cc

module _ {D : Type 0} where
  -- The chunk of a reservation is in reach, and so is the mount after it.
  pub Source-IsReady :
      (s s' : Store D) (c c' : Chunk)
      → IsReady s
      → Source s c s'.mount
      → s'.active ≡ some c'
      → c'.lba_start ≡ c.lba_start
      → IsChunk c'
      → IsReady s' × (c.lba_start + chunk_blocks < u64_mod)
  Source-IsReady s s' c c' v (kept active room mount) now place valid =
      let reach : c.lba_start + chunk_blocks < u64_mod = subst InReach active v.reach in
      (
        record {
          device = rw mount v.device;
          mounted = rw mount v.mounted;
          active = rw now valid;
          reach = rw now (omega (arith, place, reach));
        },
        reach,
      )
  Source-IsReady s s' c c' v (fresh lba full taken mount e) now place valid =
      let (le, mounted) =
        taken_place chunk_blocks lba s.mount _
          (block_alloc-Allocates chunk_blocks s.mount v.mounted) taken in
      let start : c.lba_start ≡ lba = ap (λ (k : Chunk). k.lba_start) e in
      let reach : c.lba_start + chunk_blocks < u64_mod =
        omega (
          arith,
          start,
          le,
          v.mounted.sized,
          load-lt Superblock.device_capacity_blocks s.mount.sb,
        ) in
      (
        record {
          device = rw mount (omega (arith, v.device, block_alloc-capacity chunk_blocks s.mount));
          mounted = rw mount mounted;
          active = rw now valid;
          reach = rw now (omega (arith, place, reach));
        },
        reach,
      )

  pub OnlyDevice-IsReady : (s s' : Store D) → OnlyDevice s s' → IsReady s → IsReady s'
  OnlyDevice-IsReady s s' o v = record {
    device = omega (arith, v.device, o.capacity);
    mounted = rw o.same (record { summed = v.mounted.summed; sized = v.mounted.sized });
    active = rw (active_kept s s' o) v.active;
    reach = rw (active_kept s s' o) v.reach;
  }
