-- ===== src/ObjStore/AppendLaws.antt =====
-- The loop of `ObjectStore::write`: what it has done when it ends.
use mini_fs.Base.{ℕ, ◌+◌, ◌-◌, min, ◌≡◌, some, u32_mod}
use mini_fs.Format.Bytes.{Bytes}
use mini_fs.ObjStore.Status.{Reply}
use mini_fs.ObjStore.Triple.{Post}
use mini_fs.ObjStore.Db.{Db}
use mini_fs.ObjStore.Records.{Chunk}
use mini_fs.ObjStore.Chunks.{Store, Reservation}
use mini_fs.ObjStore.ChunkLaws.{Reserves}
use mini_fs.ObjStore.ReserveLaws.{IsActive, Source}
use mini_fs.ObjStore.SegmentLaws.{Segment}
use mini_fs.ObjStore.ReadyLaws.{IsReady}
use mini_fs.ObjStore.Append.{Appended, stage_segment}

module _ {D : Type 0} where
  -- One after the other, rounds that append `len` bytes from the position in the caller's buffer on:
  -- each reserves bytes from the active chunk or from a new one, has them and zeros up to the end of
  -- their last block at the reserved place of the device and nothing changed elsewhere, and stages
  -- the two entries of the extent.
  pub data Rounds (oid : ℕ) (src : Bytes)
      : (len : ℕ) → Appended → Store D → Appended → Store D → Type 0 where
    finished : {p : Appended} {s : Store D} → Rounds oid src 0 p s p s
    round :
        {len : ℕ} {p p' : Appended} {s s' : Store D} (r : Reservation) (c c' : Chunk)
        (s1 s2 : Store D)
        → Source s c s1.mount
        → s1.active ≡ some c'
        → Reserves (min len (u32_mod - 1)) c r c'
        → Segment src p.cursor r s1 s2
        → Rounds oid src (len - r.length_bytes) (stage_segment oid r p) s2 p' s'
        → Rounds oid src len p s p' s'

  -- The rounds, and what they add up to.
  pub record Appends (oid : ℕ) (src : Bytes) (len : ℕ) (p : Appended) (s : Store D) (p' : Appended)
      (s' : Store D) : Type 0 where
    pub rounds : Rounds oid src len p s p' s'
    pub taken : p'.cursor ≡ p.cursor + len
    pub logical : p'.logical ≡ p.logical + len
    pub ready : IsReady s'

  -- What the loop leaves behind: on success all bytes are appended.
  abbrev pub Appending :
      (oid : ℕ) (src : Bytes) (len : ℕ) → Appended → Store D → Reply Appended × Store D → Type 0
  Appending oid src len p s =
      Post (λ p' s'. Appends oid src len p s p' s') (λ s'. IsActive s'.active)
