-- ===== src/ObjStore/Chunks.antt =====
-- `ChunkEngine` of src/objstore/chunk.cc: one active chunk of 64 MiB, filled from its start in whole
-- blocks, sealed when it is full. The lock and the messages are left out.
use mini_fs.Base.{
  ℕ, zero, suc, ◌+◌, ◌-◌, ◌*◌, ◌/◌, ◌%◌, ◌^◌, min, Bool, true, false, Option, none, some, ltb, leb,
  ◌==◌, if◌then◌else◌, add64, u32, Result,
}
use mini_fs.State.{Mount}
use mini_fs.Alloc.Block.{block_alloc}
use mini_fs.ObjStore.Status.{
  Status, error_not_found, error_no_space, error_invalid_argument, error_internal, Reply, done,
  fail, Act, or_status, ◌>>=◌, ◌>>◌,
}
use mini_fs.ObjStore.Records.{Chunk}
use mini_fs.ObjStore.Db.{Db}
use mini_fs.ObjStore.Metadata.{
  Meta, Batch, put_chunk_entry, put_chunk_rev, get_chunk, put_chunk, allocate_chunk_id,
}

abbrev pub chunk_size : ℕ
chunk_size = 64 * 1024 * 1024

abbrev pub chunk_blocks : ℕ
chunk_blocks = 16384

-- `ObjectStore` with its `MetadataStore` and `ChunkEngine`.
pub record Store (D : Type 0) : Type 0 where
  pub mount : Mount
  pub meta : Meta D
  pub active : Option Chunk

pub record Reservation : Type 0 where
  pub chunk_id : ℕ
  pub chunk_idx : ℕ
  pub offset_bytes : ℕ
  pub length_bytes : ℕ
  pub padded_bytes : ℕ
  pub physical_lba : ℕ

-- `(bytes + kBlock - 1) & ~(kBlock - 1)`
unfoldable pub round_up_block : ℕ → ℕ
round_up_block bytes = u32 (bytes + 4095) / 4096 * 4096

unfoldable pub stage_chunk_rev : (chunk_id idx oid logical_offset length : ℕ) → Batch → Batch
stage_chunk_rev chunk_id idx oid logical_offset length batch =
    put_chunk_rev chunk_id idx
      (record { oid = oid; logical_offset = logical_offset; length = length; reserved = 0 }) batch

unfoldable pub stage_active : Option Chunk → Batch → Batch
stage_active none batch = batch
stage_active (some c) batch = put_chunk_entry c batch

-- What `reserve` hands out of the active chunk, and the chunk after it.
unfoldable pub reservation : (max_length : ℕ) → Chunk → Reservation × Chunk
unfolding round_up_block
reservation max_length c =
    let space_left = chunk_size - c.write_offset in
    let wanted = min max_length space_left in
    let rounded = round_up_block wanted in
    let padded = if ltb space_left rounded then space_left else rounded in
    let actual = if ltb space_left rounded then space_left else wanted in
    (
      record {
        chunk_id = c.chunk_id;
        chunk_idx = c.next_idx % 2 ^ 16;
        offset_bytes = c.write_offset;
        length_bytes = actual;
        padded_bytes = padded;
        physical_lba = add64 c.lba_start (c.write_offset / 4096);
      },
      record c { write_offset = u32 (c.write_offset + padded); next_idx = u32 (c.next_idx + 1) },
    )

-- `!active_ || active_->write_offset >= kChunkSize`
unfoldable pub no_room : Option Chunk → Bool
no_room none = true
no_room (some c) = leb chunk_size c.write_offset

module _ {D : Type 0} where
  unfoldable pub on_meta : {A : Type 0} → Act (Meta D) A → Act (Store D) A
  on_meta c s = let (r, m) = c s.meta in (r, record s { meta = m })

  -- A call of the C library, whose errors all become `e`.
  unfoldable pub on_mount : {A : Type 0} → Status → (Mount → Result A × Mount) → Act (Store D) A
  on_mount e c s = let (r, m) = c s.mount in (or_status e r, record s { mount = m })

  unfoldable pub set_active : Option Chunk → Act (Store D) (Unit {0})
  set_active c s = (done tt, record s { active = c })

  -- `*active_` has a value where this is called.
  unfoldable pub claim : (max_length : ℕ) → Option Chunk → Act (Store D) Reservation
  unfolding reservation
  claim max_length none s = (fail error_internal, s)
  claim max_length (some c) s =
      let (r, c') = reservation max_length c in (done r, record s { active = some c' })

  module _ (rocks : Db D) where
    unfoldable pub allocate_new_chunk : Act (Store D) (Unit {0})
    unfolding on_mount on_meta set_active
    allocate_new_chunk = do
      lba ← on_mount error_no_space (block_alloc chunk_blocks)
      cid ← on_meta (allocate_chunk_id rocks)
      let c : Chunk = record {
        chunk_id = cid;
        lba_start = lba;
        write_offset = 0;
        next_idx = 0;
        sealed = false;
      }
      on_meta (put_chunk rocks c)
      set_active (some c)

    -- The active chunk is given up also where its record could not be stored.
    unfoldable pub seal_active : Option Chunk → Act (Store D) (Unit {0})
    unfolding on_meta
    seal_active none s = (done tt, s)
    seal_active (some c) s =
        on_meta (put_chunk rocks (record c { sealed = true })) (record s { active = none })

    unfoldable pub ensure_active : Act (Store D) (Unit {0})
    unfolding seal_active allocate_new_chunk no_room
    ensure_active s =
        if no_room s.active then (do seal_active s.active; allocate_new_chunk) s else (done tt, s)

    unfoldable pub reserve : (max_length : ℕ) → Act (Store D) Reservation
    unfolding ensure_active claim
    reserve max_length s =
        if max_length == 0
        then (fail error_invalid_argument, s)
        else (do ensure_active; λ s'. claim max_length s'.active s') s

    -- What a chunk that was read does to the scan: an unsealed one is adopted.
    adopted : Chunk → Option Chunk → Option Chunk
    adopted c old = if c.sealed then old else some c

    -- The scan of `open` from chunk `id` on; `none` where the fuel ran out before an id was missing.
    unfoldable pub adopt_chunks : (fuel id : ℕ) → Store D → Option (Reply (Unit {0}) × Store D)
    unfolding on_meta adopted
    adopt_chunks zero id s = none
    adopt_chunks (suc fuel) id s =
        let (r, s') = on_meta (get_chunk rocks id) s in
        elim r [
          | done c ↦ adopt_chunks fuel (u32 (id + 1)) (record s' { active = adopted c s'.active })
          | fail e ↦ some (elim e [ error_not_found ↦ (done tt, s') | other ↦ (fail other, s') ])
        ]

    unfoldable pub open_chunks : (fuel : ℕ) → Store D → Option (Reply (Unit {0}) × Store D)
    unfolding adopt_chunks
    open_chunks fuel s = adopt_chunks fuel 1 (record s { active = none })
