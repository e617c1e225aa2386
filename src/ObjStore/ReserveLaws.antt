-- ===== src/ObjStore/ReserveLaws.antt =====
-- `ChunkEngine::reserve` as a whole.
use mini_fs.Base.{
  ℕ, ◌+◌, ◌<◌, ◌≡◌, refl, ap, ◌∙◌, inl, inr, true, false, Option, none, some, arith, ◌==◌, ne→==,
  Bool-cases, u32, Result, ok, err,
}
use mini_fs.State.{Mount}
use mini_fs.Alloc.Block.{block_alloc}
use mini_fs.ObjStore.Status.{Status, error_no_space, Reply, done, fail, Act, or_status}
use mini_fs.ObjStore.Triple.{Post, succeeds, fails, Post-chain}
use mini_fs.ObjStore.Records.{Chunk}
use mini_fs.ObjStore.Db.{Db}
use mini_fs.ObjStore.Codec.{pod_to_string}
use mini_fs.ObjStore.Keys.{key_next_chunk}
use mini_fs.ObjStore.Metadata.{Meta, put_value, put_chunk, allocate_chunk_id}
use mini_fs.ObjStore.Chunks.{
  chunk_size, chunk_blocks, Store, Reservation, no_room, on_meta, on_mount, set_active, claim,
  allocate_new_chunk, seal_active, ensure_active, reserve,
}
use mini_fs.ObjStore.ChunkLaws.{IsChunk, Reserves, reservation-Reserves}

-- An active chunk, if there is one, is well formed.
abbrev pub IsActive : Option Chunk → Type 0
IsActive none = Unit {0}
IsActive (some c) = IsChunk c

-- An empty chunk.
abbrev pub new_chunk : (chunk_id lba : ℕ) → Chunk
new_chunk chunk_id lba = record {
  chunk_id = chunk_id;
  lba_start = lba;
  write_offset = 0;
  next_idx = 0;
  sealed = false;
}

new_chunk-IsChunk : (chunk_id lba : ℕ) → IsChunk (new_chunk chunk_id lba)
new_chunk-IsChunk chunk_id lba = record {
  whole_blocks = refl;
  inside = omega arith;
  indices = omega arith;
}

module _ {D : Type 0} where
  -- The chunk `c` that a reservation from `s` is made of, and the mount after it: the active chunk,
  -- where it has room; otherwise an empty chunk with the next identifier, at the blocks that were
  -- allocated for it.
  pub data Source (s : Store D) (c : Chunk) (mount : Mount) : Type 0 where
    kept : s.active ≡ some c → c.write_offset < chunk_size → mount ≡ s.mount → Source s c mount
    fresh :
        (lba : ℕ)
        → no_room s.active ≡ true
        → (block_alloc chunk_blocks s.mount).0 ≡ ok lba
        → mount ≡ (block_alloc chunk_blocks s.mount).1
        → c ≡ new_chunk s.meta.next_chunk_id lba
        → Source s c mount

  -- What `reserve` leaves behind: on success the active chunk is what is left of the one that the
  -- reservation is made of.
  abbrev pub Reserved : ℕ → Store D → Reply Reservation × Store D → Type 0
  Reserved n s =
      Post
        (λ r s'. (c c' : Chunk) × Source s c s'.mount × (s'.active ≡ some c') × Reserves n c r c')
        (λ s'. IsActive s'.active)

  -- All of the store is as it was, but the mount; all, but the metadata.
  abbrev AfterMount :
      {A : Type 0} → (Mount → Result A × Mount) → Store D → Reply A × Store D → Type 0
  AfterMount c s =
      Post (λ a s'. ((c s.mount).0 ≡ ok a) × (s' ≡ record s { mount = (c s.mount).1 }))
        (λ s'. IsActive s'.active)

  abbrev AfterMeta : {A : Type 0} → (A → Type 0) → Store D → Reply A × Store D → Type 0
  AfterMeta Q s =
      Post (λ a s'. Q a × (s'.active ≡ s.active) × (s'.mount ≡ s.mount)) (λ s'. IsActive s'.active)

  AfterMount-of :
      {A : Type 0} (e : Status) (s : Store D) (out : Result A × Mount)
      → IsActive s.active
      → Post
          (λ a s'. (out.0 ≡ ok a) × (s' ≡ record s { mount = out.1 }))
          (λ s'. IsActive s'.active)
          (or_status e out.0, record s { mount = out.1 })
  AfterMount-of e s (ok a, m) h = succeeds (refl, refl)
  AfterMount-of e s (err x, m) h = fails h

  on_mount-AfterMount :
      {A : Type 0} (e : Status) (c : Mount → Result A × Mount) (s : Store D)
      → IsActive s.active
      → AfterMount c s (on_mount e c s)
  unfolding on_mount
  on_mount-AfterMount e c s h = AfterMount-of e s (c s.mount) h

  AfterMeta-of :
      {A : Type 0} (Q : A → Type 0) (s : Store D) (out : Reply A × Meta D)
      → IsActive s.active
      → Post (λ a m. Q a) (λ m. Unit {0}) out
      → AfterMeta Q s (out.0, record s { meta = out.1 })
  AfterMeta-of Q s (done a, m) h (succeeds q) = succeeds (q, refl, refl)
  AfterMeta-of Q s (fail e, m) h q = fails h

  on_meta-AfterMeta :
      {A : Type 0} (Q : A → Type 0) (c : Act (Meta D) A) (s : Store D)
      → IsActive s.active
      → Post (λ a m. Q a) (λ m. Unit {0}) (c s.meta)
      → AfterMeta Q s (on_meta c s)
  unfolding on_meta
  on_meta-AfterMeta Q c s h q = AfterMeta-of Q s (c s.meta) h q

  any_answer : {A : Type 0} (out : Reply A × Meta D) → Post (λ a m. Unit {0}) (λ m. Unit {0}) out
  any_answer (done a, m) = succeeds tt
  any_answer (fail e, m) = fails tt

  module _ (rocks : Db D) where
    allocate_chunk_id-next :
        (m : Meta D)
        → Post (λ cid m'. cid ≡ m.next_chunk_id) (λ m'. Unit {0}) (allocate_chunk_id rocks m)
    unfolding allocate_chunk_id
    allocate_chunk_id-next m =
        Post-chain _ _
          (any_answer (
            put_value rocks true key_next_chunk (pod_to_string 4 (u32 (m.next_chunk_id + 1)))
              (record m { next_chunk_id = u32 (m.next_chunk_id + 1) })))
          (λ u m' h. succeeds refl)

    -- A new chunk is empty, has the next identifier and lies at the blocks that were allocated.
    abbrev AfterNew : Store D → Reply (Unit {0}) × Store D → Type 0
    AfterNew s =
        Post
          (λ u s'.
            (lba : ℕ) × ((block_alloc chunk_blocks s.mount).0 ≡ ok lba)
            × (s'.mount ≡ (block_alloc chunk_blocks s.mount).1)
            × (s'.active ≡ some (new_chunk s.meta.next_chunk_id lba)))
          (λ s'. IsActive s'.active)

    allocate_new_chunk-AfterNew :
        (s : Store D) → IsActive s.active → AfterNew s (allocate_new_chunk rocks s)
    unfolding allocate_new_chunk set_active
    allocate_new_chunk-AfterNew s h =
        Post-chain _ _ (on_mount-AfterMount error_no_space (block_alloc chunk_blocks) s h)
          (λ lba s1 (taken, same). rw same (
            Post-chain _ _
              (on_meta-AfterMeta (λ cid. cid ≡ s.meta.next_chunk_id) (allocate_chunk_id rocks)
                (record s { mount = (block_alloc chunk_blocks s.mount).1 }) h
                (allocate_chunk_id-next s.meta))
              (λ cid s2 (next, active2, mount2).
                Post-chain _ _
                  (on_meta-AfterMeta (λ u. Unit {0}) (put_chunk rocks (new_chunk cid lba)) s2
                    (rw active2 h) (any_answer (put_chunk rocks (new_chunk cid lba) s2.meta)))
                  (λ u s3 (v, active3, mount3).
                    succeeds
                      (lba, taken, mount3 ∙ mount2, ap (λ k. some (new_chunk k lba)) next)))))

    -- Sealing leaves the mount and the counters.
    abbrev Sealed : Store D → Reply (Unit {0}) × Store D → Type 0
    Sealed s =
        Post
          (λ u s'.
            IsActive s'.active
            × (s'.mount ≡ s.mount)
            × (s'.meta.next_chunk_id ≡ s.meta.next_chunk_id))
          (λ s'. IsActive s'.active)

    Sealed-of :
        (s : Store D) (db : D) (r : Reply (Unit {0}))
        → Sealed s (r, record s { active = none; meta = record s.meta { db = db } })
    Sealed-of s db (done u) = succeeds (tt, refl, refl)
    Sealed-of s db (fail e) = fails tt

    seal_active-Sealed :
        (active : Option Chunk) (s : Store D)
        → IsActive s.active
        → Sealed s (seal_active rocks active s)
    unfolding seal_active on_meta put_chunk put_value
    seal_active-Sealed none s h = succeeds (h, refl, refl)
    seal_active-Sealed (some c) s h = Sealed-of s _ _

    -- After `ensure_active` there is a chunk with room, and it is the one of the reservation.
    abbrev Ensured : Store D → Reply (Unit {0}) × Store D → Type 0
    Ensured s =
        Post
          (λ u s'.
            (c : Chunk) × (s'.active ≡ some c)
            × Source s c s'.mount
            × IsChunk c
            × (c.write_offset < chunk_size))
          (λ s'. IsActive s'.active)

    keeps-Ensured :
        (s : Store D) (a : Option Chunk)
        → s.active ≡ a
        → IsActive a
        → no_room a ≡ false
        → Ensured s (done tt, s)
    unfolding no_room
    keeps-Ensured s none e h room = ground arith
    keeps-Ensured s (some c) e h room =
        let less : c.write_offset < chunk_size = ground arith in
        succeeds (c, e, kept e less refl, h, less)

    AfterNew-Ensured :
        (s s1 : Store D) (mount1 : s1.mount ≡ s.mount)
        → s1.meta.next_chunk_id ≡ s.meta.next_chunk_id
        → no_room s.active ≡ true
        → (out : Reply (Unit {0}) × Store D) → AfterNew s1 out
        → Ensured s out
    AfterNew-Ensured s s1 mount1 next full (done u, s') (succeeds (lba, taken, mount, active)) =
        succeeds (
          new_chunk s1.meta.next_chunk_id lba,
          active,
          fresh lba full (rw⁻¹ mount1 taken) (rw⁻¹ mount1 mount) (ap (λ k. new_chunk k lba) next),
          new_chunk-IsChunk s1.meta.next_chunk_id lba,
          omega arith,
        )
    AfterNew-Ensured s s1 mount1 next full (fail e, s') (fails h) = fails h

    ensure_active-Ensured : (s : Store D) → IsActive s.active → Ensured s (ensure_active rocks s)
    unfolding ensure_active
    ensure_active-Ensured s h = elim (Bool-cases (no_room s.active)) [
      | inl full ↦ rw full (
          Post-chain _ _ (seal_active-Sealed s.active s h) (λ u s1 (h1, mount1, next).
            AfterNew-Ensured s s1 mount1 next full _ (allocate_new_chunk-AfterNew s1 h1)))
      | inr room ↦ rw room (keeps-Ensured s s.active refl h room)
    ]

    -- A request of at least one byte, where the active chunk, if there is one, is well formed, either
    -- fails, and then the same holds after it, or reserves from the chunk that was active, where it
    -- had room, and otherwise from an empty chunk with the next chunk identifier at the blocks that
    -- were allocated for it: at least one byte and at most what was asked for, in whole blocks from
    -- where that chunk was filled to and at that place of the device; the active chunk is then that
    -- chunk as it is left, and is well formed.
    pub reserve-Reserved :
        (n : ℕ) (s : Store D) → 0 < n → IsActive s.active → Reserved n s (reserve rocks n s)
    unfolding reserve claim
    reserve-Reserved n s pos h =
        let more : (n == 0) ≡ false = ne→== n 0 (omega arith) in
        rw more (
          Post-chain _ _ (ensure_active-Ensured s h) (λ u s1 (c, active, source, valid, room).
            rw active (succeeds (c, _, source, refl, reservation-Reserves n c valid pos room))))
