-- ===== src/ObjStore/ReadLaws.antt =====
-- The three transfers by which `ObjectStore::read` reads an extent.
use mini_fs.Base.{
  ℕ, ◌+◌, ◌-◌, ◌*◌, ◌/◌, ◌%◌, ◌≤◌, ◌<◌, min, ◌≡◌, refl, ◌⊎◌, inl, inr, false, ◌&&◌, arith, ltb, leb,
  if◌then◌else◌, ltb→lt, ltb→le, leb→le, leb→lt, Bool-cases, u64_mod,
}
use mini_fs.Io.Loops.{IsDevice}
use mini_fs.ObjStore.Triple.{succeeds, Post-chain, Post-weaken}
use mini_fs.ObjStore.DbLaws.{Success}
use mini_fs.ObjStore.Records.{ExtentEntry, Chunk}
use mini_fs.ObjStore.Reader.{Reading, read_head, read_bulk, read_tail, locate, read_extent}
use mini_fs.ObjStore.Transfer.{Request, Partly, transfer-Moved}

skipped : (a b : ℕ) → (if ltb a b then b - a else 0) ≡ b - a
skipped a b = ground arith

module _ {D : Type 0} where
  -- The physical blocks up to the end of the request have numbers that do not wrap.
  abbrev InBlocks : Chunk → Reading D → Type 0
  InBlocks c rd = c.lba_start + (rd.phys_byte_off + rd.to_copy) / 4096 + 1 < u64_mod

  -- After the head the request is done, or the rest of it starts at a block.
  abbrev Aligned : Reading D → Type 0
  Aligned rd = (rd.to_copy ≡ 0) ⊎ (rd.phys_byte_off % 4096 ≡ 0)

  Aligned-after :
      (rd rd' : Reading D)
      → rd'.to_copy ≡ rd.to_copy - min rd.to_copy (4096 - rd.phys_byte_off % 4096)
      → rd'.phys_byte_off ≡ rd.phys_byte_off + min rd.to_copy (4096 - rd.phys_byte_off % 4096)
      → Aligned rd'
  Aligned-after rd rd' copied phys =
      elim (Bool-cases (ltb (4096 - rd.phys_byte_off % 4096) rd.to_copy)) [
        | inl more ↦ let l = ltb→lt _ _ more in inr (omega arith)
        | inr last ↦ let l = ltb→le _ _ last in inl (omega arith)
      ]

  Aligned-before :
      (rd : Reading D) → (ltb 0 (rd.phys_byte_off % 4096) && ltb 0 rd.to_copy) ≡ false → Aligned rd
  Aligned-before rd h = elim (Bool-cases (ltb 0 rd.to_copy)) [
    | inl some_left ↦ inr (ground (arith, h))
    | inr nothing ↦ inl (ground (arith, nothing))
  ]

  read_head-Aligned :
      (q : Request) (c : Chunk) (size : ℕ) (rd : Reading D)
      → Partly q c size rd
      → InBlocks c rd
      → Success (λ u rd'. Partly q c size rd' × InBlocks c rd' × Aligned rd') (read_head size c rd)
  unfolding read_head
  read_head-Aligned q c size rd p small =
      let skip = rd.phys_byte_off % 4096 in
      elim (Bool-cases (ltb 0 skip && ltb 0 rd.to_copy)) [
        | inr no_head ↦ rw no_head (succeeds (p, small, Aligned-before rd no_head))
        | inl head ↦ rw head (
            Post-weaken
              (λ u rd' (p', copied, phys). (p', omega arith, Aligned-after rd rd' copied phys)) _
              (transfer-Moved q c size 1 (min rd.to_copy (4096 - skip)) skip rd p (omega arith)
                (omega arith) refl (omega arith)))
      ]

  Aligned-left : (rd : Reading D) → Aligned rd → 0 < rd.to_copy → rd.phys_byte_off % 4096 ≡ 0
  Aligned-left rd (inl nothing) h = absurd (omega arith)
  Aligned-left rd (inr start) h = start

  read_bulk-Aligned :
      (q : Request) (c : Chunk) (size : ℕ) (rd : Reading D)
      → Partly q c size rd
      → InBlocks c rd
      → Aligned rd
      → Success
          (λ u rd'. Partly q c size rd' × InBlocks c rd' × Aligned rd' × (rd'.to_copy < 4096))
          (read_bulk size c rd)
  unfolding read_bulk
  read_bulk-Aligned q c size rd p small a = elim (Bool-cases (leb 4096 rd.to_copy)) [
    | inr short ↦ rw short (succeeds (p, small, a, leb→lt _ _ short))
    | inl long ↦
        let n = rd.to_copy / 4096 * 4096 in
        let l = leb→le _ _ long in
        let start : rd.phys_byte_off % 4096 ≡ 0 = Aligned-left rd a (omega arith) in
        rw long (
          Post-weaken
            (λ u rd' (p', copied, phys). (p', omega arith, inr (omega arith), omega arith)) _
            (transfer-Moved q c size (rd.to_copy / 4096) n 0 rd p (omega arith) (omega arith) start
              (omega arith)))
  ]

  read_tail-Partly :
      (q : Request) (c : Chunk) (size : ℕ) (rd : Reading D)
      → Partly q c size rd
      → InBlocks c rd
      → Aligned rd
      → rd.to_copy < 4096
      → Success (λ u rd'. Partly q c size rd' × (rd'.to_copy ≡ 0)) (read_tail size c rd)
  unfolding read_tail
  read_tail-Partly q c size rd p small a short = elim (Bool-cases (ltb 0 rd.to_copy)) [
    | inr nothing ↦ rw nothing (succeeds (p, ground (arith, nothing)))
    | inl some_left ↦
        let l = ltb→lt _ _ some_left in
        let start : rd.phys_byte_off % 4096 ≡ 0 = Aligned-left rd a l in
        rw some_left (
          Post-weaken (λ u rd' (p', copied, phys). (p', omega arith)) _
            (transfer-Moved q c size 1 rd.to_copy 0 rd p (omega arith) (omega arith) start
              (omega arith)))
  ]

  -- What is asked for of an extent that begins at offset `ext_off` of the object.
  abbrev pub requested : (size ext_off : ℕ) → ExtentEntry → Chunk → Reading D → Request
  requested size ext_off e c rd = record {
    disk = rd.store.mount.io.disk;
    dst = rd.dst;
    from = c.lba_start * 4096 + e.offset_in_chunk + (rd.cursor_offset - ext_off);
    to = size - rd.remaining;
    len = min rd.remaining (e.length - (rd.cursor_offset - ext_off));
    stop = rd.cursor_offset + min rd.remaining (e.length - (rd.cursor_offset - ext_off));
  }

  locate-Partly :
      (size ext_off : ℕ) (e : ExtentEntry) (c : Chunk) (rd : Reading D)
      → IsDevice rd.store.mount.io
      → rd.remaining ≤ size
      → Partly (requested size ext_off e c rd) c size (locate ext_off e rd)
  unfolding locate
  locate-Partly size ext_off e c rd dev room = rw (skipped ext_off rd.cursor_offset) (record {
    device = dev;
    disk = refl;
    left = omega arith;
    place = omega arith;
    room = room;
    cursor = refl;
    index = omega arith;
    enough = omega arith;
    bytes = (λ j less. absurd (omega arith), λ j out. refl, λ j out. refl);
  })

  locate-InBlocks :
      (ext_off : ℕ) (e : ExtentEntry) (c : Chunk) (rd : Reading D)
      → rd.cursor_offset ≤ ext_off + e.length
      → c.lba_start + (e.offset_in_chunk + e.length) / 4096 + 1 < u64_mod
      → InBlocks c (locate ext_off e rd)
  unfolding locate
  locate-InBlocks ext_off e c rd reaches small = rw (skipped ext_off rd.cursor_offset) (omega arith)

  -- For an extent that reaches to the cursor or past it, in blocks whose numbers do not wrap, on a
  -- device of fewer than 2^63 bytes, with no more bytes left to read than the size of the read: the transfers of `read` for an extent, where all succeed, leave
  -- in the destination, behind what was read before, the bytes that the device holds for the rest of
  -- the extent or as many as are asked for, and no other byte of it changes; the counts follow.
  pub read_extent-Partly :
      (size ext_off : ℕ) (e : ExtentEntry) (c : Chunk) (rd : Reading D)
      → IsDevice rd.store.mount.io
      → rd.remaining ≤ size
      → rd.cursor_offset ≤ ext_off + e.length
      → c.lba_start + (e.offset_in_chunk + e.length) / 4096 + 1 < u64_mod
      → Success
          (λ u rd'. Partly (requested size ext_off e c rd) c size rd' × (rd'.to_copy ≡ 0))
          (read_extent size ext_off e c rd)
  unfolding read_extent
  read_extent-Partly size ext_off e c rd dev room reaches small =
      let q = requested size ext_off e c rd in
      let p = locate-Partly size ext_off e c rd dev room in
      Post-chain _ _
        (read_head-Aligned q c size (locate ext_off e rd) p
          (locate-InBlocks ext_off e c rd reaches small))
        (λ u1 rd1 (p1, s1, a1).
          Post-chain _ _ (read_bulk-Aligned q c size rd1 p1 s1 a1)
            (λ u2 rd2 (p2, s2, a2, short). read_tail-Partly q c size rd2 p2 s2 a2 short))
