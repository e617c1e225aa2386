-- ===== src/ObjStore/Reader.antt =====
-- `ObjectStore::read` of src/objstore/object_store.cc into a caller's buffer: each extent in up to
-- three transfers, for a first part block, for whole blocks, and for a last part block.
use mini_fs.Base.{
  ℕ, ◌+◌, ◌-◌, ◌*◌, ◌/◌, ◌%◌, min, Bool, true, false, not, ◌&&◌, Option, none, some, ltb, leb, ◌==◌,
  if◌then◌else◌, add64,
}
use mini_fs.Format.Bytes.{Bytes, copy}
use mini_fs.Io.Raw.{alloc_buf}
use mini_fs.State.{on_io}
use mini_fs.ObjStore.Status.{
  Status, error_out_of_range, error_invalid_argument, error_internal, Reply, done, fail, Act, give,
  stop, ◌>>=◌, ◌>>◌,
}
use mini_fs.ObjStore.Codec.{Str}
use mini_fs.ObjStore.Records.{ExtentEntry, Chunk}
use mini_fs.ObjStore.ObjectPath.{validate_object_path}
use mini_fs.ObjStore.Db.{Db}
use mini_fs.ObjStore.Metadata.{path_lookup, get_attrs, get_chunk}
use mini_fs.ObjStore.Extents.{iter_extents}
use mini_fs.ObjStore.Chunks.{Store, on_meta, on_mount}
use mini_fs.ObjStore.Append.{read_blocks}

-- The variables that the visitor captures, and the two that it has for one extent.
pub record Reading (D : Type 0) : Type 0 where
  pub store : Store D
  pub dst : Bytes
  pub remaining : ℕ
  pub cursor_offset : ℕ
  pub visit_status : Option Status
  pub chunk_cache : ℕ → Option Chunk
  pub phys_byte_off : ℕ
  pub to_copy : ℕ

-- `size > avail ? avail : size`
unfoldable pub readable : (offset cap size : ℕ) → ℕ
readable offset cap size = if ltb (size - offset) cap then size - offset else cap

module _ {D : Type 0} where
  -- `n` bytes from byte `from` of a transfer's buffer go to the destination, and all counts follow.
  unfoldable pub take_bytes : (size n from : ℕ) → Bytes → Act (Reading D) (Unit {0})
  take_bytes size n from b rd = (
    done tt,
    record rd {
      dst = copy rd.dst (size - rd.remaining) b from n;
      phys_byte_off = rd.phys_byte_off + n;
      to_copy = rd.to_copy - n;
      cursor_offset = rd.cursor_offset + n;
      remaining = rd.remaining - n;
    },
  )

  unfoldable pub fetch : (lba n : ℕ) → Act (Reading D) Bytes
  unfolding read_blocks
  fetch lba n rd = let (r, s) = read_blocks lba n rd.store in (r, record rd { store = s })

  -- (a) the misaligned head
  unfoldable pub read_head : (size : ℕ) → Chunk → Act (Reading D) (Unit {0})
  unfolding take_bytes fetch
  read_head size c rd =
      let head_skip = rd.phys_byte_off % 4096 in
      if ltb 0 head_skip && ltb 0 rd.to_copy
      then (do
        b ← fetch (add64 c.lba_start (rd.phys_byte_off / 4096)) 1
        take_bytes size (min rd.to_copy (4096 - head_skip)) head_skip b)
          rd
      else (done tt, rd)

  -- (b) the aligned bulk
  unfoldable pub read_bulk : (size : ℕ) → Chunk → Act (Reading D) (Unit {0})
  unfolding take_bytes fetch
  read_bulk size c rd =
      if leb 4096 rd.to_copy
      then (do
        b ← fetch (add64 c.lba_start (rd.phys_byte_off / 4096)) (rd.to_copy / 4096)
        take_bytes size (rd.to_copy / 4096 * 4096) 0 b)
          rd
      else (done tt, rd)

  -- (c) the misaligned tail
  unfoldable pub read_tail : (size : ℕ) → Chunk → Act (Reading D) (Unit {0})
  unfolding take_bytes fetch
  read_tail size c rd =
      if ltb 0 rd.to_copy
      then (do
        b ← fetch (add64 c.lba_start (rd.phys_byte_off / 4096)) 1
        take_bytes size rd.to_copy 0 b)
          rd
      else (done tt, rd)

  -- The part of an extent that is asked for, as the visitor computes it.
  unfoldable pub locate : (ext_off : ℕ) → ExtentEntry → Reading D → Reading D
  locate ext_off e rd =
      let in_ext_off = if ltb ext_off rd.cursor_offset then rd.cursor_offset - ext_off else 0 in
      record rd {
        phys_byte_off = e.offset_in_chunk + in_ext_off;
        to_copy = min rd.remaining (e.length - in_ext_off);
      }

  unfoldable pub read_extent : (size ext_off : ℕ) → ExtentEntry → Chunk → Act (Reading D) (Unit {0})
  unfolding locate read_head read_bulk read_tail
  read_extent size ext_off e c rd =
      (do read_head size c; read_bulk size c; read_tail size c) (locate ext_off e rd)

  -- What the visitor answers after an extent: an error is kept and stops the scan.
  unfoldable pub visited : Reply (Unit {0}) × Reading D → Bool × Reading D
  visited (done u, rd) = (ltb 0 rd.remaining, rd)
  visited (fail e, rd) = (false, record rd { visit_status = some e })

  -- The result of `read` from the visitor's variables and the status of the scan.
  unfoldable pub read_result : (size : ℕ) → Reply (Unit {0}) × Reading D → Reply ℕ × Reading D
  read_result size (r, rd) = elim rd.visit_status [
    | some e ↦ (fail e, rd)
    | none ↦ (elim r [ fail e ↦ fail e | done u ↦ done (size - rd.remaining) ], rd)
  ]

  module _ (rocks : Db D) where
    cached : (chunk_id : ℕ) → Option Chunk → Act (Reading D) Chunk
    cached chunk_id (some c) rd = (done c, rd)
    cached chunk_id none rd =
        let (r, s) = on_meta (get_chunk rocks chunk_id) rd.store in
        (
          r,
          record rd {
            store = s;
            chunk_cache = λ k.
                if k == chunk_id
                then elim r [ done c ↦ some c | fail e ↦ none ]
                else rd.chunk_cache k;
          },
        )

    -- The chunk of an extent, looked up once in a call.
    unfoldable pub resolve : (chunk_id : ℕ) → Act (Reading D) Chunk
    unfolding cached on_meta
    resolve chunk_id rd = cached chunk_id (rd.chunk_cache chunk_id) rd

    unfoldable pub visitor : (size ext_off : ℕ) → ExtentEntry → Reading D → Bool × Reading D
    unfolding resolve read_extent visited
    visitor size ext_off e rd =
        if rd.remaining == 0
        then (false, rd)
        else if leb (add64 ext_off e.length) rd.cursor_offset
        then (true, rd)
        else if leb (add64 rd.cursor_offset rd.remaining) ext_off
        then (false, rd)
        else visited ((do c ← resolve e.chunk_id; read_extent size ext_off e c) rd)

    -- The scan of `read` over the extents, from `offset` on, for `size` bytes.
    unfoldable pub scan_object : (oid offset size : ℕ) → Bytes → Store D → Reply ℕ × Reading D
    unfolding visitor read_result iter_extents
    scan_object oid offset size dst s = read_result size (
        iter_extents (visitor size) rocks oid offset (add64 offset size) s.meta.db (record {
          store = s;
          dst = dst;
          remaining = size;
          cursor_offset = offset;
          visit_status = none;
          chunk_cache = λ k. none;
          phys_byte_off = 0;
          to_copy = 0;
        }))

    -- The value is the number of bytes and the buffer with them.
    unfoldable pub read_into : Str → (offset cap : ℕ) → Bytes → Act (Store D) (ℕ × Bytes)
    unfolding scan_object readable on_meta on_mount on_io
    read_into path offset cap dst s =
        if not (validate_object_path path)
        then (fail error_invalid_argument, s)
        else (do
          oid ← on_meta (path_lookup rocks path)
          a ← on_meta (get_attrs rocks oid)
          let size = readable offset cap a.size
          if ltb a.size offset
              then stop error_out_of_range
              else if size == 0
              then give (0, dst)
              else (do
                on_mount error_internal (on_io alloc_buf)
                λ s'.
                    let (r, rd) = scan_object oid offset size dst s' in
                    (elim r [ done n ↦ done (n, rd.dst) | fail e ↦ fail e ], rd.store)))
            s
