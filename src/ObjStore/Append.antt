-- ===== src/ObjStore/Append.antt =====
-- `ObjectStore::create` and `ObjectStore::write` of src/objstore/object_store.cc.
use mini_fs.Base.{
  ℕ, zero, suc, ◌+◌, ◌-◌, ◌*◌, ◌/◌, min, Bool, not, [], ltb, leb, ◌==◌, if◌then◌else◌, u32_mod,
  add64,
}
use mini_fs.Format.Bytes.{Bytes, copy, zeros}
use mini_fs.Io.Raw.{alloc_buf, now_ns}
use mini_fs.Io.Posix.{io_read, io_write, io_flush}
use mini_fs.State.{on_io}
use mini_fs.Alloc.Block.{slice}
use mini_fs.ObjStore.Status.{
  error_already_exists, error_io_failure, error_invalid_argument, error_internal, done, fail, Act,
  give, stop, ◌>>=◌, ◌>>◌,
}
use mini_fs.ObjStore.Codec.{Str}
use mini_fs.ObjStore.Records.{ObjectAttrs}
use mini_fs.ObjStore.ObjectPath.{validate_object_path}
use mini_fs.ObjStore.Db.{Db}
use mini_fs.ObjStore.Metadata.{
  Batch, put_path, put_attrs, put_extent_entry, commit, path_exists, path_lookup, get_attrs,
  allocate_object_id,
}
use mini_fs.ObjStore.Chunks.{
  Store, Reservation, stage_chunk_rev, on_meta, on_mount, stage_active, reserve,
}

-- What the loop of `write` has so far: the entries staged, the offset in the object of the next
-- extent, the bytes taken from the caller's buffer, and the number of extents.
pub record Appended : Type 0 where
  pub batch : Batch
  pub logical : ℕ
  pub cursor : ℕ
  pub added_extents : ℕ

-- Steps 2 and 3 of a round: the forward and the reverse map.
unfoldable pub stage_segment : (oid : ℕ) → Reservation → Appended → Appended
stage_segment oid r p = record {
  batch = stage_chunk_rev r.chunk_id r.chunk_idx oid p.logical r.length_bytes (
      put_extent_entry oid p.logical
        (record {
          chunk_id = r.chunk_id;
          chunk_idx = r.chunk_idx;
          reserved = 0;
          offset_in_chunk = r.offset_bytes;
          length = r.length_bytes;
          checksum = 0;
        })
        p.batch);
  logical = add64 p.logical r.length_bytes;
  cursor = p.cursor + r.length_bytes;
  added_extents = p.added_extents + 1;
}

module _ {D : Type 0} where
  unfoldable pub write_blocks : (lba : ℕ) → Bytes → (n : ℕ) → Act (Store D) (Unit {0})
  unfolding on_mount on_io
  write_blocks lba buf n = on_mount error_io_failure (on_io (io_write lba n buf))

  unfoldable pub read_blocks : (lba n : ℕ) → Act (Store D) Bytes
  unfolding on_mount on_io
  read_blocks lba n = on_mount error_io_failure (on_io (io_read lba n))

  -- `now_ns()`
  unfoldable pub clock_now : Act (Store D) ℕ
  unfolding on_mount on_io
  clock_now = on_mount error_internal (on_io now_ns)

  -- Step 1 of a round: the whole blocks from the caller's buffer, and the rest padded with zeros.
  unfoldable pub write_segment : (src : Bytes) (cursor : ℕ) → Reservation → Act (Store D) (Unit {0})
  unfolding write_blocks slice
  write_segment src cursor r =
      let bulk_bytes = r.length_bytes / 4096 * 4096 in
      let tail_bytes = r.length_bytes - bulk_bytes in
      (do
        if ltb 0 bulk_bytes
            then write_blocks r.physical_lba (slice cursor src) (bulk_bytes / 4096)
            else give tt
        if ltb 0 tail_bytes
            then write_blocks (add64 r.physical_lba (bulk_bytes / 4096))
                (copy zeros 0 src (cursor + bulk_bytes) tail_bytes) 1
            else give tt)

  module _ (rocks : Db D) where
    unfoldable pub create : (sync : Bool) → Str → Act (Store D) (Unit {0})
    unfolding on_meta clock_now
    create sync path s =
        if not (validate_object_path path)
        then (fail error_invalid_argument, s)
        else (do
          exists ← on_meta (λ m. let (b, m') = path_exists rocks path m in (done b, m'))
          if exists then stop error_already_exists else give tt
          oid ← on_meta (allocate_object_id rocks)
          now ← clock_now
          let a : ObjectAttrs = record {
            object_id = oid;
            size = 0;
            ctime_ns = now;
            mtime_ns = now;
            version = 1;
            num_extents = 0;
          }
          on_meta (commit rocks sync (put_path path oid (put_attrs a []))))
            s

    -- The loop of `write`; each round takes a byte at least.
    unfoldable pub append_rounds :
        (oid : ℕ) (src : Bytes) (fuel remaining : ℕ) → Appended → Act (Store D) Appended
    unfolding write_segment stage_segment
    append_rounds oid src zero remaining p s = (done p, s)
    append_rounds oid src (suc fuel) remaining p s =
        let round = (do
          r ← reserve rocks (min remaining (u32_mod - 1))
          write_segment src p.cursor r
          append_rounds oid src fuel (remaining - r.length_bytes) (stage_segment oid r p)) in
        if remaining == 0 then (done p, s) else round s

    -- The end of `write`, behind its loop.
    unfoldable pub finish_append :
        (sync : Bool) (a : ObjectAttrs) (len : ℕ) → Appended → Act (Store D) (Unit {0})
    unfolding on_meta on_mount on_io clock_now stage_active
    finish_append sync a len p = do
      on_mount error_io_failure (on_io io_flush)
      now ← clock_now
      let a' : ObjectAttrs = record a {
        size = add64 a.size len;
        version = add64 a.version 1;
        mtime_ns = now;
        num_extents = add64 a.num_extents p.added_extents;
      }
      λ s. on_meta (commit rocks sync (stage_active s.active (put_attrs a' p.batch))) s

    unfoldable pub append : (sync : Bool) → Str → Bytes → (len : ℕ) → Act (Store D) (Unit {0})
    unfolding append_rounds finish_append on_meta on_mount on_io
    append sync path src len s =
        if not (validate_object_path path)
        then (fail error_invalid_argument, s)
        else (do
          oid ← on_meta (path_lookup rocks path)
          a ← on_meta (get_attrs rocks oid)
          if len == 0 then give tt else if leb u32_mod len then stop error_invalid_argument else (do
            on_mount error_internal (on_io alloc_buf)
            p ←
                append_rounds oid src len len
                  (record { batch = []; logical = a.size; cursor = 0; added_extents = 0 })
            finish_append sync a len p))
            s
