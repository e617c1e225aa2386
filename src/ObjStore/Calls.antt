-- ===== src/ObjStore/Calls.antt =====
-- The other calls of `ObjectStore`: `read` into a vector, `stat`, `chunk_id_range`, and `open` behind
-- the mount of the device.
use mini_fs.Base.{ℕ, ◌-◌, Bool, true, not, Option, some, ltb, ◌==◌, if◌then◌else◌, u32_mod}
use mini_fs.Format.Bytes.{Bytes, zeros}
use mini_fs.ObjStore.Status.{
  error_out_of_range, error_invalid_argument, Reply, done, fail, Act, give, stop, ◌>>=◌,
}
use mini_fs.ObjStore.Codec.{Str}
use mini_fs.ObjStore.Records.{ObjectAttrs, ExtentEntry}
use mini_fs.ObjStore.ObjectPath.{validate_object_path}
use mini_fs.ObjStore.Db.{Db}
use mini_fs.ObjStore.Metadata.{path_lookup, get_attrs, open_metadata}
use mini_fs.ObjStore.Extents.{iter_extents}
use mini_fs.ObjStore.Chunks.{Store, on_meta, open_chunks}
use mini_fs.ObjStore.Reader.{readable, read_into}

-- The visitor of `chunk_id_range`: the smallest and the largest chunk so far.
unfoldable pub widen : ℕ → ExtentEntry → ℕ × ℕ → Bool × (ℕ × ℕ)
widen off e (lo, hi) = (
  true,
  (if ltb e.chunk_id lo then e.chunk_id else lo, if ltb hi e.chunk_id then e.chunk_id else hi),
)

module _ {D : Type 0} (rocks : Db D) where
  unfoldable pub object_stat : Str → Act (Store D) ObjectAttrs
  unfolding on_meta
  object_stat path s =
      if not (validate_object_path path)
      then (fail error_invalid_argument, s)
      else (do oid ← on_meta (path_lookup rocks path); on_meta (get_attrs rocks oid)) s

  -- The bytes of the vector and its size: it is sized for what can be read, and then read into.
  unfoldable pub read_vector : Str → (offset size : ℕ) → Act (Store D) (ℕ × Bytes)
  unfolding object_stat read_into readable
  read_vector path offset size s =
      (do
        a ← object_stat path
        let n = readable offset size a.size
        if ltb a.size offset
            then stop error_out_of_range
            else if n == 0
            then give (0, zeros)
            else read_into rocks path offset n zeros)
        s

  unfoldable pub chunk_id_range : Str → Act (Store D) (ℕ × ℕ)
  unfolding object_stat iter_extents widen on_meta
  chunk_id_range path s =
      if not (validate_object_path path)
      then (fail error_invalid_argument, s)
      else (do
        oid ← on_meta (path_lookup rocks path)
        a ← on_meta (get_attrs rocks oid)
        if a.size == 0 then give (0, 0) else λ s'.
            let (r, range) = iter_extents widen rocks oid 0 a.size s'.meta.db (u32_mod - 1, 0) in
            (elim r [ done u ↦ done range | fail e ↦ fail e ], s'))
          s

  -- The metadata, and then the chunks.
  unfoldable pub open_store : (fuel : ℕ) → Store D → Option (Reply (Unit {0}) × Store D)
  unfolding open_metadata open_chunks on_meta
  open_store fuel s =
      let (r, s') = on_meta (open_metadata rocks) s in
      elim r [ done u ↦ open_chunks rocks fuel s' | fail e ↦ some (fail e, s') ]
