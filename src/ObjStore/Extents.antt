-- ===== src/ObjStore/Extents.antt =====
-- `MetadataStore::iter_extents`: the extents of an object over a range of offsets, in order, each
-- given to a visitor that may stop. The visitor's variables are its state.
use mini_fs.Base.{ℕ, Bool, not, List, [], ◌∷◌, none, some, ltb, leb, if◌then◌else◌, add64}
use mini_fs.ObjStore.Status.{Reply, done, fail, error_metadata}
use mini_fs.ObjStore.Codec.{Str}
use mini_fs.ObjStore.Records.{ExtentEntry, decode_extent}
use mini_fs.ObjStore.Keys.{key_extent_prefix, key_extent, is_extent_key, extent_key_offset}
use mini_fs.ObjStore.Db.{Db}
use mini_fs.ObjStore.Metadata.{saved}

module _ {S : Type 0} (cb : ℕ → ExtentEntry → S → Bool × S) where
  -- The forward iteration over the entries that are left; `status` is the iterator's at the end.
  unfoldable pub walk :
      (prefix : Str) (end_offset : ℕ) (status : Reply (Unit {0}))
      → List (Str × Str)
      → S
      → Reply (Unit {0}) × S
  walk prefix end_offset status [] s = (status, s)
  walk prefix end_offset status ((k, v) ∷ rest) s =
      let off = extent_key_offset k in
      if not (is_extent_key prefix k)
      then (status, s)
      else if leb end_offset off
      then (status, s)
      else elim (decode_extent v) [
        | none ↦ (fail error_metadata, s)
        | some e ↦
            let (more, s') = cb off e s in
            let next = walk prefix end_offset status rest s' in if more then next else (status, s')
      ]

  -- The entry at the last key not above the start: taken where its extent reaches past the start.
  unfoldable pub walk_from :
      (prefix : Str) (start end_offset : ℕ) (status : Reply (Unit {0}))
      (before after : List (Str × Str))
      → S
      → Reply (Unit {0}) × S
  unfolding walk
  walk_from prefix start end_offset status [] after s = walk prefix end_offset status after s
  walk_from prefix start end_offset status ((k, v) ∷ rest) after s =
      let off = extent_key_offset k in
      if not (is_extent_key prefix k)
      then walk prefix end_offset status after s
      else elim (decode_extent v) [
        | none ↦ (fail error_metadata, s)
        | some e ↦
            let (more, s') = cb off e s in
            if not (ltb start (add64 off e.length))
            then walk prefix end_offset status after s
            else if leb end_offset off
            then (done tt, s)
            else if more
            then walk prefix end_offset status rest s'
            else (done tt, s')
      ]

  module _ {D : Type 0} (rocks : Db D) where
    unfoldable pub iter_extents : (oid start end_offset : ℕ) → D → S → Reply (Unit {0}) × S
    unfolding walk_from
    iter_extents oid start end_offset d s =
        if leb end_offset start
        then (done tt, s)
        else walk_from (key_extent_prefix oid) start end_offset (saved (rocks.iterated d))
            (rocks.seek_for_prev (key_extent oid start) d) (rocks.seek (key_extent oid start) d) s
