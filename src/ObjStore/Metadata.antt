-- ===== src/ObjStore/Metadata.antt =====
-- `MetadataStore` of src/objstore/metadata.cc over any store of keys and values: opening, counters,
-- lookups and batches.
use mini_fs.Base.{
  ℕ, Bool, true, false, List, [], ◌∷◌, ◌++◌, Option, none, some, ◌==◌, if◌then◌else◌, add64, u32,
  ◌+◌,
}
use mini_fs.ObjStore.Status.{error_not_found, error_metadata, Reply, done, fail, Act, ◌>>=◌, ◌>>◌}
use mini_fs.ObjStore.Codec.{Str, pod_to_string, string_to_pod}
use mini_fs.ObjStore.Records.{
  ObjectAttrs, ExtentEntry, Chunk, ChunkRevEntry, encode_attrs, decode_attrs, encode_extent,
  encode_chunk, decode_chunk, encode_chunk_rev,
}
use mini_fs.ObjStore.Keys.{
  key_path, key_attrs, key_extent, key_chunk, key_chunk_rev, key_next_obj, key_next_chunk,
  key_schema, key_root_dir,
}
use mini_fs.ObjStore.Db.{Got, found, missing, broken, Db}

pub record Meta (D : Type 0) : Type 0 where
  pub db : D
  pub next_object_id : ℕ
  pub next_chunk_id : ℕ

abbrev pub schema_version : ℕ
schema_version = 2

-- `Batch`: the entries in the order in which they were put.
abbrev pub Batch : Type 0
Batch = List (Str × Str)

unfoldable pub put_path : Str → ℕ → Batch → Batch
put_path path oid wb = wb ++ ((key_path path, pod_to_string 8 oid) ∷ [])

unfoldable pub put_attrs : ObjectAttrs → Batch → Batch
put_attrs a wb = wb ++ ((key_attrs a.object_id, encode_attrs a) ∷ [])

unfoldable pub put_extent_entry : (oid logical_offset : ℕ) → ExtentEntry → Batch → Batch
put_extent_entry oid logical_offset e wb =
    wb ++ ((key_extent oid logical_offset, encode_extent e) ∷ [])

unfoldable pub put_chunk_entry : Chunk → Batch → Batch
put_chunk_entry c wb = wb ++ ((key_chunk c.chunk_id, encode_chunk c) ∷ [])

unfoldable pub put_chunk_rev : (chunk_id idx : ℕ) → ChunkRevEntry → Batch → Batch
put_chunk_rev chunk_id idx r wb = wb ++ ((key_chunk_rev chunk_id idx, encode_chunk_rev r) ∷ [])

-- `rs.IsNotFound()`, `!rs.ok()` and the decoding, in this order.
unfoldable pub decoded : {A : Type 0} → (Str → Option A) → Got → Reply A
decoded read missing = fail error_not_found
decoded read broken = fail error_metadata
decoded read (found v) = elim (read v) [ none ↦ fail error_metadata | some a ↦ done a ]

-- A counter: 1 where there is no entry.
unfoldable pub counter_or_one : (width : ℕ) → Got → Reply ℕ
counter_or_one width missing = done 1
counter_or_one width broken = fail error_metadata
counter_or_one width (found v) = elim (string_to_pod width v) [
  | none ↦ fail error_metadata
  | some n ↦ done n
]

abbrev pub saved : Bool → Reply (Unit {0})
saved true = done tt
saved false = fail error_metadata

module _ {D : Type 0} (rocks : Db D) where
  unfoldable pub lookup_value : Str → Meta D → Got × Meta D
  lookup_value key m = let (g, d) = rocks.get key m.db in (g, record m { db = d })

  unfoldable pub put_value : (sync : Bool) → Str → Str → Act (Meta D) (Unit {0})
  put_value sync key value m =
      let (stored, d) = rocks.put sync key value m.db in (saved stored, record m { db = d })

  unfoldable pub commit : (sync : Bool) → Batch → Act (Meta D) (Unit {0})
  commit sync batch m =
      let (stored, d) = rocks.write sync batch m.db in (saved stored, record m { db = d })

  unfoldable pub path_exists : Str → Meta D → Bool × Meta D
  unfolding lookup_value
  path_exists path m =
      let (g, m') = lookup_value (key_path path) m in
      (elim g [ found v ↦ true | missing ↦ false | broken ↦ false ], m')

  unfoldable pub path_lookup : Str → Act (Meta D) ℕ
  unfolding lookup_value decoded
  path_lookup path m =
      let (g, m') = lookup_value (key_path path) m in (decoded (string_to_pod 8) g, m')

  unfoldable pub get_attrs : ℕ → Act (Meta D) ObjectAttrs
  unfolding lookup_value decoded
  get_attrs oid m = let (g, m') = lookup_value (key_attrs oid) m in (decoded decode_attrs g, m')

  unfoldable pub get_chunk : ℕ → Act (Meta D) Chunk
  unfolding lookup_value decoded
  get_chunk chunk_id m =
      let (g, m') = lookup_value (key_chunk chunk_id) m in (decoded decode_chunk g, m')

  unfoldable pub put_chunk : Chunk → Act (Meta D) (Unit {0})
  unfolding put_value
  put_chunk c = put_value true (key_chunk c.chunk_id) (encode_chunk c)

  -- The counter moves on also where it could not be stored.
  unfoldable pub allocate_object_id : Act (Meta D) ℕ
  unfolding put_value
  allocate_object_id m =
      let next = add64 m.next_object_id 1 in
      (do put_value true key_next_obj (pod_to_string 8 next); λ m'. (done m.next_object_id, m'))
        (record m { next_object_id = next })

  unfoldable pub allocate_chunk_id : Act (Meta D) ℕ
  unfolding put_value
  allocate_chunk_id m =
      let next = u32 (m.next_chunk_id + 1) in
      (do put_value true key_next_chunk (pod_to_string 4 next); λ m'. (done m.next_chunk_id, m'))
        (record m { next_chunk_id = next })

  unfoldable pub persist_counters : Act (Meta D) (Unit {0})
  unfolding commit
  persist_counters m =
      commit true
        ((key_next_obj, pod_to_string 8 m.next_object_id)
          ∷ (key_next_chunk, pod_to_string 4 m.next_chunk_id)
          ∷ [])
        m

  unfoldable pub read_counters : Act (Meta D) (Unit {0})
  unfolding lookup_value counter_or_one persist_counters
  read_counters = do
    next_object ← λ m. let (g, m') = lookup_value key_next_obj m in (counter_or_one 8 g, m')
    (λ m. (done tt, record m { next_object_id = next_object }))
    next_chunk ← λ m. let (g, m') = lookup_value key_next_chunk m in (counter_or_one 4 g, m')
    (λ m. (done tt, record m { next_chunk_id = next_chunk }))
    persist_counters

  schema_answer : Got → Act (Meta D) (Unit {0})
  unfolding put_value
  schema_answer missing m = put_value true key_schema (pod_to_string 4 schema_version) m
  schema_answer broken m = (fail error_metadata, m)
  schema_answer (found v) m = (
    elim (string_to_pod 4 v) [
      | none ↦ fail error_metadata
      | some n ↦ if n == schema_version then done tt else fail error_metadata
    ],
    m,
  )

  unfoldable pub init_or_check_schema : Act (Meta D) (Unit {0})
  unfolding lookup_value schema_answer
  init_or_check_schema m = let (g, m') = lookup_value key_schema m in schema_answer g m'

  root_answer : Got → Act (Meta D) (Unit {0})
  unfolding put_value
  root_answer missing m = put_value false key_root_dir (pod_to_string 8 0) m
  root_answer broken m = (fail error_metadata, m)
  root_answer (found v) m = (done tt, m)

  -- `open`, behind the library's own `DB::Open`.
  unfoldable pub open_metadata : Act (Meta D) (Unit {0})
  unfolding lookup_value root_answer init_or_check_schema read_counters
  open_metadata = do
    λ m. let (g, m') = lookup_value key_root_dir m in root_answer g m'
    init_or_check_schema
    read_counters
