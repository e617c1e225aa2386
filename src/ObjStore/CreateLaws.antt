-- ===== src/ObjStore/CreateLaws.antt =====
-- `ObjectStore::create`, and what the lookups answer after it.
use mini_fs.Base.{
  ℕ, ◌<◌, ◌≡◌, refl, ◌∙◌, inl, inr, Bool, true, false, List, [], ◌∷◌, arith, if◌then◌else◌,
  Bool-cases, u64_mod, add64, ok,
}
use mini_fs.Io.Raw.{Io, now_ns}
use mini_fs.State.{on_io}
use mini_fs.ObjStore.Status.{error_already_exists, give, stop, done}
use mini_fs.ObjStore.Triple.{succeeds, fails, Post-chain}
use mini_fs.ObjStore.Codec.{Str, pod_to_string}
use mini_fs.ObjStore.Records.{ObjectAttrs, encode_attrs}
use mini_fs.ObjStore.RoundTrip.{FitsAttrs, decode_attrs-encode_attrs}
use mini_fs.ObjStore.ObjectPath.{validate_object_path}
use mini_fs.ObjStore.Keys.{key_path, key_attrs, key_next_obj}
use mini_fs.ObjStore.Db.{Db, Got, found}
use mini_fs.ObjStore.Metadata.{
  Batch, put_path, put_attrs, commit, decoded, lookup_value, path_exists, path_lookup, get_attrs,
  allocate_object_id,
}
use mini_fs.ObjStore.Chunks.{Store, on_meta, on_mount}
use mini_fs.ObjStore.Append.{clock_now, create}
use mini_fs.ObjStore.DbLaws.{DbLaws, newest, same_refl, Success, string_to_pod-pod_to_string}

-- The attributes that `create` stores.
abbrev pub created : (oid now : ℕ) → ObjectAttrs
created oid now = record {
  object_id = oid;
  size = 0;
  ctime_ns = now;
  mtime_ns = now;
  version = 1;
  num_extents = 0;
}

-- The path leads to `oid`, whose attributes are those of an empty object.
abbrev pub Created : {D : Type 0} (rocks : Db D) → Str → (oid : ℕ) → Store D → Type 0
Created rocks path oid s =
    ((path_lookup rocks path s.meta).0 ≡ done oid)
    × (now : ℕ) × ((get_attrs rocks oid s.meta).0 ≡ done (created oid now))

-- The time that `now_ns` answers next.
abbrev pub next_time : List ℕ → ℕ
next_time [] = 0
next_time (t ∷ rest) = t

now_ns-next_time :
    (clock : List ℕ) (io : Io) → io.clock ≡ clock → (now_ns io).0 ≡ ok (next_time clock)
unfolding now_ns
now_ns-next_time [] io e = rw e refl
now_ns-next_time (t ∷ rest) io e = rw e refl

created-FitsAttrs : (oid now : ℕ) → oid < u64_mod → now < u64_mod → FitsAttrs (created oid now)
created-FitsAttrs oid now h h' = record {
  object_id = omega arith;
  size = omega arith;
  ctime_ns = omega arith;
  mtime_ns = omega arith;
  version = omega arith;
  num_extents = omega arith;
}

create_batch : (path : Str) (oid now : ℕ) → Batch
create_batch path oid now = put_path path oid (put_attrs (created oid now) [])

newest-path :
    (path : Str) (oid now : ℕ) (old : Got)
    → newest (key_path path) old (create_batch path oid now) ≡ found (pod_to_string 8 oid)
unfolding create_batch put_path put_attrs key_path key_attrs
newest-path path oid now old = rw (same_refl path) refl

newest-attrs :
    (path : Str) (oid now : ℕ) (old : Got)
    → newest (key_attrs oid) old (create_batch path oid now)
      ≡ found (encode_attrs (created oid now))
unfolding create_batch put_path put_attrs key_path key_attrs
newest-attrs path oid now old = rw (same_refl (key_attrs oid)) refl

module _ {D : Type 0} (rocks : Db D) (laws : DbLaws rocks) where
  commit-Created :
      (sync : Bool) (path : Str) (oid now : ℕ) (s : Store D)
      → oid < u64_mod
      → now < u64_mod
      → Success
          (λ u s'. Created rocks path oid s')
          (on_meta (commit rocks sync (create_batch path oid now)) s)
  unfolding on_meta commit path_lookup get_attrs lookup_value decoded
  commit-Created sync path oid now s h h' =
      let batch : Batch = create_batch path oid now in
      elim (Bool-cases (rocks.write sync batch s.meta.db).0) [
        | inr refused ↦ rw refused (fails tt)
        | inl stored ↦ rw stored (
            succeeds (
              rw
                  (
                    laws.get-write sync (key_path path) batch s.meta.db stored,
                    newest-path path oid now (rocks.get (key_path path) s.meta.db).0,
                    decoded,
                    string_to_pod-pod_to_string 8 oid (omega arith),
                  )
                  refl,
              now,
              rw
                  (
                    laws.get-write sync (key_attrs oid) batch s.meta.db stored,
                    newest-attrs path oid now (rocks.get (key_attrs oid) s.meta.db).0,
                    decoded,
                    decode_attrs-encode_attrs (created oid now) (created-FitsAttrs oid now h h'),
                  )
                  refl,
            ))
      ]

  commit_as-Created :
      (sync : Bool) (path : Str) (oid id now : ℕ) (s : Store D)
      → oid ≡ id
      → id < u64_mod
      → now < u64_mod
      → Success
          (λ u s'. Created rocks path id s')
          (on_meta (commit rocks sync (create_batch path oid now)) s)
  commit_as-Created sync path oid id now s e h h' = rw e (commit-Created sync path id now s h h')

  -- What stays true of the store up to the commit.
  abbrev Before : Store D → Store D → Type 0
  Before s0 s =
      (s.meta.next_object_id ≡ s0.meta.next_object_id) × (s.mount.io.clock ≡ s0.mount.io.clock)

  path_exists-Success :
      (path : Str) (s0 : Store D)
      → Success
          (λ (b : Bool) s. Before s0 s)
          (on_meta (λ m. let (b, m') = path_exists rocks path m in (done b, m')) s0)
  unfolding on_meta path_exists lookup_value
  path_exists-Success path s0 = succeeds (refl, refl)

  refuse-Success :
      (exists : Bool) (s0 s : Store D)
      → Before s0 s
      → Success (λ u s'. Before s0 s') ((if exists then stop error_already_exists else give tt) s)
  refuse-Success true s0 s h = fails tt
  refuse-Success false s0 s h = succeeds h

  allocate_object_id-Success :
      (s : Store D)
      → Success
          (λ oid s'. (oid ≡ s.meta.next_object_id) × (s'.mount.io.clock ≡ s.mount.io.clock))
          (on_meta (allocate_object_id rocks) s)
  unfolding on_meta allocate_object_id
  allocate_object_id-Success s =
      let next = pod_to_string 8 (add64 s.meta.next_object_id 1) in
      elim (Bool-cases (rocks.put true key_next_obj next s.meta.db).0) [
        | inl stored ↦ rw stored (succeeds (refl, refl))
        | inr refused ↦ rw refused (fails tt)
      ]

  clock_now-Success :
      (s : Store D)
      → next_time s.mount.io.clock < u64_mod
      → Success (λ now s'. now < u64_mod) (clock_now s)
  unfolding clock_now on_mount on_io now_ns
  clock_now-Success s h = rw (now_ns-next_time s.mount.io.clock s.mount.io refl) (succeeds h)

  -- Where the store of keys and values keeps what it stored, and the next identifier and the time are
  -- below 2^64, a successful `create` leaves its path leading to that identifier, with the attributes
  -- of an empty object.
  pub create-Created :
      (sync : Bool) (path : Str) (s : Store D)
      → s.meta.next_object_id < u64_mod
      → next_time s.mount.io.clock < u64_mod
      → Success (λ u s'. Created rocks path s.meta.next_object_id s') (create rocks sync path s)
  unfolding create create_batch
  create-Created sync path s fits time = elim (Bool-cases (validate_object_path path)) [
    | inr wrong ↦ rw wrong (fails tt)
    | inl right ↦ rw right (
        Post-chain _ _ (path_exists-Success path s) (λ exists s1 (n1, t1).
          Post-chain _ _ (refuse-Success exists s s1 (n1, t1)) (λ u s2 (n2, t2).
            Post-chain _ _ (allocate_object_id-Success s2) (λ oid s3 (e, t3).
              Post-chain _ _ (clock_now-Success s3 (rw (t3 ∙ t2) time)) (λ now s4 small.
                commit_as-Created sync path oid s.meta.next_object_id now s4 (e ∙ n2) fits
                  small)))))
  ]
