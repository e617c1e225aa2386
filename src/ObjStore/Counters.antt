-- ===== src/ObjStore/Counters.antt =====
-- The object counter of src/objstore/metadata.cc over restarts.
use mini_fs.Base.{
  ℕ, zero, suc, ◌+◌, ◌^◌, ◌<◌, ◌≡◌, refl, sym, ap, ◌∙◌, inl, inr, Bool, true, false, ◌||◌, Option,
  none, some, List, [], ◌∷◌, arith, Bool-cases, u64_mod, add64, u32,
}
use mathlib.Core.Path.{subst}
use mini_fs.ObjStore.Status.{error_metadata, Reply, done, fail}
use mini_fs.ObjStore.Triple.{succeeds, fails, Post-chain, Post-weaken}
use native.Mathlib.Nat.{pow-suc}
use mini_fs.ObjStore.Codec.{Str, pod_to_string, string_to_pod, carry, get_pod, at_end, ◌>>=◌}
use mini_fs.ObjStore.Keys.{key_next_obj, key_next_chunk}
use mini_fs.ObjStore.Db.{Db, Got, found, missing, broken}
use mini_fs.ObjStore.DbLaws.{DbLaws, same, newest, Success, string_to_pod-pod_to_string}
use mini_fs.ObjStore.Metadata.{
  Meta, Batch, put_value, lookup_value, counter_or_one, allocate_object_id, allocate_chunk_id,
  persist_counters, read_counters, commit,
}

-- An entry with the key is in the batch.
abbrev pub has_key : Str → Batch → Bool
has_key key [] = false
has_key key ((k, v) ∷ rest) = same key k || has_key key rest

newest-has_key :
    (key : Str) (old : Got) (batch : Batch) → has_key key batch ≡ false → newest key old batch ≡ old
newest-has_key key old [] h = refl
newest-has_key key old ((k, v) ∷ rest) h = elim (Bool-cases (same key k)) [
  | inl e ↦ absurd (ground (arith, h, e))
  | inr e ↦ rw e (newest-has_key key old rest (ground (arith, h, e)))
]

-- Each identifier is above the ones that were handed out before it, and all are below `bound`.
abbrev pub Ascending : (bound : ℕ) → List ℕ → Type 0
Ascending bound [] = Unit {0}
Ascending bound (id ∷ before) = (id < bound) × Ascending id before

counter_or_one-pod_to_string :
    (w n : ℕ) → n < 256 ^ w → counter_or_one w (found (pod_to_string w n)) ≡ done n
unfolding counter_or_one
counter_or_one-pod_to_string w n h = rw (counter_or_one, string_to_pod-pod_to_string w n h) refl

-- A number that was decoded has as many bytes as were asked for.
abbrev DecodesBelow : (w : ℕ) → Option (ℕ × Str) → Type 0
DecodesBelow w none = Unit {0}
DecodesBelow w (some (v, rest)) = v < 256 ^ w

abbrev ReplyBelow : Reply ℕ → Type 0
ReplyBelow (done n) = n < u64_mod
ReplyBelow (fail e) = Unit {0}

carry-DecodesBelow :
    (w b : ℕ) (p : Option (ℕ × Str)) → DecodesBelow w p → DecodesBelow (suc w) (carry b p)
carry-DecodesBelow w b none h = tt
carry-DecodesBelow w b (some (v, rest)) h = omega (arith, pow-suc 256 w, h)

get_pod-DecodesBelow : (w : ℕ) (s : Str) → DecodesBelow w (get_pod w s)
unfolding get_pod
get_pod-DecodesBelow zero s = omega arith
get_pod-DecodesBelow (suc w) [] = tt
get_pod-DecodesBelow (suc w) (b ∷ s) =
    carry-DecodesBelow w b (get_pod w s) (get_pod-DecodesBelow w s)

counter_or_one-ReplyBelow : (g : Got) → ReplyBelow (counter_or_one 8 g)
unfolding counter_or_one string_to_pod
counter_or_one-ReplyBelow missing = omega arith
counter_or_one-ReplyBelow broken = tt
counter_or_one-ReplyBelow (found v) = of_decoded (get_pod 8 v) (get_pod-DecodesBelow 8 v)
  where
    of_decoded :
        (p : Option (ℕ × Str))
        → DecodesBelow 8 p
        → ReplyBelow (elim (p >>= λ (n, rest). at_end n rest) [
          | none ↦ fail error_metadata
          | some n ↦ done n
        ])
    of_decoded none h = tt
    of_decoded (some (n, [])) h = omega (arith, h)
    of_decoded (some (n, b ∷ rest)) h = tt

module _ {D : Type 0} (rocks : Db D) where
  -- One call of the metadata store that goes well, with the object identifiers handed out so far:
  -- an identifier below 2^64 - 1, a chunk identifier, a batch without the entry of the counter, a
  -- lookup, or a start on what is stored, whatever the counters in memory are then.
  pub data Step : Meta D × List ℕ → Meta D × List ℕ → Type 0 where
    object_allocated :
        {m m' : Meta D} {ids : List ℕ} (oid : ℕ)
        → allocate_object_id rocks m ≡ (done oid, m')
        → m.next_object_id + 1 < u64_mod
        → Step (m, ids) (m', oid ∷ ids)
    chunk_allocated :
        {m m' : Meta D} {ids : List ℕ} (cid : ℕ)
        → allocate_chunk_id rocks m ≡ (done cid, m')
        → Step (m, ids) (m', ids)
    committed :
        {m m' : Meta D} {ids : List ℕ} (sync : Bool) (batch : Batch)
        → has_key key_next_obj batch ≡ false
        → commit rocks sync batch m ≡ (done tt, m')
        → Step (m, ids) (m', ids)
    looked_up :
        {m : Meta D} {ids : List ℕ} (key : Str) → Step (m, ids) ((lookup_value rocks key m).1, ids)
    restarted :
        {m m' : Meta D} {ids : List ℕ} (object chunk : ℕ)
        → read_counters rocks (record { db = m.db; next_object_id = object; next_chunk_id = chunk })
          ≡ (done tt, m')
        → Step (m, ids) (m', ids)

  pub data Steps (s : Meta D × List ℕ) : Meta D × List ℕ → Type 0 where
    none_yet : Steps s s
    then_one : {t u : Meta D × List ℕ} → Steps s t → Step t u → Steps s u

  -- The counter is stored as it is in memory.
  abbrev Stored : Meta D → Type 0
  Stored m =
      (m.next_object_id < u64_mod)
      × ((rocks.get key_next_obj m.db).0 ≡ found (pod_to_string 8 m.next_object_id))

  abbrev Counted : Meta D × List ℕ → Type 0
  Counted (m, ids) = Stored m × Ascending m.next_object_id ids

  after_success :
      {A : Type 0} (Q : A → Meta D → Type 0) (out : Reply A × Meta D) (a : A) (m : Meta D)
      → Success Q out
      → out ≡ (done a, m)
      → Q a m
  after_success Q out a m h e = of_done (subst (Success Q) e h)
    where
      of_done : Success Q (done a, m) → Q a m
      of_done (succeeds q) = q

  answered :
      {A : Type 0} (r : Reply A) (m : Meta D) → Success (λ a m'. (r ≡ done a) × (m' ≡ m)) (r, m)
  answered (done a) m = succeeds (refl, refl)
  answered (fail e) m = fails tt

  counter_or_one-small : (g : Got) (n : ℕ) → counter_or_one 8 g ≡ done n → n < u64_mod
  counter_or_one-small g n e =
      let small = subst ReplyBelow e (counter_or_one-ReplyBelow g) in omega (arith, small)

  module _ (laws : DbLaws rocks) where
    put_value-Success :
        (sync : Bool) (k v : Str) (m : Meta D)
        → Success
            (λ u m'.
              (m'.next_object_id ≡ m.next_object_id)
              × ((k' : Str)
                  → (rocks.get k' m'.db).0 ≡ newest k' (rocks.get k' m.db).0 ((k, v) ∷ [])))
            (put_value rocks sync k v m)
    unfolding put_value
    put_value-Success sync k v m = elim (Bool-cases (rocks.put sync k v m.db).0) [
      | inl stored ↦ rw stored (succeeds (refl, λ k'. laws.get-put sync k' k v m.db stored))
      | inr refused ↦ rw refused (fails tt)
    ]

    commit-Success :
        (sync : Bool) (batch : Batch) (m : Meta D)
        → Success
            (λ u m'.
              (m'.next_object_id ≡ m.next_object_id)
              × ((rocks.get key_next_obj m'.db).0
                  ≡ newest key_next_obj (rocks.get key_next_obj m.db).0 batch))
            (commit rocks sync batch m)
    unfolding commit
    commit-Success sync batch m = elim (Bool-cases (rocks.write sync batch m.db).0) [
      | inl stored ↦ rw stored (succeeds (refl, laws.get-write sync key_next_obj batch m.db stored))
      | inr refused ↦ rw refused (fails tt)
    ]

    -- What is stored is read, and stored again.
    read_counters-Success :
        (m : Meta D)
        → Success
            (λ u m'.
              (counter_or_one 8 (rocks.get key_next_obj m.db).0 ≡ done m'.next_object_id)
              × ((rocks.get key_next_obj m'.db).0 ≡ found (pod_to_string 8 m'.next_object_id)))
            (read_counters rocks m)
    unfolding read_counters lookup_value persist_counters
    read_counters-Success m =
        let object : Got = (rocks.get key_next_obj m.db).0 in
        Post-chain _ _
          (answered (counter_or_one 8 object) (record m { db = (rocks.get key_next_obj m.db).1 }))
          (λ n m1 (read, same1).
            let counted : Meta D = record m1 { next_object_id = n } in
            let chunk : Got = (rocks.get key_next_chunk m1.db).0 in
            Post-chain _ _
              (answered (counter_or_one 4 chunk)
                (record counted { db = (rocks.get key_next_chunk m1.db).1 }))
              (λ c m2 (read_chunk, same2).
                let next : m2.next_object_id ≡ n = ap (λ (k : Meta D). k.next_object_id) same2 in
                Post-weaken
                  (λ u m3 (kept, stored). (
                    read ∙ ap done (sym (kept ∙ next)),
                    stored ∙ ap (λ k. found (pod_to_string 8 k)) (sym kept),
                  ))
                  _
                  (commit-Success true
                    ((key_next_obj, pod_to_string 8 m2.next_object_id)
                      ∷ (key_next_chunk, pod_to_string 4 c)
                      ∷ [])
                    (record m2 { next_chunk_id = c }))))

    read_counters-Stored : (m m' : Meta D) → read_counters rocks m ≡ (done tt, m') → Stored m'
    read_counters-Stored m m' e =
        let (read, stored) = after_success _ _ tt m' (read_counters-Success m) e in
        (counter_or_one-small _ m'.next_object_id read, stored)

    allocate_object_id-Success :
        (m : Meta D)
        → m.next_object_id + 1 < u64_mod
        → Success
            (λ oid m'.
              (oid ≡ m.next_object_id)
              × (m'.next_object_id ≡ m.next_object_id + 1)
              × ((rocks.get key_next_obj m'.db).0 ≡ found (pod_to_string 8 (m.next_object_id + 1))))
            (allocate_object_id rocks m)
    unfolding allocate_object_id
    allocate_object_id-Success m room =
        let next = add64 m.next_object_id 1 in
        let e : next ≡ m.next_object_id + 1 = omega arith in
        Post-chain _ _
          (put_value-Success true key_next_obj (pod_to_string 8 next)
            (record m { next_object_id = next }))
          (λ u m1 (kept, stored).
            succeeds (refl, kept ∙ e, stored key_next_obj ∙ ap (λ k. found (pod_to_string 8 k)) e))

    -- The two counters have different keys.
    allocate_chunk_id-Success :
        (m : Meta D)
        → Success
            (λ cid m'.
              (m'.next_object_id ≡ m.next_object_id)
              × ((rocks.get key_next_obj m'.db).0 ≡ (rocks.get key_next_obj m.db).0))
            (allocate_chunk_id rocks m)
    unfolding allocate_chunk_id
    allocate_chunk_id-Success m =
        let next = u32 (m.next_chunk_id + 1) in
        Post-chain _ _
          (put_value-Success true key_next_chunk (pod_to_string 4 next)
            (record m { next_chunk_id = next }))
          (λ u m1 (kept, stored). succeeds (kept, stored key_next_obj))

    kept-Counted :
        (m m' : Meta D) (ids : List ℕ)
        → m'.next_object_id ≡ m.next_object_id
        → (rocks.get key_next_obj m'.db).0 ≡ (rocks.get key_next_obj m.db).0
        → Counted (m, ids)
        → Counted (m', ids)
    kept-Counted m m' ids kept entry ((small, stored), ascending) = (
      (rw kept small, entry ∙ stored ∙ ap (λ k. found (pod_to_string 8 k)) (sym kept)),
      rw kept ascending,
    )

    restart-Counted :
        (m m0 m' : Meta D) (ids : List ℕ)
        → m0.db ≡ m.db
        → read_counters rocks m0 ≡ (done tt, m')
        → Counted (m, ids)
        → Counted (m', ids)
    restart-Counted m m0 m' ids db e ((small, stored), ascending) =
        let (read, stored') = after_success _ _ tt m' (read_counters-Success m0) e in
        let entry : (rocks.get key_next_obj m0.db).0 ≡ found (pod_to_string 8 m.next_object_id) =
          ap (λ d. (rocks.get key_next_obj d).0) db ∙ stored in
        let decoded = counter_or_one-pod_to_string 8 m.next_object_id (omega (arith, small)) in
        let next : done m'.next_object_id ≡ done m.next_object_id =
          sym read ∙ ap (counter_or_one 8) entry ∙ decoded in
        let kept : m'.next_object_id ≡ m.next_object_id = cc in
        ((rw kept small, stored'), rw kept ascending)

    Step-Counted : {s t : Meta D × List ℕ} → Step s t → Counted s → Counted t
    unfolding lookup_value
    Step-Counted (object_allocated {m} {m'} {ids} oid e room) ((small, stored), ascending) =
        let (handed, next, entry) =
          after_success _ _ oid m' (allocate_object_id-Success m room) e in
        (
          (rw next room, entry ∙ ap (λ k. found (pod_to_string 8 k)) (sym next)),
          (omega (arith, handed, next), rw handed ascending),
        )
    Step-Counted (chunk_allocated {m} {m'} {ids} cid e) c =
        let (kept, entry) = after_success _ _ cid m' (allocate_chunk_id-Success m) e in
        kept-Counted m m' ids kept entry c
    Step-Counted (committed {m} {m'} {ids} sync batch free e) c =
        let (kept, entry) = after_success _ _ tt m' (commit-Success sync batch m) e in
        kept-Counted m m' ids kept
          (entry ∙ newest-has_key key_next_obj (rocks.get key_next_obj m.db).0 batch free) c
    Step-Counted (looked_up {m} {ids} key) ((small, stored), ascending) =
        ((small, laws.get-get key_next_obj key m.db ∙ stored), ascending)
    Step-Counted (restarted {m} {m'} {ids} object chunk e) c =
        restart-Counted m (record { db = m.db; next_object_id = object; next_chunk_id = chunk }) m'
          ids refl e c

    Steps-Counted : {s t : Meta D × List ℕ} → Steps s t → Counted s → Counted t
    Steps-Counted none_yet c = c
    Steps-Counted (then_one steps step) c = Step-Counted step (Steps-Counted steps c)

    -- Where the store of keys and values keeps what it stored: after a successful reading of the
    -- counters, and over any sequence of calls that go well, of identifiers handed out below 2^64 - 1,
    -- chunk identifiers, batches without an entry of the object counter, lookups, and restarts that
    -- read the counters with whatever is in memory by then, each object identifier is above all that
    -- were handed out before it, and all are below the counter, which is stored.
    pub Steps-Ascending :
        (m0 m : Meta D) (t : Meta D × List ℕ)
        → read_counters rocks m0 ≡ (done tt, m)
        → Steps (m, []) t
        → Ascending t.0.next_object_id t.1
          × ((rocks.get key_next_obj t.0.db).0 ≡ found (pod_to_string 8 t.0.next_object_id))
    Steps-Ascending m0 m t e steps =
        let (stored, ascending) = Steps-Counted steps (read_counters-Stored m0 m e, tt) in
        (ascending, stored.1)
