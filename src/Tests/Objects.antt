-- ===== src/Tests/Objects.antt =====
-- An object store on a small device, and the instances of its theorems.
use mini_fs.Base.{◌≡◌, refl, true, false, none, some, List, [], ◌∷◌, arith, ltb, ◌==◌}
use mini_fs.Format.Bytes.{zeros}
use mini_fs.Io.Loops.{IsDevice}
use mini_fs.State.{Mount}
use mini_fs.Tests.Alloc.{small_mount}
use mini_fs.ObjStore.Codec.{Str, pod_to_string, string_to_pod}
use mini_fs.ObjStore.Records.{ExtentEntry, Chunk}
use mini_fs.ObjStore.Keys.{key_path, key_next_obj, key_extent, key_extent_prefix, is_extent_key}
use mini_fs.ObjStore.Metadata.{Meta, put_path, commit, allocate_object_id, read_counters}
use mini_fs.ObjStore.Chunks.{Store, reservation, reserve}
use mini_fs.ObjStore.Append.{Appended, create}
use mini_fs.ObjStore.Reader.{Reading, read_extent}
use mini_fs.ObjStore.ObjectPath.{validate_object_path}
use mini_fs.ObjStore.PathLaws.{is_object_path, validate_object_path-is_object_path}
use mini_fs.ObjStore.KeyOrder.{lex_lt, lex_lt-key_extent, is_extent_key-key_extent}
use mini_fs.ObjStore.ChunkLaws.{IsChunk, Reserves, reservation-Reserves}
use mini_fs.ObjStore.ReserveLaws.{Reserved, reserve-Reserved}
use mini_fs.ObjStore.DbLaws.{Success}
use mini_fs.ObjStore.Db.{found}
use mini_fs.ObjStore.Status.{done}
use mini_fs.ObjStore.Counters.{
  Ascending, Step, Steps, none_yet, then_one, object_allocated, committed, restarted,
  Steps-Ascending,
}
use mini_fs.ObjStore.CreateLaws.{Created, create-Created}
use mini_fs.ObjStore.Transfer.{Partly}
use mini_fs.ObjStore.ReadLaws.{requested, read_extent-Partly}
use mini_fs.Tests.KeyValues.{journal, journal-DbLaws}

-- "/a/b/c/d"
abbrev path : Str
path = 47 ∷ 97 ∷ 47 ∷ 98 ∷ 47 ∷ 99 ∷ 47 ∷ 100 ∷ []

-- The last name is empty.
abbrev short_path : Str
short_path = 47 ∷ 97 ∷ 47 ∷ 98 ∷ 47 ∷ 99 ∷ 47 ∷ []

path_is_valid : validate_object_path path ≡ true
unfolding validate_object_path
path_is_valid = refl

short_path_is_not : validate_object_path short_path ≡ false
unfolding validate_object_path
short_path_is_not = refl

validate_object_path-is_object_path_example : validate_object_path path ≡ is_object_path path
validate_object_path-is_object_path_example = validate_object_path-is_object_path path

abbrev extent : ExtentEntry
extent = record {
  chunk_id = 1;
  chunk_idx = 1;
  reserved = 0;
  offset_in_chunk = 4096;
  length = 5000;
  checksum = 0;
}

-- Two blocks of the chunk are given out, for two reservations.
abbrev chunk : Chunk
chunk = record { chunk_id = 1; lba_start = 3; write_offset = 8192; next_idx = 2; sealed = false }

lex_lt-key_extent_example : lex_lt (key_extent 7 300) (key_extent 7 5000) ≡ ltb 300 5000
lex_lt-key_extent_example = lex_lt-key_extent 7 300 5000 (omega arith) (omega arith)

is_extent_key-key_extent_example :
    is_extent_key (key_extent_prefix 7) (key_extent 8 5000) ≡ (7 == 8)
is_extent_key-key_extent_example = is_extent_key-key_extent 7 8 5000 (omega arith) (omega arith)

chunk-IsChunk : IsChunk chunk
chunk-IsChunk = record { whole_blocks = refl; inside = omega arith; indices = omega arith }

reservation-Reserves_example :
    Reserves 5000 chunk (reservation 5000 chunk).0 (reservation 5000 chunk).1
reservation-Reserves_example =
    reservation-Reserves 5000 chunk chunk-IsChunk (omega arith) (omega arith)

abbrev mount : Mount
mount = record small_mount {
  io = record { capacity_blocks = 70; disk = λ j. j; syscalls = []; allocs = []; clock = 9 ∷ [] };
}

abbrev store : Store (List (Str × Str))
store = record {
  mount = mount;
  meta = record { db = []; next_object_id = 7; next_chunk_id = 2 };
  active = some chunk;
}

reserve-Reserved_example : Reserved 5000 store (reserve journal 5000 store)
reserve-Reserved_example = reserve-Reserved journal 5000 store (omega arith) chunk-IsChunk

abbrev nothing_yet : Appended
nothing_yet = record { batch = []; logical = 100; cursor = 0; added_extents = 0 }

-- The states of a run: a start on an empty store, an identifier, a batch for it, a restart with
-- other counters in memory, and a second identifier.
abbrev Entries : Type 0
Entries = List (Str × Str)

abbrev empty : Meta Entries
empty = record { db = []; next_object_id = 50; next_chunk_id = 60 }

abbrev started : Meta Entries
started = (read_counters journal empty).1

abbrev first_taken : Meta Entries
first_taken = (allocate_object_id journal started).1

abbrev batch : Entries
batch = put_path path 1 []

abbrev first_committed : Meta Entries
first_committed = (commit journal true batch first_taken).1

abbrev again : Meta Entries
again =
    (read_counters journal
      (record { db = first_committed.db; next_object_id = 1; next_chunk_id = 0 })).1

abbrev second_taken : Meta Entries
second_taken = (allocate_object_id journal again).1

started_well : read_counters journal empty ≡ (done tt, started)
unfolding read_counters commit
started_well = refl

first_step : Step journal (started, []) (first_taken, 1 ∷ [])
unfolding read_counters allocate_object_id commit
first_step = object_allocated {m = started} {m' = first_taken} 1 refl (omega arith)

batch_step : Step journal (first_taken, 1 ∷ []) (first_committed, 1 ∷ [])
unfolding commit put_path key_path
batch_step = committed {m = first_taken} {m' = first_committed} true batch refl refl

restart_step : Step journal (first_committed, 1 ∷ []) (again, 1 ∷ [])
unfolding read_counters allocate_object_id put_path key_path string_to_pod pod_to_string
restart_step = restarted {m = first_committed} {m' = again} 1 0 refl

second_step : Step journal (again, 1 ∷ []) (second_taken, 2 ∷ 1 ∷ [])
unfolding read_counters allocate_object_id commit put_path key_path string_to_pod pod_to_string
second_step = object_allocated {m = again} {m' = second_taken} 2 refl (omega arith)

two_objects : Steps journal (started, []) (second_taken, 2 ∷ 1 ∷ [])
two_objects =
    then_one (then_one (then_one (then_one none_yet first_step) batch_step) restart_step)
      second_step

Steps-Ascending_example :
    Ascending second_taken.next_object_id (2 ∷ 1 ∷ [])
    × ((journal.get key_next_obj second_taken.db).0
        ≡ found (pod_to_string 8 second_taken.next_object_id))
Steps-Ascending_example =
    Steps-Ascending journal journal-DbLaws empty started (second_taken, 2 ∷ 1 ∷ []) started_well
      two_objects

create-Created_example :
    Success (λ u s'. Created journal path 7 s') (create journal true path store)
create-Created_example =
    create-Created journal journal-DbLaws true path store (omega arith) (omega arith)

-- A read of 6000 bytes from offset 100 on, of which 1000 are there, and an extent that begins at
-- offset 1000.
abbrev reading : Reading (List (Str × Str))
reading = record {
  store = store;
  dst = zeros;
  remaining = 5000;
  cursor_offset = 1100;
  visit_status = none;
  chunk_cache = λ k. none;
  phys_byte_off = 0;
  to_copy = 0;
}

reading-IsDevice : IsDevice reading.store.mount.io
reading-IsDevice = omega arith

read_extent-Partly_example :
    Success
      (λ u rd'.
        Partly (requested 6000 1000 extent chunk reading) chunk 6000 rd' × (rd'.to_copy ≡ 0))
      (read_extent 6000 1000 extent chunk reading)
read_extent-Partly_example =
    read_extent-Partly 6000 1000 extent chunk reading reading-IsDevice (omega arith) (omega arith)
      (omega arith)
