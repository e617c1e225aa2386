-- ===== src/ObjStore/Db.antt =====
-- The sorted store of keys and values that the metadata lives in: RocksDB, a library outside the
-- repository, and so a parameter.
use mini_fs.Base.{Bool, List}
use mini_fs.ObjStore.Codec.{Str}

-- What `Get` answers: the value, `IsNotFound()`, or another error.
pub data Got : Type 0 where
  found : Str → Got
  missing : Got
  broken : Got

-- `write` is a `WriteBatch`, which is applied as a whole; its Boolean is `ok()`. An iterator is the
-- list of the entries from its position on: `seek` for the first key not below the one given,
-- `seek_for_prev` for the last key not above it. `iterated` is the status at the iterator's end.
pub record Db (D : Type 0) : Type 0 where
  pub get : Str → D → Got × D
  pub put : (sync : Bool) → Str → Str → D → Bool × D
  pub write : (sync : Bool) → List (Str × Str) → D → Bool × D
  pub seek : Str → D → List (Str × Str)
  pub seek_for_prev : Str → D → List (Str × Str)
  pub iterated : D → Bool
