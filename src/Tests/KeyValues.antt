-- ===== src/Tests/KeyValues.antt =====
-- A store of keys and values by which the object store's theorems are run: the list of what was
-- stored, in its order.
use mini_fs.Base.{◌≡◌, refl, true, List, [], ◌∷◌, ◌++◌, ◌==◌, if◌then◌else◌, length}
use mini_fs.ObjStore.Codec.{Str}
use mini_fs.ObjStore.KeyOrder.{lex_lt}
use mini_fs.ObjStore.Db.{Got, missing, Db}
use mini_fs.ObjStore.DbLaws.{DbLaws, newest}

abbrev Stored : Type 0
Stored = List (Str × Str)

newest-append :
    (key : Str) (s t : Stored) (old : Got)
    → newest key old (s ++ t) ≡ newest key (newest key old s) t
newest-append key [] t old = refl
newest-append key (e ∷ s) t old = newest-append key s t _

-- The entries in the order of their keys, the last one stored for each key.
unfoldable pub insert : Str × Str → Stored → Stored
insert e [] = e ∷ []
insert (k, v) ((k', v') ∷ rest) =
    let further = insert (k, v) rest in
    if lex_lt k k'
    then (k, v) ∷ (k', v') ∷ rest
    else if lex_lt k' k
    then (k', v') ∷ further
    else (k, v) ∷ rest

unfoldable pub sorted_onto : Stored → Stored → Stored
unfolding insert
sorted_onto acc [] = acc
sorted_onto acc (e ∷ rest) = sorted_onto (insert e acc) rest

unfoldable pub from_key : Str → Stored → Stored
from_key key [] = []
from_key key ((k, v) ∷ rest) =
    let further = from_key key rest in if lex_lt k key then further else (k, v) ∷ rest

unfoldable pub from_key_before : Str → Stored → Stored
from_key_before key [] = []
from_key_before key ((k, v) ∷ rest) =
    let further = from_key_before key rest in
    if lex_lt key k then [] else if length further == 0 then (k, v) ∷ rest else further

abbrev pub journal : Db Stored
journal = record {
  get = λ k d. (newest k missing d, d);
  put = λ sync k v d. (true, d ++ ((k, v) ∷ []));
  write = λ sync batch d. (true, d ++ batch);
  seek = λ k d. from_key k (sorted_onto [] d);
  seek_for_prev = λ k d. from_key_before k (sorted_onto [] d);
  iterated = λ d. true;
}

pub journal-DbLaws : DbLaws journal
journal-DbLaws = record {
  get-get = λ k k' d. refl;
  get-put = λ sync k k' v d e. newest-append k d ((k', v) ∷ []) missing;
  get-write = λ sync k batch d e. newest-append k d batch missing;
}
