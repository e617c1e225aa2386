-- ===== src/Dirs/Scan.antt =====
-- The scans of the directory: for a name, and for a free slot beside it.
use mini_fs.Base.{
  ℕ, zero, suc, ◌+◌, not, ◌&&◌, Option, none, some, if◌then◌else◌, Cmd, pure, throw, ◌>>=◌, eexist,
}
use mini_fs.State.{Mount}
use mini_fs.Dirs.Entry.{Name, Cache, slot_base, entry_used, entry_matches, fetch_slot}

-- The slot with the name and the block that it lies in; `none` at the end of the directory.
unfoldable pub find_name :
    (hash : ℕ) → Name → (rounds s : ℕ) → Cache → Cmd Mount (Option (ℕ × Cache))
unfolding fetch_slot entry_used entry_matches
find_name hash name zero s cache = pure none
find_name hash name (suc rounds) s cache = do
  cache' ← fetch_slot s cache
  let rest = find_name hash name rounds (s + 1) cache'
  if entry_used cache'.1 (slot_base s) && entry_matches cache'.1 (slot_base s) hash name
      then pure (some (s, cache'))
      else rest

-- `free_slot`, once set, stays.
abbrev pub first_free : Option ℕ → ℕ → Option ℕ
first_free none s = some s
first_free (some t) s = some t

-- The scan of `nebula_dir_add`: the first free slot, or EEXIST at the name.
unfoldable pub find_free :
    (hash : ℕ) → Name → (rounds s : ℕ) → Option ℕ → Cache → Cmd Mount (Option ℕ × Cache)
unfolding fetch_slot entry_used entry_matches
find_free hash name zero s free cache = pure (free, cache)
find_free hash name (suc rounds) s free cache = do
  cache' ← fetch_slot s cache
  let after_free = find_free hash name rounds (s + 1) (first_free free s) cache'
  let after_used = find_free hash name rounds (s + 1) free cache'
  if not (entry_used cache'.1 (slot_base s))
      then after_free
      else if entry_matches cache'.1 (slot_base s) hash name
      then throw eexist
      else after_used
