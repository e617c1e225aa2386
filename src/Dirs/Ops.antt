-- ===== src/Dirs/Ops.antt =====
-- `nebula_dir_add`, `nebula_dir_lookup`, `nebula_dir_remove` and `nebula_dir_list`.
use mini_fs.Base.{
  ℕ, zero, suc, ◌+◌, min, true, false, not, Option, none, some, [], ◌∷◌, leb, ◌==◌, if◌then◌else◌,
  length, Result, ok, err, Cmd, pure, ◌>>=◌, ◌>>◌, enoent, einval, enospc, enametoolong,
}
use mini_fs.Format.Bytes.{Bytes, at, clear, load}
use mini_fs.Format.Consts.{dir_entry_size, dir_name_max}
use mini_fs.Format.DirEntry
use mini_fs.State.{Mount, on_io}
use mini_fs.Meta.Regions.{fnv1a_hash}
use mini_fs.Io.Raw.{alloc_buf}
use mini_fs.Io.Posix.{io_write}
use mini_fs.Dirs.Entry.{
  Name, Cache, no_block, slot_lba, slot_base, dir_capacity, entry_used, new_entry, fetch_slot,
  dir_header_update,
}
use mini_fs.Dirs.Scan.{find_name, find_free}

-- What follows the scan of `nebula_dir_add`.
unfoldable pub add_at : Name → (inode_num type_flag : ℕ) → Option ℕ × Cache → Cmd Mount (Unit {0})
unfolding fetch_slot on_io dir_header_update new_entry
add_at name inode_num type_flag (none, cache) m = (err enospc, m)
add_at name inode_num type_flag (some slot, cache) m =
    (do
      cache' ← fetch_slot slot cache
      on_io (
          io_write (slot_lba m slot) 1
            (new_entry (slot_base slot) (fnv1a_hash name) inode_num type_flag name cache'.1))
      dir_header_update true)
      m

unfoldable pub dir_add : Name → (inode_num type_flag : ℕ) → Cmd Mount (Unit {0})
unfolding add_at find_free on_io
dir_add name inode_num type_flag m =
    if length name == 0
    then (err einval, m)
    else if leb dir_name_max (length name)
    then (err enametoolong, m)
    else (do
      on_io alloc_buf
      found ← find_free (fnv1a_hash name) name (dir_capacity m) 0 none no_block
      add_at name inode_num type_flag found)
        m

unfoldable pub found_inode : Option (ℕ × Cache) → Result ℕ
found_inode none = err enoent
found_inode (some (slot, (lba, blk))) = ok (load (DirEntry.inode_num (slot_base slot)) blk)

unfoldable pub dir_lookup : Name → Cmd Mount ℕ
unfolding found_inode find_name on_io
dir_lookup name m =
    if leb dir_name_max (length name)
    then (err enametoolong, m)
    else (do
      on_io alloc_buf
      found ← find_name (fnv1a_hash name) name (dir_capacity m) 0 no_block
      λ m'. (found_inode found, m'))
        m

-- Clear the entry, write its block, and count one entry less.
unfoldable pub remove_at : Option (ℕ × Cache) → Cmd Mount (Unit {0})
unfolding on_io dir_header_update
remove_at none m = (err enoent, m)
remove_at (some (slot, (lba, blk))) m =
    (do on_io (io_write lba 1 (clear (slot_base slot) dir_entry_size blk)); dir_header_update false)
      m

unfoldable pub dir_remove : Name → Cmd Mount (Unit {0})
unfolding remove_at find_name on_io
dir_remove name m =
    if leb dir_name_max (length name)
    then (err enametoolong, m)
    else (do
      on_io alloc_buf
      found ← find_name (fnv1a_hash name) name (dir_capacity m) 0 no_block
      remove_at found)
        m

-- The bytes of a stored name up to its length or a NUL, as the callback reads them.
unfoldable pub get_name : Bytes → ℕ → ℕ → Name
get_name b p zero = []
get_name b p (suc n) = let rest = get_name b (p + 1) n in if at b p == 0 then [] else at b p ∷ rest

module _ {Ud : Type 0} (cb : Name → (inode_num flags : ℕ) → Ud → ℕ × Ud) where
  -- The callback's answer: zero goes on, any other value ends the listing and is returned.
  list_from : (rounds s : ℕ) → Cache → Ud → Cmd Mount (ℕ × Ud)
  unfolding fetch_slot entry_used get_name
  list_from zero s cache ud = pure (0, ud)
  list_from (suc rounds) s cache ud = do
    cache' ← fetch_slot s cache
    let blk = cache'.1
    let base = slot_base s
    let skip = list_from rounds (s + 1) cache' ud
    let name = get_name blk (base + 24) (min (load (DirEntry.name_len base) blk) dir_name_max)
    let answer = cb name (load (DirEntry.inode_num base) blk) (load (DirEntry.flags base) blk) ud
    let go_on = list_from rounds (s + 1) cache' answer.1
    if not (entry_used blk base) then skip else if answer.0 == 0 then go_on else pure answer

  unfoldable pub dir_list : Ud → Cmd Mount (ℕ × Ud)
  unfolding list_from on_io
  dir_list ud m = (do on_io alloc_buf; list_from (dir_capacity m) 0 no_block ud) m
