-- ===== src/RootChunk/Slots.antt =====
-- The operations of the slot allocator.
use mini_fs.Base.{
  ℕ, zero, suc, ◌+◌, ◌-◌, ◌*◌, Bool, true, not, ◌&&◌, ◌||◌, Option, none, some, leb, ◌==◌,
  if◌then◌else◌, Result, ok, err, einval, enospc,
}
use mini_fs.Format.Bytes.{Bytes, zeros}
use mini_fs.Bits.{bit_get, set_run, clr_run, all_set}

abbrev pub slot_subblocks : ℕ
slot_subblocks = 8

abbrev pub slots_per_chunk : ℕ
slots_per_chunk = 4096

abbrev pub slot_base_subblock : ℕ → ℕ
slot_base_subblock slot = slot * slot_subblocks

unfoldable pub chunk_bitmap_init : Bytes
chunk_bitmap_init = set_run slot_subblocks 0 zeros

-- The loop over the bits of a slot with its `break`: no bit is set.
unfoldable pub none_set : Bytes → ℕ → ℕ → Bool
none_set bm zero s = true
none_set bm (suc n) s = not (bit_get bm s) && none_set bm n (suc s)

unfoldable pub slot_is_free : Bytes → ℕ → Bool
unfolding none_set
slot_is_free bm slot = none_set bm slot_subblocks (slot_base_subblock slot)

-- `rounds` slots are left from `slot` on.
unfoldable pub find_slot : Bytes → ℕ → ℕ → Option ℕ
unfolding slot_is_free
find_slot bm zero slot = none
find_slot bm (suc rounds) slot =
    let rest = find_slot bm rounds (slot + 1) in if slot_is_free bm slot then some slot else rest

unfoldable pub take_slot : Bytes → Option ℕ → Result ℕ × Bytes
take_slot bm none = (err enospc, bm)
take_slot bm (some slot) = (ok slot, set_run slot_subblocks (slot_base_subblock slot) bm)

unfoldable pub chunk_alloc_dir : Bytes → Result ℕ × Bytes
unfolding find_slot take_slot
chunk_alloc_dir bm = take_slot bm (find_slot bm (slots_per_chunk - 1) 1)

unfoldable pub chunk_free_dir : Bytes → ℕ → Result (Unit {0}) × Bytes
chunk_free_dir bm slot =
    if slot == 0 || leb slots_per_chunk slot
    then (err einval, bm)
    else if all_set bm slot_subblocks (slot_base_subblock slot)
    then (ok tt, clr_run slot_subblocks (slot_base_subblock slot) bm)
    else (err einval, bm)

unfoldable pub count_slots : Bytes → ℕ → ℕ → ℕ
unfolding slot_is_free
count_slots bm zero slot = 0
count_slots bm (suc rounds) slot =
    (if slot_is_free bm slot then 1 else 0) + count_slots bm rounds (slot + 1)

unfoldable pub chunk_free_slots : Bytes → ℕ
unfolding count_slots
chunk_free_slots bm = count_slots bm (slots_per_chunk - 1) 1
