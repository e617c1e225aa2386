-- ===== src/Format/AllocRoot.antt =====
-- The fields of a `struct nebula_allocator_root` at address `base` of its block.
use mini_fs.Base.{ℕ}
use mini_fs.Format.Bytes.{Field, field_at}
use mini_fs.Format.Structs.{allocator_root_struct}

abbrev pub root_id : ℕ → Field
root_id base = field_at base allocator_root_struct 0

abbrev pub range_start_block : ℕ → Field
range_start_block base = field_at base allocator_root_struct 2

abbrev pub range_end_block : ℕ → Field
range_end_block base = field_at base allocator_root_struct 3

abbrev pub free_block_count : ℕ → Field
free_block_count base = field_at base allocator_root_struct 4

abbrev pub last_alloc_hint : ℕ → Field
last_alloc_hint base = field_at base allocator_root_struct 5

abbrev pub bitmap_region_lba : ℕ → Field
bitmap_region_lba base = field_at base allocator_root_struct 6

abbrev pub stream_map_region_lba : ℕ → Field
stream_map_region_lba base = field_at base allocator_root_struct 7

abbrev pub checksum : ℕ → Field
checksum base = field_at base allocator_root_struct 8
