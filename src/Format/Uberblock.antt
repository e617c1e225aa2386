-- ===== src/Format/Uberblock.antt =====
-- The fields of `struct nebula_uberblock`.
use mini_fs.Format.Bytes.{Field, field}
use mini_fs.Format.Structs.{uberblock_struct}

abbrev pub magic : Field
magic = field uberblock_struct 0

abbrev pub txg_id : Field
txg_id = field uberblock_struct 1

abbrev pub timestamp_ns : Field
timestamp_ns = field uberblock_struct 2

abbrev pub bitmap_root_lba : Field
bitmap_root_lba = field uberblock_struct 3

abbrev pub stream_map_lba : Field
stream_map_lba = field uberblock_struct 4

abbrev pub stream_map_head_offset : Field
stream_map_head_offset = field uberblock_struct 5

abbrev pub alloc_roots_count : Field
alloc_roots_count = field uberblock_struct 6

abbrev pub checksum : Field
checksum = field uberblock_struct 7
