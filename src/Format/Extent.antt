-- ===== src/Format/Extent.antt =====
-- The fields of a `struct nebula_extent_map_entry` at address `base` of its inode.
use mini_fs.Base.{ℕ}
use mini_fs.Format.Bytes.{Field, field_at}
use mini_fs.Format.Structs.{extent_struct}

abbrev pub em_offset : ℕ → Field
em_offset base = field_at base extent_struct 0

abbrev pub em_size_and_flags : ℕ → Field
em_size_and_flags base = field_at base extent_struct 1

abbrev pub em_lba : ℕ → Field
em_lba base = field_at base extent_struct 2
