-- ===== src/Format/DirEntry.antt =====
-- The fields of a `struct nebula_dir_entry` at address `base` of its block.
use mini_fs.Base.{ℕ}
use mini_fs.Format.Bytes.{Field, field_at}
use mini_fs.Format.Structs.{dir_entry_struct}

abbrev pub hash : ℕ → Field
hash base = field_at base dir_entry_struct 0

abbrev pub inode_num : ℕ → Field
inode_num base = field_at base dir_entry_struct 1

abbrev pub name_len : ℕ → Field
name_len base = field_at base dir_entry_struct 2

abbrev pub flags : ℕ → Field
flags base = field_at base dir_entry_struct 3

abbrev pub name : ℕ → Field
name base = field_at base dir_entry_struct 5
