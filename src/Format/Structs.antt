-- ===== src/Format/Structs.antt =====
-- The structures of nebula_format.h by the widths of their fields, in order; `field s i` is the
-- place of field `i`. The fields carry the names that the code uses.
use mini_fs.Base.{ℕ, ◌*◌, ◌-◌, List, [], ◌∷◌}

-- `struct nebula_mbr`
abbrev pub mbr_struct : List ℕ
mbr_struct = 8 ∷ 2 ∷ 2 ∷ 4 ∷ 16 ∷ 8 ∷ 8 ∷ 4 ∷ (4096 - 52) ∷ []

-- `struct nebula_superblock`
abbrev pub superblock_struct : List ℕ
superblock_struct =
    8
    ∷ 2
    ∷ 2
    ∷ 4
    ∷ 16
    ∷ 8
    ∷ 8
    ∷ 4
    ∷ 4
    ∷ 8
    ∷ 8
    ∷ 8
    ∷ 8
    ∷ 8
    ∷ 8
    ∷ 8
    ∷ 8
    ∷ 8
    ∷ 8
    ∷ 8
    ∷ 8
    ∷ 8
    ∷ 4
    ∷ 4
    ∷ (4096 - 168)
    ∷ []

-- `struct nebula_uberblock`
abbrev pub uberblock_struct : List ℕ
uberblock_struct = 8 ∷ 8 ∷ 8 ∷ 8 ∷ 8 ∷ 8 ∷ 4 ∷ 4 ∷ (4096 - 56) ∷ []

-- `struct nebula_allocator_root`
abbrev pub allocator_root_struct : List ℕ
allocator_root_struct = 4 ∷ 4 ∷ 8 ∷ 8 ∷ 8 ∷ 8 ∷ 8 ∷ 8 ∷ 4 ∷ (64 - 60) ∷ []

-- `struct nebula_extent_map_entry`
abbrev pub extent_struct : List ℕ
extent_struct = 8 ∷ 4 ∷ 4 ∷ []

-- `struct nebula_inode`, its 248 extents as one field
abbrev pub inode_struct : List ℕ
inode_struct = 4 ∷ 4 ∷ 8 ∷ 4 ∷ 4 ∷ 8 ∷ 8 ∷ 8 ∷ 8 ∷ 8 ∷ 4 ∷ 4 ∷ 4 ∷ (128 - 76) ∷ (248 * 16) ∷ []

-- `struct nebula_dir_page_header`
abbrev pub dir_page_header_struct : List ℕ
dir_page_header_struct = 8 ∷ 4 ∷ 4 ∷ 8 ∷ 8 ∷ 4 ∷ (4096 - 36) ∷ []

-- `struct nebula_dir_entry`
abbrev pub dir_entry_struct : List ℕ
dir_entry_struct = 8 ∷ 8 ∷ 2 ∷ 2 ∷ 4 ∷ 1000 ∷ []
