-- ===== src/Format/Consts.antt =====
-- The constants of nebula_types.h and nebula_format.h.
use mini_fs.Base.{ℕ, ◌*◌, ◌/◌}

abbrev pub block_size : ℕ
block_size = 4096

abbrev pub magic_mbr : ℕ
magic_mbr = 0x0000_414c_5542_454e

abbrev pub magic_sb : ℕ
magic_sb = 0x4E45_4255_5342_0001

abbrev pub magic_ub : ℕ
magic_ub = 0x4E45_4255_5542_424C

abbrev pub magic_inode : ℕ
magic_inode = 0x4E45_4944_4E4F_4445

abbrev pub magic_dir_page : ℕ
magic_dir_page = 0x4E45_4449_5250_4147

abbrev pub uberblock_slots : ℕ
uberblock_slots = 128

abbrev pub alloc_roots_total : ℕ
alloc_roots_total = 128

abbrev pub alloc_roots_head : ℕ
alloc_roots_head = 64

abbrev pub alloc_roots_tail : ℕ
alloc_roots_tail = 64

abbrev pub bits_per_page : ℕ
bits_per_page = block_size * 8

abbrev pub pages_per_group : ℕ
pages_per_group = 64

abbrev pub min_device_blocks : ℕ
min_device_blocks = 256 * 1024 * 1024 / block_size

abbrev pub extents_per_inode : ℕ
extents_per_inode = 248

abbrev pub type_free : ℕ
type_free = 0

abbrev pub type_file : ℕ
type_file = 1

abbrev pub type_dir : ℕ
type_dir = 2

abbrev pub dir_entry_size : ℕ
dir_entry_size = 1024

abbrev pub dir_name_max : ℕ
dir_name_max = 1000

abbrev pub dir_entries_per_block : ℕ
dir_entries_per_block = 4

abbrev pub flag_used : ℕ
flag_used = 1

abbrev pub flag_file : ℕ
flag_file = 2

abbrev pub flag_dir : ℕ
flag_dir = 4
