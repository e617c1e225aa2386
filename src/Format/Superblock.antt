-- ===== src/Format/Superblock.antt =====
-- The fields of `struct nebula_superblock`.
use mini_fs.Format.Bytes.{Field, field}
use mini_fs.Format.Structs.{superblock_struct}

abbrev pub magic : Field
magic = field superblock_struct 0

abbrev pub version_major : Field
version_major = field superblock_struct 1

abbrev pub version_minor : Field
version_minor = field superblock_struct 2

abbrev pub inode_size : Field
inode_size = field superblock_struct 3

abbrev pub device_uuid : Field
device_uuid = field superblock_struct 4

abbrev pub device_capacity_blocks : Field
device_capacity_blocks = field superblock_struct 5

abbrev pub uberblock_lba : Field
uberblock_lba = field superblock_struct 6

abbrev pub uberblock_count : Field
uberblock_count = field superblock_struct 7

abbrev pub alloc_roots_head_lba : Field
alloc_roots_head_lba = field superblock_struct 9

abbrev pub alloc_roots_tail_lba : Field
alloc_roots_tail_lba = field superblock_struct 10

abbrev pub bitmap_lba : Field
bitmap_lba = field superblock_struct 11

abbrev pub bitmap_block_count : Field
bitmap_block_count = field superblock_struct 12

abbrev pub stream_map_lba : Field
stream_map_lba = field superblock_struct 13

abbrev pub stream_map_block_count : Field
stream_map_block_count = field superblock_struct 14

abbrev pub inode_page_lba : Field
inode_page_lba = field superblock_struct 15

abbrev pub inode_page_block_count : Field
inode_page_block_count = field superblock_struct 16

abbrev pub dir_page_lba : Field
dir_page_lba = field superblock_struct 17

abbrev pub dir_page_block_count : Field
dir_page_block_count = field superblock_struct 18

abbrev pub data_start_lba : Field
data_start_lba = field superblock_struct 19

abbrev pub data_block_count : Field
data_block_count = field superblock_struct 20

abbrev pub sb_tail_lba : Field
sb_tail_lba = field superblock_struct 21

abbrev pub checksum : Field
checksum = field superblock_struct 22
