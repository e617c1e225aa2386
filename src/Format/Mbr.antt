-- ===== src/Format/Mbr.antt =====
-- The fields of `struct nebula_mbr`.
use mini_fs.Format.Bytes.{Field, field}
use mini_fs.Format.Structs.{mbr_struct}

abbrev pub magic : Field
magic = field mbr_struct 0

abbrev pub version_major : Field
version_major = field mbr_struct 1

abbrev pub version_minor : Field
version_minor = field mbr_struct 2

abbrev pub device_uuid : Field
device_uuid = field mbr_struct 4

abbrev pub device_capacity_blocks : Field
device_capacity_blocks = field mbr_struct 5

abbrev pub superblock_head_lba : Field
superblock_head_lba = field mbr_struct 6

abbrev pub checksum : Field
checksum = field mbr_struct 7
