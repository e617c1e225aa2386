-- ===== src/Format.antt =====
-- include/nebula/nebula_format.h: the packed on-disk structures. A structure is its bytes: a
-- block is read as a structure by loading the little-endian numbers of its fields.
pub mod Bytes
pub mod Fields
pub mod Structs
pub mod Mbr
pub mod Superblock
pub mod Uberblock
pub mod AllocRoot
pub mod Inode
pub mod Extent
pub mod DirHeader
pub mod DirEntry
pub mod Crc
pub mod Consts
