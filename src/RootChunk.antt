-- ===== src/RootChunk.antt =====
-- src/nebula/nebula_root_sub_alloc.c: 32 KiB directory slots in a 128 MiB chunk of the root inode,
-- tracked by a bitmap of 4 KiB sub-blocks, eight to a slot. Its bit helpers are those of `Bits`.
pub mod Slots
pub mod Claims
pub mod Counts
