-- ===== src/Inodes.antt =====
-- src/nebula/nebula_inode_alloc.c: the inode table, one inode in each block of its region.
pub mod Table
