-- ===== src/Meta.antt =====
-- The metadata blocks that mkfs writes and mount reads: MBR, superblocks, uberblocks, allocator
-- roots, and the first contents of the bitmap, inode and directory regions.
pub mod Checked
pub mod Mbr
pub mod Superblock
pub mod Uberblock
pub mod AllocRoots
pub mod RootRanges
pub mod Regions
pub mod Zeroing
pub mod Keeps
pub mod Leaves
pub mod Works
pub mod Agreeing
pub mod SuperblockLaws
