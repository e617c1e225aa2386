-- ===== src/Mounting.antt =====
-- src/nebula/nebula_hier_bitmap.c and nebula_mount.c: loading the bitmap, and the mount of a device.
pub mod Load
pub mod Summaries
pub mod Claims
pub mod Open
