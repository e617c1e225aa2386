-- ===== src/Dirs.antt =====
-- src/nebula/nebula_dir.c: the flat directory, an array of 1024-byte entries scanned in order.
pub mod Entry
pub mod Scan
pub mod Ops
