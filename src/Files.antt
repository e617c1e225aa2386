-- ===== src/Files.antt =====
-- src/nebula/nebula_file.c: files as inline extents of whole blocks.
pub mod Extents
pub mod Slots
pub mod ExtentLaws
pub mod Handle
pub mod Write
pub mod ReadDelete
pub mod Fuel
