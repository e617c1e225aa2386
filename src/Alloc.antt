-- ===== src/Alloc.antt =====
-- src/nebula/nebula_block_alloc.c: first-fit allocation of runs of blocks over the bitmap.
pub mod Scan
pub mod Sums
pub mod Summary
pub mod Shares
pub mod Count
pub mod Valid
pub mod Laws
pub mod Claims
pub mod Release
pub mod Block
pub mod Held
pub mod Ownership
