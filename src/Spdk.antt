-- ===== src/Spdk.antt =====
-- The SPDK backend of src/io/nebula_io_spdk.c and nebula_spdk_nvme.c.
pub mod Nvme
pub mod Backend
pub mod NvmeLaws
pub mod BackendLaws
pub mod Promise
pub mod Open
pub mod ChoiceLaws
pub mod OpenLaws
