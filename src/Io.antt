-- ===== src/Io.antt =====
-- src/io/nebula_io_posix.c and the resources that the library takes from the system.
pub mod Raw
pub mod Posix
pub mod Loops
pub mod Laws
pub mod Open
pub mod OpenLaws
pub mod RoundTrip
pub mod Contract
