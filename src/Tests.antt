-- ===== src/Tests.antt =====
-- Concrete runs of the model and the instances of its theorems.
pub mod Alloc
pub mod Regions
pub mod NewSystem
pub mod Namespaces
pub mod Devices
pub mod FileRuns
pub mod KeyValues
pub mod Objects
pub mod Adapter
pub mod Buffers
