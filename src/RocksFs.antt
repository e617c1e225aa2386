-- ===== src/RocksFs.antt =====
-- src/rocksdb/nebula_rocksdb_fs.cc: the file system that RocksDB is given, over the public calls.
pub mod Answer
pub mod Handles
pub mod Names
pub mod BaseLaws
