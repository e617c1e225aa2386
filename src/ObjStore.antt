-- ===== src/ObjStore.antt =====
-- src/objstore: objects of immutable extents on chunks of 64 MiB, with their metadata in a sorted
-- store of keys and values.
pub mod Status
pub mod Codec
pub mod Records
pub mod CodecLaws
pub mod RoundTrip
pub mod Keys
pub mod KeyOrder
pub mod PathLaws
pub mod ChunkLaws
pub mod ObjectPath
pub mod Db
pub mod Metadata
pub mod Extents
pub mod Chunks
pub mod Append
pub mod Triple
pub mod ReserveLaws
pub mod SegmentLaws
pub mod ReadyLaws
pub mod AppendLaws
pub mod DbLaws
pub mod Counters
pub mod CreateLaws
pub mod Transfer
pub mod ReadLaws
pub mod Reader
pub mod Calls
