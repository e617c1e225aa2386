-- ===== src/ObjStore/RoundTrip.antt =====
-- The records of the store and their encodings.
use mini_fs.Base.{◌^◌, ◌<◌, ◌≡◌, refl, Bool, true, false, not, some, arith, ◌==◌, if◌then◌else◌}
use mini_fs.ObjStore.CodecLaws.{get_pod-put_pod, get_pod-put_pod_last}
use mini_fs.ObjStore.Records.{
  ObjectAttrs, ExtentEntry, Chunk, ChunkRevEntry, encode_attrs, decode_attrs, encode_extent,
  decode_extent, encode_chunk, decode_chunk, encode_chunk_rev, decode_chunk_rev,
}

-- The members are in the range of their types.
pub record FitsAttrs (a : ObjectAttrs) : Type 0 where
  pub object_id : a.object_id < 256 ^ 8
  pub size : a.size < 256 ^ 8
  pub ctime_ns : a.ctime_ns < 256 ^ 8
  pub mtime_ns : a.mtime_ns < 256 ^ 8
  pub version : a.version < 256 ^ 8
  pub num_extents : a.num_extents < 256 ^ 8

pub record FitsExtent (e : ExtentEntry) : Type 0 where
  pub chunk_id : e.chunk_id < 256 ^ 4
  pub chunk_idx : e.chunk_idx < 256 ^ 2
  pub reserved : e.reserved < 256 ^ 2
  pub offset_in_chunk : e.offset_in_chunk < 256 ^ 4
  pub length : e.length < 256 ^ 4
  pub checksum : e.checksum < 256 ^ 8

pub record FitsChunk (c : Chunk) : Type 0 where
  pub chunk_id : c.chunk_id < 256 ^ 4
  pub lba_start : c.lba_start < 256 ^ 8
  pub write_offset : c.write_offset < 256 ^ 4
  pub next_idx : c.next_idx < 256 ^ 4

pub record FitsRev (e : ChunkRevEntry) : Type 0 where
  pub oid : e.oid < 256 ^ 8
  pub logical_offset : e.logical_offset < 256 ^ 8
  pub length : e.length < 256 ^ 4
  pub reserved : e.reserved < 256 ^ 4

-- Attributes in the ranges of their members are decoded from their encoding.
pub decode_attrs-encode_attrs :
    (a : ObjectAttrs) → FitsAttrs a → decode_attrs (encode_attrs a) ≡ some a
unfolding decode_attrs encode_attrs
decode_attrs-encode_attrs a h = rw (
  get_pod-put_pod 8 a.object_id _ h.object_id,
  get_pod-put_pod 8 a.size _ h.size,
  get_pod-put_pod 8 a.ctime_ns _ h.ctime_ns,
  get_pod-put_pod 8 a.mtime_ns _ h.mtime_ns,
  get_pod-put_pod 8 a.version _ h.version,
  get_pod-put_pod_last 8 a.num_extents h.num_extents,
)

-- An extent in the ranges of its members is decoded from its encoding.
pub decode_extent-encode_extent :
    (e : ExtentEntry) → FitsExtent e → decode_extent (encode_extent e) ≡ some e
unfolding decode_extent encode_extent
decode_extent-encode_extent e h = rw (
  get_pod-put_pod 4 e.chunk_id _ h.chunk_id,
  get_pod-put_pod 2 e.chunk_idx _ h.chunk_idx,
  get_pod-put_pod 2 e.reserved _ h.reserved,
  get_pod-put_pod 4 e.offset_in_chunk _ h.offset_in_chunk,
  get_pod-put_pod 4 e.length _ h.length,
  get_pod-put_pod_last 8 e.checksum h.checksum,
)

flag_back : (b : Bool) → not ((if b then 1 else 0) == 0) ≡ b
flag_back true = refl
flag_back false = refl

flag-lt : (b : Bool) → (if b then 1 else 0) < 256 ^ 1
flag-lt true = omega arith
flag-lt false = omega arith

-- A chunk in the ranges of its members is decoded from its encoding, its flag included.
decode_chunk-encode_chunk : (c : Chunk) → FitsChunk c → decode_chunk (encode_chunk c) ≡ some c
unfolding decode_chunk encode_chunk
decode_chunk-encode_chunk c h = rw (
  get_pod-put_pod 4 c.chunk_id _ h.chunk_id,
  get_pod-put_pod 8 c.lba_start _ h.lba_start,
  get_pod-put_pod 4 c.write_offset _ h.write_offset,
  get_pod-put_pod 4 c.next_idx _ h.next_idx,
  get_pod-put_pod_last 1 (if c.sealed then 1 else 0) (flag-lt c.sealed),
  flag_back c.sealed,
)

-- An entry of the reverse map in the ranges of its members is decoded from its encoding.
pub decode_chunk_rev-encode_chunk_rev :
    (e : ChunkRevEntry) → FitsRev e → decode_chunk_rev (encode_chunk_rev e) ≡ some e
unfolding decode_chunk_rev encode_chunk_rev
decode_chunk_rev-encode_chunk_rev e h = rw (
  get_pod-put_pod 8 e.oid _ h.oid,
  get_pod-put_pod 8 e.logical_offset _ h.logical_offset,
  get_pod-put_pod 4 e.length _ h.length,
  get_pod-put_pod_last 4 e.reserved h.reserved,
)
