-- ===== src/ObjStore/Records.antt =====
-- The records of src/objstore/common.h and their encodings as values of the store.
use mini_fs.Base.{ℕ, Bool, not, ◌++◌, Option, ◌==◌, if◌then◌else◌}
use mini_fs.ObjStore.Codec.{Str, put_pod, get_pod, ◌>>=◌, at_end}

pub record ObjectAttrs : Type 0 where
  pub object_id : ℕ
  pub size : ℕ
  pub ctime_ns : ℕ
  pub mtime_ns : ℕ
  pub version : ℕ
  pub num_extents : ℕ

pub record ExtentEntry : Type 0 where
  pub chunk_id : ℕ
  pub chunk_idx : ℕ
  pub reserved : ℕ
  pub offset_in_chunk : ℕ
  pub length : ℕ
  pub checksum : ℕ

pub record Chunk : Type 0 where
  pub chunk_id : ℕ
  pub lba_start : ℕ
  pub write_offset : ℕ
  pub next_idx : ℕ
  pub sealed : Bool

pub record ChunkRevEntry : Type 0 where
  pub oid : ℕ
  pub logical_offset : ℕ
  pub length : ℕ
  pub reserved : ℕ

unfoldable pub encode_attrs : ObjectAttrs → Str
encode_attrs a =
    put_pod 8 a.object_id
    ++ (put_pod 8 a.size
        ++ (put_pod 8 a.ctime_ns
            ++ (put_pod 8 a.mtime_ns ++ (put_pod 8 a.version ++ put_pod 8 a.num_extents))))

unfoldable pub decode_attrs : Str → Option ObjectAttrs
decode_attrs s = do
  (object_id, s1) ← get_pod 8 s
  (size, s2) ← get_pod 8 s1
  (ctime_ns, s3) ← get_pod 8 s2
  (mtime_ns, s4) ← get_pod 8 s3
  (version, s5) ← get_pod 8 s4
  (num_extents, rest) ← get_pod 8 s5
  at_end
      (record {
        object_id = object_id;
        size = size;
        ctime_ns = ctime_ns;
        mtime_ns = mtime_ns;
        version = version;
        num_extents = num_extents;
      })
      rest

unfoldable pub encode_extent : ExtentEntry → Str
encode_extent e =
    put_pod 4 e.chunk_id
    ++ (put_pod 2 e.chunk_idx
        ++ (put_pod 2 e.reserved
            ++ (put_pod 4 e.offset_in_chunk ++ (put_pod 4 e.length ++ put_pod 8 e.checksum))))

unfoldable pub decode_extent : Str → Option ExtentEntry
decode_extent s = do
  (chunk_id, s1) ← get_pod 4 s
  (chunk_idx, s2) ← get_pod 2 s1
  (reserved, s3) ← get_pod 2 s2
  (offset_in_chunk, s4) ← get_pod 4 s3
  (length, s5) ← get_pod 4 s4
  (checksum, rest) ← get_pod 8 s5
  at_end
      (record {
        chunk_id = chunk_id;
        chunk_idx = chunk_idx;
        reserved = reserved;
        offset_in_chunk = offset_in_chunk;
        length = length;
        checksum = checksum;
      })
      rest

unfoldable pub encode_chunk : Chunk → Str
encode_chunk c =
    put_pod 4 c.chunk_id
    ++ (put_pod 8 c.lba_start
        ++ (put_pod 4 c.write_offset
            ++ (put_pod 4 c.next_idx ++ put_pod 1 (if c.sealed then 1 else 0))))

unfoldable pub decode_chunk : Str → Option Chunk
decode_chunk s = do
  (chunk_id, s1) ← get_pod 4 s
  (lba_start, s2) ← get_pod 8 s1
  (write_offset, s3) ← get_pod 4 s2
  (next_idx, s4) ← get_pod 4 s3
  (sealed, rest) ← get_pod 1 s4
  at_end
      (record {
        chunk_id = chunk_id;
        lba_start = lba_start;
        write_offset = write_offset;
        next_idx = next_idx;
        sealed = not (sealed == 0);
      })
      rest

unfoldable pub encode_chunk_rev : ChunkRevEntry → Str
encode_chunk_rev e =
    put_pod 8 e.oid ++ (put_pod 8 e.logical_offset ++ (put_pod 4 e.length ++ put_pod 4 e.reserved))

unfoldable pub decode_chunk_rev : Str → Option ChunkRevEntry
decode_chunk_rev s = do
  (oid, s1) ← get_pod 8 s
  (logical_offset, s2) ← get_pod 8 s1
  (length, s3) ← get_pod 4 s2
  (reserved, rest) ← get_pod 4 s3
  at_end
      (record { oid = oid; logical_offset = logical_offset; length = length; reserved = reserved })
      rest
