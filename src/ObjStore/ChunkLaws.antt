-- ===== src/ObjStore/ChunkLaws.antt =====
-- What `reserve` hands out of a chunk.
use mini_fs.Base.{ℕ, ◌+◌, ◌*◌, ◌/◌, ◌%◌, ◌≤◌, ◌<◌, ◌≡◌, arith, add64}
use mini_fs.ObjStore.Records.{Chunk}
use mini_fs.ObjStore.Chunks.{chunk_size, Reservation, reservation}

-- A chunk as `reserve` leaves it: filled in whole blocks, at least one for each index.
pub record IsChunk (c : Chunk) : Type 0 where
  pub whole_blocks : c.write_offset % 4096 ≡ 0
  pub inside : c.write_offset ≤ chunk_size
  pub indices : c.next_idx * 4096 ≤ c.write_offset

-- A reservation of at most `n` bytes of chunk `c`, which becomes `c'`.
pub record Reserves (n : ℕ) (c : Chunk) (r : Reservation) (c' : Chunk) : Type 0 where
  pub some_bytes : 0 < r.length_bytes
  pub no_more : r.length_bytes ≤ n
  pub padded : (r.length_bytes ≤ r.padded_bytes) × (r.padded_bytes < r.length_bytes + 4096)
  pub blocks : r.padded_bytes % 4096 ≡ 0
  pub start : r.offset_bytes ≡ c.write_offset
  pub place : r.physical_lba ≡ add64 c.lba_start (c.write_offset / 4096)
  pub stop : r.offset_bytes + r.padded_bytes ≡ c'.write_offset
  pub index : (r.chunk_idx ≡ c.next_idx) × (c'.next_idx ≡ c.next_idx + 1)
  pub same : (r.chunk_id ≡ c.chunk_id) × (c'.chunk_id ≡ c.chunk_id) × (c'.lba_start ≡ c.lba_start)
  pub valid : IsChunk c'

-- From a chunk with room, a request of at least one byte gets at least one byte and at most what it
-- asked for, in whole blocks that start where the reservations before it stop, at that block of the
-- device, and end inside the chunk; the index is the next one and is not cut off by its 16 bits; the
-- chunk stays well formed.
pub reservation-Reserves :
    (n : ℕ) (c : Chunk)
    → IsChunk c
    → 0 < n
    → c.write_offset < chunk_size
    → Reserves n c (reservation n c).0 (reservation n c).1
unfolding reservation
reservation-Reserves n c v pos room = ground arith
