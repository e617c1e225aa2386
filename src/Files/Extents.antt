-- ===== src/Files/Extents.antt =====
-- The extent map of an inode: 248 entries behind its 128 bytes of attributes.
use mini_fs.Base.{
  ℕ, zero, suc, ◌+◌, ◌*◌, ◌%◌, ◌^◌, Bool, not, ◌&&◌, Option, none, some, ltb, leb, ◌==◌,
  if◌then◌else◌, add64, sub64, Result, ok, err, enospc,
}
use mini_fs.Format.Bytes.{Bytes, load, store}
use mini_fs.Format.Consts.{extents_per_inode}
use mini_fs.Format.Extent

abbrev pub extent_base : ℕ → ℕ
extent_base i = 128 + i * 16

-- `em_size_blocks` of extent `i`
unfoldable pub em_size_blocks : Bytes → ℕ → ℕ
em_size_blocks ino i = load (Extent.em_size_and_flags (extent_base i)) ino % 2 ^ 24

unfoldable pub em_offset_of : Bytes → ℕ → ℕ
em_offset_of ino i = load (Extent.em_offset (extent_base i)) ino

unfoldable pub em_lba_of : Bytes → ℕ → ℕ
em_lba_of ino i = load (Extent.em_lba (extent_base i)) ino

-- Extent `i` is in use and has logical block `blk`.
unfoldable pub covers : Bytes → ℕ → ℕ → Bool
covers ino blk i =
    not (em_size_blocks ino i == 0)
    && leb (em_offset_of ino i) blk
    && ltb blk (add64 (em_offset_of ino i) (em_size_blocks ino i))

-- The loop of `extent_find`: `rounds` extents are left from `i` on.
unfoldable pub find_from : Bytes → ℕ → ℕ → ℕ → Option ℕ
unfolding covers
find_from ino blk zero i = none
find_from ino blk (suc rounds) i =
    let rest = find_from ino blk rounds (i + 1) in if covers ino blk i then some i else rest

unfoldable pub extent_find : Bytes → ℕ → Option ℕ
unfolding find_from
extent_find ino blk = find_from ino blk extents_per_inode 0

-- The block that extent `i` gives for `blk`.
unfoldable pub extent_lba : Bytes → ℕ → ℕ → ℕ
extent_lba ino blk i = add64 (em_lba_of ino i) (sub64 blk (em_offset_of ino i))

unfoldable pub free_from : Bytes → ℕ → ℕ → Option ℕ
free_from ino zero i = none
free_from ino (suc rounds) i =
    let rest = free_from ino rounds (i + 1) in if em_size_blocks ino i == 0 then some i else rest

-- The three fields of extent `i`.
unfoldable pub put_extent : (i log_blk n_blocks lba : ℕ) → Bytes → Bytes
put_extent i log_blk n_blocks lba ino = store (Extent.em_lba (extent_base i)) lba (
    store (Extent.em_size_and_flags (extent_base i)) (n_blocks % 2 ^ 24)
      (store (Extent.em_offset (extent_base i)) log_blk ino))

unfoldable pub append_at : (log_blk n_blocks lba : ℕ) → Bytes → Option ℕ → Result Bytes
append_at log_blk n_blocks lba ino none = err enospc
append_at log_blk n_blocks lba ino (some i) = ok (put_extent i log_blk n_blocks lba ino)

unfoldable pub extent_append : (log_blk n_blocks lba : ℕ) → Bytes → Result Bytes
unfolding free_from append_at put_extent
extent_append log_blk n_blocks lba ino =
    append_at log_blk n_blocks lba ino (free_from ino extents_per_inode 0)

-- The blocks of all extents, in bytes: `alloc_size_bytes`.
unfoldable pub alloc_size : Bytes → ℕ → ℕ → ℕ
alloc_size ino zero i = 0
alloc_size ino (suc rounds) i = add64 (em_size_blocks ino i * 4096) (alloc_size ino rounds (i + 1))
