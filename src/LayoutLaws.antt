-- ===== src/LayoutLaws.antt =====
-- The regions of a computed layout, and when there is one.
use mini_fs.Base.{
  ℕ, ◌+◌, ◌*◌, ◌/◌, ◌^◌, ◌≤◌, ◌<◌, max, ◌≡◌, ◌≢◌, ◌⊎◌, inl, inr, arith, ok, err, Result-cases,
  einval,
}
use mini_fs.Format.Consts.{min_device_blocks, bits_per_page}
use mini_fs.Layout.{DeviceLayout, layout_compute_ex, div_ceil, clamp_u64}

-- Each region starts where the one before it ends, from block 0 to the end of the device; the
-- bitmap has just enough pages for all blocks; the inode and directory regions have 8192 to 32768
-- blocks.
pub record IsLaid (l : DeviceLayout) : Type 0 where
  pub head : (l.mbr_lba ≡ 0) × (l.sb_head_lba ≡ 1) × (l.uberblock_lba ≡ 2)
  pub roots : l.alloc_roots_head_lba ≡ l.uberblock_lba + l.uberblock_count
  pub bitmap : l.bitmap_lba ≡ l.alloc_roots_head_lba + 1
  pub stream : l.stream_map_lba ≡ l.bitmap_lba + l.bitmap_block_count
  pub inodes : l.inode_page_lba ≡ l.stream_map_lba + l.stream_map_block_count
  pub dirs : l.dir_page_lba ≡ l.inode_page_lba + l.inode_page_block_count
  pub data_start : l.data_start_lba ≡ l.dir_page_lba + l.dir_page_block_count
  pub data_end : l.alloc_roots_tail_lba ≡ l.data_start_lba + l.data_block_count
  pub tail : (l.sb_tail_lba ≡ l.alloc_roots_tail_lba + 1) × (l.capacity_blocks ≡ l.sb_tail_lba + 1)
  pub pages_cover : l.capacity_blocks ≤ l.bitmap_block_count * bits_per_page
  pub pages_needed : l.bitmap_block_count * bits_per_page < l.capacity_blocks + bits_per_page
  pub inode_range : (8192 ≤ l.inode_page_block_count) × (l.inode_page_block_count ≤ 32768)
  pub dir_range : (8192 ≤ l.dir_page_block_count) × (l.dir_page_block_count ≤ 32768)

div_ceil_bounds :
    (c : ℕ)
    → c < 2 ^ 51
    → (c ≤ div_ceil c bits_per_page * bits_per_page)
      × (div_ceil c bits_per_page * bits_per_page < c + bits_per_page)
unfolding div_ceil
div_ceil_bounds c h = omega arith

clamp_bounds : (v lo hi : ℕ) → lo ≤ hi → (lo ≤ clamp_u64 v lo hi) × (clamp_u64 v lo hi ≤ hi)
unfolding clamp_u64
clamp_bounds v lo hi h = ground arith

clamp-le : (v lo hi : ℕ) → clamp_u64 v lo hi ≤ max v lo
unfolding clamp_u64
clamp-le v lo hi = ground arith

-- A layout that is computed for a capacity below 2^51 blocks, and an inode size, has these as its
-- capacity and inode size, and its regions follow one another from block 0 to the last block.
pub layout_compute_ex-IsLaid :
    (c size : ℕ) (l : DeviceLayout)
    → c < 2 ^ 51
    → layout_compute_ex c size ≡ ok l
    → IsLaid l × (l.capacity_blocks ≡ c) × (l.inode_size ≡ size)
unfolding layout_compute_ex
layout_compute_ex-IsLaid c size l small e =
    ground (arith, div_ceil_bounds c, clamp_bounds (c / 8) 8192 32768)

module _ (c size : ℕ) (small : c < 2 ^ 51) where
  not_refused :
      (x : ℕ)
      → min_device_blocks ≤ c
      → (size ≡ 4096) ⊎ (size ≡ 8192)
      → layout_compute_ex c size ≡ err x
      → ⊥
  unfolding layout_compute_ex
  not_refused x enough known e =
      ground
        (arith, div_ceil_bounds c, clamp_bounds (c / 8) 8192 32768, clamp-le (c / 8) 8192 32768)

  has_data :
      (l : DeviceLayout)
      → min_device_blocks ≤ c
      → layout_compute_ex c size ≡ ok l
      → 0 < l.data_block_count
  unfolding layout_compute_ex
  has_data l enough e =
      ground
        (arith, div_ceil_bounds c, clamp_bounds (c / 8) 8192 32768, clamp-le (c / 8) 8192 32768)

  -- A device of less than 2^51 blocks and at least 256 MiB has a layout, with at least one data
  -- block, for an inode size of 4096 or 8192.
  pub layout_compute_ex-ok :
      min_device_blocks ≤ c
      → (size ≡ 4096) ⊎ (size ≡ 8192)
      → (l : DeviceLayout) × (layout_compute_ex c size ≡ ok l) × (0 < l.data_block_count)
  layout_compute_ex-ok enough known = elim (Result-cases (layout_compute_ex c size)) [
    | inl (l, e) ↦ (l, e, has_data l enough e)
    | inr (x, e) ↦ absurd (not_refused x enough known e)
  ]

-- A device of less than 256 MiB, and an inode size other than 4096 and 8192, are refused with EINVAL.
layout_compute_ex-einval :
    (c size : ℕ)
    → (c < min_device_blocks) ⊎ ((size ≢ 4096) × (size ≢ 8192))
    → layout_compute_ex c size ≡ err einval
unfolding layout_compute_ex
layout_compute_ex-einval c size h = ground arith
