-- ===== src/Layout.antt =====
-- src/nebula/nebula_layout.c: the regions of a device of a given size.

use mini_fs.Base.{
  ℕ, ◌+◌, ◌-◌, ◌*◌, ◌/◌, not, ◌&&◌, ltb, ◌==◌, if◌then◌else◌, add64, sub64, Result, ok, err, einval,
}
use mini_fs.Format.Consts.{min_device_blocks, bits_per_page, block_size, uberblock_slots}

unfoldable pub div_ceil : ℕ → ℕ → ℕ
div_ceil a b = sub64 (add64 a b) 1 / b

unfoldable pub clamp_u64 : ℕ → ℕ → ℕ → ℕ
clamp_u64 v lo hi = if ltb v lo then lo else if ltb hi v then hi else v

pub record DeviceLayout : Type 0 where
  pub capacity_blocks : ℕ
  pub inode_size : ℕ
  pub mbr_lba : ℕ
  pub sb_head_lba : ℕ
  pub uberblock_lba : ℕ
  pub uberblock_count : ℕ
  pub alloc_roots_head_lba : ℕ
  pub bitmap_lba : ℕ
  pub bitmap_block_count : ℕ
  pub stream_map_lba : ℕ
  pub stream_map_block_count : ℕ
  pub inode_page_lba : ℕ
  pub inode_page_block_count : ℕ
  pub dir_page_lba : ℕ
  pub dir_page_block_count : ℕ
  pub data_start_lba : ℕ
  pub data_block_count : ℕ
  pub alloc_roots_tail_lba : ℕ
  pub sb_tail_lba : ℕ

unfoldable pub layout_compute_ex : ℕ → ℕ → Result DeviceLayout
unfolding div_ceil clamp_u64
layout_compute_ex capacity_blocks inode_size =
    let alloc_roots_head_lba = 2 + uberblock_slots in
    let bitmap_lba = alloc_roots_head_lba + 1 in
    let bitmap_block_count = div_ceil capacity_blocks bits_per_page in
    let stream_map_lba = add64 bitmap_lba bitmap_block_count in
    let inode_page_lba = add64 stream_map_lba 256 in
    let inode_page_block_count =
      clamp_u64 (capacity_blocks / 8) (32 * 1024 * 1024 / block_size)
        (128 * 1024 * 1024 / block_size) in
    let dir_page_lba = add64 inode_page_lba inode_page_block_count in
    let cursor = add64 dir_page_lba inode_page_block_count in
    if ltb capacity_blocks min_device_blocks
    then err einval
    else if not (inode_size == 4096) && not (inode_size == 8192)
    then err einval
    else if ltb capacity_blocks (add64 cursor 2)
    then err einval
    else ok (record {
      capacity_blocks = capacity_blocks;
      inode_size = inode_size;
      mbr_lba = 0;
      sb_head_lba = 1;
      uberblock_lba = 2;
      uberblock_count = uberblock_slots;
      alloc_roots_head_lba = alloc_roots_head_lba;
      bitmap_lba = bitmap_lba;
      bitmap_block_count = bitmap_block_count;
      stream_map_lba = stream_map_lba;
      stream_map_block_count = 256;
      inode_page_lba = inode_page_lba;
      inode_page_block_count = inode_page_block_count;
      dir_page_lba = dir_page_lba;
      dir_page_block_count = inode_page_block_count;
      data_start_lba = cursor;
      data_block_count = capacity_blocks - 2 - cursor;
      alloc_roots_tail_lba = capacity_blocks - 2;
      sb_tail_lba = capacity_blocks - 1;
    })

-- The default inode size.
unfoldable pub layout_compute : ℕ → Result DeviceLayout
unfolding layout_compute_ex
layout_compute capacity_blocks = layout_compute_ex capacity_blocks 4096
