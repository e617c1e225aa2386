-- ===== src/Tests/Regions.antt =====
-- The layout of a device of 256 MiB, its allocator roots, and the slots of a chunk.
use mini_fs.Base.{ℕ, ◌+◌, ◌≤◌, ◌<◌, ◌≡◌, refl, inr, arith, ok}
use mini_fs.Format.Bytes.{Bytes, zeros}
use mini_fs.Format.Consts.{alloc_roots_total}
use mini_fs.Bits.{bit_get, bit_set, set_run}
use mini_fs.Layout.{DeviceLayout, layout_compute_ex}
use mini_fs.LayoutLaws.{IsLaid, layout_compute_ex-IsLaid, layout_compute_ex-ok}
use mini_fs.Meta.AllocRoots.{range_start, range_end}
use mini_fs.Meta.RootRanges.{ranges_partition}
use mini_fs.RootChunk.Slots.{none_set, slot_is_free, chunk_alloc_dir, chunk_free_dir}
use mini_fs.RootChunk.Claims.{
  AllocatesSlot, ReleasesSlot, chunk_alloc_dir-AllocatesSlot, chunk_free_dir-ReleasesSlot,
}

-- 256 MiB
abbrev pub small_layout : DeviceLayout
small_layout = record {
  capacity_blocks = 65536;
  inode_size = 4096;
  mbr_lba = 0;
  sb_head_lba = 1;
  uberblock_lba = 2;
  uberblock_count = 128;
  alloc_roots_head_lba = 130;
  bitmap_lba = 131;
  bitmap_block_count = 2;
  stream_map_lba = 133;
  stream_map_block_count = 256;
  inode_page_lba = 389;
  inode_page_block_count = 8192;
  dir_page_lba = 8581;
  dir_page_block_count = 8192;
  data_start_lba = 16773;
  data_block_count = 48761;
  alloc_roots_tail_lba = 65534;
  sb_tail_lba = 65535;
}

pub small_layout_is : layout_compute_ex 65536 4096 ≡ ok small_layout
unfolding layout_compute_ex
small_layout_is = refl

layout_compute_ex-IsLaid_example :
    IsLaid small_layout × (small_layout.capacity_blocks ≡ 65536) × (small_layout.inode_size ≡ 4096)
layout_compute_ex-IsLaid_example =
    layout_compute_ex-IsLaid 65536 4096 small_layout (omega arith) small_layout_is

layout_compute_ex-ok_example :
    (l : DeviceLayout) × (layout_compute_ex 65536 8192 ≡ ok l) × (0 < l.data_block_count)
layout_compute_ex-ok_example =
    layout_compute_ex-ok 65536 8192 (omega arith) (omega arith) (inr refl)

ranges_partition_example :
    (range_start 16773 65534 alloc_roots_total 0 ≡ 16773)
    × ((id : ℕ)
        → id + 1 < alloc_roots_total
        → range_end 16773 65534 alloc_roots_total id
          ≡ range_start 16773 65534 alloc_roots_total (id + 1))
    × (range_end 16773 65534 alloc_roots_total 127 ≡ 65534)
    × ((id : ℕ)
        → id < alloc_roots_total
        → range_start 16773 65534 alloc_roots_total id ≤ range_end 16773 65534 alloc_roots_total id)
ranges_partition_example = ranges_partition 16773 65534 (omega arith) (omega arith)

-- A chunk with slots 0 and 1 in use.
abbrev chunk : Bytes
chunk = set_run 16 0 zeros

first_free_slot : (chunk_alloc_dir chunk).0 ≡ ok 2
unfolding chunk_alloc_dir slot_is_free none_set set_run bit_set bit_get
first_free_slot = refl

chunk_alloc_dir-AllocatesSlot_example : AllocatesSlot chunk (chunk_alloc_dir chunk)
chunk_alloc_dir-AllocatesSlot_example = chunk_alloc_dir-AllocatesSlot chunk

chunk_free_dir-ReleasesSlot_example : ReleasesSlot chunk 1 (chunk_free_dir chunk 1)
chunk_free_dir-ReleasesSlot_example = chunk_free_dir-ReleasesSlot chunk 1
