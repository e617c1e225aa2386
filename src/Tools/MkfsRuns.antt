-- ===== src/Tools/MkfsRuns.antt =====
-- A mkfs on a device whose calls of the system do not fail.
use mini_fs.Base.{ℕ, zero, suc, ◌+◌, ◌^◌, ◌≤◌, ◌<◌, ◌≡◌, sym, arith, add64, ok}
use mathlib.Core.Path.{subst}
use mini_fs.Io.Posix.{io_write}
use mini_fs.Format.Bytes.{Bytes, zeros}
use mini_fs.Layout.{DeviceLayout, layout_compute_ex}
use mini_fs.LayoutLaws.{IsLaid, layout_compute_ex-IsLaid}
use mini_fs.Io.Raw.{Io}
use mini_fs.Meta.Mbr.{mbr_block, mbr_write}
use mini_fs.Meta.Uberblock.{zero_slots, uberblock_init_region}
use mini_fs.Meta.AllocRoots.{allocator_roots_init}
use mini_fs.Meta.Regions.{
  bitmap_page, write_pages, bitmap_init, inode_page_init, root_entry_block, dir_page_init,
}
use mini_fs.Meta.Superblock.{superblock_write_both}
use mini_fs.Meta.Works.{
  Quiet, Fine, Works, Works-bind, Works-seq, Works-pure, alloc_buf-Works, now_ns-Works,
  io_flush-Works, io_write-Works, zero_region-Works,
}
use mini_fs.Tools.Mkfs.{format_regions, write_everything}

module _ (l : DeviceLayout) (laid : IsLaid l) (small : l.capacity_blocks < 2 ^ 51) where
  -- Where the regions end.
  ends :
      (l.uberblock_lba ≡ 2)
      × (2 + l.uberblock_count + 1 ≤ l.bitmap_lba)
      × (l.bitmap_lba + l.bitmap_block_count ≤ l.stream_map_lba)
      × (l.stream_map_lba + l.stream_map_block_count ≤ l.inode_page_lba)
      × (l.inode_page_lba + l.inode_page_block_count ≤ l.dir_page_lba)
      × (l.dir_page_lba + l.dir_page_block_count ≤ l.data_start_lba)
      × (l.data_start_lba ≤ l.alloc_roots_tail_lba)
      × (l.alloc_roots_tail_lba + 2 ≡ l.capacity_blocks)
  ends = (
    laid.head.2,
    omega (arith, laid.head, laid.roots, laid.bitmap),
    omega (arith, laid.stream),
    omega (arith, laid.inodes),
    omega (arith, laid.dirs),
    omega (arith, laid.data_start),
    omega (arith, laid.data_end),
    omega (arith, laid.tail),
  )

  block_write-Works :
      (lba : ℕ) (src : Bytes)
      → lba + 1 ≤ l.capacity_blocks
      → Works l.capacity_blocks (io_write lba 1 src)
  block_write-Works lba src le = io_write-Works lba 1 src small le

  mbr_write-Works : (device_uuid cap : ℕ) → Works l.capacity_blocks (mbr_write device_uuid cap)
  unfolding mbr_write
  mbr_write-Works device_uuid cap =
      Works-seq alloc_buf-Works
        (block_write-Works 0 (mbr_block device_uuid cap) (omega (arith, ends)))

  zero_slots-Works :
      (rounds i : ℕ)
      → l.uberblock_lba + i + rounds ≤ l.capacity_blocks
      → Works l.capacity_blocks (zero_slots l.uberblock_lba rounds i)
  unfolding zero_slots
  zero_slots-Works zero i le = Works-pure
  zero_slots-Works (suc rounds) i le =
      let e : add64 l.uberblock_lba i ≡ l.uberblock_lba + i = omega arith in
      Works-seq (rw e (block_write-Works (l.uberblock_lba + i) zeros (omega arith)))
        (zero_slots-Works rounds (i + 1) (omega arith))

  uberblock_init_region-Works : Works l.capacity_blocks (uberblock_init_region l)
  unfolding uberblock_init_region
  uberblock_init_region-Works = Works-seq alloc_buf-Works (
      Works-seq (zero_slots-Works l.uberblock_count 0 (omega (arith, ends))) (
        Works-seq alloc_buf-Works (
          Works-bind now_ns-Works
            (λ t. block_write-Works l.uberblock_lba _ (omega (arith, ends))))))

  allocator_roots_init-Works : Works l.capacity_blocks (allocator_roots_init l)
  unfolding allocator_roots_init
  allocator_roots_init-Works = Works-seq alloc_buf-Works (
      Works-seq (block_write-Works l.alloc_roots_head_lba _ (omega (arith, ends, laid.bitmap)))
        (block_write-Works l.alloc_roots_tail_lba _ (omega (arith, ends))))

  write_pages-Works :
      (rounds p : ℕ)
      → l.bitmap_lba + p + rounds ≤ l.capacity_blocks
      → Works l.capacity_blocks (write_pages l rounds p)
  unfolding write_pages
  write_pages-Works zero p le = Works-pure
  write_pages-Works (suc rounds) p le =
      let e : add64 l.bitmap_lba p ≡ l.bitmap_lba + p = omega arith in
      Works-seq (rw e (block_write-Works (l.bitmap_lba + p) (bitmap_page l p) (omega arith)))
        (write_pages-Works rounds (p + 1) (omega arith))

  bitmap_init-Works : Works l.capacity_blocks (bitmap_init l)
  unfolding bitmap_init
  bitmap_init-Works = Works-seq alloc_buf-Works (
      Works-seq (write_pages-Works l.bitmap_block_count 0 (omega (arith, ends)))
        (zero_region-Works l.stream_map_lba l.stream_map_block_count small (omega (arith, ends))))

  inode_page_init-Works : Works l.capacity_blocks (inode_page_init l)
  unfolding inode_page_init
  inode_page_init-Works =
      Works-seq
        (zero_region-Works l.inode_page_lba l.inode_page_block_count small (omega (arith, ends)))
        (Works-seq alloc_buf-Works (
          Works-bind now_ns-Works
            (λ t. block_write-Works l.inode_page_lba _ (omega (arith, ends)))))

  dir_page_init-Works : Works l.capacity_blocks (dir_page_init l)
  unfolding dir_page_init
  dir_page_init-Works =
      let e : add64 l.dir_page_lba 1 ≡ l.dir_page_lba + 1 = omega (arith, ends) in
      Works-seq
        (zero_region-Works l.dir_page_lba l.dir_page_block_count small (omega (arith, ends)))
        (Works-seq alloc_buf-Works (
          Works-seq (block_write-Works l.dir_page_lba _ (omega (arith, ends))) (
            Works-seq alloc_buf-Works (
              rw e
                (block_write-Works (l.dir_page_lba + 1) root_entry_block (omega (arith, ends)))))))

  superblock_write_both-Works :
      (device_uuid : ℕ) → Works l.capacity_blocks (superblock_write_both device_uuid l)
  unfolding superblock_write_both
  superblock_write_both-Works device_uuid = Works-seq alloc_buf-Works (
      Works-seq (block_write-Works l.sb_head_lba _ (omega (arith, ends, laid.head)))
        (block_write-Works l.sb_tail_lba _ (omega (arith, laid.tail))))

  write_everything-Works :
      (device_uuid cap : ℕ) → Works l.capacity_blocks (write_everything device_uuid cap l)
  unfolding write_everything format_regions
  write_everything-Works device_uuid cap =
      Works-seq
        (Works-seq (mbr_write-Works device_uuid cap) (
          Works-seq uberblock_init_region-Works (
            Works-seq allocator_roots_init-Works
              (Works-seq bitmap_init-Works (Works-seq inode_page_init-Works dir_page_init-Works)))))
        (Works-seq (superblock_write_both-Works device_uuid) io_flush-Works)

-- On a device of fewer than 2^51 blocks that has a layout, and whose calls of the system do not
-- fail, mkfs succeeds.
pub write_everything-Fine :
    (device_uuid size : ℕ) (l : DeviceLayout) (io : Io)
    → io.capacity_blocks < 2 ^ 51
    → layout_compute_ex io.capacity_blocks size ≡ ok l
    → Quiet io.capacity_blocks io
    → Fine io.capacity_blocks (write_everything device_uuid io.capacity_blocks l io)
write_everything-Fine device_uuid size l io small e quiet =
    let (laid, c, sz) = layout_compute_ex-IsLaid io.capacity_blocks size l small e in
    subst (λ (x : ℕ). Fine x (write_everything device_uuid io.capacity_blocks l io)) c
      ((write_everything-Works l laid (omega (arith, c)) device_uuid io.capacity_blocks).run io
        (quiet.0, quiet.1, sym c))
