-- ===== src/Tools/MkfsLaws.antt =====
-- What each step of mkfs leaves alone: the blocks of the superblocks, and the data region.
use mini_fs.Base.{ℕ, zero, suc, ◌+◌, ◌^◌, ◌≤◌, ◌<◌, ◌≡◌, ◌⊎◌, inl, inr, arith, add64, ◌>>◌}
use mini_fs.Format.Bytes.{Bytes, zeros}
use mini_fs.Layout.{DeviceLayout}
use mini_fs.LayoutLaws.{IsLaid}
use mini_fs.Io.Posix.{io_write}
use mini_fs.Meta.Mbr.{mbr_write}
use mini_fs.Meta.Uberblock.{zero_slots, uberblock_init_region}
use mini_fs.Meta.AllocRoots.{allocator_roots_init}
use mini_fs.Meta.Regions.{
  bitmap_page, write_pages, zero_region, bitmap_init, inode_page_init, root_entry_block,
  dir_page_init,
}
use mini_fs.Meta.Keeps.{
  Preserves-pure, Preserves-weaken, Avoids, Preserves, Preserves-bind, Preserves-seq,
  alloc_buf-Preserves, now_ns-Preserves, io_write-Preserves, zero_region-Preserves,
}
use mini_fs.Meta.Leaves.{InBlocks}
use mini_fs.Tools.Mkfs.{format_regions}

-- The block of the label, those of the two superblocks, and the data region.
pub data Spared (l : DeviceLayout) (j : ℕ) : Type 0 where
  label : InBlocks 0 1 j → Spared l j
  head : InBlocks 1 2 j → Spared l j
  tail : InBlocks l.sb_tail_lba (l.sb_tail_lba + 1) j → Spared l j
  data_block : InBlocks l.data_start_lba l.alloc_roots_tail_lba j → Spared l j

-- The blocks of the two superblocks, and the data region.
abbrev pub Unpublished : DeviceLayout → ℕ → Type 0
Unpublished l j =
    (InBlocks 1 2 j ⊎ InBlocks l.sb_tail_lba (l.sb_tail_lba + 1) j)
    ⊎ InBlocks l.data_start_lba l.alloc_roots_tail_lba j

Unpublished-Spared : (l : DeviceLayout) (j : ℕ) → Unpublished l j → Spared l j
Unpublished-Spared l j (inl (inl p)) = head p
Unpublished-Spared l j (inl (inr p)) = tail p
Unpublished-Spared l j (inr p) = data_block p

module _ (l : DeviceLayout) (laid : IsLaid l) (small : l.capacity_blocks < 2 ^ 51) where
  -- The regions between the uberblocks and the data.
  front_Avoids : (lba n : ℕ) → 2 ≤ lba → lba + n ≤ l.data_start_lba → Avoids (Spared l) lba n
  front_Avoids lba n lo hi j (label p) = inl (omega arith)
  front_Avoids lba n lo hi j (head p) = inl (omega arith)
  front_Avoids lba n lo hi j (tail p) = inr (omega (arith, laid.data_end, laid.tail))
  front_Avoids lba n lo hi j (data_block p) = inr (omega arith)

  pub mbr_Avoids : Avoids (Unpublished l) 0 1
  mbr_Avoids j (inl (inl p)) = inr (omega arith)
  mbr_Avoids j (inl (inr p)) = inr (omega (arith, laid.tail))
  mbr_Avoids j (inr p) = inr (omega (arith, laid.data_start, laid.dir_range))

  tail_roots_Avoids : Avoids (Spared l) l.alloc_roots_tail_lba 1
  tail_roots_Avoids j (label p) =
      inl (omega (arith, laid.data_end, laid.data_start, laid.dir_range))
  tail_roots_Avoids j (head p) = inl (omega (arith, laid.data_end, laid.data_start, laid.dir_range))
  tail_roots_Avoids j (tail p) = inr (omega (arith, laid.tail))
  tail_roots_Avoids j (data_block p) = inl (omega arith)

  front_end :
      (l.uberblock_lba ≡ 2)
      × (2 + l.uberblock_count + 1 ≤ l.bitmap_lba)
      × (l.bitmap_lba + l.bitmap_block_count ≤ l.stream_map_lba)
      × (l.stream_map_lba + l.stream_map_block_count ≤ l.inode_page_lba)
      × (l.inode_page_lba + l.inode_page_block_count ≤ l.dir_page_lba)
      × (l.dir_page_lba + l.dir_page_block_count ≤ l.data_start_lba)
      × (l.data_start_lba < 2 ^ 51)
      × (l.alloc_roots_tail_lba < 2 ^ 51)
  front_end = (
    laid.head.2,
    omega (arith, laid.head, laid.roots, laid.bitmap),
    omega (arith, laid.stream),
    omega (arith, laid.inodes),
    omega (arith, laid.dirs),
    omega (arith, laid.data_start),
    omega (arith, laid.data_end, laid.tail),
    omega (arith, laid.tail),
  )

  front_write :
      (lba n : ℕ) (src : Bytes)
      → 2 ≤ lba
      → lba + n ≤ l.data_start_lba
      → Preserves (Spared l) (io_write lba n src)
  front_write lba n src lo hi =
      io_write-Preserves lba n src (omega (arith, front_end)) (front_Avoids lba n lo hi)

  front_zero :
      (lba n : ℕ) → 2 ≤ lba → lba + n ≤ l.data_start_lba → Preserves (Spared l) (zero_region lba n)
  front_zero lba n lo hi =
      zero_region-Preserves lba n (omega (arith, front_end)) (front_Avoids lba n lo hi)

  pub mbr_write-Preserves :
      (device_uuid cap : ℕ) → Preserves (Unpublished l) (mbr_write device_uuid cap)
  unfolding mbr_write
  mbr_write-Preserves device_uuid cap =
      Preserves-seq alloc_buf-Preserves (io_write-Preserves 0 1 _ (omega arith) mbr_Avoids)

  zero_slots-Preserves :
      (lba rounds i : ℕ)
      → 2 ≤ lba
      → lba + i + rounds ≤ l.data_start_lba
      → Preserves (Spared l) (zero_slots lba rounds i)
  unfolding zero_slots
  zero_slots-Preserves lba zero i lo hi = Preserves-pure
  zero_slots-Preserves lba (suc rounds) i lo hi =
      let e : add64 lba i ≡ lba + i = omega (arith, front_end) in
      Preserves-seq (rw e (front_write (lba + i) 1 zeros (omega arith) (omega arith)))
        (zero_slots-Preserves lba rounds (i + 1) lo (omega arith))

  uberblock_init_region-Preserves : Preserves (Spared l) (uberblock_init_region l)
  unfolding uberblock_init_region
  uberblock_init_region-Preserves = Preserves-seq alloc_buf-Preserves (
      Preserves-seq
        (zero_slots-Preserves l.uberblock_lba l.uberblock_count 0 (omega (arith, front_end))
          (omega (arith, front_end)))
        (Preserves-seq alloc_buf-Preserves (
          Preserves-bind now_ns-Preserves (λ t.
            front_write l.uberblock_lba 1 _ (omega (arith, front_end))
              (omega (arith, front_end))))))

  allocator_roots_init-Preserves : Preserves (Spared l) (allocator_roots_init l)
  unfolding allocator_roots_init
  allocator_roots_init-Preserves = Preserves-seq alloc_buf-Preserves (
      Preserves-seq
        (front_write l.alloc_roots_head_lba 1 _ (omega (arith, front_end, laid.roots))
          (omega (arith, front_end, laid.bitmap)))
        (io_write-Preserves l.alloc_roots_tail_lba 1 _ (omega (arith, front_end))
          tail_roots_Avoids))

  write_pages-Preserves :
      (rounds p : ℕ)
      → l.bitmap_lba + p + rounds ≤ l.data_start_lba
      → Preserves (Spared l) (write_pages l rounds p)
  unfolding write_pages
  write_pages-Preserves zero p hi = Preserves-pure
  write_pages-Preserves (suc rounds) p hi =
      let e : add64 l.bitmap_lba p ≡ l.bitmap_lba + p = omega (arith, front_end) in
      Preserves-seq
        (rw e (
          front_write (l.bitmap_lba + p) 1 (bitmap_page l p) (omega (arith, front_end))
            (omega arith)))
        (write_pages-Preserves rounds (p + 1) (omega arith))

  bitmap_init-Preserves : Preserves (Spared l) (bitmap_init l)
  unfolding bitmap_init
  bitmap_init-Preserves = Preserves-seq alloc_buf-Preserves (
      Preserves-seq (write_pages-Preserves l.bitmap_block_count 0 (omega (arith, front_end))) (
        front_zero l.stream_map_lba l.stream_map_block_count (omega (arith, front_end))
          (omega (arith, front_end))))

  inode_page_init-Preserves : Preserves (Spared l) (inode_page_init l)
  unfolding inode_page_init
  inode_page_init-Preserves =
      Preserves-seq
        (front_zero l.inode_page_lba l.inode_page_block_count (omega (arith, front_end))
          (omega (arith, front_end)))
        (Preserves-seq alloc_buf-Preserves (
          Preserves-bind now_ns-Preserves (λ t.
            front_write l.inode_page_lba 1 _ (omega (arith, front_end))
              (omega (arith, front_end, laid.inode_range)))))

  dir_page_init-Preserves : Preserves (Spared l) (dir_page_init l)
  unfolding dir_page_init
  dir_page_init-Preserves =
      let e : add64 l.dir_page_lba 1 ≡ l.dir_page_lba + 1 = omega (arith, front_end) in
      Preserves-seq
        (front_zero l.dir_page_lba l.dir_page_block_count (omega (arith, front_end))
          (omega (arith, front_end)))
        (Preserves-seq alloc_buf-Preserves (
          Preserves-seq
            (front_write l.dir_page_lba 1 _ (omega (arith, front_end))
              (omega (arith, front_end, laid.dir_range)))
            (Preserves-seq alloc_buf-Preserves (
              rw e (
                front_write (l.dir_page_lba + 1) 1 root_entry_block (omega (arith, front_end))
                  (omega (arith, front_end, laid.dir_range)))))))

  -- What `format_regions` does after the label.
  pub rest_of_regions-Preserves : Preserves (Spared l) (
      uberblock_init_region l
      >> (allocator_roots_init l >> (bitmap_init l >> (inode_page_init l >> dir_page_init l))))
  rest_of_regions-Preserves = Preserves-seq uberblock_init_region-Preserves (
      Preserves-seq allocator_roots_init-Preserves (
        Preserves-seq bitmap_init-Preserves
          (Preserves-seq inode_page_init-Preserves dir_page_init-Preserves)))

  pub format_regions-Preserves :
      (device_uuid cap : ℕ) → Preserves (Unpublished l) (format_regions device_uuid cap l)
  unfolding format_regions
  format_regions-Preserves device_uuid cap =
      Preserves-seq (mbr_write-Preserves device_uuid cap)
        (Preserves-weaken (Unpublished-Spared l) rest_of_regions-Preserves)
