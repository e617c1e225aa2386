-- ===== src/Meta/Regions.antt =====
-- src/nebula/nebula_bitmap.c and nebula_inode_init.c: what mkfs writes into the bitmap, stream map,
-- inode and directory regions.
use mini_fs.Base.{
  ℕ, zero, suc, ◌+◌, ◌-◌, ◌*◌, ◌%◌, min, bit_or, bit_xor, Bool, ◌||◌, List, [], ◌∷◌, ltb, leb,
  if◌then◌else◌, add64, sub64, mul64, Cmd, pure, ◌>>=◌, ◌>>◌,
}
use mini_fs.Format.Bytes.{Bytes, zeros, put, store}
use mini_fs.Format.Consts.{
  block_size, bits_per_page, magic_inode, magic_dir_page, type_dir, dir_entry_size,
  dir_entries_per_block, flag_used, flag_dir,
}
use mini_fs.Format.Crc.{seal}
use mini_fs.Format.Inode
use mini_fs.Format.DirHeader
use mini_fs.Format.DirEntry
use mini_fs.Bits.{bit_set}
use mini_fs.Layout.{DeviceLayout}
use mini_fs.Io.Raw.{Io, alloc_buf, now_ns}
use mini_fs.Io.Posix.{io_write}

-- The loop of `write_zeros` and `zero_region`, 64 blocks at a time, with fuel for its rounds.
unfoldable pub zero_batches : (fuel lba remaining : ℕ) → Cmd Io (Unit {0})
zero_batches zero lba remaining = pure tt
zero_batches (suc fuel) lba remaining =
    let chunk = if ltb 64 remaining then 64 else remaining in
    let more = (do
      io_write lba chunk zeros
      zero_batches fuel (add64 lba chunk) (remaining - chunk)) in
    if ltb 0 remaining then more else pure tt

unfoldable pub zero_region : (lba n_blocks : ℕ) → Cmd Io (Unit {0})
unfolding zero_batches
zero_region lba n_blocks = do alloc_buf; zero_batches (n_blocks + 1) lba n_blocks

unfoldable pub lba_is_metadata : DeviceLayout → ℕ → Bool
lba_is_metadata l lba = ltb lba l.data_start_lba || leb l.alloc_roots_tail_lba lba

-- The inner loop of `nebula_bitmap_init`: `rounds` blocks are left from `lba` on.
unfoldable pub mark_metadata : DeviceLayout → (rounds first_lba lba : ℕ) → Bytes → Bytes
unfolding lba_is_metadata
mark_metadata l zero first_lba lba page = page
mark_metadata l (suc rounds) first_lba lba page =
    mark_metadata l rounds first_lba (lba + 1)
      (if lba_is_metadata l lba then bit_set page (lba - first_lba) else page)

-- Page `p` of the fresh bitmap.
unfoldable pub bitmap_page : DeviceLayout → ℕ → Bytes
unfolding mark_metadata
bitmap_page l p =
    let first_lba = p * bits_per_page in
    let last_lba = min (first_lba + bits_per_page) l.capacity_blocks in
    mark_metadata l (last_lba - first_lba) first_lba first_lba zeros

unfoldable pub write_pages : DeviceLayout → (rounds p : ℕ) → Cmd Io (Unit {0})
unfolding bitmap_page
write_pages l zero p = pure tt
write_pages l (suc rounds) p = do
  io_write (add64 l.bitmap_lba p) 1 (bitmap_page l p)
  write_pages l rounds (p + 1)

unfoldable pub bitmap_init : DeviceLayout → Cmd Io (Unit {0})
unfolding write_pages zero_region
bitmap_init l = do
  alloc_buf
  write_pages l l.bitmap_block_count 0
  zero_region l.stream_map_lba l.stream_map_block_count

-- An inode with the fields that `nebula_inode_page_init` and `nebula_inode_alloc` set.
unfoldable pub fresh_inode : (inode_num type mode time : ℕ) → Bytes
fresh_inode inode_num type mode time = seal Inode.checksum block_size (
    store Inode.flags 0 (
      store Inode.nlink 1 (
        store Inode.ctime_ns time (
          store Inode.mtime_ns time (
            store Inode.atime_ns time (
              store Inode.alloc_size_bytes 0 (
                store Inode.size_bytes 0 (
                  store Inode.mode mode (
                    store Inode.type type (
                      store Inode.inode_num inode_num
                        (store Inode.version 1 (store Inode.magic magic_inode zeros))))))))))))

unfoldable pub inode_page_init : DeviceLayout → Cmd Io (Unit {0})
unfolding zero_region fresh_inode
inode_page_init l = do
  zero_region l.inode_page_lba l.inode_page_block_count
  alloc_buf
  t ← now_ns
  io_write l.inode_page_lba 1 (fresh_inode 0 type_dir 0o755 t)

-- `fnv1a_hash` of a C string, as the list of its bytes.
unfoldable pub fnv1a_from : ℕ → List ℕ → ℕ
fnv1a_from h [] = h
fnv1a_from h (c ∷ s) = fnv1a_from (mul64 (bit_xor h (c % 256)) 0x100_0000_01b3) s

unfoldable pub fnv1a_hash : List ℕ → ℕ
unfolding fnv1a_from
fnv1a_hash s = fnv1a_from 0xcbf2_9ce4_8422_2325 s

unfoldable pub dir_header_block : ℕ → Bytes
dir_header_block total_blocks = seal DirHeader.checksum block_size (
    store DirHeader.num_entries 1 (
      store DirHeader.capacity (mul64 (sub64 total_blocks 1) dir_entries_per_block) (
        store DirHeader.entry_size dir_entry_size
          (store DirHeader.version 1 (store DirHeader.magic magic_dir_page zeros)))))

-- The first content block, with the entry of `/`.
unfoldable pub root_entry_block : Bytes
unfolding fnv1a_hash
root_entry_block =
    put
      (store (DirEntry.flags 0) (bit_or flag_used flag_dir) (
        store (DirEntry.name_len 0) 1 (
          store (DirEntry.inode_num 0) 0 (store (DirEntry.hash 0) (fnv1a_hash (b'/' ∷ [])) zeros))))
      24 b'/'

unfoldable pub dir_page_init : DeviceLayout → Cmd Io (Unit {0})
unfolding zero_region dir_header_block root_entry_block
dir_page_init l = do
  zero_region l.dir_page_lba l.dir_page_block_count
  alloc_buf
  io_write l.dir_page_lba 1 (dir_header_block l.dir_page_block_count)
  alloc_buf
  io_write (add64 l.dir_page_lba 1) 1 root_entry_block
