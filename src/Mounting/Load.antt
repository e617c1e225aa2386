-- ===== src/Mounting/Load.antt =====
-- `nebula_hbm_load`: the bitmap pages and the counts of free blocks that are built from them.
use mini_fs.Base.{
  ℕ, zero, suc, ◌+◌, ◌-◌, ◌*◌, ◌/◌, ◌%◌, bit_and, not, ltb, leb, ◌==◌, if◌then◌else◌, add64, u32,
  Cmd, pure, ◌>>=◌, ◌>>◌, guard, einval,
}
use mini_fs.Format.Bytes.{Bytes, at}
use mini_fs.Format.Consts.{block_size, bits_per_page, pages_per_group}
use mini_fs.State.{HierBitmap}
use mini_fs.Io.Raw.{Io, alloc_buf}
use mini_fs.Io.Posix.{io_read}

-- The bits set in a byte, by sums of pairs, nibbles and halves.
unfoldable pub popcount8 : ℕ → ℕ
popcount8 b =
    let pairs = (bit_and b 0x55 + bit_and (b / 2) 0x55) % 256 in
    let nibbles = (bit_and pairs 0x33 + bit_and (pairs / 4) 0x33) % 256 in
    (bit_and nibbles 0x0F + bit_and (nibbles / 16) 0x0F) % 256

-- The bits set in `n` bytes from byte `i` on.
unfoldable pub count_bits : Bytes → ℕ → ℕ → ℕ
unfolding popcount8
count_bits bm zero i = 0
count_bits bm (suc n) i = popcount8 (at bm i) + count_bits bm n (i + 1)

-- The blocks that page `page` stands for: the last page may be cut short by the capacity.
unfoldable pub blocks_of_page : (total_blocks page : ℕ) → ℕ
blocks_of_page total_blocks page =
    let page_start_block = page * bits_per_page in
    if ltb total_blocks (page_start_block + bits_per_page)
    then (if ltb page_start_block total_blocks then total_blocks - page_start_block else 0)
    else bits_per_page

unfoldable pub free_in_page : Bytes → (total_blocks page : ℕ) → ℕ
unfolding blocks_of_page
free_in_page bm total_blocks page =
    let alloc_bits = count_bits bm block_size (page * block_size) in
    let blocks = blocks_of_page total_blocks page in
    if leb blocks alloc_bits then 0 else blocks - alloc_bits

-- One round of the summary loop.
unfoldable pub add_page : ℕ → HierBitmap → HierBitmap
add_page page h =
    let free = free_in_page h.l0_bits h.total_blocks page in
    let group = u32 (page / pages_per_group) in
    record h {
      l1_free_counts =
          λ g. if g == group then add64 (h.l1_free_counts g) free else h.l1_free_counts g;
      l2_total_free = add64 h.l2_total_free free;
    }

-- `rounds` pages are left from `page` on.
unfoldable pub summarise : (rounds page : ℕ) → HierBitmap → HierBitmap
unfolding add_page
summarise zero page h = h
summarise (suc rounds) page h = summarise rounds (page + 1) (add_page page h)

unfoldable pub loaded : (bitmap_block_count total_blocks : ℕ) → Bytes → HierBitmap
unfolding summarise
loaded bitmap_block_count total_blocks bits = summarise bitmap_block_count 0 (record {
  total_blocks = total_blocks;
  num_pages = bitmap_block_count;
  l0_bits = bits;
  num_groups = u32 ((bitmap_block_count + pages_per_group - 1) / pages_per_group);
  l1_free_counts = λ g. 0;
  l2_total_free = 0;
})

-- Three allocations, one read of the whole region, and the summaries.
unfoldable pub hbm_load : (bitmap_lba bitmap_block_count total_blocks : ℕ) → Cmd Io HierBitmap
unfolding loaded
hbm_load bitmap_lba bitmap_block_count total_blocks = do
  guard (not (bitmap_block_count == 0)) einval
  alloc_buf
  alloc_buf
  alloc_buf
  bits ← io_read bitmap_lba (u32 bitmap_block_count)
  pure (loaded bitmap_block_count total_blocks bits)
