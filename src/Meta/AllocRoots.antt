-- ===== src/Meta/AllocRoots.antt =====
-- src/nebula/nebula_allocator_roots.c: the data region split among 128 allocator roots.
use mini_fs.Base.{
  ℕ, zero, suc, ◌+◌, ◌-◌, ◌*◌, ◌/◌, ◌==◌, if◌then◌else◌, add64, sub64, mul64, Cmd, ◌>>◌,
}
use mini_fs.Format.Bytes.{Bytes, zeros, clear, store}
use mini_fs.Format.Consts.{alloc_roots_total, alloc_roots_head, alloc_roots_tail}
use mini_fs.Format.Crc.{crc32c}
use mini_fs.Format.AllocRoot
use mini_fs.Layout.{DeviceLayout}
use mini_fs.Io.Raw.{Io, alloc_buf}
use mini_fs.Io.Posix.{io_read, io_write}

-- The bytes from `base` on, as a structure of their own.
unfoldable pub struct_at : ℕ → Bytes → Bytes
struct_at base b j = b (base + j)

-- `nebula_allocator_root_checksum` of the root at `base` of a block
unfoldable pub root_checksum : ℕ → Bytes → ℕ
unfolding struct_at
root_checksum base b = crc32c (struct_at base (store (AllocRoot.checksum base) 0 b)) 64

unfoldable pub per_root : (data_start data_end total_roots : ℕ) → ℕ
per_root data_start data_end total_roots = sub64 data_end data_start / total_roots

unfoldable pub range_start : (data_start data_end total_roots id : ℕ) → ℕ
range_start data_start data_end total_roots id =
    add64 data_start (mul64 id (per_root data_start data_end total_roots))

-- The last root takes what the division leaves over.
unfoldable pub range_end : (data_start data_end total_roots id : ℕ) → ℕ
range_end data_start data_end total_roots id =
    if id == total_roots - 1
    then data_end
    else add64 data_start (mul64 (id + 1) (per_root data_start data_end total_roots))

-- One round of `fill_roots`: root `id` at address `base` of the block.
unfoldable pub fill_root :
    (base id data_start data_end total_roots bitmap_lba stream_map_lba : ℕ) → Bytes → Bytes
unfolding range_start range_end per_root root_checksum
fill_root base id data_start data_end total_roots bitmap_lba stream_map_lba block =
    let start = range_start data_start data_end total_roots id in
    let end = range_end data_start data_end total_roots id in
    let b = store (AllocRoot.stream_map_region_lba base) stream_map_lba (
      store (AllocRoot.bitmap_region_lba base) bitmap_lba (
        store (AllocRoot.last_alloc_hint base) start (
          store (AllocRoot.free_block_count base) (sub64 end start) (
            store (AllocRoot.range_end_block base) end (
              store (AllocRoot.range_start_block base) start
                (store (AllocRoot.root_id base) id (clear base 64 block))))))) in
    store (AllocRoot.checksum base) (root_checksum base b) b

-- `count` roots are left from root `i` of the block on.
unfoldable pub fill_roots :
    (i start_id count data_start data_end total_roots bitmap_lba stream_map_lba : ℕ) → Bytes → Bytes
unfolding fill_root
fill_roots i start_id zero data_start data_end total bitmap_lba stream_map_lba block = block
fill_roots i start_id (suc count) data_start data_end total bitmap_lba stream_map_lba block =
    fill_roots (i + 1) start_id count data_start data_end total bitmap_lba stream_map_lba
      (fill_root (i * 64) (start_id + i) data_start data_end total bitmap_lba stream_map_lba block)

unfoldable pub allocator_roots_init : DeviceLayout → Cmd Io (Unit {0})
unfolding fill_roots
allocator_roots_init l = do
  alloc_buf
  io_write l.alloc_roots_head_lba 1 (
      fill_roots 0 0 alloc_roots_head l.data_start_lba l.alloc_roots_tail_lba alloc_roots_total
        l.bitmap_lba l.stream_map_lba zeros)
  io_write l.alloc_roots_tail_lba 1 (
      fill_roots 0 alloc_roots_head alloc_roots_tail l.data_start_lba l.alloc_roots_tail_lba
        alloc_roots_total l.bitmap_lba l.stream_map_lba zeros)

-- The block with the 64 roots.
unfoldable pub allocator_roots_read : ℕ → Cmd Io Bytes
allocator_roots_read lba = do alloc_buf; io_read lba 1
