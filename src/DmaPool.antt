-- ===== src/DmaPool.antt =====
-- src/io/nebula_dma_pool.c: a pool of equal buffers on a free list whose links lie in the buffers.
-- Addresses are numbers of 64 bits, 0 is NULL, and memory is bytes; a link is a pointer of eight of
-- them. The allocation that SPDK makes is the parameter `dma_alloc`.
use mini_fs.Base.{
  ℕ, zero, suc, ◌+◌, ◌-◌, ◌*◌, ◌/◌, ◌%◌, Bool, not, ◌||◌, Option, none, some, ltb, ◌==◌,
  if◌then◌else◌, u32_mod, add64, sub64, mul64, u32,
}
use mini_fs.Format.Bytes.{Bytes, clear, read_le, write_le}

pub record Pool : Type 0 where
  pub dma_base : ℕ
  pub free_head : ℕ
  pub n_bufs : ℕ
  pub buf_size : ℕ
  pub available : ℕ
  pub memory : Bytes

-- `(sz + align - 1) & ~(align - 1)`, where `align` is a power of two as the comment demands.
unfoldable pub align_up : (sz align : ℕ) → ℕ
align_up sz align = sub64 (add64 sz align) 1 / align * align

-- `node->next`
unfoldable pub next_of : Bytes → (node : ℕ) → ℕ
unfolding read_le
next_of memory node = read_le 8 node memory

unfoldable pub set_next : Bytes → (node next : ℕ) → Bytes
unfolding write_le
set_next memory node next = write_le 8 node next memory

-- The loop that links the buffers: `rounds` are left from address `ptr` on.
unfoldable pub link_buffers : (rounds ptr size : ℕ) → ℕ × Bytes → ℕ × Bytes
unfolding set_next
link_buffers zero ptr size s = s
link_buffers (suc rounds) ptr size (head, memory) =
    link_buffers rounds (add64 ptr size) size (ptr, set_next memory ptr head)

-- The size of a buffer: at least that of a link.
unfoldable pub aligned_size : (buf_size : ℕ) → ℕ
unfolding align_up
aligned_size buf_size = let aligned = align_up buf_size 4096 in if ltb aligned 8 then 8 else aligned

-- `none` is the NULL that is returned. `dma_alloc` answers for a number of bytes with an address in
-- `memory`, or 0; `has_struct` is whether `calloc` can be served.
unfoldable pub pool_create :
    (dma_alloc : ℕ → ℕ) (has_struct : Bool) (memory : Bytes) (n_bufs buf_size : ℕ) → Option Pool
unfolding aligned_size link_buffers
pool_create dma_alloc has_struct memory n_bufs buf_size =
    let size = aligned_size buf_size in
    let total = mul64 n_bufs size in
    let base = dma_alloc total in
    let linked = link_buffers n_bufs base size (0, memory) in
    if n_bufs == 0 || buf_size == 0
    then none
    else if base == 0
    then none
    else if not has_struct
    then none
    else some (record {
      dma_base = base;
      free_head = linked.0;
      n_bufs = n_bufs;
      buf_size = size;
      available = n_bufs;
      memory = linked.1;
    })

-- `none` where the code waits for a buffer.
unfoldable pub pool_get : Pool → Option (ℕ × Pool)
unfolding next_of clear
pool_get p =
    if p.free_head == 0
    then none
    else some (
      p.free_head,
      record p {
        free_head = next_of p.memory p.free_head;
        available = (p.available + (u32_mod - 1)) % u32_mod;
        memory = clear p.free_head p.buf_size p.memory;
      },
    )

unfoldable pub pool_put : Pool → ℕ → Pool
unfolding set_next
pool_put p buf = if buf == 0 then p else record p {
  free_head = buf;
  available = u32 (p.available + 1);
  memory = set_next p.memory buf p.free_head;
}
