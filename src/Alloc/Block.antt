-- ===== src/Alloc/Block.antt =====
-- `nebula_block_alloc` and `nebula_block_free`, whole: the scan, the bits, the summaries, the
-- write of the dirty pages, and the roll back when that write fails.
use mini_fs.Base.{
  ℕ, ◌+◌, ◌-◌, ◌*◌, ◌/◌, Option, none, some, ltb, ◌==◌, if◌then◌else◌, add64, mul64, u32, Result,
  ok, err, Cmd, einval, enospc, erange,
}
use mini_fs.Format.Bytes.{Bytes, load}
use mini_fs.Format.Consts.{block_size, bits_per_page}
use mini_fs.Format.Superblock
use mini_fs.Bits.{set_run, clr_run, all_set}
use mini_fs.Io.Posix.{io_write}
use mini_fs.State.{HierBitmap, Mount, on_io}
use mini_fs.Alloc.Scan.{find_run}
use mini_fs.Alloc.Summary.{update_pages, Direction, taken, given}

-- The L0 bits from byte `from` on, as the buffer of a write.
unfoldable pub slice : ℕ → Bytes → Bytes
slice from b j = b (from + j)

-- Write the bitmap pages that cover bits `first_bit … last_bit` back to disk.
unfoldable pub flush_dirty_pages : ℕ → ℕ → Cmd Mount (Unit {0})
unfolding on_io slice
flush_dirty_pages first_bit last_bit m =
    let first_page = first_bit / bits_per_page in
    let last_page = last_bit / bits_per_page in
    let n_pages = u32 (last_page - first_page + 1) in
    on_io
      (io_write (add64 (load Superblock.bitmap_lba m.sb) first_page) n_pages
        (slice (first_page * block_size) m.bitmap.l0_bits))
      m

-- Apply a change of bits `first_bit … last_bit` to the summaries.
unfoldable pub update_summaries : ℕ → ℕ → Direction → HierBitmap → HierBitmap
unfolding update_pages
update_summaries first_bit last_bit dir h =
    let first_page = first_bit / bits_per_page in
    let last_page = last_bit / bits_per_page in
    update_pages (last_page + 1 - first_page) first_page first_bit last_bit dir h

-- Set or clear a run of bits in L0.
unfoldable pub mark : ℕ → ℕ → HierBitmap → HierBitmap
mark s n h = record h { l0_bits = set_run n s h.l0_bits }

unfoldable pub unmark : ℕ → ℕ → HierBitmap → HierBitmap
unmark s n h = record h { l0_bits = clr_run n s h.l0_bits }

-- `total_bits`, the bits that the scan looks at
unfoldable pub scan_limit : Mount → ℕ
scan_limit m =
    let total_bits = mul64 m.bitmap.num_pages bits_per_page in
    let capacity = load Superblock.device_capacity_blocks m.sb in
    if ltb capacity total_bits then capacity else total_bits

-- What follows the flush of a run just taken: roll back if it failed.
unfoldable pub settle_taken : ℕ → ℕ → Result (Unit {0}) × Mount → Result ℕ × Mount
unfolding update_summaries unmark
settle_taken n run_start (ok _, m) = (ok run_start, m)
settle_taken n run_start (err e, m) = (
  err e,
  record m {
    bitmap = update_summaries run_start (run_start + n - 1) given (unmark run_start n m.bitmap);
  },
)

-- The body of the scan at the run that it found.
unfoldable pub take_run : ℕ → ℕ → Cmd Mount ℕ
unfolding update_summaries mark settle_taken
take_run n run_start m =
    let last_bit = run_start + n - 1 in
    let h = update_summaries run_start last_bit taken (mark run_start n m.bitmap) in
    settle_taken n run_start (flush_dirty_pages run_start last_bit (record m { bitmap = h }))

unfoldable pub take_found : ℕ → Option ℕ → Cmd Mount ℕ
unfolding take_run
take_found n none m = (err enospc, m)
take_found n (some run_start) m = take_run n run_start m

unfoldable pub block_alloc : ℕ → Cmd Mount ℕ
unfolding take_found scan_limit
block_alloc n m =
    if n == 0
    then (err einval, m)
    else if ltb m.bitmap.l2_total_free n
    then (err enospc, m)
    else take_found n (find_run m.bitmap.l0_bits n (scan_limit m) 0 0 0) m

-- What follows the flush of a run just given back: roll back if it failed.
unfoldable pub settle_given : ℕ → ℕ → Result (Unit {0}) × Mount → Result (Unit {0}) × Mount
unfolding update_summaries mark
settle_given lba n (ok _, m) = (ok tt, m)
settle_given lba n (err e, m) =
    (err e, record m { bitmap = update_summaries lba (lba + n - 1) taken (mark lba n m.bitmap) })

unfoldable pub release_run : ℕ → ℕ → Cmd Mount (Unit {0})
unfolding update_summaries unmark settle_given
release_run lba n m =
    let last_bit = lba + n - 1 in
    let h = update_summaries lba last_bit given (unmark lba n m.bitmap) in
    settle_given lba n (flush_dirty_pages lba last_bit (record m { bitmap = h }))

unfoldable pub block_free : ℕ → ℕ → Cmd Mount (Unit {0})
unfolding release_run
block_free lba n m =
    if n == 0
    then (err einval, m)
    else if ltb (load Superblock.device_capacity_blocks m.sb) (add64 lba n)
    then (err erange, m)
    else if all_set m.bitmap.l0_bits n lba
    then release_run lba n m
    else (err einval, m)
