-- ===== src/Tests/Alloc.antt =====
-- A device of 70 blocks, all free, and what the block allocator does on it.
use mini_fs.Base.{
  ℕ, ◌+◌, ◌/◌, ◌%◌, ◌^◌, ◌≤◌, ◌≡◌, refl, sym, false, [], arith, ok, err, einval, enospc,
}
use mini_fs.Format.Bytes.{Bytes, put, zeros, load, store}
use mini_fs.Format.Superblock
use mini_fs.Bits.{all_set, bit_get, bit_set, set_run, bit_get-set_run}
use mini_fs.Io.Raw.{Io}
use mini_fs.Io.Posix.{io_write}
use mini_fs.State.{Mount}
use mini_fs.Alloc.Scan.{AllFree, find_run}
use mini_fs.Alloc.Valid.{IsSummed}
use mini_fs.Alloc.Laws.{IsMounted, used, UsedRun, ReleaseRun}
use mini_fs.Alloc.Held.{first}
use mini_fs.Alloc.Ownership.{
  Steps, none_yet, then_one, allocated, released, Implements, Steps-Implements,
}
use mini_fs.Alloc.Block.{take_run, block_alloc, block_free, flush_dirty_pages}
use mini_fs.Alloc.Claims.{
  Allocates, FirstFit, block_alloc-Allocates, block_alloc-enospc, block_alloc_reaches,
}
use mini_fs.Alloc.Release.{
  Restores, block_free-einval, block_free-ReleaseRun, block_free-block_alloc,
}
use mini_fs.Mounting.Load.{loaded, count_bits, free_in_page}
use mini_fs.Mounting.Summaries.{ClearBehind}
use mini_fs.Mounting.Claims.{loaded-IsSummed}

abbrev blocks : ℕ
blocks = 70

abbrev device : Io
device = record { capacity_blocks = blocks; disk = zeros; syscalls = []; allocs = []; clock = [] }

abbrev small_sb : Bytes
small_sb = store Superblock.bitmap_lba 5 (store Superblock.device_capacity_blocks blocks zeros)

abbrev all_clear : Bytes
all_clear = zeros

abbrev pub small_mount : Mount
small_mount = record {
  io = device;
  mbr = zeros;
  sb = small_sb;
  current_ub = zeros;
  current_ub_slot = 0;
  bitmap = loaded 1 blocks all_clear;
}

zero_div : (k : ℕ) → 0 / 2 ^ k ≡ 0
zero_div k = grind arith

clear_behind : (i : ℕ) → bit_get all_clear i ≡ false
unfolding bit_get
clear_behind i = rw (zero_div (i % 8)) refl

capacity-small_sb : load Superblock.device_capacity_blocks small_sb ≡ blocks
unfolding load store put
capacity-small_sb = refl

pub small_mount-IsMounted : IsMounted small_mount
unfolding loaded
small_mount-IsMounted = record {
  summed = loaded-IsSummed 1 blocks all_clear (omega arith) (omega arith) (λ i p. clear_behind i);
  sized = sym capacity-small_sb;
}

all_free : AllFree all_clear 0 3
all_free i p q = clear_behind i

total-loaded : (bm : Bytes) → (loaded 1 blocks bm).total_blocks ≡ blocks
unfolding loaded
total-loaded bm = refl

bits-loaded : (bm : Bytes) → (loaded 1 blocks bm).l0_bits ≡ bm
unfolding loaded
bits-loaded bm = refl

-- The same device with its first three blocks in use.
abbrev busy_bits : Bytes
busy_bits = set_run 3 0 zeros

abbrev busy_mount : Mount
busy_mount = record small_mount { bitmap = loaded 1 blocks busy_bits }

busy-ClearBehind : ClearBehind busy_bits blocks
busy-ClearBehind i p = ground (arith, bit_get-set_run 3 0 zeros i, clear_behind i)

busy_mount-IsMounted : IsMounted busy_mount
unfolding loaded
busy_mount-IsMounted = record {
  summed = loaded-IsSummed 1 blocks busy_bits (omega arith) (omega arith) busy-ClearBehind;
  sized = sym capacity-small_sb;
}

busy_run : UsedRun busy_mount 0 3
unfolding loaded
busy_run i p q = ground (arith, bit_get-set_run 3 0 zeros i)

busy_free : bit_get busy_mount.bitmap.l0_bits 3 ≡ false
unfolding loaded
busy_free = ground (arith, bit_get-set_run 3 0 zeros 3, clear_behind 3)

-- The mount after an allocation of three blocks.
abbrev after_alloc : Mount
after_alloc = (block_alloc 3 small_mount).1

alloc_of_three : block_alloc 3 small_mount ≡ (ok 0, after_alloc)
unfolding block_alloc loaded free_in_page count_bits find_run load store put bit_get
    flush_dirty_pages io_write
alloc_of_three = refl

first_of_busy : (block_alloc 2 busy_mount).0 ≡ ok 3
unfolding block_alloc loaded free_in_page count_bits set_run bit_set find_run load store bit_get
    flush_dirty_pages io_write
first_of_busy = refl

loaded-IsSummed_example : IsSummed (loaded 1 blocks busy_bits)
loaded-IsSummed_example =
    loaded-IsSummed 1 blocks busy_bits (omega arith) (omega arith) busy-ClearBehind

block_alloc-Allocates_example : Allocates 2 busy_mount (block_alloc 2 busy_mount)
block_alloc-Allocates_example = block_alloc-Allocates 2 busy_mount busy_mount-IsMounted

too_long :
    (s : ℕ) → s + 71 ≤ small_mount.bitmap.total_blocks → ¬ AllFree small_mount.bitmap.l0_bits s 71
unfolding loaded
too_long s le all = omega arith

block_alloc-enospc_example : block_alloc 71 small_mount ≡ (err enospc, small_mount)
block_alloc-enospc_example =
    block_alloc-enospc 71 small_mount small_mount-IsMounted (omega arith) too_long

block_alloc_reaches_example :
    (s' : ℕ) × FirstFit 3 small_mount s' × (block_alloc 3 small_mount ≡ take_run 3 s' small_mount)
unfolding loaded
block_alloc_reaches_example =
    block_alloc_reaches 3 0 small_mount small_mount-IsMounted (omega arith) (omega arith) all_free

block_free-einval_example : block_free 2 2 busy_mount ≡ (err einval, busy_mount)
unfolding loaded
block_free-einval_example =
    block_free-einval 2 2 busy_mount busy_mount-IsMounted (omega arith) (omega arith) 3
      (omega arith) (omega arith) (omega arith) busy_free

block_free-ReleaseRun_example : ReleaseRun 3 0 busy_mount (block_free 0 3 busy_mount)
unfolding loaded
block_free-ReleaseRun_example =
    block_free-ReleaseRun 0 3 busy_mount busy_mount-IsMounted (omega arith) (omega arith) busy_run
      (omega arith)

block_free-block_alloc_example : Restores small_mount (block_free 0 3 after_alloc)
block_free-block_alloc_example =
    block_free-block_alloc 3 0 small_mount after_alloc small_mount-IsMounted (omega arith)
      alloc_of_three

-- The mount after the release of these blocks.
abbrev after_free : Mount
after_free = (block_free 0 3 after_alloc).1

free_of_three : block_free 0 3 after_alloc ≡ (ok tt, after_free)
unfolding block_free block_alloc loaded free_in_page count_bits find_run load store put bit_get
    flush_dirty_pages io_write all_set set_run bit_set
free_of_three = refl

-- An allocation and its release.
alloc_free-Steps : Steps (small_mount, []) (after_free, [])
alloc_free-Steps =
    then_one (then_one none_yet (allocated 3 0 alloc_of_three))
      (released (record { lba = 0; size = 3 }) first free_of_three)

Steps-Implements_example :
    Implements
      (used small_mount)
      (load Superblock.device_capacity_blocks small_mount.sb)
      (after_free, [])
Steps-Implements_example =
    Steps-Implements small_mount (after_free, []) small_mount-IsMounted alloc_free-Steps
