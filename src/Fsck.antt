-- ===== src/Fsck.antt =====
-- tools/nebula_fsck.c: six checks of the metadata on a device, and the exit status.
use mini_fs.Base.{
  ℕ, zero, suc, ◌+◌, ◌*◌, Bool, true, not, ◌&&◌, ◌||◌, ◌==◌, if◌then◌else◌, Result, ok, err, Cmd,
  enoent,
}
use mini_fs.Format.Bytes.{Bytes, load}
use mini_fs.Format.Consts.{block_size, magic_dir_page, type_dir, alloc_roots_head}
use mini_fs.Format.Crc.{checksum_of}
use mini_fs.Format.Mbr
use mini_fs.Format.Superblock
use mini_fs.Format.AllocRoot
use mini_fs.Format.Inode
use mini_fs.Format.DirHeader
use mini_fs.Io.Raw.{Io, alloc_buf}
use mini_fs.Io.Posix.{io_read}
use mini_fs.Meta.Mbr.{mbr_read}
use mini_fs.Meta.Superblock.{superblock_read}
use mini_fs.Meta.Uberblock.{uberblock_read_slot}
use mini_fs.Meta.AllocRoots.{allocator_roots_read, root_checksum}

-- The two counters of the program.
pub record Report : Type 0 where
  pub warns : ℕ
  pub errs : ℕ

abbrev pub warn_if : Bool → Report → Report
warn_if bad r = if bad then record r { warns = r.warns + 1 } else r

abbrev pub fail_if : Bool → Report → Report
fail_if bad r = if bad then record r { errs = r.errs + 1 } else r

-- The state of the program: the counters and the device.
abbrev pub State : Type 0
State = Report × Io

unfoldable pub on_device : {A : Type 0} → Cmd Io A → State → Result A × State
on_device c (r, io) = let (a, io') = c io in (a, (r, io'))

-- [1/6]
unfoldable pub judge_mbr : Result Bytes × State → Result Bytes × State
judge_mbr (err e, (r, io)) = (err e, (fail_if true r, io))
judge_mbr (ok mbr, (r, io)) =
    (ok mbr, (warn_if (not (load Mbr.device_capacity_blocks mbr == io.capacity_blocks)) r, io))

unfoldable pub check_mbr : Cmd State Bytes
unfolding judge_mbr on_device
check_mbr st = judge_mbr (on_device mbr_read st)

-- [2/6] the tail against the head
unfoldable pub judge_tail : Bytes → Result Bytes × State → State
judge_tail head (err e, (r, io)) = (warn_if true r, io)
judge_tail head (ok tail, (r, io)) = (
  fail_if
      (not (load Superblock.uberblock_lba head == load Superblock.uberblock_lba tail)
        || not (load Superblock.bitmap_lba head == load Superblock.bitmap_lba tail))
      (fail_if (not (load Superblock.device_uuid head == load Superblock.device_uuid tail)) r),
  io,
)

unfoldable pub judge_head : (mbr : Bytes) → Result Bytes × State → Result Bytes × State
unfolding judge_tail on_device
judge_head mbr (err e, (r, io)) = (err e, (fail_if true r, io))
judge_head mbr (ok head, st) =
    let (r, io) =
      judge_tail head (on_device (superblock_read (load Superblock.sb_tail_lba head)) st) in
    (ok head, (fail_if (not (load Superblock.device_uuid head == load Mbr.device_uuid mbr)) r, io))

unfoldable pub check_superblocks : (mbr : Bytes) → Cmd State Bytes
unfolding judge_head
check_superblocks mbr st =
    judge_head mbr (on_device (superblock_read (load Mbr.superblock_head_lba mbr)) st)

-- [3/6] the valid slots are counted; an empty slot is no fault
unfoldable pub judge_slot : Result Bytes → ℕ × Report → ℕ × Report
judge_slot (ok ub) (valid, r) = (valid + 1, r)
judge_slot (err e) (valid, r) = (valid, warn_if (not (e == enoent)) r)

unfoldable pub count_valid : (lba count rounds slot valid : ℕ) → State → ℕ × State
unfolding judge_slot on_device
count_valid lba count zero slot valid st = (valid, st)
count_valid lba count (suc rounds) slot valid st =
    let (res, (r, io)) = on_device (uberblock_read_slot lba count slot) st in
    let (valid', r') = judge_slot res (valid, r) in
    count_valid lba count rounds (slot + 1) valid' (r', io)

unfoldable pub check_uberblocks : (sb : Bytes) → State → State
unfolding count_valid
check_uberblocks sb st =
    let count = load Superblock.uberblock_count sb in
    let (valid, (r, io)) = count_valid (load Superblock.uberblock_lba sb) count count 0 0 st in
    (fail_if (valid == 0) r, io)

-- [4/6] the roots whose checksum is wrong
unfoldable pub bad_roots : Bytes → (rounds i : ℕ) → ℕ
bad_roots block zero i = 0
bad_roots block (suc rounds) i =
    (if load (AllocRoot.checksum (i * 64)) block == root_checksum (i * 64) block then 0 else 1)
    + bad_roots block rounds (i + 1)

unfoldable pub judge_roots : Result Bytes → Result Bytes → Report → Report
unfolding bad_roots
judge_roots (ok head) (ok tail) r =
    fail_if (not (bad_roots head alloc_roots_head 0 + bad_roots tail alloc_roots_head 0 == 0)) r
judge_roots _ _ r = fail_if true r

unfoldable pub check_alloc_roots : (sb : Bytes) → State → State
unfolding judge_roots on_device
check_alloc_roots sb st =
    let (head, st') =
      on_device (allocator_roots_read (load Superblock.alloc_roots_head_lba sb)) st in
    let (tail, (r, io)) =
      on_device (allocator_roots_read (load Superblock.alloc_roots_tail_lba sb)) st' in
    (judge_roots head tail r, io)

-- [5/6] and [6/6]: one fault at most each. An allocation that fails is no fault of the device.
unfoldable pub judge_block : (good : Bytes → Bool) → Result Bytes → Report → Report
judge_block good (ok b) r = fail_if (not (good b)) r
judge_block good (err e) r = fail_if true r

unfoldable pub check_block_at : (good : Bytes → Bool) (lba : ℕ) → Result (Unit {0}) × State → State
unfolding judge_block on_device
check_block_at good lba (err e, st) = st
check_block_at good lba (ok _, st) =
    let (b, (r, io)) = on_device (io_read lba 1) st in (judge_block good b r, io)

unfoldable pub root_inode_good : Bytes → Bool
root_inode_good ino =
    load Inode.checksum ino == checksum_of Inode.checksum block_size ino
    && load Inode.type ino == type_dir

unfoldable pub check_root_inode : (sb : Bytes) → State → State
unfolding check_block_at on_device root_inode_good
check_root_inode sb st =
    check_block_at root_inode_good (load Superblock.inode_page_lba sb) (on_device alloc_buf st)

unfoldable pub dir_header_good : Bytes → Bool
dir_header_good h =
    load DirHeader.magic h == magic_dir_page
    && checksum_of DirHeader.checksum block_size h == load DirHeader.checksum h

unfoldable pub check_dir_header : (sb : Bytes) → State → State
unfolding check_block_at on_device dir_header_good
check_dir_header sb st =
    check_block_at dir_header_good (load Superblock.dir_page_lba sb) (on_device alloc_buf st)

-- The last four checks run only behind a good MBR and head superblock.
unfoldable pub check_rest : Result Bytes × State → State
unfolding check_uberblocks check_alloc_roots check_root_inode check_dir_header
check_rest (err e, st) = st
check_rest (ok sb, st) =
    check_dir_header sb (check_root_inode sb (check_alloc_roots sb (check_uberblocks sb st)))

unfoldable pub after_mbr : Result Bytes × State → State
unfolding check_superblocks check_rest
after_mbr (err e, st) = st
after_mbr (ok mbr, st) = check_rest (check_superblocks mbr st)

-- 2 with errors, 1 with warnings alone, 0 clean.
unfoldable pub exit_status : Report → ℕ
exit_status r = if not (r.errs == 0) then 2 else if not (r.warns == 0) then 1 else 0

-- The run on a device that is open.
unfoldable pub fsck : Io → ℕ × Report
unfolding check_mbr after_mbr exit_status
fsck io =
    let (r, io') = after_mbr (check_mbr (record { warns = 0; errs = 0 }, io)) in (exit_status r, r)
