-- ===== src/Tools/Published.antt =====
-- A new file system, as a later open of the device finds it.
use mini_fs.Base.{
  ℕ, ◌+◌, ◌*◌, ◌^◌, ◌≤◌, ◌<◌, ◌≡◌, refl, sym, ap, ◌∙◌, false, [], arith, ltb, le→ltb, add64, ok,
  einval,
}
use mathlib.Core.Path.{subst}
use mini_fs.Format.Bytes.{Bytes, at}
use mini_fs.Format.Consts.{block_size, magic_sb}
use mini_fs.Format.Superblock
use mini_fs.Layout.{DeviceLayout, layout_compute_ex}
use mini_fs.LayoutLaws.{IsLaid, layout_compute_ex-IsLaid}
use mini_fs.Io.Raw.{Io, alloc_buf-granted}
use mini_fs.Io.Posix.{io_read, read_loop}
use mini_fs.Io.Loops.{IsDevice}
use mini_fs.Io.Laws.{io_read-Read}
use mini_fs.Io.RoundTrip.{Agree}
use mini_fs.Meta.Checked.{check_result, read_checked}
use mini_fs.Meta.Superblock.{superblock_block, superblock_read}
use mini_fs.Meta.SuperblockLaws.{
  Describes, FitsFields, check_block-superblock_block, superblock_block-Describes,
}
use mini_fs.Meta.Leaves.{Holds}
use mini_fs.Tools.Mkfs.{write_everything}
use mini_fs.Tools.MkfsClaims.{Formats, write_everything-Formats}

-- The same device after it is opened again: no call of the system fails.
pub record Reopens (io io' : Io) : Type 0 where
  pub capacity : io'.capacity_blocks ≡ io.capacity_blocks
  pub disk : io'.disk ≡ io.disk
  pub no_failures : (io'.syscalls ≡ []) × (io'.allocs ≡ [])

io_read-ok :
    (lba n : ℕ) (io : Io)
    → IsDevice io
    → lba + n ≤ io.capacity_blocks
    → io.syscalls ≡ []
    → (b : Bytes) × ((io_read lba n io).0 ≡ ok b)
unfolding io_read read_loop
io_read-ok lba n io dev le e =
    let t : ltb io.capacity_blocks (add64 lba n) ≡ false = le→ltb _ _ (omega arith) in
    rw (t, e) (_, refl)

superblock_read-ok :
    (lba : ℕ) (b : Bytes) (io : Io)
    → io.allocs ≡ []
    → (io_read lba 1 io).0 ≡ ok b
    → (superblock_read lba io).0
      ≡ check_result Superblock.magic magic_sb einval Superblock.checksum (ok b)
unfolding superblock_read read_checked
superblock_read-ok lba b io e r = rw (alloc_buf-granted io e, r) refl

-- A block that holds the superblock reads as a valid superblock that describes the layout.
superblock_read-Holds :
    (lba device_uuid : ℕ) (l : DeviceLayout) (io : Io)
    → IsDevice io
    → lba + 1 ≤ io.capacity_blocks
    → (io.syscalls ≡ []) × (io.allocs ≡ [])
    → FitsFields device_uuid l
    → Holds io lba (superblock_block device_uuid l)
    → (b : Bytes) × ((superblock_read lba io).0 ≡ ok b) × Describes device_uuid l b
unfolding check_result
superblock_read-Holds lba device_uuid l io dev le quiet fits h =
    let (b, e) = io_read-ok lba 1 io dev le quiet.0 in
    let read = io_read-Read lba 1 io dev (omega arith) in
    let agree : Agree block_size b (superblock_block device_uuid l) =
      λ j p. read.bytes b e j p ∙ sym (h j p) in
    (
      b,
      superblock_read-ok lba b io quiet.1 e ∙ check_block-superblock_block device_uuid l b agree,
      superblock_block-Describes device_uuid l b agree fits,
    )

uberblocks_of :
    (c size : ℕ) (l : DeviceLayout) → layout_compute_ex c size ≡ ok l → l.uberblock_count ≡ 128
unfolding layout_compute_ex
uberblocks_of c size l e = ground arith

FitsFields-IsLaid :
    (device_uuid : ℕ) (l : DeviceLayout)
    → IsLaid l
    → l.capacity_blocks < 2 ^ 51
    → l.uberblock_count ≡ 128
    → device_uuid < 256 ^ 16
    → FitsFields device_uuid l
FitsFields-IsLaid device_uuid l laid small count room = record {
  uuid = room;
  capacity = omega arith;
  sb_tail_lba = omega (arith, laid.tail);
  data_block_count = omega (arith, laid.tail, laid.data_end);
  data_start_lba = omega (arith, laid.tail, laid.data_end);
  dir_page_block_count = omega (arith, laid.dir_range);
  dir_page_lba = omega (arith, laid.tail, laid.data_end, laid.data_start);
  inode_page_block_count = omega (arith, laid.inode_range);
  inode_page_lba = omega (arith, laid.tail, laid.data_end, laid.data_start, laid.dirs);
  stream_map_block_count =
      omega (arith, laid.tail, laid.data_end, laid.data_start, laid.dirs, laid.inodes);
  stream_map_lba = omega (arith, laid.tail, laid.data_end, laid.data_start, laid.dirs, laid.inodes);
  bitmap_block_count =
      omega (arith, laid.tail, laid.data_end, laid.data_start, laid.dirs, laid.inodes, laid.stream);
  bitmap_lba = omega (arith, laid.head, laid.roots, laid.bitmap, count);
  alloc_roots_tail_lba = omega (arith, laid.tail);
  alloc_roots_head_lba = omega (arith, laid.head, laid.roots, count);
  uberblock_count = omega (arith, count);
  uberblock_lba = omega (arith, laid.head);
}

-- Both copies of the superblock, read from a device.
abbrev pub Publishes : ℕ → DeviceLayout → Io → (lba : ℕ) → Type 0
Publishes device_uuid l io lba =
    (b : Bytes) × ((superblock_read lba io).0 ≡ ok b) × Describes device_uuid l b

-- For a device of fewer than 2^51 blocks that has a layout, and a UUID of 16 bytes: when mkfs
-- succeeds, whatever its writes met, and the device is opened again without failures, the head and
-- the tail superblock both read as valid, and their fields are the UUID, the capacity and all the
-- regions of the layout.
pub superblock_read-write_everything :
    (device_uuid size : ℕ) (l : DeviceLayout) (io io' io'' : Io)
    → io.capacity_blocks < 2 ^ 51
    → device_uuid < 256 ^ 16
    → layout_compute_ex io.capacity_blocks size ≡ ok l
    → write_everything device_uuid io.capacity_blocks l io ≡ (ok tt, io')
    → Reopens io' io''
    → Publishes device_uuid l io'' l.sb_head_lba × Publishes device_uuid l io'' l.sb_tail_lba
superblock_read-write_everything device_uuid size l io io' io'' small room e success again =
    let (laid, c, sz) = layout_compute_ex-IsLaid io.capacity_blocks size l small e in
    let formats : Formats device_uuid l io (ok tt, io') =
      subst (Formats device_uuid l io) success
        (write_everything-Formats device_uuid size l io small e) in
    let (label, head, tail, kept) = formats in
    let cap : io''.capacity_blocks ≡ l.capacity_blocks = again.capacity ∙ kept.capacity ∙ sym c in
    let fits =
      FitsFields-IsLaid device_uuid l laid (omega (arith, c))
        (uberblocks_of io.capacity_blocks size l e) room in
    let onto : (lba : ℕ)
        → Holds io' lba (superblock_block device_uuid l)
        → Holds io'' lba (superblock_block device_uuid l) =
      λ lba h j p. h j p ∙ sym (ap (λ (d : Bytes). at d (lba * block_size + j)) again.disk) in
    (
      superblock_read-Holds l.sb_head_lba device_uuid l io'' (omega (arith, cap, c))
          (omega (arith, cap, laid.head, laid.tail)) again.no_failures fits
          (onto l.sb_head_lba head),
      superblock_read-Holds l.sb_tail_lba device_uuid l io'' (omega (arith, cap, c))
          (omega (arith, cap, laid.tail)) again.no_failures fits (onto l.sb_tail_lba tail),
    )
