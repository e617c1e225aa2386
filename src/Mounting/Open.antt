-- ===== src/Mounting/Open.antt =====
-- `nebula_mount_do` and `nebula_mount_open_io`: the steps that make a mount from a device.
use mini_fs.Base.{ℕ, ◌==◌, sub64, Result, ok, err, Cmd, pure, ◌>>=◌, ◌>>◌, guard, eio}
use mini_fs.Format.Bytes.{Bytes, load}
use mini_fs.Format.Mbr
use mini_fs.Format.Superblock
use mini_fs.State.{HierBitmap, Mount}
use mini_fs.Io.Raw.{Io, alloc_buf}
use mini_fs.Meta.Mbr.{mbr_read}
use mini_fs.Meta.Superblock.{superblock_read}
use mini_fs.Meta.Uberblock.{pick_latest_uberblock}
use mini_fs.Mounting.Load.{hbm_load}

-- The head superblock, or the one in the last block if the head does not read.
unfoldable pub superblock_or_tail : Result Bytes → Cmd Io Bytes
superblock_or_tail (ok sb) io = (ok sb, io)
superblock_or_tail (err e) io = superblock_read (sub64 io.capacity_blocks 1) io

unfoldable pub read_superblock : ℕ → Cmd Io Bytes
unfolding superblock_or_tail
read_superblock head_lba io = let (r, io') = superblock_read head_lba io in superblock_or_tail r io'

-- The parts of a mount, read from the device in this order.
abbrev pub Parts : Type 0
Parts = Bytes × Bytes × (ℕ × Bytes) × HierBitmap

unfoldable pub mount_do : Cmd Io Parts
unfolding read_superblock
mount_do = do
  mbr ← mbr_read
  sb ← read_superblock (load Mbr.superblock_head_lba mbr)
  guard (load Mbr.device_uuid mbr == load Superblock.device_uuid sb) eio
  ub ← pick_latest_uberblock (load Superblock.uberblock_lba sb) (load Superblock.uberblock_count sb)
  bitmap ←
      hbm_load (load Superblock.bitmap_lba sb) (load Superblock.bitmap_block_count sb)
        (load Superblock.device_capacity_blocks sb)
  pure (mbr, sb, ub, bitmap)

-- A failed mount gives the device back to the caller.
unfoldable pub mount_result : Result Parts × Io → Result Mount × Io
mount_result (ok (mbr, sb, (slot, ub), bitmap), io) = (
  ok (record {
    io = io;
    mbr = mbr;
    sb = sb;
    current_ub = ub;
    current_ub_slot = slot;
    bitmap = bitmap;
  }),
  io,
)
mount_result (err e, io) = (err e, io)

unfoldable pub mount_open_io : Cmd Io Mount
unfolding mount_do mount_result
mount_open_io = do alloc_buf; λ io. mount_result (mount_do io)
