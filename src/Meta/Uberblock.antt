-- ===== src/Meta/Uberblock.antt =====
-- src/nebula/nebula_uberblock.c, and the choice of the latest uberblock in nebula_mount.c.
use mini_fs.Base.{
  ℕ, zero, suc, ◌+◌, Option, none, some, leb, if◌then◌else◌, add64, Result, ok, err, Cmd, pure,
  throw, ◌>>=◌, ◌>>◌, enoent, eio, erange,
}
use mini_fs.Format.Bytes.{Bytes, zeros, store, load}
use mini_fs.Format.Consts.{block_size, magic_ub, alloc_roots_total}
use mini_fs.Format.Crc.{seal}
use mini_fs.Format.Uberblock
use mini_fs.Layout.{DeviceLayout}
use mini_fs.Io.Raw.{Io, alloc_buf, now_ns}
use mini_fs.Io.Posix.{io_write}
use mini_fs.Meta.Checked.{read_checked}

-- `rounds` slots are zeroed from slot `i` on.
unfoldable pub zero_slots : ℕ → ℕ → ℕ → Cmd Io (Unit {0})
zero_slots lba zero i = pure tt
zero_slots lba (suc rounds) i = do io_write (add64 lba i) 1 zeros; zero_slots lba rounds (i + 1)

-- The uberblock of slot 0.
unfoldable pub uberblock_block : DeviceLayout → ℕ → Bytes
uberblock_block l timestamp = seal Uberblock.checksum block_size (
    store Uberblock.alloc_roots_count alloc_roots_total (
      store Uberblock.stream_map_head_offset 0 (
        store Uberblock.stream_map_lba l.stream_map_lba (
          store Uberblock.bitmap_root_lba l.bitmap_lba (
            store Uberblock.timestamp_ns timestamp
              (store Uberblock.txg_id 0 (store Uberblock.magic magic_ub zeros)))))))

unfoldable pub uberblock_init_region : DeviceLayout → Cmd Io (Unit {0})
unfolding zero_slots uberblock_block
uberblock_init_region l = do
  alloc_buf
  zero_slots l.uberblock_lba l.uberblock_count 0
  alloc_buf
  t ← now_ns
  io_write l.uberblock_lba 1 (uberblock_block l t)

-- The layout is used for the place and number of the slots alone.
unfoldable pub uberblock_read_slot : (lba count slot : ℕ) → Cmd Io Bytes
unfolding read_checked
uberblock_read_slot lba count slot =
    if leb count slot
    then throw erange
    else read_checked Uberblock.magic magic_ub enoent Uberblock.checksum (add64 lba slot)

-- The slot with the best TXG so far, and its uberblock.
abbrev pub Best : Type 0
Best = Option (ℕ × Bytes)

-- One round of the scan: a slot that does not read is passed over.
unfoldable pub consider : ℕ → Result Bytes → Best → Best
consider slot (err e) best = best
consider slot (ok ub) none = some (slot, ub)
consider slot (ok ub) (some (s, b)) =
    if leb (load Uberblock.txg_id b) (load Uberblock.txg_id ub)
    then some (slot, ub)
    else some (s, b)

unfoldable pub scan_slots : (lba count rounds slot : ℕ) → Best → Io → Best × Io
unfolding uberblock_read_slot consider
scan_slots lba count zero slot best io = (best, io)
scan_slots lba count (suc rounds) slot best io =
    let (r, io') = uberblock_read_slot lba count slot io in
    scan_slots lba count rounds (slot + 1) (consider slot r best) io'

unfoldable pub picked : Best → Result (ℕ × Bytes)
picked none = err eio
picked (some b) = ok b

unfoldable pub pick_latest_uberblock : (lba count : ℕ) → Cmd Io (ℕ × Bytes)
unfolding scan_slots picked
pick_latest_uberblock lba count io =
    let (best, io') = scan_slots lba count count 0 none io in (picked best, io')
