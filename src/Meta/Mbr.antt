-- ===== src/Meta/Mbr.antt =====
-- src/nebula/nebula_mbr.c.
use mini_fs.Base.{ℕ, Cmd, ◌>>◌, einval}
use mini_fs.Format.Bytes.{Bytes, zeros, store}
use mini_fs.Format.Consts.{block_size, magic_mbr}
use mini_fs.Format.Crc.{seal}
use mini_fs.Format.Mbr
use mini_fs.Io.Raw.{Io, alloc_buf}
use mini_fs.Io.Posix.{io_write}
use mini_fs.Meta.Checked.{read_checked}

-- The block that `nebula_mbr_write` builds; `device_uuid` is the number of its 16 bytes.
unfoldable pub mbr_block : ℕ → ℕ → Bytes
mbr_block device_uuid capacity_blocks = seal Mbr.checksum block_size (
    store Mbr.superblock_head_lba 1 (
      store Mbr.device_capacity_blocks capacity_blocks (
        store Mbr.device_uuid device_uuid (
          store Mbr.version_minor 0
            (store Mbr.version_major 1 (store Mbr.magic magic_mbr zeros))))))

unfoldable pub mbr_write : ℕ → ℕ → Cmd Io (Unit {0})
unfolding mbr_block
mbr_write device_uuid capacity_blocks = do
  alloc_buf
  io_write 0 1 (mbr_block device_uuid capacity_blocks)

unfoldable pub mbr_read : Cmd Io Bytes
unfolding read_checked
mbr_read = read_checked Mbr.magic magic_mbr einval Mbr.checksum 0
