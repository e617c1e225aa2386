-- ===== src/Meta/Superblock.antt =====
-- src/nebula/nebula_superblock.c.
use mini_fs.Base.{ℕ, ◌==◌, if◌then◌else◌, Cmd, ◌>>◌, einval}
use mini_fs.Format.Bytes.{Bytes, zeros, store}
use mini_fs.Format.Consts.{block_size, magic_sb}
use mini_fs.Format.Crc.{seal}
use mini_fs.Format.Superblock
use mini_fs.Layout.{DeviceLayout}
use mini_fs.Io.Raw.{Io, alloc_buf}
use mini_fs.Io.Posix.{io_write}
use mini_fs.Meta.Checked.{read_checked}

-- The block that `nebula_superblock_write_both` builds, before it is sealed.
unfoldable pub superblock_fields : ℕ → DeviceLayout → Bytes
superblock_fields device_uuid l = store Superblock.sb_tail_lba l.sb_tail_lba (
    store Superblock.data_block_count l.data_block_count (
      store Superblock.data_start_lba l.data_start_lba (
        store Superblock.dir_page_block_count l.dir_page_block_count (
          store Superblock.dir_page_lba l.dir_page_lba (
            store Superblock.inode_page_block_count l.inode_page_block_count (
              store Superblock.inode_page_lba l.inode_page_lba (
                store Superblock.stream_map_block_count l.stream_map_block_count (
                  store Superblock.stream_map_lba l.stream_map_lba (
                    store Superblock.bitmap_block_count l.bitmap_block_count (
                      store Superblock.bitmap_lba l.bitmap_lba (
                        store Superblock.alloc_roots_tail_lba l.alloc_roots_tail_lba (
                          store Superblock.alloc_roots_head_lba l.alloc_roots_head_lba (
                            store Superblock.uberblock_count l.uberblock_count (
                              store Superblock.uberblock_lba l.uberblock_lba (
                                store Superblock.device_capacity_blocks l.capacity_blocks (
                                  store Superblock.device_uuid device_uuid (
                                    store Superblock.inode_size
                                      (if l.inode_size == 0 then 4096 else l.inode_size)
                                      (store Superblock.version_minor 0 (
                                        store Superblock.version_major 1
                                          (store Superblock.magic magic_sb zeros))))))))))))))))))))

unfoldable pub superblock_block : ℕ → DeviceLayout → Bytes
unfolding superblock_fields
superblock_block device_uuid l =
    seal Superblock.checksum block_size (superblock_fields device_uuid l)

unfoldable pub superblock_write_both : ℕ → DeviceLayout → Cmd Io (Unit {0})
superblock_write_both device_uuid l = do
  alloc_buf
  io_write l.sb_head_lba 1 (superblock_block device_uuid l)
  io_write l.sb_tail_lba 1 (superblock_block device_uuid l)

unfoldable pub superblock_read : ℕ → Cmd Io Bytes
unfolding read_checked
superblock_read lba = read_checked Superblock.magic magic_sb einval Superblock.checksum lba
