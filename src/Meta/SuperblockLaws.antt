-- ===== src/Meta/SuperblockLaws.antt =====
-- A superblock that was written, as a later mount or fsck finds it on the device.
use mini_fs.Base.{
  ℕ, ◌+◌, ◌^◌, ◌≤◌, ◌<◌, ◌≡◌, refl, sym, ap, ◌∙◌, inl, some, List, [], ◌∷◌, arith, ◌==◌,
  if◌then◌else◌, ==_refl, ok, einval,
}
use mini_fs.Format.Bytes.{Bytes, zeros, Field, Apart, load}
use mini_fs.Format.Fields.{stores, stored, load-stores}
use mini_fs.Format.Consts.{block_size, magic_sb}
use mini_fs.Format.Crc.{checksum_of, seal-checks, load-seal}
use mini_fs.Format.Superblock
use mini_fs.Layout.{DeviceLayout}
use mini_fs.Io.RoundTrip.{Agree}
use mini_fs.Meta.Agreeing.{Agree-checksum_of, Agree-load}
use mini_fs.Meta.Checked.{check_block}
use mini_fs.Meta.Superblock.{superblock_fields, superblock_block}

-- The stores of `nebula_superblock_write_both`, the last one first.
entries : ℕ → DeviceLayout → List (Field × ℕ)
entries device_uuid l =
    (Superblock.sb_tail_lba, l.sb_tail_lba)
    ∷ (Superblock.data_block_count, l.data_block_count)
    ∷ (Superblock.data_start_lba, l.data_start_lba)
    ∷ (Superblock.dir_page_block_count, l.dir_page_block_count)
    ∷ (Superblock.dir_page_lba, l.dir_page_lba)
    ∷ (Superblock.inode_page_block_count, l.inode_page_block_count)
    ∷ (Superblock.inode_page_lba, l.inode_page_lba)
    ∷ (Superblock.stream_map_block_count, l.stream_map_block_count)
    ∷ (Superblock.stream_map_lba, l.stream_map_lba)
    ∷ (Superblock.bitmap_block_count, l.bitmap_block_count)
    ∷ (Superblock.bitmap_lba, l.bitmap_lba)
    ∷ (Superblock.alloc_roots_tail_lba, l.alloc_roots_tail_lba)
    ∷ (Superblock.alloc_roots_head_lba, l.alloc_roots_head_lba)
    ∷ (Superblock.uberblock_count, l.uberblock_count)
    ∷ (Superblock.uberblock_lba, l.uberblock_lba)
    ∷ (Superblock.device_capacity_blocks, l.capacity_blocks)
    ∷ (Superblock.device_uuid, device_uuid)
    ∷ (Superblock.inode_size, if l.inode_size == 0 then 4096 else l.inode_size)
    ∷ (Superblock.version_minor, 0)
    ∷ (Superblock.version_major, 1)
    ∷ (Superblock.magic, magic_sb)
    ∷ []

superblock_fields-stores :
    (device_uuid : ℕ) (l : DeviceLayout)
    → superblock_fields device_uuid l ≡ stores (entries device_uuid l) zeros
unfolding superblock_fields entries stores
superblock_fields-stores device_uuid l = refl

-- The regions that a superblock tells are those of the layout, and the device is the one with this
-- UUID.
pub record Describes (device_uuid : ℕ) (l : DeviceLayout) (b : Bytes) : Type 0 where
  pub uuid : load Superblock.device_uuid b ≡ device_uuid
  pub capacity : load Superblock.device_capacity_blocks b ≡ l.capacity_blocks
  pub sb_tail_lba : load Superblock.sb_tail_lba b ≡ l.sb_tail_lba
  pub data_block_count : load Superblock.data_block_count b ≡ l.data_block_count
  pub data_start_lba : load Superblock.data_start_lba b ≡ l.data_start_lba
  pub dir_page_block_count : load Superblock.dir_page_block_count b ≡ l.dir_page_block_count
  pub dir_page_lba : load Superblock.dir_page_lba b ≡ l.dir_page_lba
  pub inode_page_block_count : load Superblock.inode_page_block_count b ≡ l.inode_page_block_count
  pub inode_page_lba : load Superblock.inode_page_lba b ≡ l.inode_page_lba
  pub stream_map_block_count : load Superblock.stream_map_block_count b ≡ l.stream_map_block_count
  pub stream_map_lba : load Superblock.stream_map_lba b ≡ l.stream_map_lba
  pub bitmap_block_count : load Superblock.bitmap_block_count b ≡ l.bitmap_block_count
  pub bitmap_lba : load Superblock.bitmap_lba b ≡ l.bitmap_lba
  pub alloc_roots_tail_lba : load Superblock.alloc_roots_tail_lba b ≡ l.alloc_roots_tail_lba
  pub alloc_roots_head_lba : load Superblock.alloc_roots_head_lba b ≡ l.alloc_roots_head_lba
  pub uberblock_count : load Superblock.uberblock_count b ≡ l.uberblock_count
  pub uberblock_lba : load Superblock.uberblock_lba b ≡ l.uberblock_lba

-- The numbers of the layout fit their fields.
pub record FitsFields (device_uuid : ℕ) (l : DeviceLayout) : Type 0 where
  pub uuid : device_uuid < 256 ^ 16
  pub capacity : l.capacity_blocks < 256 ^ 8
  pub sb_tail_lba : l.sb_tail_lba < 256 ^ 8
  pub data_block_count : l.data_block_count < 256 ^ 8
  pub data_start_lba : l.data_start_lba < 256 ^ 8
  pub dir_page_block_count : l.dir_page_block_count < 256 ^ 8
  pub dir_page_lba : l.dir_page_lba < 256 ^ 8
  pub inode_page_block_count : l.inode_page_block_count < 256 ^ 8
  pub inode_page_lba : l.inode_page_lba < 256 ^ 8
  pub stream_map_block_count : l.stream_map_block_count < 256 ^ 8
  pub stream_map_lba : l.stream_map_lba < 256 ^ 8
  pub bitmap_block_count : l.bitmap_block_count < 256 ^ 8
  pub bitmap_lba : l.bitmap_lba < 256 ^ 8
  pub alloc_roots_tail_lba : l.alloc_roots_tail_lba < 256 ^ 8
  pub alloc_roots_head_lba : l.alloc_roots_head_lba < 256 ^ 8
  pub uberblock_count : l.uberblock_count < 256 ^ 4
  pub uberblock_lba : l.uberblock_lba < 256 ^ 8

module _ (device_uuid : ℕ) (l : DeviceLayout) (b : Bytes)
    (agree : Agree block_size b (superblock_block device_uuid l)) where
  -- What a field of `b` holds, by the last store to it.
  field_of :
      (f : Field) (v : ℕ)
      → f.offset + f.width ≤ block_size
      → Apart f Superblock.checksum
      → stored f (entries device_uuid l) ≡ some v
      → v < 256 ^ f.width
      → load f b ≡ v
  unfolding superblock_block
  field_of f v fits away e room =
      Agree-load block_size f b (superblock_block device_uuid l) fits agree
      ∙ load-seal f Superblock.checksum block_size (superblock_fields device_uuid l) away
      ∙ ap (load f) (superblock_fields-stores device_uuid l)
      ∙ load-stores f (entries device_uuid l) v zeros e room

  magic_of : load Superblock.magic b ≡ magic_sb
  unfolding entries stored
  magic_of = field_of Superblock.magic magic_sb (omega arith) (inl (omega arith)) refl (omega arith)

  checksum_passes : load Superblock.checksum b ≡ checksum_of Superblock.checksum block_size b
  unfolding superblock_block
  checksum_passes =
      let fields = superblock_fields device_uuid l in
      Agree-load block_size Superblock.checksum b (superblock_block device_uuid l) (omega arith)
        agree
      ∙ seal-checks Superblock.checksum block_size fields refl
      ∙ sym (
          Agree-checksum_of block_size Superblock.checksum b (superblock_block device_uuid l) agree)

  pub check_block-superblock_block :
      check_block Superblock.magic magic_sb einval Superblock.checksum b ≡ ok b
  unfolding check_block
  check_block-superblock_block =
      rw (magic_of, checksum_passes, ==_refl (checksum_of Superblock.checksum block_size b)) refl

  pub superblock_block-Describes : FitsFields device_uuid l → Describes device_uuid l b
  unfolding entries stored
  superblock_block-Describes fits = record {
    uuid =
        field_of Superblock.device_uuid device_uuid (omega arith) (inl (omega arith)) refl
          fits.uuid;
    capacity =
        field_of Superblock.device_capacity_blocks l.capacity_blocks (omega arith)
          (inl (omega arith)) refl fits.capacity;
    sb_tail_lba =
        field_of Superblock.sb_tail_lba l.sb_tail_lba (omega arith) (inl (omega arith)) refl
          fits.sb_tail_lba;
    data_block_count =
        field_of Superblock.data_block_count l.data_block_count (omega arith) (inl (omega arith))
          refl fits.data_block_count;
    data_start_lba =
        field_of Superblock.data_start_lba l.data_start_lba (omega arith) (inl (omega arith)) refl
          fits.data_start_lba;
    dir_page_block_count =
        field_of Superblock.dir_page_block_count l.dir_page_block_count (omega arith)
          (inl (omega arith)) refl fits.dir_page_block_count;
    dir_page_lba =
        field_of Superblock.dir_page_lba l.dir_page_lba (omega arith) (inl (omega arith)) refl
          fits.dir_page_lba;
    inode_page_block_count =
        field_of Superblock.inode_page_block_count l.inode_page_block_count (omega arith)
          (inl (omega arith)) refl fits.inode_page_block_count;
    inode_page_lba =
        field_of Superblock.inode_page_lba l.inode_page_lba (omega arith) (inl (omega arith)) refl
          fits.inode_page_lba;
    stream_map_block_count =
        field_of Superblock.stream_map_block_count l.stream_map_block_count (omega arith)
          (inl (omega arith)) refl fits.stream_map_block_count;
    stream_map_lba =
        field_of Superblock.stream_map_lba l.stream_map_lba (omega arith) (inl (omega arith)) refl
          fits.stream_map_lba;
    bitmap_block_count =
        field_of Superblock.bitmap_block_count l.bitmap_block_count (omega arith)
          (inl (omega arith)) refl fits.bitmap_block_count;
    bitmap_lba =
        field_of Superblock.bitmap_lba l.bitmap_lba (omega arith) (inl (omega arith)) refl
          fits.bitmap_lba;
    alloc_roots_tail_lba =
        field_of Superblock.alloc_roots_tail_lba l.alloc_roots_tail_lba (omega arith)
          (inl (omega arith)) refl fits.alloc_roots_tail_lba;
    alloc_roots_head_lba =
        field_of Superblock.alloc_roots_head_lba l.alloc_roots_head_lba (omega arith)
          (inl (omega arith)) refl fits.alloc_roots_head_lba;
    uberblock_count =
        field_of Superblock.uberblock_count l.uberblock_count (omega arith) (inl (omega arith)) refl
          fits.uberblock_count;
    uberblock_lba =
        field_of Superblock.uberblock_lba l.uberblock_lba (omega arith) (inl (omega arith)) refl
          fits.uberblock_lba;
  }
