-- ===== src/Dirs/Entry.antt =====
-- One directory entry, and the block that holds a slot.
use mini_fs.Base.{
  ℕ, ◌+◌, ◌-◌, ◌*◌, ◌/◌, ◌%◌, ◌^◌, bit_and, bit_or, Bool, true, false, not, ◌&&◌, List, [], ◌∷◌,
  leb, ◌==◌, if◌then◌else◌, length, u64_mod, add64, sub64, mul64, ok, Cmd, pure, ◌>>=◌, ◌>>◌,
}
use mini_fs.Format.Bytes.{Bytes, at, put, clear, zeros, load, store}
use mini_fs.Format.Consts.{block_size, dir_entry_size, dir_entries_per_block, flag_used}
use mini_fs.Format.Crc.{seal}
use mini_fs.Format.Superblock
use mini_fs.Format.DirEntry
use mini_fs.Format.DirHeader
use mini_fs.State.{Mount, on_io}
use mini_fs.Io.Raw.{alloc_buf}
use mini_fs.Io.Posix.{io_read, io_write}

-- A C string: its bytes before the NUL, none of which is zero.
abbrev pub Name : Type 0
Name = List ℕ

abbrev pub slot_lba : Mount → ℕ → ℕ
slot_lba m slot = add64 (add64 (load Superblock.dir_page_lba m.sb) 1) (slot / dir_entries_per_block)

-- The address of a slot's entry in its block.
abbrev pub slot_base : ℕ → ℕ
slot_base slot = slot % dir_entries_per_block * dir_entry_size

abbrev pub dir_capacity : Mount → ℕ
dir_capacity m = mul64 (sub64 (load Superblock.dir_page_block_count m.sb) 1) dir_entries_per_block

-- `memcmp(b + p, name, nlen) == 0`
unfoldable pub name_eq : Bytes → ℕ → Name → Bool
name_eq b p [] = true
name_eq b p (c ∷ s) = at b p == c % 256 && name_eq b (p + 1) s

-- `memcpy(b + p, name, nlen)`
unfoldable pub put_name : ℕ → Name → Bytes → Bytes
put_name p [] b = b
put_name p (c ∷ s) b = put_name (p + 1) s (put b p c)

unfoldable pub entry_used : Bytes → ℕ → Bool
entry_used blk base = not (bit_and (load (DirEntry.flags base) blk) flag_used == 0)

-- The hash, the length and the bytes of the name agree.
unfoldable pub entry_matches : Bytes → ℕ → ℕ → Name → Bool
unfolding name_eq
entry_matches blk base hash name =
    load (DirEntry.hash base) blk == hash
    && load (DirEntry.name_len base) blk == length name % 2 ^ 16
    && name_eq blk (base + 24) name

unfoldable pub new_entry : (base hash inode_num flags : ℕ) → Name → Bytes → Bytes
unfolding put_name
new_entry base hash inode_num flags name blk = put_name (base + 24) name (
    store (DirEntry.flags base) (bit_or flag_used flags) (
      store (DirEntry.name_len base) (length name) (
        store (DirEntry.inode_num base) inode_num
          (store (DirEntry.hash base) hash (clear base dir_entry_size blk)))))

-- The block in the buffer, and where it was read from.
abbrev pub Cache : Type 0
Cache = ℕ × Bytes

abbrev pub no_block : Cache
no_block = (u64_mod - 1, zeros)

-- Read the block of a slot unless it is the one in the buffer.
unfoldable pub fetch_slot : ℕ → Cache → Cmd Mount Cache
unfolding on_io
fetch_slot slot (last_lba, blk) m =
    if slot_lba m slot == last_lba
    then (ok (last_lba, blk), m)
    else (do b ← on_io (io_read (slot_lba m slot) 1); pure (slot_lba m slot, b)) m

-- The number of entries after one more (`true`) or one less.
unfoldable pub adjusted_entries : Bool → ℕ → ℕ
adjusted_entries true n = add64 n 1
adjusted_entries false n = if leb 1 n then n - 1 else n

unfoldable pub dir_header_update : Bool → Cmd Mount (Unit {0})
unfolding on_io adjusted_entries
dir_header_update more m =
    let lba = load Superblock.dir_page_lba m.sb in
    (do
      on_io alloc_buf
      hdr ← on_io (io_read lba 1)
      on_io (
          io_write lba 1 (
            seal DirHeader.checksum block_size (
              store DirHeader.num_entries (adjusted_entries more (load DirHeader.num_entries hdr))
                hdr))))
      m
