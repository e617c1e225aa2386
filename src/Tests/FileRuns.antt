-- ===== src/Tests/FileRuns.antt =====
-- Extents, transfers and zeroed regions on concrete inputs.
use mini_fs.Base.{
  ℕ, ◌+◌, ◌-◌, ◌≡◌, refl, inr, false, none, some, [], ◌∷◌, arith, Result, ok, err, eintr,
}
use mini_fs.Format.Bytes.{Bytes, zeros, load}
use mini_fs.Io.Raw.{Io, failed, moved}
use mini_fs.Files.Handle.{o_rdwr}
use mini_fs.Files.Extents.{em_size_blocks, extent_find, extent_lba, extent_append}
use mini_fs.Files.ExtentLaws.{block_of, extent_find-extent_append, block_of-extent_append}
use mini_fs.Files.Write.{Open, write_rounds}
use mini_fs.Files.Fuel.{EndsWell, write_rounds-EndsWell}
use mini_fs.Meta.Regions.{zero_region}
use mini_fs.Meta.Zeroing.{Zeroes, zero_region-Zeroes}

abbrev map_or_zeros : Result Bytes → Bytes
map_or_zeros (ok ino) = ino
map_or_zeros (err e) = zeros

-- An inode with no extent, and with one of four blocks from block 100 of the device on.
abbrev one_extent : Bytes
one_extent = map_or_zeros (extent_append 0 4 100 zeros)

one_extent_is : extent_append 0 4 100 zeros ≡ ok one_extent
unfolding extent_append em_size_blocks load
one_extent_is = refl

nothing_found : extent_find zeros 2 ≡ none
unfolding extent_find em_size_blocks load
nothing_found = refl

extent_find-extent_append_example :
    (i : ℕ) × (extent_find one_extent 2 ≡ some i) × (extent_lba one_extent 2 i ≡ 100 + (2 - 0))
extent_find-extent_append_example =
    extent_find-extent_append 0 4 100 2 zeros one_extent (omega arith) (omega arith) (omega arith)
      one_extent_is (omega arith) (omega arith) nothing_found

block_of-extent_append_example : block_of one_extent 4 ≡ block_of zeros 4
block_of-extent_append_example =
    block_of-extent_append 0 4 100 4 zeros one_extent (omega arith) (omega arith) (omega arith)
      one_extent_is (inr (omega arith))

-- A device whose first transfer is interrupted and whose second moves one block.
abbrev device : Io
device = record {
  capacity_blocks = 300;
  disk = zeros;
  syscalls = failed eintr ∷ moved 4096 ∷ [];
  allocs = [];
  clock = [];
}

abbrev open_file : Open
open_file = (
  record { inode = one_extent; pos = 0; flags = o_rdwr; dirty = false },
  record {
    io = device;
    mbr = zeros;
    sb = zeros;
    current_ub = zeros;
    current_ub_slot = 0;
    bitmap = record {
      total_blocks = 300;
      num_pages = 1;
      l0_bits = zeros;
      num_groups = 1;
      l1_free_counts = λ g. 300;
      l2_total_free = 300;
    };
  },
)

write_rounds-EndsWell_example : EndsWell 5000 (write_rounds 10 5000 zeros 5000 0 open_file).0
write_rounds-EndsWell_example =
    write_rounds-EndsWell 10 5000 zeros 5000 0 open_file (omega arith) (omega arith)

zero_region-Zeroes_example : Zeroes 20 100 device (zero_region 20 100 device)
zero_region-Zeroes_example = zero_region-Zeroes 20 100 device (omega arith) (omega arith)
