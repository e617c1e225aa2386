-- ===== src/Tools/MkfsClaims.antt =====
-- What a device holds after `nebula_format`, and what a mkfs that stops on the way has left alone.
use mini_fs.Base.{ℕ, ◌+◌, ◌^◌, ◌≤◌, ◌<◌, ◌≡◌, refl, sym, ◌⊎◌, inl, inr, arith, Result, ok, err}
use mathlib.Core.Path.{subst}
use mini_fs.Format.Bytes.{Bytes}
use mini_fs.Layout.{DeviceLayout, layout_compute_ex}
use mini_fs.LayoutLaws.{IsLaid, layout_compute_ex-IsLaid}
use mini_fs.Io.Raw.{Io}
use mini_fs.Io.Posix.{io_write}
use mini_fs.Io.Loops.{IsDevice}
use mini_fs.Meta.Mbr.{mbr_block, mbr_write}
use mini_fs.Meta.Superblock.{superblock_block, superblock_write_both}
use mini_fs.Meta.Keeps.{
  Keeps, Avoids, Preserves, Preserves-seq, Preserves-weaken, alloc_buf-Preserves,
  io_write-Preserves, io_flush-Preserves,
}
use mini_fs.Meta.Leaves.{
  InBlocks, Block, Holds, Leaves, write-Leaves, Leaves-first, Leaves-second, Block-Avoids,
}
use mini_fs.Tools.Mkfs.{format_regions, write_everything}
use mini_fs.Tools.MkfsLaws.{
  label, Unpublished, rest_of_regions-Preserves, format_regions-Preserves, mbr_write-Preserves,
}

-- For a device of fewer than 2^51 blocks that has a layout: before mkfs comes to the superblocks,
-- whatever its writes meet and wherever it stops, the blocks of the head and the tail superblock
-- and all blocks of the data region have the bytes that they had.
pub format_regions-Keeps :
    (device_uuid size : ℕ) (l : DeviceLayout) (io : Io)
    → io.capacity_blocks < 2 ^ 51
    → layout_compute_ex io.capacity_blocks size ≡ ok l
    → Keeps (Unpublished l) io (format_regions device_uuid io.capacity_blocks l io).1
format_regions-Keeps device_uuid size l io small e =
    let (laid, cap, sz) = layout_compute_ex-IsLaid io.capacity_blocks size l small e in
    (format_regions-Preserves l laid (omega (arith, cap)) device_uuid io.capacity_blocks).keeps io
      (omega arith)

-- The addresses of the data region.
abbrev pub Data : DeviceLayout → ℕ → Type 0
Data l = InBlocks l.data_start_lba l.alloc_roots_tail_lba

module _ (l : DeviceLayout) (laid : IsLaid l) (small : l.capacity_blocks < 2 ^ 51)
    (device_uuid cap : ℕ) where
  abbrev sb : Bytes
  sb = superblock_block device_uuid l

  ends :
      (2 < l.data_start_lba)
      × (l.data_start_lba ≤ l.alloc_roots_tail_lba)
      × (l.sb_tail_lba ≡ l.alloc_roots_tail_lba + 1)
      × (l.sb_tail_lba < 2 ^ 51)
      × (l.sb_head_lba ≡ 1)
  ends = (
    omega (arith, laid.data_start, laid.dir_range),
    omega (arith, laid.data_end),
    laid.tail.0,
    omega (arith, laid.tail),
    laid.head.1,
  )

  superblocks-Preserves :
      {P : ℕ → Type 0}
      → Avoids P l.sb_head_lba 1
      → Avoids P l.sb_tail_lba 1
      → Preserves P (superblock_write_both device_uuid l)
  unfolding superblock_write_both
  superblocks-Preserves first last = Preserves-seq alloc_buf-Preserves (
      Preserves-seq (io_write-Preserves l.sb_head_lba 1 sb (omega (arith, ends)) first)
        (io_write-Preserves l.sb_tail_lba 1 sb (omega (arith, ends)) last))

  Data-Preserves : Preserves (Data l) (write_everything device_uuid cap l)
  unfolding write_everything
  Data-Preserves =
      Preserves-seq
        (Preserves-weaken (λ j p. inr p) (format_regions-Preserves l laid small device_uuid cap))
        (Preserves-seq
          (superblocks-Preserves (λ j p. inr (omega (arith, ends)))
            (λ j p. inl (omega (arith, ends))))
          io_flush-Preserves)

  label-Leaves : Leaves 0 (mbr_block device_uuid cap) (write_everything device_uuid cap l)
  unfolding write_everything format_regions mbr_write
  label-Leaves =
      Leaves-first (format_regions-Preserves l laid small device_uuid cap)
        (Leaves-first (mbr_write-Preserves l laid small device_uuid cap)
          (Leaves-second (alloc_buf-Preserves {P = Block 0}) (write-Leaves (omega arith)))
          (Preserves-weaken (λ j p. label p) (rest_of_regions-Preserves l laid small)))
        (Preserves-seq
          (superblocks-Preserves (Block-Avoids 0 l.sb_head_lba (λ q. omega (arith, ends)))
            (Block-Avoids 0 l.sb_tail_lba (λ q. omega (arith, ends))))
          io_flush-Preserves)

  head_write-Preserves : Preserves (Block 0) (io_write l.sb_head_lba 1 sb)
  head_write-Preserves =
      io_write-Preserves l.sb_head_lba 1 sb (omega (arith, ends))
        (Block-Avoids 0 l.sb_head_lba (λ q. omega (arith, ends)))

  -- The two copies.
  both-Leaves :
      (lba : ℕ)
      → (lba ≡ l.sb_head_lba) ⊎ (lba ≡ l.sb_tail_lba)
      → Leaves lba sb (superblock_write_both device_uuid l)
  unfolding superblock_write_both
  both-Leaves lba (inl e) =
      subst (λ (x : ℕ). Leaves x sb (superblock_write_both device_uuid l)) (sym e)
        (Leaves-second (alloc_buf-Preserves {P = Block 0}) (
          Leaves-first head_write-Preserves (write-Leaves (omega (arith, ends))) (
            io_write-Preserves l.sb_tail_lba 1 sb (omega (arith, ends))
              (Block-Avoids l.sb_head_lba l.sb_tail_lba (λ q. omega (arith, ends))))))
  both-Leaves lba (inr e) =
      subst (λ (x : ℕ). Leaves x sb (superblock_write_both device_uuid l)) (sym e)
        (Leaves-second (alloc_buf-Preserves {P = Block 0})
          (Leaves-second head_write-Preserves (write-Leaves (omega (arith, ends)))))

  superblock-Leaves :
      (lba : ℕ)
      → (lba ≡ l.sb_head_lba) ⊎ (lba ≡ l.sb_tail_lba)
      → Leaves lba sb (write_everything device_uuid cap l)
  unfolding write_everything
  superblock-Leaves lba e = Leaves-second (format_regions-Preserves l laid small device_uuid cap) (
      Leaves-first
        (superblocks-Preserves {P = Block 0}
          (Block-Avoids 0 l.sb_head_lba (λ q. omega (arith, ends)))
          (Block-Avoids 0 l.sb_tail_lba (λ q. omega (arith, ends))))
        (both-Leaves lba e) io_flush-Preserves)

-- The outcomes of writing everything: the label and both superblocks hold their blocks, or an
-- error; the data region is as it was in both.
abbrev pub Formats : ℕ → DeviceLayout → Io → Result (Unit {0}) × Io → Type 0
Formats device_uuid l io (ok _, io') =
    Holds io' 0 (mbr_block device_uuid io.capacity_blocks)
    × Holds io' l.sb_head_lba (superblock_block device_uuid l)
    × Holds io' l.sb_tail_lba (superblock_block device_uuid l)
    × Keeps (Data l) io io'
Formats device_uuid l io (err e, io') = Keeps (Data l) io io'

Formats-from :
    (device_uuid : ℕ) (l : DeviceLayout) (io : Io) (p : Result (Unit {0}) × Io)
    → ((io' : Io)
        → p ≡ (ok tt, io')
        → Holds io' 0 (mbr_block device_uuid io.capacity_blocks)
          × Holds io' l.sb_head_lba (superblock_block device_uuid l)
          × Holds io' l.sb_tail_lba (superblock_block device_uuid l))
    → Keeps (Data l) io p.1
    → Formats device_uuid l io p
Formats-from device_uuid l io (ok u, io') h k = let (a, b, c) = h io' refl in (a, b, c, k)
Formats-from device_uuid l io (err e, io') h k = k

-- For a device of fewer than 2^51 blocks that has a layout: a mkfs that succeeds, whatever its
-- writes met, has left the label in block 0 and the superblock of the layout and the UUID in the
-- head and the tail copy; whether it succeeds or fails, no block of the data region is touched.
pub write_everything-Formats :
    (device_uuid size : ℕ) (l : DeviceLayout) (io : Io)
    → io.capacity_blocks < 2 ^ 51
    → layout_compute_ex io.capacity_blocks size ≡ ok l
    → Formats device_uuid l io (write_everything device_uuid io.capacity_blocks l io)
write_everything-Formats device_uuid size l io small e =
    let (laid, c, sz) = layout_compute_ex-IsLaid io.capacity_blocks size l small e in
    let fits : l.capacity_blocks < 2 ^ 51 = omega (arith, c) in
    let dev : IsDevice io = omega arith in
    let cap = io.capacity_blocks in
    Formats-from device_uuid l io (write_everything device_uuid cap l io)
      (λ io' done_ok. (
        (label-Leaves l laid fits device_uuid cap).holds io io' dev done_ok,
        (superblock-Leaves l laid fits device_uuid cap l.sb_head_lba (inl refl)).holds io io' dev
            done_ok,
        (superblock-Leaves l laid fits device_uuid cap l.sb_tail_lba (inr refl)).holds io io' dev
            done_ok,
      ))
      ((Data-Preserves l laid fits device_uuid cap).keeps io dev)
