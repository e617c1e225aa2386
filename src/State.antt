-- ===== src/State.antt =====
-- The in-memory state: `struct nebula_hier_bitmap` and `struct nebula_mount`.
use mini_fs.Base.{ℕ, Cmd}
use mini_fs.Format.Bytes.{Bytes}
use mini_fs.Io.Raw.{Io}

pub record HierBitmap : Type 0 where
  pub total_blocks : ℕ
  pub num_pages : ℕ
  pub l0_bits : Bytes
  pub num_groups : ℕ
  pub l1_free_counts : ℕ → ℕ
  pub l2_total_free : ℕ

pub record Mount : Type 0 where
  pub io : Io
  pub mbr : Bytes
  pub sb : Bytes
  pub current_ub : Bytes
  pub current_ub_slot : ℕ
  pub bitmap : HierBitmap

-- A call of the block device through the mount.
unfoldable pub on_io : {A : Type 0} → Cmd Io A → Cmd Mount A
on_io c m = let (r, io) = c m.io in (r, record m { io = io })
