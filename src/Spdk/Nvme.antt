-- ===== src/Spdk/Nvme.antt =====
-- src/io/nebula_spdk_nvme.c. The NVMe driver of SPDK is a parameter: what it answers for a
-- namespace and what its commands do to the state `D` of the controller.
use mini_fs.Base.{
  ℕ, ◌+◌, ◌*◌, ◌/◌, Bool, true, false, not, Option, none, some, List, [], ◌∷◌, ltb, if◌then◌else◌,
  mul64, u32, Result, ok, err, Cmd,
}
use mini_fs.Format.Bytes.{Bytes}
use mini_fs.Format.Consts.{block_size}

-- A command is refused with a code when it is submitted, or completed later, in error or not; the
-- loop of `poll_until_done` waits for the completion.
pub data Completion : Type 0 where
  rejected : ℕ → Completion
  completed : (is_error : Bool) → Completion

-- `spdk_nvme_ns_cmd_read`, `_write` and `_flush` with their completion; addresses and counts are in
-- sectors, and a read delivers the buffer.
pub record Driver (D : Type 0) : Type 0 where
  pub cmd_read : (lba lba_count : ℕ) → D → Completion × Bytes × D
  pub cmd_write : Bytes → (lba lba_count : ℕ) → D → Completion × D
  pub cmd_flush : D → Completion × D

-- What the driver tells of a namespace, and whether the queue pair and the handle can be had.
pub record Namespace : Type 0 where
  pub is_active : Bool
  pub sector_size : ℕ
  pub num_sectors : ℕ
  pub has_qpair : Bool
  pub has_handle : Bool

-- `struct nebula_spdk_ns`; `number` is that of the namespace.
pub record NvmeNs : Type 0 where
  pub number : ℕ
  pub sector_size : ℕ
  pub sectors_per_block : ℕ
  pub capacity_blocks : ℕ

-- `probe_cb`: is the controller at `found` claimed? `wanted` is the address asked for, if any, and
-- `is_wanted` whether they are the same.
unfoldable pub probe_cb : (has_result : Bool) → (wanted : Option Bool) → Bool
probe_cb true wanted = false
probe_cb false none = true
probe_cb false (some is_wanted) = is_wanted

unfoldable pub ns_handle : (number : ℕ) → Namespace → NvmeNs
ns_handle number ns =
    let sectors_per_block = block_size / ns.sector_size in
    record {
      number = number;
      sector_size = ns.sector_size;
      sectors_per_block = sectors_per_block;
      capacity_blocks = ns.num_sectors / sectors_per_block;
    }

-- The loop of `attach_cb` from namespace `i` on; a namespace that `get_ns` does not return is `none`.
unfoldable pub first_usable : (i : ℕ) → List (Option Namespace) → Option NvmeNs
unfolding ns_handle
first_usable i [] = none
first_usable i (none ∷ rest) = first_usable (i + 1) rest
first_usable i (some ns ∷ rest) =
    let later = first_usable (i + 1) rest in
    if not ns.is_active
    then later
    else if ltb block_size ns.sector_size
    then later
    else if not ns.has_qpair
    then later
    else if not ns.has_handle
    then later
    else some (ns_handle i ns)

-- `attach_cb`, with the result that the context has.
unfoldable pub attach_cb : Option NvmeNs → List (Option Namespace) → Option NvmeNs
unfolding first_usable
attach_cb (some h) namespaces = some h
attach_cb none namespaces = first_usable 1 namespaces

-- The status of a command: `err 1` stands for -1.
unfoldable pub status_of : Completion → Result (Unit {0})
status_of (rejected rc) = err 1
status_of (completed true) = err 1
status_of (completed false) = ok tt

-- The buffer of a read that went well.
unfoldable pub with_data : Result (Unit {0}) → Bytes → Result Bytes
with_data (ok u) buf = ok buf
with_data (err e) buf = err e

module _ {D : Type 0} (driver : Driver D) (h : NvmeNs) where
  unfoldable pub nvme_read : (lba n_blocks : ℕ) → Cmd D Bytes
  unfolding status_of with_data
  nvme_read lba n_blocks d =
      let (c, buf, d') =
        driver.cmd_read (mul64 lba h.sectors_per_block) (u32 (n_blocks * h.sectors_per_block)) d in
      (with_data (status_of c) buf, d')

  unfoldable pub nvme_write : (lba n_blocks : ℕ) → Bytes → Cmd D (Unit {0})
  unfolding status_of
  nvme_write lba n_blocks buf d =
      let (c, d') =
        driver.cmd_write buf (mul64 lba h.sectors_per_block) (u32 (n_blocks * h.sectors_per_block))
          d in
      (status_of c, d')

  unfoldable pub nvme_flush : Cmd D (Unit {0})
  unfolding status_of
  nvme_flush d = let (c, d') = driver.cmd_flush d in (status_of c, d')
