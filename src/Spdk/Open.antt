-- ===== src/Spdk/Open.antt =====
-- Opening the SPDK backend: the address, the namespaces of the controllers that are attached, and
-- the handle.
use mini_fs.Base.{
  ℕ, zero, suc, ◌-◌, Bool, true, false, not, ◌&&◌, Option, none, some, List, [], ◌∷◌, ◌==◌,
  if◌then◌else◌, Result, ok, err, enomem, einval,
}
use mini_fs.Base.Errno.{enodev}
use mini_fs.Spdk.Nvme.{Namespace, NvmeNs, attach_cb}

-- Where to look for a controller; a string is the list of its bytes.
pub data Target : Type 0 where
  pcie : List ℕ → Target
  tcp : (ip port nqn : List ℕ) → Target

-- `strchr(s, ':')`: what stands before the first colon, and behind it.
unfoldable pub at_colon : List ℕ → Option (List ℕ × List ℕ)
at_colon [] = none
at_colon (c ∷ s) =
    let rest : Option (List ℕ × List ℕ) = elim (at_colon s) [
      | none ↦ none
      | some p ↦ some (c ∷ p.0, p.1)
    ] in
    if c == b':' then some ([], s) else rest

-- `snprintf(buf, n + 1, "%s", s)` keeps `n` bytes.
unfoldable pub first_bytes : ℕ → List ℕ → List ℕ
first_bytes zero s = []
first_bytes (suc n) [] = []
first_bytes (suc n) (c ∷ s) = c ∷ first_bytes n s

port_and_nqn : (ip : List ℕ) → Option (List ℕ × List ℕ) → Result Target
port_and_nqn ip none = err einval
port_and_nqn ip (some p) = ok (tcp ip p.0 p.1)

ip_and_rest : Option (List ℕ × List ℕ) → Result Target
unfolding port_and_nqn at_colon
ip_and_rest none = err einval
ip_and_rest (some p) = port_and_nqn p.0 (at_colon p.1)

-- `ip:port:nqn`, split at the first two colons.
unfoldable pub tcp_target : List ℕ → Result Target
unfolding ip_and_rest at_colon first_bytes
tcp_target s = ip_and_rest (at_colon (first_bytes 511 s))

-- The test for `tcp:` in `nebula_io_spdk_open`.
unfoldable pub target_of : List ℕ → Result Target
unfolding tcp_target
target_of (c0 ∷ c1 ∷ c2 ∷ c3 ∷ s) =
    if c0 == b't' && c1 == b'c' && c2 == b'p' && c3 == b':'
    then tcp_target s
    else ok (pcie (c0 ∷ c1 ∷ c2 ∷ c3 ∷ s))
target_of s = ok (pcie s)

-- The calls of `attach_cb` that one probe makes, with the namespaces of each controller.
unfoldable pub attach_all : List (List (Option Namespace)) → Option NvmeNs → Option NvmeNs
unfolding attach_cb
attach_all [] result = result
attach_all (namespaces ∷ rest) result = attach_all rest (attach_cb result namespaces)

-- `nebula_spdk_nvme_probe_trid`, by whether `spdk_nvme_probe` went well and what it attached;
-- `none` stands for -1.
unfoldable pub probe_trid : (went_well : Bool) → List (List (Option Namespace)) → Option NvmeNs
unfolding attach_all
probe_trid false attached = none
probe_trid true attached = attach_all attached none

-- `open_from_ns`, by whether the bounce buffer and the handle can be had.
unfoldable pub open_from_ns : (has_bounce has_handle : Bool) → NvmeNs → Result NvmeNs
open_from_ns has_bounce has_handle h =
    if not has_bounce then err enomem else if not has_handle then err enomem else ok h

probed : (has_bounce has_handle : Bool) → Option NvmeNs → Result NvmeNs
unfolding open_from_ns
probed has_bounce has_handle none = err enodev
probed has_bounce has_handle (some h) = open_from_ns has_bounce has_handle h

-- The sizes of the strings in `struct spdk_nvme_transport_id`, of SPDK's headers.
pub record TridSizes : Type 0 where
  pub traddr : ℕ
  pub trsvcid : ℕ
  pub subnqn : ℕ

-- The strings as they are copied into the transport identifier, each with a byte behind it.
unfoldable pub trid_of : TridSizes → Target → Target
unfolding first_bytes
trid_of sizes (pcie traddr) = pcie (first_bytes (sizes.traddr - 1) traddr)
trid_of sizes (tcp ip port nqn) =
    tcp (first_bytes (sizes.traddr - 1) ip) (first_bytes (sizes.trsvcid - 1) port)
      (first_bytes (sizes.subnqn - 1) nqn)

open_target :
    (sizes : TridSizes) (probe : Target → Bool × List (List (Option Namespace)))
    (has_bounce has_handle : Bool)
    → Result Target
    → Result NvmeNs
unfolding probed probe_trid trid_of
open_target sizes probe has_bounce has_handle (err e) = err e
open_target sizes probe has_bounce has_handle (ok target) =
    let (went_well, attached) = probe (trid_of sizes target) in
    probed has_bounce has_handle (probe_trid went_well attached)

-- `nebula_io_spdk_open` of an address, where `probe` tells what SPDK attaches for a target.
unfoldable pub spdk_open :
    (sizes : TridSizes) (probe : Target → Bool × List (List (Option Namespace)))
    (has_bounce has_handle : Bool)
    → (traddr : List ℕ) → Result NvmeNs
unfolding open_target target_of
spdk_open sizes probe has_bounce has_handle traddr =
    open_target sizes probe has_bounce has_handle (target_of traddr)
