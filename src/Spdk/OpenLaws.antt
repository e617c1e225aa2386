-- ===== src/Spdk/OpenLaws.antt =====
-- The addresses of `nebula_io_spdk_open`, and the handles it gives.
use mini_fs.Base.{
  ℕ, zero, suc, ◌≤◌, ◌≡◌, refl, ap, true, false, Option, none, some, List, [], ◌∷◌, ◌++◌, arith,
  ◌==◌, length, ok,
}
use mini_fs.Spdk.Nvme.{Namespace, NvmeNs, first_usable, attach_cb}
use mini_fs.Spdk.Open.{tcp, at_colon, first_bytes, tcp_target, target_of, attach_all, probe_trid}
use mini_fs.Spdk.ChoiceLaws.{AllControllers, NoneUsable, Probes, Chooses, first_usable-Chooses}

-- No byte of the string is a colon.
abbrev pub NoColon : List ℕ → Type 0
NoColon [] = Unit {0}
NoColon (c ∷ s) = ((c == b':') ≡ false) × NoColon s

at_colon-◌++◌ : (s t : List ℕ) → NoColon s → at_colon (s ++ (b':' ∷ t)) ≡ some (s, t)
unfolding at_colon
at_colon-◌++◌ [] t h = refl
at_colon-◌++◌ (c ∷ s) t (c_free, free) = rw (c_free, at_colon-◌++◌ s t free) refl

first_bytes-all : (n : ℕ) (s : List ℕ) → length s ≤ n → first_bytes n s ≡ s
unfolding first_bytes
first_bytes-all zero [] le = refl
first_bytes-all zero (c ∷ s) le = absurd (omega arith)
first_bytes-all (suc n) [] le = refl
first_bytes-all (suc n) (c ∷ s) le = ap (λ t. c ∷ t) (first_bytes-all n s (omega arith))

-- An address of at most 511 bytes behind `tcp:`, with the address and the port free of colons, is
-- split into the three parts that it was put together from; the name of the subsystem may have
-- colons.
pub target_of-tcp :
    (ip port nqn : List ℕ)
    → NoColon ip
    → NoColon port
    → length (ip ++ (b':' ∷ port ++ (b':' ∷ nqn))) ≤ 511
    → target_of (b't' ∷ b'c' ∷ b'p' ∷ b':' ∷ ip ++ (b':' ∷ port ++ (b':' ∷ nqn)))
      ≡ ok (tcp ip port nqn)
unfolding target_of tcp_target
target_of-tcp ip port nqn free free' fits =
    rw
      (
        first_bytes-all 511 (ip ++ (b':' ∷ port ++ (b':' ∷ nqn))) fits,
        at_colon-◌++◌ ip (port ++ (b':' ∷ nqn)) free,
        at_colon-◌++◌ port nqn free',
      )
      refl

Probes-later :
    (namespaces : List (Option Namespace)) (rest : List (List (Option Namespace)))
    (found : Option NvmeNs)
    → NoneUsable namespaces
    → Probes rest found
    → Probes (namespaces ∷ rest) found
Probes-later namespaces rest none unusable p = (unusable, p)
Probes-later namespaces rest (some h) unusable p = record {
  before = namespaces ∷ p.before;
  after = p.after;
  controller = p.controller;
  found = ap (λ l. namespaces ∷ l) p.found;
  none_before = (unusable, p.none_before);
  first = p.first;
}

-- A result that there is already stays.
attach_all-some :
    (attached : List (List (Option Namespace))) (h : NvmeNs) → attach_all attached (some h) ≡ some h
unfolding attach_all attach_cb
attach_all-some [] h = refl
attach_all-some (namespaces ∷ rest) h = attach_all-some rest h

attach_all-Probes :
    (attached : List (List (Option Namespace)))
    → AllControllers attached
    → Probes attached (attach_all attached none)
unfolding attach_all attach_cb
attach_all-Probes [] h = tt
attach_all-Probes (namespaces ∷ rest) (h, hs) =
    by_first (first_usable 1 namespaces) (first_usable-Chooses 1 namespaces h)
      (attach_all-Probes rest hs)
  where
    by_first :
        (found : Option NvmeNs)
        → Chooses 1 namespaces found
        → Probes rest (attach_all rest none)
        → Probes (namespaces ∷ rest) (attach_all rest found)
    by_first none unusable later = Probes-later namespaces rest _ unusable later
    by_first (some g) first later = rw (attach_all-some rest g) (record {
      before = [];
      after = rest;
      controller = namespaces;
      found = refl;
      none_before = tt;
      first = first;
    })

-- Among controllers whose active namespaces have sectors of a power of two of bytes and fewer than
-- 2^63 bytes in all: a probe that gives no handle has found no usable namespace, that is an active
-- one whose sectors fit in a block and for which a queue pair and a handle can be had; the handle
-- that it gives is that of the first usable namespace of the first controller that has one, with the
-- number, the sector size and the capacity in blocks of that namespace, and its sectors divide a
-- block.
pub probe_trid-Probes :
    (attached : List (List (Option Namespace)))
    → AllControllers attached
    → Probes attached (probe_trid true attached)
unfolding probe_trid
probe_trid-Probes attached h = attach_all-Probes attached h
