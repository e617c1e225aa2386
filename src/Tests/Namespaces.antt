-- ===== src/Tests/Namespaces.antt =====
-- A namespace in memory, and addresses of NVMe devices.
use mini_fs.Base.{
  ℕ, ◌+◌, ◌-◌, ◌*◌, ◌≡◌, refl, inl, inr, true, false, Option, none, some, List, [], ◌∷◌, arith, ok,
}
use mini_fs.Format.Bytes.{Bytes, copy}
use mini_fs.Io.Loops.{Filled, SameOutside}
use mini_fs.Io.Contract.{IsBackend}
use mini_fs.Spdk.Nvme.{completed, Driver, Namespace, NvmeNs}
use mini_fs.Spdk.NvmeLaws.{DriverLaws}
use mini_fs.Spdk.Promise.{spdk_backend, spdk_backend-IsBackend}
use mini_fs.Spdk.Open.{tcp, target_of, probe_trid}
use mini_fs.Spdk.OpenLaws.{target_of-tcp, probe_trid-Probes}
use mini_fs.Spdk.ChoiceLaws.{IsStandard, Probes}

-- Every command completes without an error.
abbrev memory : Driver Bytes
memory = record {
  cmd_read = λ lba n d. (completed false, (λ j. d (lba * 512 + j)), d);
  cmd_write = λ src lba n d. (completed false, copy d (lba * 512) src 0 (n * 512));
  cmd_flush = λ d. (completed false, d);
}

memory-Filled : (src d : Bytes) (o n : ℕ) → Filled (copy d o src 0 n) src o n
unfolding copy
memory-Filled src d o n j p = let e : 0 + (o + j - o) ≡ j = omega arith in ground (arith, e)

memory-SameOutside : (src d : Bytes) (o n : ℕ) → SameOutside d (copy d o src 0 n) o n
unfolding copy
memory-SameOutside src d o n j (inl p) = ground arith
memory-SameOutside src d o n j (inr p) = ground arith

memory_laws : DriverLaws memory 512
memory_laws = record {
  content = λ d. d;
  read_data = λ lba n d e j p. refl;
  read_keeps = λ lba n d. refl;
  write_data = λ src lba n d e. memory-Filled src d (lba * 512) (n * 512);
  write_outside = λ src lba n d. memory-SameOutside src d (lba * 512) (n * 512);
}

-- 1000 blocks of 8 sectors.
abbrev handle : NvmeNs
handle = record { number = 1; sector_size = 512; sectors_per_block = 8; capacity_blocks = 1000 }

spdk_backend-IsBackend_example : IsBackend (spdk_backend memory handle memory_laws)
spdk_backend-IsBackend_example =
    spdk_backend-IsBackend memory handle memory_laws
      (record { divides = refl; small = omega arith })

target_of-tcp_example :
    target_of (b't' ∷ b'c' ∷ b'p' ∷ b':' ∷ b'h' ∷ b':' ∷ b'8' ∷ b':' ∷ b'n' ∷ b':' ∷ b'q' ∷ [])
    ≡ ok (tcp (b'h' ∷ []) (b'8' ∷ []) (b'n' ∷ b':' ∷ b'q' ∷ []))
target_of-tcp_example =
    target_of-tcp (b'h' ∷ []) (b'8' ∷ []) (b'n' ∷ b':' ∷ b'q' ∷ []) (refl, tt) (refl, tt)
      (omega arith)

-- Of the first controller no namespace is usable; of the second one, the last is.
abbrev drives : List (List (Option Namespace))
drives =
    (none
      ∷ some (record {
        is_active = true;
        sector_size = 8192;
        num_sectors = 1000;
        has_qpair = true;
        has_handle = true;
      })
      ∷ [])
    ∷ (some (record {
      is_active = false;
      sector_size = 0;
      num_sectors = 0;
      has_qpair = true;
      has_handle = true;
    })
        ∷ some (record {
          is_active = true;
          sector_size = 512;
          num_sectors = 8000;
          has_qpair = true;
          has_handle = true;
        })
        ∷ [])
    ∷ []

idle-IsStandard : IsStandard (
    some (record {
      is_active = false;
      sector_size = 0;
      num_sectors = 0;
      has_qpair = true;
      has_handle = true;
    }))
idle-IsStandard active = ground (arith, active)

probe_trid-Probes_example : Probes drives (probe_trid true drives)
probe_trid-Probes_example = probe_trid-Probes drives (
  (tt, ((λ a. (13, refl, omega arith)), tt)),
  ((idle-IsStandard, ((λ a. (9, refl, omega arith)), tt)), tt),
)
