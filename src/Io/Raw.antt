-- ===== src/Io/Raw.antt =====
-- The state behind a `struct nebula_io`: the file, and what the next calls of the system do.
-- `pread` and `pwrite` fail with an errno or move some of the bytes asked for, `aligned_alloc` may
-- return NULL, and `clock_gettime` may fail. A list of outcomes that has run out stands for calls
-- that succeed: a transfer moves all its bytes, an allocation is granted, the clock reads 0.
use mini_fs.Base.{◌≡◌, refl, ℕ, Bool, true, false, List, [], ◌∷◌, ok, err, Cmd, enomem}
use mini_fs.Format.Bytes.{Bytes}

pub data Syscall : Type 0 where
  failed : ℕ → Syscall
  moved : ℕ → Syscall

pub record Io : Type 0 where
  pub capacity_blocks : ℕ
  pub disk : Bytes
  pub syscalls : List Syscall
  pub allocs : List Bool
  pub clock : List ℕ

alloc_from : List Bool → Cmd Io (Unit {0})
alloc_from [] io = (ok tt, io)
alloc_from (true ∷ rest) io = (ok tt, record io { allocs = rest })
alloc_from (false ∷ rest) io = (err enomem, record io { allocs = rest })

-- `p = aligned_alloc(…); if (!p) return -ENOMEM;`, and so for `calloc`
unfoldable pub alloc_buf : Cmd Io (Unit {0})
unfolding alloc_from
alloc_buf io = alloc_from io.allocs io

-- A buffer is no part of the device.
alloc_from-same :
    (answers : List Bool) (io : Io)
    → ((alloc_from answers io).1.disk ≡ io.disk)
      × ((alloc_from answers io).1.capacity_blocks ≡ io.capacity_blocks)
unfolding alloc_from
alloc_from-same [] io = (refl, refl)
alloc_from-same (true ∷ rest) io = (refl, refl)
alloc_from-same (false ∷ rest) io = (refl, refl)

pub alloc_buf-same :
    (io : Io)
    → ((alloc_buf io).1.disk ≡ io.disk) × ((alloc_buf io).1.capacity_blocks ≡ io.capacity_blocks)
unfolding alloc_buf
alloc_buf-same io = alloc_from-same io.allocs io

-- With no outcome listed an allocation is granted.
pub alloc_buf-granted : (io : Io) → io.allocs ≡ [] → alloc_buf io ≡ (ok tt, io)
unfolding alloc_buf alloc_from
alloc_buf-granted io e = granted io.allocs e
  where
    granted : (answers : List Bool) → answers ≡ [] → alloc_from answers io ≡ (ok tt, io)
    granted [] q = refl
    granted (a ∷ rest) q = cc

now_from : List ℕ → Cmd Io ℕ
now_from [] io = (ok 0, io)
now_from (t ∷ rest) io = (ok t, record io { clock = rest })

-- `now_ns()`, 0 where `clock_gettime` fails
unfoldable pub now_ns : Cmd Io ℕ
unfolding now_from
now_ns io = now_from io.clock io

now_from-same :
    (times : List ℕ) (io : Io)
    → ((now_from times io).1.disk ≡ io.disk)
      × ((now_from times io).1.capacity_blocks ≡ io.capacity_blocks)
unfolding now_from
now_from-same [] io = (refl, refl)
now_from-same (t ∷ rest) io = (refl, refl)

pub now_ns-same :
    (io : Io)
    → ((now_ns io).1.disk ≡ io.disk) × ((now_ns io).1.capacity_blocks ≡ io.capacity_blocks)
unfolding now_ns
now_ns-same io = now_from-same io.clock io

-- The clock is read, and the reading is gone from the list.
pub now_ns_read :
    (io : Io) → (t : ℕ) × (rest : List ℕ) × (now_ns io ≡ (ok t, record io { clock = rest }))
unfolding now_ns now_from
now_ns_read io = read_of io.clock
  where
    read_of :
        (times : List ℕ)
        → (t : ℕ) × (rest : List ℕ) × (now_from times io ≡ (ok t, record io { clock = rest }))
    read_of [] = (0, io.clock, refl)
    read_of (t ∷ rest) = (t, rest, refl)
