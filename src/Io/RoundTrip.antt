-- ===== src/Io/RoundTrip.antt =====
-- `nebula_io_write` followed by `nebula_io_read` of the same blocks.
use mini_fs.Base.{ℕ, ◌+◌, ◌*◌, ◌<◌, ◌≡◌, refl, sym, ap, ◌∙◌, arith, u64_mod, Result, ok}
use mathlib.Core.Path.{subst}
use mini_fs.Format.Bytes.{Bytes, at}
use mini_fs.Format.Consts.{block_size}
use mini_fs.Io.Raw.{Io}
use mini_fs.Io.Posix.{io_read, io_write}
use mini_fs.Io.Loops.{IsDevice}
use mini_fs.Io.Laws.{Read, Written, io_read-Read, io_write-Written}

-- The first `n` bytes agree.
abbrev pub Agree : ℕ → Bytes → Bytes → Type 0
Agree n b c = (j : ℕ) → j < n → at b j ≡ at c j

-- On a device of fewer than 2^63 bytes, for block numbers that do not wrap: after a write that
-- succeeds, whatever short transfers and interruptions it met, a read of the same
-- blocks that succeeds has the bytes that were written, also where the two have outcomes of their
-- own for the system calls.
pub io_read-io_write :
    (lba n : ℕ) (src b : Bytes) (io io' io'' : Io)
    → IsDevice io
    → lba + n < u64_mod
    → io_write lba n src io ≡ (ok tt, io')
    → io_read lba n io' ≡ (ok b, io'')
    → Agree (n * block_size) b src
io_read-io_write lba n src b io io' io'' dev small e e' j p =
    r.bytes b (ap (λ (o : Result Bytes × Io). o.0) e') j p ∙ sym (w.bytes tt refl j p)
  where
    w : Written lba n src io (ok tt, io')
    w = subst (Written lba n src io) e (io_write-Written lba n src io dev small)

    dev' : IsDevice io'
    dev' = omega (arith, w.capacity)

    r : Read lba n io' (io_read lba n io')
    r = io_read-Read lba n io' dev' small
