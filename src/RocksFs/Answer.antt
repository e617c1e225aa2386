-- ===== src/RocksFs/Answer.antt =====
-- `rocksdb::IOStatus` as src/rocksdb/nebula_rocksdb_fs.cc makes it, without the texts.
use mini_fs.Base.{ℕ, ◌==◌, if◌then◌else◌, Result, ok, err, Cmd, enoent, eexist, enospc}

pub data IoStatus : Type 0 where
  not_found : IoStatus
  invalid_argument : IoStatus
  no_space : IoStatus
  io_error : IoStatus

-- `IOStatus::OK()` with the output, or another status.
pub data Answer (A : Type 0) : Type 0 where
  answered : A → Answer A
  refused : IoStatus → Answer A

-- `io_err` of an error
unfoldable pub io_err : ℕ → IoStatus
io_err e =
    if e == enoent
    then not_found
    else if e == eexist
    then invalid_argument
    else if e == enospc
    then no_space
    else io_error

-- `if (rc != 0) return io_err(rc, …);`
unfoldable pub answer_of : {A : Type 0} → Result A → Answer A
unfolding io_err
answer_of (ok a) = answered a
answer_of (err e) = refused (io_err e)

-- `if (got < 0) return rocksdb::IOStatus::IOError(…);`
unfoldable pub transferred : {A : Type 0} → Result A → Answer A
transferred (ok a) = answered a
transferred (err e) = refused io_error

abbrev pub Call : Type 0 → Type 0 → Type 0
Call S A = S → Answer A × S

module _ {S A : Type 0} where
  abbrev pub give : A → Call S A
  give a s = (answered a, s)

  abbrev pub chain : {B : Type 0} → (A → Call S B) → Answer A → S → Answer B × S
  chain k (answered a) s = k a s
  chain k (refused e) s = (refused e, s)

  -- A call of the library whose errors are turned into statuses by `io_err`.
  abbrev pub call : Cmd S A → Call S A
  call c s = let (r, s') = c s in (answer_of r, s')

  -- A call whose result is not looked at.
  abbrev pub ignore : Cmd S A → Call S (Unit {0})
  ignore c s = (answered tt, (c s).1)

module _ {S A B : Type 0} where
  infixl 5 ◌>>=◌
  abbrev pub ◌>>=◌ : Call S A → (A → Call S B) → Call S B
  ◌>>=◌ m k s = let (r, s') = m s in chain k r s'

module _ {S B : Type 0} where
  infixl 5 ◌>>◌
  abbrev pub ◌>>◌ : Call S (Unit {0}) → Call S B → Call S B
  m >> k = m >>= λ _. k
