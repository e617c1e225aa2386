-- ===== src/ObjStore/Status.antt =====
-- src/objstore/common.h: the status codes. A method that returns `Status` and fills its output is an
-- action; `Status::OK` with the output is `done`.
use mini_fs.Base.{Result, ok, err}

pub data Status : Type 0 where
  error_not_found : Status
  error_already_exists : Status
  error_parent_not_found : Status
  error_out_of_range : Status
  error_no_space : Status
  error_io_failure : Status
  error_metadata : Status
  error_invalid_argument : Status
  error_internal : Status

pub data Reply (A : Type 0) : Type 0 where
  done : A → Reply A
  fail : Status → Reply A

abbrev pub Act : Type 0 → Type 0 → Type 0
Act S A = S → Reply A × S

module _ {S A : Type 0} where
  abbrev pub give : A → Act S A
  give a s = (done a, s)

  abbrev pub stop : Status → Act S A
  stop e s = (fail e, s)

  abbrev pub chain : {B : Type 0} → (A → Act S B) → Reply A → S → Reply B × S
  chain k (done a) s = k a s
  chain k (fail e) s = (fail e, s)

module _ {S A B : Type 0} where
  infixl 5 ◌>>=◌
  abbrev pub ◌>>=◌ : Act S A → (A → Act S B) → Act S B
  ◌>>=◌ m k s = let (r, s') = m s in chain k r s'

module _ {S B : Type 0} where
  infixl 5 ◌>>◌
  abbrev pub ◌>>◌ : Act S (Unit {0}) → Act S B → Act S B
  m >> k = m >>= λ _. k

-- A call of the C library whose error becomes the status `e`.
abbrev pub or_status : {A : Type 0} → Status → Result A → Reply A
or_status e (ok a) = done a
or_status e (err n) = fail e
