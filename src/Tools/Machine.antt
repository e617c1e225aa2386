-- ===== src/Tools/Machine.antt =====
-- What the tools work on: the open device and the source of UUIDs.
use mini_fs.Base.{ℕ, Result, ok, err, Cmd}
use mini_fs.Io.Raw.{Io}
use mini_fs.Uuid.{Urandom}

pub record Tool : Type 0 where
  pub io : Io
  pub urandom : Urandom

module _ {A : Type 0} where
  abbrev pub on_io : Cmd Io A → Cmd Tool A
  on_io m t = let (r, io') = m t.io in (r, record t { io = io' })

  abbrev pub on_urandom : Cmd Urandom A → Cmd Tool A
  on_urandom m t = let (r, u) = m t.urandom in (r, record t { urandom = u })

-- An error of a command of the tools is an exit code.
abbrev pub exit_on : {A : Type 0} → ℕ → Result A → Result A
exit_on code (ok a) = ok a
exit_on code (err e) = err code

abbrev pub or_exit : {S A : Type 0} → ℕ → Cmd S A → Cmd S A
or_exit code m s = let (r, s') = m s in (exit_on code r, s')
