-- ===== src/Meta/Leaves.antt =====
-- Commands that end, when they succeed, with a block that holds given bytes.
use mini_fs.Base.{
  ℕ, ◌+◌, ◌*◌, ◌%◌, ◌≤◌, ◌<◌, ◌≡◌, refl, sym, ap, ◌∙◌, ◌≢◌, inl, inr, arith, ltb, ltb→lt, ltb→le,
  Bool-cases, u64_mod, Result, ok, err, Cmd, and_then, ◌>>◌,
}
use mathlib.Core.Path.{subst}
use mini_fs.Format.Bytes.{Bytes}
use mini_fs.Format.Consts.{block_size}
use mini_fs.Io.Raw.{Io}
use mini_fs.Io.Posix.{io_write}
use mini_fs.Io.Loops.{IsDevice, Filled}
use mini_fs.Io.Laws.{Written, io_write-Written}
use mini_fs.Meta.Keeps.{Keeps, IsDevice-Keeps, Avoids, Preserves}

-- The address lies in one of the blocks from `first` up to, but not including, `end`.
abbrev pub InBlocks : (first end : ℕ) → ℕ → Type 0
InBlocks first end j = (first * block_size ≤ j) × (j < end * block_size)

abbrev pub Block : (lba : ℕ) → ℕ → Type 0
Block lba = InBlocks lba (lba + 1)

-- A sequence that succeeds: both parts do.
seq_ok_from :
    (p : Result (Unit {0}) × Io) (k : Cmd Io (Unit {0})) (io' : Io)
    → and_then (λ u. k) p.0 p.1 ≡ (ok tt, io')
    → (p.0 ≡ ok tt) × (k p.1 ≡ (ok tt, io'))
seq_ok_from (ok u, io1) k io' e = (refl, e)
seq_ok_from (err x, io1) k io' e =
    let q : ◌≡◌ {A = Result (Unit {0})} (err x) (ok tt) =
      ap (λ (o : Result (Unit {0}) × Io). o.0) e in
    cc

-- The block holds these bytes.
abbrev pub Holds : Io → (lba : ℕ) → Bytes → Type 0
Holds io lba b = Filled io.disk b (lba * block_size) block_size

-- A block keeps its bytes where its addresses keep theirs.
Holds-Keeps :
    {P : ℕ → Type 0} (io io' : Io) (lba : ℕ) (b : Bytes)
    → ((j : ℕ) → InBlocks lba (lba + 1) j → P j)
    → Keeps P io io'
    → Holds io lba b
    → Holds io' lba b
Holds-Keeps io io' lba b sub k h j p =
    h j p
    ∙ sym (
        ap (λ (x : ℕ). x % 256) (k.bytes (lba * block_size + j) (sub _ (omega arith, omega arith))))

-- A success of the command ends with the block holding these bytes.
pub record Leaves (lba : ℕ) (b : Bytes) (m : Cmd Io (Unit {0})) : Type 0 where
  pub holds : (io io' : Io) → IsDevice io → m io ≡ (ok tt, io') → Holds io' lba b

module _ {lba : ℕ} {b : Bytes} where
  pub write-Leaves : lba + 1 < u64_mod → Leaves lba b (io_write lba 1 b)
  write-Leaves small = record {
    holds = λ io io' dev e.
        let after = subst (Written lba 1 b io) e (io_write-Written lba 1 b io dev small) in
        λ j p. after.bytes tt refl j p;
  }

  -- The first part writes the block, and the second keeps it.
  pub Leaves-first :
      {P : ℕ → Type 0} {m k : Cmd Io (Unit {0})}
      → Preserves P m
      → Leaves lba b m
      → Preserves (Block lba) k
      → Leaves lba b (m >> k)
  Leaves-first {m = m} {k = k} still h keeps = record {
    holds = λ io io' dev e.
        let (e0, e1) = seq_ok_from (m io) k io' e in
        let mid : m io ≡ (ok tt, (m io).1) = ap (λ (r : Result (Unit {0})). (r, (m io).1)) e0 in
        subst (λ (s : Io). Holds s lba b) (ap (λ (o : Result (Unit {0}) × Io). o.1) e1)
          (Holds-Keeps (m io).1 (k (m io).1).1 lba b (λ j p. p)
            (keeps.keeps (m io).1 (IsDevice-Keeps dev (still.keeps io dev)))
            (h.holds io (m io).1 dev mid));
  }

  -- The second part writes it.
  pub Leaves-second :
      {P : ℕ → Type 0} {m k : Cmd Io (Unit {0})}
      → Preserves P m
      → Leaves lba b k
      → Leaves lba b (m >> k)
  Leaves-second {m = m} {k = k} still h = record {
    holds = λ io io' dev e.
        h.holds (m io).1 io' (IsDevice-Keeps dev (still.keeps io dev))
          (seq_ok_from (m io) k io' e).1;
  }

-- A block apart from the one written.
pub Block-Avoids : (lba other : ℕ) → other ≢ lba → Avoids (Block lba) other 1
Block-Avoids lba other ne j p = elim (Bool-cases (ltb other lba)) [
  | inl t ↦ inr (omega (arith, ltb→lt other lba t))
  | inr t ↦ inl (omega (arith, ltb→le other lba t))
]
