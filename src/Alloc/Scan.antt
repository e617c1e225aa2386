-- ===== src/Alloc/Scan.antt =====
-- The scan of `nebula_block_alloc` for a run of free bits.
use mini_fs.Base.{
  ℕ, zero, suc, ◌+◌, ◌≤◌, ◌<◌, ◌≡◌, ◌≢◌, inl, inr, true, false, Option, none, some, arith, ◌==◌,
  if◌then◌else◌, ==→eq, ==→ne, Bool-cases,
}
use mini_fs.Format.Bytes.{Bytes}
use mini_fs.Bits.{bit_get}
use native.Mathlib.Decide.{dec_lt, ℕ_discrete}

-- `rounds` bits are left from `bit` on; the result is the start of the first run of `n`.
unfoldable pub find_run : Bytes → ℕ → ℕ → ℕ → ℕ → ℕ → Option ℕ
find_run bm n zero bit run_start run_len = none
find_run bm n (suc rounds) bit run_start run_len =
    let start = if run_len == 0 then bit else run_start in
    let after_used = find_run bm n rounds (bit + 1) run_start 0 in
    let after_free = find_run bm n rounds (bit + 1) start (run_len + 1) in
    if bit_get bm bit then after_used else if run_len + 1 == n then some start else after_free

-- Blocks `s … s + n - 1` are free.
abbrev pub AllFree : Bytes → ℕ → ℕ → Type 0
AllFree bm s n = (i : ℕ) → s ≤ i → i < s + n → bit_get bm i ≡ false

-- What the scan may find among the bits below `total`: the first run of `n`, or that there is none.
abbrev pub Fits : Bytes → ℕ → ℕ → Option ℕ → Type 0
Fits bm n total none = (s : ℕ) → s + n ≤ total → ¬ AllFree bm s n
Fits bm n total (some s) =
    AllFree bm s n × (s + n ≤ total) × ((s' : ℕ) → s' < s → ¬ AllFree bm s' n)

-- The start of the current run: the next bit, if the run is empty.
abbrev current : ℕ → ℕ → ℕ → ℕ
current bit run_start run_len = if run_len == 0 then bit else run_start

current_more : (bit start len : ℕ) → current (bit + 1) start (len + 1) ≡ start
current_more bit start len = ground arith

module _ (bm : Bytes) (n total : ℕ) where
  record Scanned (bit cur len : ℕ) : Type 0 where
    at_end : cur + len ≡ bit
    short : len < n
    free : AllFree bm cur len
    blocked : (s : ℕ) → s < cur → ¬ AllFree bm s n

  Scanned-used :
      (bit cur len : ℕ)
      → Scanned bit cur len
      → bit_get bm bit ≡ true
      → Scanned (bit + 1) (bit + 1) 0
  Scanned-used bit cur len sc used = record {
    at_end = omega arith;
    short = omega (arith, sc.short);
    free = λ i p q. absurd (omega arith);
    blocked = λ s lt all. elim (dec_lt s cur) [
      | yes below ↦ sc.blocked s below all
      | no above ↦
          let f : bit_get bm bit ≡ false =
            all bit (omega arith) (omega (arith, sc.at_end, sc.short)) in
          cc
    ];
  }

  Scanned-free :
      (bit cur len : ℕ) → Scanned bit cur len → bit_get bm bit ≡ false → AllFree bm cur (len + 1)
  Scanned-free bit cur len sc f i p q = elim (ℕ_discrete i bit) [
    | yes e ↦ rw e f
    | no ne ↦ sc.free i p (omega (arith, sc.at_end))
  ]

  Scanned-more :
      (bit cur len : ℕ)
      → Scanned bit cur len
      → bit_get bm bit ≡ false
      → len + 1 ≢ n
      → Scanned (bit + 1) cur (len + 1)
  Scanned-more bit cur len sc f ne = record {
    at_end = omega (arith, sc.at_end);
    short = omega (arith, sc.short);
    free = Scanned-free bit cur len sc f;
    blocked = sc.blocked;
  }

  find_run-Fits :
      (rounds bit run_start run_len : ℕ)
      → Scanned bit (current bit run_start run_len) run_len
      → bit + rounds ≡ total
      → Fits bm n total (find_run bm n rounds bit run_start run_len)
  unfolding find_run
  find_run-Fits zero bit run_start run_len sc e = λ s le all.
      elim (dec_lt s (current bit run_start run_len)) [
        | yes below ↦ sc.blocked s below all
        | no above ↦ absurd (omega (arith, sc.at_end, sc.short))
      ]
  find_run-Fits (suc rounds) bit run_start run_len sc e = elim (Bool-cases (bit_get bm bit)) [
    | inl used ↦ rw used (
        find_run-Fits rounds (bit + 1) run_start 0
          (Scanned-used bit (current bit run_start run_len) run_len sc used) (omega arith))
    | inr free ↦ rw free (elim (Bool-cases (run_len + 1 == n)) [
      | inl full ↦
          let q = ==→eq (run_len + 1) n full in
          let run = Scanned-free bit (current bit run_start run_len) run_len sc free in
          rw full ((λ i p r. run i p (omega arith)), omega (arith, q, sc.at_end), sc.blocked)
      | inr more ↦ rw more (
          find_run-Fits rounds (bit + 1) (current bit run_start run_len) (run_len + 1)
            (rw (current_more bit (current bit run_start run_len) run_len) (
              Scanned-more bit (current bit run_start run_len) run_len sc free
                (==→ne (run_len + 1) n more)))
            (omega arith))
    ])
  ]

-- The scan from the first bit finds the first run of `n` free bits below `total`, if there is one,
-- for `n` above 0.
pub find_run_first :
    (bm : Bytes) (n total : ℕ) → 0 < n → Fits bm n total (find_run bm n total 0 0 0)
find_run_first bm n total pos = find_run-Fits bm n total total 0 0 0 start (omega arith)
  where
    start : Scanned bm n total 0 0 0
    start = record {
      at_end = omega arith;
      short = pos;
      free = λ i p q. absurd (omega arith);
      blocked = λ s lt. absurd (omega arith);
    }
