-- ===== src/Spdk/ChoiceLaws.antt =====
-- The choice of a namespace of src/io/nebula_spdk_nvme.c.
use mini_fs.Base.{
  ℕ, zero, suc, ◌+◌, ◌-◌, ◌*◌, ◌/◌, ◌^◌, ◌≤◌, ◌<◌, ◌≡◌, refl, sym, ap, ◌∙◌, inl, inr, Bool, true,
  false, not, Option, none, some, List, [], ◌∷◌, ◌++◌, arith, ltb, leb, if◌then◌else◌, ltb→lt,
  ltb→le, leb→le, leb→lt, Bool-cases, length,
}
use native.Mathlib.Nat.{
  zero-add, one-mul, mul_assoc, pow-succ', div-eq_of_eq-mul_left, mul-le-mul_right, div-mul-le_self,
}
use mini_fs.Format.Consts.{block_size}
use mini_fs.Spdk.Nvme.{Namespace, NvmeNs, ns_handle, first_usable}
use mini_fs.Spdk.NvmeLaws.{WholeSectors}

-- What the driver documents of an active namespace: a sector has a power of two of bytes, and all of
-- them have fewer than 2^63.
abbrev pub IsStandard : Option Namespace → Type 0
IsStandard none = Unit {0}
IsStandard (some ns) =
    ns.is_active ≡ true
    → (k : ℕ) × (ns.sector_size ≡ 2 ^ k) × (ns.num_sectors * ns.sector_size < 2 ^ 63)

abbrev pub AllStandard : List (Option Namespace) → Type 0
AllStandard [] = Unit {0}
AllStandard (ns ∷ rest) = IsStandard ns × AllStandard rest

abbrev pub AllControllers : List (List (Option Namespace)) → Type 0
AllControllers [] = Unit {0}
AllControllers (namespaces ∷ rest) = AllStandard namespaces × AllControllers rest

-- An active namespace whose sectors fit in a block, for which a queue pair and a handle can be had.
pub record Usable (ns : Namespace) : Type 0 where
  pub active : ns.is_active ≡ true
  pub fits : ns.sector_size ≤ block_size
  pub qpair : ns.has_qpair ≡ true
  pub handle : ns.has_handle ≡ true

-- No namespace of a controller, and of all controllers, is usable.
abbrev pub NoneUsable : List (Option Namespace) → Type 0
NoneUsable [] = Unit {0}
NoneUsable (none ∷ rest) = NoneUsable rest
NoneUsable (some ns ∷ rest) = (¬ Usable ns) × NoneUsable rest

abbrev pub NoneAttached : List (List (Option Namespace)) → Type 0
NoneAttached [] = Unit {0}
NoneAttached (namespaces ∷ rest) = NoneUsable namespaces × NoneAttached rest

-- The handle `h` is that of the first usable namespace of a controller, which has the number one
-- more than there are namespaces before it.
pub record FirstUsable (i : ℕ) (namespaces : List (Option Namespace)) (h : NvmeNs) : Type 0 where
  pub early : List (Option Namespace)
  pub late : List (Option Namespace)
  pub chosen : Namespace
  pub found : namespaces ≡ early ++ (some chosen ∷ late)
  pub none_before : NoneUsable early
  pub usable : Usable chosen
  pub number : h.number ≡ i + length early
  pub sector_size : h.sector_size ≡ chosen.sector_size
  pub capacity : h.capacity_blocks ≡ chosen.num_sectors / (block_size / chosen.sector_size)
  pub whole : WholeSectors h

-- The handle is that of the first controller with a usable namespace.
pub record FirstAttached (attached : List (List (Option Namespace))) (h : NvmeNs) : Type 0 where
  pub before : List (List (Option Namespace))
  pub after : List (List (Option Namespace))
  pub controller : List (Option Namespace)
  pub found : attached ≡ before ++ (controller ∷ after)
  pub none_before : NoneAttached before
  pub first : FirstUsable 1 controller h

abbrev pub Probes : List (List (Option Namespace)) → Option NvmeNs → Type 0
Probes attached none = NoneAttached attached
Probes attached (some h) = FirstAttached attached h

abbrev pub Chooses : ℕ → List (Option Namespace) → Option NvmeNs → Type 0
Chooses i namespaces none = NoneUsable namespaces
Chooses i namespaces (some h) = FirstUsable i namespaces h

pow_add : (j k : ℕ) → 2 ^ (j + k) ≡ 2 ^ j * 2 ^ k
pow_add zero k = rw (zero-add k, one-mul (2 ^ k)) refl
pow_add (suc j) k =
    let e : suc j + k ≡ suc (j + k) = omega arith in
    rw (e, pow-succ' 2 (j + k), pow-succ' 2 j, pow_add j k) (sym (mul_assoc 2 (2 ^ j) (2 ^ k)))

-- A power of two up to a block divides a block.
power_divides : (k : ℕ) → 2 ^ k ≤ block_size → block_size / 2 ^ k * 2 ^ k ≡ block_size
power_divides k le = elim (Bool-cases (leb k 12)) [
  | inl few ↦
      let e : 12 - k + k ≡ 12 = omega (arith, leb→le k 12 few) in
      let product : block_size ≡ 2 ^ (12 - k) * 2 ^ k =
        ap (λ n. 2 ^ n) (sym e) ∙ pow_add (12 - k) k in
      rw (div-eq_of_eq-mul_left (positive k) product) (sym product)
  | inr many ↦
      let e : 13 + (k - 13) ≡ k = omega (arith, leb→lt k 12 many) in
      let product : 2 ^ k ≡ 8192 * 2 ^ (k - 13) = ap (λ n. 2 ^ n) (sym e) ∙ pow_add 13 (k - 13) in
      absurd (omega (arith, product, positive (k - 13)))
]
  where
    positive : (k : ℕ) → 0 < 2 ^ k
    positive zero = omega arith
    positive (suc k) = omega (arith, pow-succ' 2 k, positive k)

-- The handle of a usable namespace.
ns_handle-WholeSectors :
    (i k : ℕ) (ns : Namespace)
    → ns.sector_size ≡ 2 ^ k
    → ns.num_sectors * ns.sector_size < 2 ^ 63
    → ns.sector_size ≤ block_size
    → WholeSectors (ns_handle i ns)
unfolding ns_handle
ns_handle-WholeSectors i k ns e small le =
    let divides : block_size / ns.sector_size * ns.sector_size ≡ block_size =
      rw e (power_divides k (rw⁻¹ e le)) in
    record {
      divides = divides;
      small =
          let per = block_size / ns.sector_size in
          let product : ns.num_sectors / per * block_size
              ≡ ns.num_sectors / per * per * ns.sector_size =
            ap (λ b. ns.num_sectors / per * b) (sym divides)
            ∙ sym (mul_assoc (ns.num_sectors / per) per ns.sector_size) in
          let le' = mul-le-mul_right ns.sector_size (div-mul-le_self ns.num_sectors per) in
          omega (arith, product, le', small);
    }

FirstUsable-later :
    (i : ℕ) (ns : Option Namespace) (rest : List (Option Namespace)) (h : NvmeNs)
    → NoneUsable (ns ∷ [])
    → FirstUsable (i + 1) rest h
    → FirstUsable i (ns ∷ rest) h
FirstUsable-later i ns rest h unusable f = record {
  early = ns ∷ f.early;
  late = f.late;
  chosen = f.chosen;
  found = ap (λ l. ns ∷ l) f.found;
  none_before = NoneUsable-◌∷◌ ns f.early unusable f.none_before;
  usable = f.usable;
  number = omega (arith, f.number);
  sector_size = f.sector_size;
  capacity = f.capacity;
  whole = f.whole;
}
  where
    NoneUsable-◌∷◌ :
        (ns : Option Namespace) (rest : List (Option Namespace))
        → NoneUsable (ns ∷ [])
        → NoneUsable rest
        → NoneUsable (ns ∷ rest)
    NoneUsable-◌∷◌ none rest u r = r
    NoneUsable-◌∷◌ (some ns) rest (u, t) r = (u, r)

Chooses-later :
    (i : ℕ) (ns : Namespace) (rest : List (Option Namespace)) (found : Option NvmeNs)
    → ¬ Usable ns
    → Chooses (i + 1) rest found
    → Chooses i (some ns ∷ rest) found
Chooses-later i ns rest none unusable c = (unusable, c)
Chooses-later i ns rest (some h) unusable c = FirstUsable-later i (some ns) rest h (unusable, tt) c

Chooses-none :
    (i : ℕ) (rest : List (Option Namespace)) (found : Option NvmeNs)
    → Chooses (i + 1) rest found
    → Chooses i (none ∷ rest) found
Chooses-none i rest none c = c
Chooses-none i rest (some h) c = FirstUsable-later i none rest h tt c

Chooses-this :
    (i : ℕ) (ns : Namespace) (rest : List (Option Namespace))
    → IsStandard (some ns)
    → Usable ns
    → Chooses i (some ns ∷ rest) (some (ns_handle i ns))
unfolding ns_handle
Chooses-this i ns rest std u =
    let (k, e, small) = std u.active in
    record {
      early = [];
      late = rest;
      chosen = ns;
      found = refl;
      none_before = tt;
      usable = u;
      number = omega arith;
      sector_size = refl;
      capacity = refl;
      whole = ns_handle-WholeSectors i k ns e small u.fits;
    }

Chooses-if :
    (i : ℕ) (namespaces : List (Option Namespace)) (test : Bool) (x y : Option NvmeNs)
    → (test ≡ true → Chooses i namespaces x)
    → (test ≡ false → Chooses i namespaces y)
    → Chooses i namespaces (if test then x else y)
Chooses-if i namespaces true x y h k = h refl
Chooses-if i namespaces false x y h k = k refl

pub first_usable-Chooses :
    (i : ℕ) (namespaces : List (Option Namespace))
    → AllStandard namespaces
    → Chooses i namespaces (first_usable i namespaces)
unfolding first_usable
first_usable-Chooses i [] h = tt
first_usable-Chooses i (none ∷ rest) (u, h) =
    Chooses-none i rest _ (first_usable-Chooses (i + 1) rest h)
first_usable-Chooses i (some ns ∷ rest) (std, h) =
    let later =
      λ (no : ¬ Usable ns). Chooses-later i ns rest _ no (first_usable-Chooses (i + 1) rest h) in
    Chooses-if i (some ns ∷ rest) (not ns.is_active) _ _
      (λ idle. later (λ u. ground (arith, u.active)))
      (λ active.
        Chooses-if i (some ns ∷ rest) (ltb block_size ns.sector_size) _ _
          (λ large. later (λ u. absurd (omega (arith, u.fits, ltb→lt _ _ large))))
          (λ fits.
            Chooses-if i (some ns ∷ rest) (not ns.has_qpair) _ _
              (λ no_qpair. later (λ u. ground (arith, u.qpair)))
              (λ qpair.
                Chooses-if i (some ns ∷ rest) (not ns.has_handle) _ _
                  (λ no_handle. later (λ u. ground (arith, u.handle)))
                  (λ had. Chooses-this i ns rest std (record {
                    active = grind (arith, active);
                    fits = ltb→le block_size ns.sector_size fits;
                    qpair = grind (arith, qpair);
                    handle = grind (arith, had);
                  })))))
