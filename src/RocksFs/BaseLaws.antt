-- ===== src/RocksFs/BaseLaws.antt =====
-- What `basename` of the adapter returns.
use mini_fs.Base.{
  ℕ, ◌≡◌, refl, ap, ◌∙◌, inl, inr, Bool, true, false, not, ◌&&◌, [], ◌∷◌, ◌++◌, arith, ◌==◌,
  Bool-cases,
}
use mathlib.Core.Path.{subst}
use mathlib.Core.List.{append-nil, append_assoc}
use mini_fs.Dirs.Entry.{Name}
use mini_fs.RocksFs.Names.{base_from, basename}

abbrev pub no_slash : Name → Bool
no_slash [] = true
no_slash (c ∷ s) = not (c == b'/') && no_slash s

abbrev pub ends_in_slash : Name → Bool
ends_in_slash [] = true
ends_in_slash (c ∷ []) = c == b'/'
ends_in_slash (c ∷ d ∷ s) = ends_in_slash (d ∷ s)

-- `base` has no slash, and what stands before it in the path is empty or ends in a slash.
pub record IsBase (path base : Name) : Type 0 where
  pub plain : no_slash base ≡ true
  pub dir : Name
  pub parted : path ≡ dir ++ base
  pub slash : ends_in_slash dir ≡ true

ends_in_slash-append :
    (s : Name) (c : ℕ) → (c == b'/') ≡ true → ends_in_slash (s ++ (c ∷ [])) ≡ true
ends_in_slash-append [] c h = h
ends_in_slash-append (d ∷ []) c h = h
ends_in_slash-append (d ∷ e ∷ s) c h = ends_in_slash-append (e ∷ s) c h

no_slash-append :
    (s : Name) (c : ℕ) → no_slash s ≡ true → (c == b'/') ≡ false → no_slash (s ++ (c ∷ [])) ≡ true
no_slash-append [] c p h = rw h refl
no_slash-append (d ∷ s) c p h = elim (Bool-cases (d == b'/')) [
  | inl slash ↦ ground (arith, p, slash)
  | inr other ↦ rw other (no_slash-append s c (ground (arith, p, other)) h)
]

base_from-IsBase :
    (dir kept rest : Name)
    → ends_in_slash dir ≡ true
    → no_slash kept ≡ true
    → IsBase (dir ++ (kept ++ rest)) (base_from kept rest)
unfolding base_from
base_from-IsBase dir kept [] e p = record {
  plain = p;
  dir = dir;
  parted = ap (λ s. dir ++ s) (append-nil kept);
  slash = e;
}
base_from-IsBase dir kept (c ∷ rest) e p = elim (Bool-cases (c == b'/')) [
  | inl slash ↦
      let ih =
        base_from-IsBase (dir ++ (kept ++ (c ∷ []))) [] rest
          (rw (← append_assoc dir kept (c ∷ [])) (ends_in_slash-append (dir ++ kept) c slash))
          refl in
      rw slash (
        subst (λ path. IsBase path (base_from [] rest))
          (append_assoc dir (kept ++ (c ∷ [])) rest
            ∙ ap (λ s. dir ++ s) (append_assoc kept (c ∷ []) rest))
          ih)
  | inr other ↦
      let ih = base_from-IsBase dir (kept ++ (c ∷ [])) rest e (no_slash-append kept c p other) in
      rw other (
        subst (λ s. IsBase (dir ++ s) (base_from (kept ++ (c ∷ [])) rest))
          (append_assoc kept (c ∷ []) rest) ih)
]

-- What `basename` returns has no slash, and what stands before it in the path is empty or ends in a
-- slash: it is the part behind the last slash, or the whole path where there is none.
pub basename-IsBase : (path : Name) → IsBase path (basename path)
unfolding basename
basename-IsBase path = base_from-IsBase [] [] path refl refl
