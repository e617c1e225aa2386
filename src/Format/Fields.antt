-- ===== src/Format/Fields.antt =====
-- A structure built by stores to its fields, and what a load finds in it.
use mini_fs.Base.{
  ℕ, ◌+◌, ◌^◌, ◌<◌, ◌≡◌, refl, ◌∙◌, Bool, true, false, ◌&&◌, ◌||◌, Option, none, some, List, [],
  ◌∷◌, arith, leb, ◌==◌, if◌then◌else◌,
}
use mini_fs.Format.Bytes.{Bytes, Field, load, store, Apart, read-write_le, load-store-Apart}

-- The stores, the last one first.
unfoldable pub stores : List (Field × ℕ) → Bytes → Bytes
stores [] b = b
stores ((g, v) ∷ gs) b = store g v (stores gs b)

abbrev same_field : Field → Field → Bool
same_field f g = f.offset == g.offset && f.width == g.width

abbrev apart : Field → Field → Bool
apart f g = leb (f.offset + f.width) g.offset || leb (g.offset + g.width) f.offset

-- The value last stored to the field, where no later store overlaps it.
unfoldable pub stored : Field → List (Field × ℕ) → Option ℕ
stored f [] = none
stored f ((g, v) ∷ gs) = if same_field f g then some v else if apart f g then stored f gs else none

same_field-load :
    (f g : Field) (v : ℕ) (b : Bytes)
    → same_field f g ≡ true
    → v < 256 ^ f.width
    → load f (store g v b) ≡ v
unfolding load store
same_field-load f g v b t h =
    let o : g.offset ≡ f.offset = ground arith in
    let w : g.width ≡ f.width = ground arith in rw (o, w) (read-write_le f.width f.offset v b h)

apart-Apart : (f g : Field) → apart f g ≡ true → Apart f g
apart-Apart f g t = ground arith

-- One store, by what the tests on its field answer.
load-store_by :
    (f g : Field) (u v : ℕ) (earlier : Option ℕ) (c : Bytes) (same next_to : Bool)
    → same_field f g ≡ same
    → apart f g ≡ next_to
    → (if same then some u else if next_to then earlier else none) ≡ some v
    → v < 256 ^ f.width
    → (earlier ≡ some v → load f c ≡ v)
    → load f (store g u c) ≡ v
load-store_by f g u v earlier c true next_to t q e h before =
    let uv : u ≡ v = cc in same_field-load f g u c t (rw uv h) ∙ uv
load-store_by f g u v earlier c false true t q e h before =
    load-store-Apart f g u c (apart-Apart f g q) ∙ before e
load-store_by f g u v earlier c false false t q e h before = cc

-- A load finds the value that `stored` tells, when the field has room for it.
pub load-stores :
    (f : Field) (gs : List (Field × ℕ)) (v : ℕ) (b : Bytes)
    → stored f gs ≡ some v
    → v < 256 ^ f.width
    → load f (stores gs b) ≡ v
unfolding stores stored
load-stores f [] v b e h = cc
load-stores f ((g, u) ∷ gs) v b e h =
    load-store_by f g u v (stored f gs) (stores gs b) (same_field f g) (apart f g) refl refl e h
      (λ e'. load-stores f gs v b e' h)
