-- ===== src/Format/Bytes.antt =====
-- Memory as bytes, and little-endian fields of it.
use mini_fs.Base.{
  ℕ, zero, suc, ◌+◌, ◌-◌, ◌*◌, ◌/◌, ◌%◌, ◌^◌, ◌≤◌, ◌<◌, ◌≡◌, refl, ◌⊎◌, inl, inr, List, [], ◌∷◌,
  arith, ltb, leb, ◌==◌, if◌then◌else◌, ◌&&◌, Bool-cases, fun_ext, ==→eq, ==→ne, ap, sym, ◌∙◌,
}
use native.Mathlib.Nat.{pow-suc}

-- An array of `uint8_t`; a load keeps the low eight bits of the cell.
abbrev pub Bytes : Type 0
Bytes = ℕ → ℕ

abbrev pub at : Bytes → ℕ → ℕ
at b i = b i % 256

-- `b[i] = v`
unfoldable pub put : Bytes → ℕ → ℕ → Bytes
put b i v j = if j == i then v % 256 else b j

-- `memset(b, 0, …)`
abbrev pub zeros : Bytes
zeros _ = 0

-- `memset(b + base, 0, n)`
unfoldable pub clear : ℕ → ℕ → Bytes → Bytes
clear base n b j = if leb base j && ltb j (base + n) then 0 else b j

-- `memcpy(dst + to, src + from, n)`
unfoldable pub copy : Bytes → ℕ → Bytes → ℕ → ℕ → Bytes
copy dst to src from n j = if leb to j && ltb j (to + n) then at src (from + (j - to)) else dst j

-- A little-endian number of `w` bytes at offset `o`.
unfoldable pub read_le : ℕ → ℕ → Bytes → ℕ
read_le zero o b = 0
read_le (suc w) o b = at b o + 256 * read_le w (suc o) b

unfoldable pub write_le : ℕ → ℕ → ℕ → Bytes → Bytes
write_le zero o v b = b
write_le (suc w) o v b = write_le w (suc o) (v / 256) (put b o v)

pub record Field : Type 0 where
  pub offset : ℕ
  pub width : ℕ

-- Field `i` of a packed structure with fields of these widths, at address `base`.
abbrev pub field_at : ℕ → List ℕ → ℕ → Field
field_at base [] i = record { offset = base; width = 0 }
field_at base (w ∷ ws) zero = record { offset = base; width = w }
field_at base (w ∷ ws) (suc i) = field_at (base + w) ws i

abbrev pub field : List ℕ → ℕ → Field
field = field_at 0

abbrev pub size_of : List ℕ → ℕ
size_of [] = 0
size_of (w ∷ ws) = w + size_of ws

unfoldable pub load : Field → Bytes → ℕ
unfolding read_le
load f b = read_le f.width f.offset b

unfoldable pub store : Field → ℕ → Bytes → Bytes
unfolding write_le
store f v b = write_le f.width f.offset v b

-- What a byte is after a store, when it lies before or behind the field.
pub write_le_outside :
    (w o v : ℕ) (b : Bytes) (j : ℕ) → (j < o) ⊎ (o + w ≤ j) → write_le w o v b j ≡ b j
unfolding write_le put
write_le_outside zero o v b j h = refl
write_le_outside (suc w) o v b j (inl h) =
    ground (arith, write_le_outside w (suc o) (v / 256) (put b o v) j (inl (omega arith)))
write_le_outside (suc w) o v b j (inr h) =
    ground (arith, write_le_outside w (suc o) (v / 256) (put b o v) j (inr (omega arith)))

-- A load depends on the bytes of its field alone.
pub read_le_ext :
    (w o : ℕ) (b c : Bytes)
    → ((j : ℕ) → o ≤ j → j < o + w → at b j ≡ at c j)
    → read_le w o b ≡ read_le w o c
unfolding read_le
read_le_ext zero o b c h = refl
read_le_ext (suc w) o b c h = omega (
  arith,
  h o (omega arith) (omega arith),
  read_le_ext w (suc o) b c (λ j p q. h j (omega arith) (omega arith)),
)

put_self : (b : Bytes) (i v : ℕ) → put b i v i ≡ v % 256
unfolding put
put_self b i v = ground arith

pub read-write_le : (w o v : ℕ) (b : Bytes) → v < 256 ^ w → read_le w o (write_le w o v b) ≡ v
unfolding read_le write_le
read-write_le zero o v b h = omega arith
read-write_le (suc w) o v b h = omega (
  arith,
  pow-suc 256 w,
  put_self b o v,
  write_le_outside w (suc o) (v / 256) (put b o v) o (inl (omega arith)),
  read-write_le w (suc o) (v / 256) (put b o v) (omega (arith, pow-suc 256 w)),
)

-- Inside the field a store leaves nothing of what was there.
pub write_le_inside :
    (w o v : ℕ) (b c : Bytes) (j : ℕ) → o ≤ j → j < o + w → write_le w o v b j ≡ write_le w o v c j
unfolding write_le put
write_le_inside zero o v b c j p q = absurd (omega arith)
write_le_inside (suc w) o v b c j p q = elim (Bool-cases (j == o)) [
  | inl e ↦ ground (
    arith,
    write_le_outside w (suc o) (v / 256) (put b o v) j (inl (omega (arith, ==→eq j o e))),
    write_le_outside w (suc o) (v / 256) (put c o v) j (inl (omega (arith, ==→eq j o e))),
  )
  | inr e ↦
      write_le_inside w (suc o) (v / 256) (put b o v) (put c o v) j (omega (arith, ==→ne j o e))
        (omega arith)
]

abbrev pub Apart : Field → Field → Type 0
Apart f g = (f.offset + f.width ≤ g.offset) ⊎ (g.offset + g.width ≤ f.offset)

pub load-store_self : (f : Field) (v : ℕ) (b : Bytes) → v < 256 ^ f.width → load f (store f v b) ≡ v
unfolding load store
load-store_self f v b h = read-write_le f.width f.offset v b h

pub load-store-Apart :
    (f g : Field) (v : ℕ) (b : Bytes) → Apart f g → load f (store g v b) ≡ load f b
unfolding load store
load-store-Apart f g v b h =
    read_le_ext f.width f.offset (write_le g.width g.offset v b) b
      λ j p q. ap (λ (t : ℕ). t % 256) (write_le_outside g.width g.offset v b j (side j p q h))
  where
    side :
        (j : ℕ)
        → f.offset ≤ j
        → j < f.offset + f.width
        → Apart f g
        → (j < g.offset) ⊎ (g.offset + g.width ≤ j)
    side j p q (inl k) = inl (omega arith)
    side j p q (inr k) = inr (omega arith)

-- A second store to the same field hides the first.
pub store-store : (f : Field) (v u : ℕ) (b : Bytes) → store f v (store f u b) ≡ store f v b
unfolding store
store-store f v u b = fun_ext λ j. by_place j (place j)
  where
    open f use {offset, width}

    place : (j : ℕ) → ((j < offset) ⊎ (offset + width ≤ j)) ⊎ ((offset ≤ j) × (j < offset + width))
    place j = grind arith

    by_place :
        (j : ℕ)
        → ((j < offset) ⊎ (offset + width ≤ j)) ⊎ ((offset ≤ j) × (j < offset + width))
        → write_le width offset v (write_le width offset u b) j ≡ write_le width offset v b j
    by_place j (inl out) =
        write_le_outside width offset v (write_le width offset u b) j out
        ∙ write_le_outside width offset u b j out
        ∙ sym (write_le_outside width offset v b j out)
    by_place j (inr (p, q)) = write_le_inside width offset v (write_le width offset u b) b j p q

pub load-lt : (f : Field) (b : Bytes) → load f b < 256 ^ f.width
unfolding load
load-lt f b = go f.width f.offset
  where
    go : (w o : ℕ) → read_le w o b < 256 ^ w
    go zero o = omega arith
    go (suc w) o = omega (arith, pow-suc 256 w, go w (suc o))
