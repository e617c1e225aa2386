-- ===== src/Meta/Agreeing.antt =====
-- What the checksum and the fields of a block depend on: its bytes.
use mini_fs.Base.{
  ℕ, zero, suc, ◌+◌, ◌-◌, ◌%◌, ◌≤◌, ◌<◌, ◌≡◌, refl, sym, ap, ◌∙◌, ◌⊎◌, inl, inr, arith, u32_mod,
}
use mini_fs.Format.Bytes.{
  Bytes, at, Field, load, store, write_le_outside, write_le_inside, read_le_ext,
}
use mini_fs.Format.Crc.{crc_loop, checksum_of}
use mini_fs.Io.RoundTrip.{Agree}

crc_loop_ext :
    (len : ℕ) (b c : Bytes) (p crc : ℕ)
    → ((j : ℕ) → p ≤ j → j < p + len → at b j ≡ at c j)
    → crc_loop len b p crc ≡ crc_loop len c p crc
unfolding crc_loop
crc_loop_ext zero b c p crc h = refl
crc_loop_ext (suc len) b c p crc h =
    rw (h p (omega arith) (omega arith))
      (crc_loop_ext len b c (p + 1) _ (λ j lo hi. h j (omega arith) (omega arith)))

-- A store does the same to bytes that agree.
Agree-store :
    (n : ℕ) (f : Field) (v : ℕ) (b c : Bytes) → Agree n b c → Agree n (store f v b) (store f v c)
unfolding store
Agree-store n f v b c h j p = by_place (place j)
  where
    open f use {offset, width}

    place : (j : ℕ) → ((j < offset) ⊎ (offset + width ≤ j)) ⊎ ((offset ≤ j) × (j < offset + width))
    place j = grind arith

    by_place :
        ((j < offset) ⊎ (offset + width ≤ j)) ⊎ ((offset ≤ j) × (j < offset + width))
        → at (store f v b) j ≡ at (store f v c) j
    by_place (inl out) =
        ap (λ (x : ℕ). x % 256) (write_le_outside width offset v b j out)
        ∙ h j p
        ∙ sym (ap (λ (x : ℕ). x % 256) (write_le_outside width offset v c j out))
    by_place (inr (q, r)) = ap (λ (x : ℕ). x % 256) (write_le_inside width offset v b c j q r)

pub Agree-checksum_of :
    (n : ℕ) (f : Field) (b c : Bytes) → Agree n b c → checksum_of f n b ≡ checksum_of f n c
unfolding checksum_of
Agree-checksum_of n f b c h = ap complement_of (
    crc_loop_ext n (store f 0 b) (store f 0 c) 0 _
      (λ j lo hi. Agree-store n f 0 b c h j (omega arith)))
  where
    complement_of : ℕ → ℕ
    complement_of x = u32_mod - 1 - x % u32_mod

pub Agree-load :
    (n : ℕ) (f : Field) (b c : Bytes) → f.offset + f.width ≤ n → Agree n b c → load f b ≡ load f c
unfolding load
Agree-load n f b c fits h = read_le_ext f.width f.offset b c (λ j lo hi. h j (omega arith))
