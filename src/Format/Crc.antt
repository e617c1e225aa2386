-- ===== src/Format/Crc.antt =====
-- src/util/crc32c.c, and the checksum that every structure carries.
use mini_fs.Base.{
  ℕ, zero, suc, ◌+◌, ◌-◌, ◌/◌, ◌%◌, ◌^◌, ◌<◌, ◌≡◌, ap, sym, ◌∙◌, bit_and, bit_xor, arith, ◌==◌,
  if◌then◌else◌, u32_mod,
}
use mini_fs.Format.Bytes.{
  Bytes, at, Field, load, store, load-store_self, store-store, load-store-Apart, Apart,
}

-- One of the eight rounds that build an entry of `g_table`.
unfoldable pub crc_round : ℕ → ℕ
crc_round c = if bit_and c 1 == 1 then bit_xor 0x82F6_3B78 (c / 2) else c / 2

unfoldable pub crc_rounds : ℕ → ℕ → ℕ
unfolding crc_round
crc_rounds zero c = c
crc_rounds (suc k) c = crc_rounds k (crc_round c)

-- `g_table[i]`
unfoldable pub crc_entry : ℕ → ℕ
unfolding crc_rounds
crc_entry i = crc_rounds 8 i

-- `~crc` of a `uint32_t`
abbrev complement : ℕ → ℕ
complement c = u32_mod - 1 - c % u32_mod

-- The loop over the bytes `p … p + len`.
unfoldable pub crc_loop : ℕ → Bytes → ℕ → ℕ → ℕ
unfolding crc_entry
crc_loop zero b p crc = crc
crc_loop (suc len) b p crc =
    crc_loop len b (p + 1) (bit_xor (crc_entry (bit_and (bit_xor crc (at b p)) 0xFF)) (crc / 256))

unfoldable pub crc32c_update : ℕ → Bytes → ℕ → ℕ
unfolding crc_loop
crc32c_update crc b len = complement (crc_loop len b 0 (complement crc))

unfoldable pub crc32c : Bytes → ℕ → ℕ
unfolding crc32c_update
crc32c b len = crc32c_update 0 b len

-- `tmp = *b; tmp.checksum = 0; return crc32c(&tmp, sizeof tmp);`
unfoldable pub checksum_of : Field → ℕ → Bytes → ℕ
unfolding crc32c
checksum_of f size b = crc32c (store f 0 b) size

-- `b->checksum = …_checksum(b)`
unfoldable pub seal : Field → ℕ → Bytes → Bytes
unfolding checksum_of
seal f size b = store f (checksum_of f size b) b

checksum_of-lt : (f : Field) (size : ℕ) (b : Bytes) → checksum_of f size b < 2 ^ 32
unfolding checksum_of
checksum_of-lt f size b = omega arith

-- A sealed structure passes its check: the stored checksum is the one that is computed again.
pub seal-checks :
    (f : Field) (size : ℕ) (b : Bytes)
    → f.width ≡ 4
    → load f (seal f size b) ≡ checksum_of f size (seal f size b)
unfolding seal checksum_of
seal-checks f size b h =
    load-store_self f (checksum_of f size b) b (rw h (omega arith))
    ∙ ap (λ c. crc32c c size) (sym (store-store f 0 (checksum_of f size b) b))

-- Sealing leaves the other fields.
pub load-seal : (g f : Field) (size : ℕ) (b : Bytes) → Apart g f → load g (seal f size b) ≡ load g b
unfolding seal
load-seal g f size b h = load-store-Apart g f (checksum_of f size b) b h
