-- ===== src/ObjStore/Keys.antt =====
-- The keys of src/objstore/metadata.cc: a prefix of three characters and the numbers big-endian.
use mini_fs.Base.{ℕ, zero, suc, Bool, true, false, ◌&&◌, [], ◌∷◌, ◌++◌, ◌==◌, length}
use mini_fs.ObjStore.Codec.{Str, put_be, get_be}

unfoldable pub key_path : Str → Str
key_path p = b'p' ∷ b'h' ∷ b':' ∷ p

unfoldable pub key_attrs : ℕ → Str
key_attrs oid = b'a' ∷ b't' ∷ b':' ∷ put_be 8 oid

unfoldable pub key_extent_prefix : ℕ → Str
key_extent_prefix oid = b'e' ∷ b'x' ∷ b':' ∷ put_be 8 oid

unfoldable pub key_extent : ℕ → ℕ → Str
unfolding key_extent_prefix
key_extent oid logical_offset = key_extent_prefix oid ++ put_be 8 logical_offset

unfoldable pub key_chunk : ℕ → Str
key_chunk cid = b'c' ∷ b'k' ∷ b':' ∷ put_be 4 cid

unfoldable pub key_chunk_rev : ℕ → ℕ → Str
key_chunk_rev cid idx = b'c' ∷ b'i' ∷ b':' ∷ (put_be 4 cid ++ put_be 2 idx)

-- "ct:next_object_id", "ct:next_chunk_id", "ct:schema_version" and "ph:/"
abbrev pub key_next_obj : Str
key_next_obj =
    b'c' ∷ b't' ∷ b':' ∷ b'n' ∷ b'e' ∷ b'x' ∷ b't' ∷ b'_' ∷ b'o' ∷ b'b' ∷ b'j' ∷ b'e' ∷ b'c' ∷ b't'
    ∷ b'_' ∷ b'i' ∷ b'd' ∷ []

abbrev pub key_next_chunk : Str
key_next_chunk =
    b'c' ∷ b't' ∷ b':' ∷ b'n' ∷ b'e' ∷ b'x' ∷ b't' ∷ b'_' ∷ b'c' ∷ b'h' ∷ b'u' ∷ b'n' ∷ b'k' ∷ b'_'
    ∷ b'i' ∷ b'd' ∷ []

abbrev pub key_schema : Str
key_schema =
    b'c' ∷ b't' ∷ b':' ∷ b's' ∷ b'c' ∷ b'h' ∷ b'e' ∷ b'm' ∷ b'a' ∷ b'_' ∷ b'v' ∷ b'e' ∷ b'r' ∷ b's'
    ∷ b'i' ∷ b'o' ∷ b'n' ∷ []

abbrev pub key_root_dir : Str
key_root_dir = b'p' ∷ b'h' ∷ b':' ∷ b'/' ∷ []

-- `memcmp(k.data(), prefix.data(), prefix.size()) == 0`, and what stands behind the prefix.
unfoldable pub starts_with : (prefix k : Str) → Bool
starts_with [] k = true
starts_with (a ∷ prefix) [] = false
starts_with (a ∷ prefix) (b ∷ k) = a == b && starts_with prefix k

unfoldable pub drop : ℕ → Str → Str
drop zero s = s
drop (suc n) [] = []
drop (suc n) (b ∷ s) = drop n s

-- A key of an extent of the object that the prefix is for.
unfoldable pub is_extent_key : (prefix k : Str) → Bool
unfolding starts_with
is_extent_key prefix k = length k == 19 && starts_with prefix k

unfoldable pub extent_key_offset : Str → ℕ
unfolding get_be drop
extent_key_offset k = get_be 0 (drop 11 k)
