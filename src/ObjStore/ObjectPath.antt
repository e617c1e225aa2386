-- ===== src/ObjStore/ObjectPath.antt =====
-- `validate_object_path` of src/objstore/common.cc.
use mini_fs.Base.{ℕ, ◌+◌, Bool, false, not, ◌&&◌, [], ◌∷◌, ltb, ◌==◌, if◌then◌else◌, length}
use mini_fs.ObjStore.Codec.{Str}

-- The loop: the characters from index `i` on, the start of the component, and the count so far. At
-- the end of the string the last component is counted.
unfoldable pub components : Str → (i start count : ℕ) → Bool
components [] i start count = not (i == start) && count + 1 == 4
components (c ∷ rest) i start count =
    let next =
      components rest (i + 1) (if c == b'/' then i + 1 else start)
        (if c == b'/' then count + 1 else count) in
    if c == b'/' && i == start then false else next

unfoldable pub begins : Str → Bool
unfolding components
begins [] = false
begins (c ∷ rest) = if not (c == b'/') then false else components rest 1 1 0

unfoldable pub validate_object_path : Str → Bool
unfolding begins
validate_object_path p = if ltb (length p) 5 then false else begins p
