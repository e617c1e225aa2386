-- ===== src/ObjStore/CodecLaws.antt =====
-- `put_pod` followed by `get_pod`.
use mini_fs.Base.{
  ℕ, zero, suc, ◌+◌, ◌*◌, ◌/◌, ◌%◌, ◌^◌, ◌<◌, ◌≡◌, refl, sym, ap, ◌∙◌, some, [], ◌++◌, arith,
}
use mathlib.Core.List.{append-nil}
use native.Mathlib.Nat.{pow-suc}
use mini_fs.ObjStore.Codec.{Str, put_pod, get_pod}

pub get_pod-put_pod :
    (width v : ℕ) (rest : Str)
    → v < 256 ^ width
    → get_pod width (put_pod width v ++ rest) ≡ some (v, rest)
unfolding get_pod put_pod
get_pod-put_pod zero v rest h = let e : v ≡ 0 = omega arith in rw e refl
get_pod-put_pod (suc width) v rest h =
    let ih = get_pod-put_pod width (v / 256) rest (omega (arith, pow-suc 256 width)) in
    let e : v % 256 % 256 + 256 * (v / 256) ≡ v = omega arith in rw (ih, e) refl

pub get_pod-put_pod_last :
    (width v : ℕ) → v < 256 ^ width → get_pod width (put_pod width v) ≡ some (v, [])
get_pod-put_pod_last width v h =
    ap (get_pod width) (sym (append-nil (put_pod width v))) ∙ get_pod-put_pod width v [] h
