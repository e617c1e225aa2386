-- ===== src/DmaSteps.antt =====
-- The calls on a pool of src/io/nebula_dma_pool.c, one after the other.
use mini_fs.Base.{
  ℕ, suc, ◌+◌, ◌*◌, ◌≤◌, ◌<◌, ◌≡◌, refl, ap, ◌≢◌, inl, inr, Option, none, some, List, [], ◌∷◌,
  arith, ◌==◌, if◌then◌else◌, ne→==, length, u32_mod, u64_mod,
}
use mathlib.Core.Path.{subst}
use mini_fs.Format.Bytes.{Bytes, clear}
use mini_fs.Io.Loops.{SameOutside}
use mini_fs.DmaPool.{Pool, pool_get, pool_put}
use mini_fs.DmaChain.{
  copies, copies_self, Chain, IsBuffer, AreBuffers, Chain-SameOutside, Chain-set_next, head_small,
}

-- The pool of `n` buffers of `size` bytes from `base` on, of which `out` are handed out: the others
-- are on the free list, no buffer occurs twice, and the pool counts the free ones.
pub record Shares (n base size : ℕ) (s : Pool × List ℕ) : Type 0 where
  pub free : List ℕ
  pub chain : Chain s.0.memory s.0.free_head free
  pub count : s.0.available ≡ length free
  pub whole : length free + length s.1 ≡ n
  pub once : (j : ℕ) → copies j free + copies j s.1 ≤ 1
  pub free_places : AreBuffers base size n free
  pub out_places : AreBuffers base size n s.1
  pub stride : s.0.buf_size ≡ size

pub data Returns (b : ℕ) : List ℕ → List ℕ → Type 0 where
  first : {out : List ℕ} → Returns b (b ∷ out) out
  later : {c : ℕ} {out out' : List ℕ} → Returns b out out' → Returns b (c ∷ out) (c ∷ out')

-- A call that got a buffer; one that gives back one which is out; and any change of the bytes of a
-- buffer that is out, by its holder.
pub data Step : Pool × List ℕ → Pool × List ℕ → Type 0 where
  got :
      {p p' : Pool} {out : List ℕ} (b : ℕ) → pool_get p ≡ some (b, p') → Step (p, out) (p', b ∷ out)
  put :
      {p : Pool} {out out' : List ℕ} (b : ℕ)
      → Returns b out out'
      → Step (p, out) (pool_put p b, out')
  wrote :
      {p : Pool} {out out' : List ℕ} (b : ℕ) (memory : Bytes)
      → Returns b out out'
      → SameOutside p.memory memory b p.buf_size
      → Step (p, out) (record p { memory = memory }, out)

pub data Steps (s : Pool × List ℕ) : Pool × List ℕ → Type 0 where
  none_yet : Steps s s
  then_one : {t u : Pool × List ℕ} → Steps s t → Step t u → Steps s u

copies-Returns :
    (b j : ℕ) (out out' : List ℕ)
    → Returns b out out'
    → copies j out ≡ (if j == b then 1 else 0) + copies j out'
copies-Returns b j out out' first = refl
copies-Returns b j (c ∷ out) (_ ∷ out') (later r) =
    let ih = copies-Returns b j out out' r in omega arith

length-Returns : (b : ℕ) (out out' : List ℕ) → Returns b out out' → length out ≡ suc (length out')
length-Returns b out out' first = refl
length-Returns b (c ∷ out) (_ ∷ out') (later r) = ap suc (length-Returns b out out' r)

places-Returns :
    (b base size n : ℕ) (out out' : List ℕ)
    → Returns b out out'
    → AreBuffers base size n out
    → IsBuffer base size n b × AreBuffers base size n out'
places-Returns b base size n out out' first h = h
places-Returns b base size n (c ∷ out) (_ ∷ out') (later r) (at_c, h) =
    let (at_b, rest) = places-Returns b base size n out out' r h in (at_b, (at_c, rest))

clear-SameOutside : (b n : ℕ) (memory : Bytes) → SameOutside memory (clear b n memory) b n
unfolding clear
clear-SameOutside b n memory j (inl p) = ground arith
clear-SameOutside b n memory j (inr p) = ground arith

-- What a call for a buffer answers.
abbrev GotOne : (n base size : ℕ) (out : List ℕ) → Option (ℕ × Pool) → Type 0
GotOne n base size out none = Unit {0}
GotOne n base size out (some (b, p)) = Shares n base size (p, b ∷ out)

module _ (n base size : ℕ) (small : n < u32_mod) (real : 0 < base) (long : 8 ≤ size)
    (fits : base + n * size ≤ u64_mod) where
  not_null : (b : ℕ) → IsBuffer base size n b → b ≢ 0
  not_null b (i, p, e) z = absurd (omega (arith, e, z, real))

  pool_get-GotOne :
      (p : Pool) (out free : List ℕ)
      → Chain p.memory p.free_head free
      → p.available ≡ length free
      → length free + length out ≡ n
      → ((j : ℕ) → copies j free + copies j out ≤ 1)
      → AreBuffers base size n free
      → AreBuffers base size n out
      → p.buf_size ≡ size
      → GotOne n base size out (pool_get p)
  unfolding pool_get
  pool_get-GotOne p out [] chain count whole once all all' stride = rw chain tt
  pool_get-GotOne p out (d ∷ l) (at_head, not_zero, rest) count whole once (at_d, all) all' stride =
      let apart : copies d l ≡ 0 = omega (arith, once d, copies_self d l) in
      rw (at_head, ne→== d 0 not_zero, stride)
        (record {
          free = l;
          chain =
              Chain-SameOutside base size n d _ p.memory (clear d size p.memory) l long
                (clear-SameOutside d size p.memory) at_d all apart rest;
          count = omega (arith, count, whole);
          whole = omega (arith, whole);
          once = λ j. omega (arith, once j);
          free_places = all;
          out_places = (at_d, all');
          stride = refl;
        })

  pool_put-Shares :
      (p : Pool) (out out' : List ℕ) (b : ℕ)
      → Returns b out out'
      → Shares n base size (p, out)
      → Shares n base size (pool_put p b, out')
  unfolding pool_put
  pool_put-Shares p out out' b r i =
      let (at_b, rest) = places-Returns b base size n out out' r i.out_places in
      let not_zero = not_null b at_b in
      let apart : copies b i.free ≡ 0 =
        omega (arith, i.once b, copies-Returns b b out out' r, copies_self b out') in
      let head =
        head_small base size n p.free_head p.memory i.free (omega arith) fits i.free_places
          i.chain in
      rw (ne→== b 0 not_zero) (record {
        free = b ∷ i.free;
        chain =
            Chain-set_next base size n b p.free_head p.memory i.free long not_zero head at_b
              i.free_places apart i.chain;
        count = omega (arith, i.count, i.whole, length-Returns b out out' r);
        whole = omega (arith, i.whole, length-Returns b out out' r);
        once = λ j. omega (arith, i.once j, copies-Returns b j out out' r);
        free_places = (at_b, i.free_places);
        out_places = rest;
        stride = i.stride;
      })

  wrote-Shares :
      (p : Pool) (out out' : List ℕ) (b : ℕ) (memory : Bytes)
      → Returns b out out'
      → SameOutside p.memory memory b p.buf_size
      → Shares n base size (p, out)
      → Shares n base size (record p { memory = memory }, out)
  wrote-Shares p out out' b memory r same i = record {
    free = i.free;
    chain =
        Chain-SameOutside base size n b p.free_head p.memory memory i.free long
          (subst (λ k. SameOutside p.memory memory b k) i.stride same)
          (places-Returns b base size n out out' r i.out_places).0 i.free_places
          (omega (arith, i.once b, copies-Returns b b out out' r, copies_self b out')) i.chain;
    count = i.count;
    whole = i.whole;
    once = i.once;
    free_places = i.free_places;
    out_places = i.out_places;
    stride = i.stride;
  }

  Step-Shares : {s t : Pool × List ℕ} → Step s t → Shares n base size s → Shares n base size t
  Step-Shares (got {p} {p'} {out} b e) i = subst (GotOne n base size out) e (
      pool_get-GotOne p out i.free i.chain i.count i.whole i.once i.free_places i.out_places
        i.stride)
  Step-Shares (put {p} {out} {out'} b r) i = pool_put-Shares p out out' b r i
  Step-Shares (wrote {p} {out} {out'} b memory r same) i = wrote-Shares p out out' b memory r same i

  pub Steps-Step : {s t : Pool × List ℕ} → Steps s t → Shares n base size s → Shares n base size t
  Steps-Step none_yet i = i
  Steps-Step (then_one steps step) i = Step-Shares step (Steps-Step steps i)
