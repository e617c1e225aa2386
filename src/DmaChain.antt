-- ===== src/DmaChain.antt =====
-- The free list of src/io/nebula_dma_pool.c in memory.
use mini_fs.Base.{
  ℕ, zero, suc, ◌+◌, ◌*◌, ◌%◌, ◌≤◌, ◌<◌, ◌≡◌, refl, sym, ap, ◌∙◌, ◌≢◌, ◌⊎◌, inl, inr, List, [], ◌∷◌,
  arith, ltb, ◌==◌, if◌then◌else◌, ltb→lt, ltb→le, ==→eq, ==→ne, ==_refl, ne→==, Bool-cases, length,
  u64_mod, add64,
}
use native.Mathlib.Nat.{suc-mul, mul-le-mul_right}
use mini_fs.Format.Bytes.{Bytes, read_le, read_le_ext, write_le_outside, read-write_le}
use mini_fs.Io.Loops.{SameOutside}
use mini_fs.DmaPool.{next_of, set_next, link_buffers}

-- How often an address is in a list.
abbrev pub copies : ℕ → List ℕ → ℕ
copies j [] = 0
copies j (b ∷ l) = (if j == b then 1 else 0) + copies j l

-- The free list from `head` on, through the links in the buffers.
abbrev pub Chain : (memory : Bytes) (head : ℕ) → List ℕ → Type 0
Chain memory head [] = head ≡ 0
Chain memory head (b ∷ l) = (head ≡ b) × (b ≢ 0) × Chain memory (next_of memory b) l

-- Address `b` is that of one of the first `k` buffers of `size` bytes from `base` on.
abbrev pub IsBuffer : (base size k : ℕ) → ℕ → Type 0
IsBuffer base size k b = (i : ℕ) × (i < k) × (b ≡ base + i * size)

abbrev pub AreBuffers : (base size k : ℕ) → List ℕ → Type 0
AreBuffers base size k [] = Unit {0}
AreBuffers base size k (b ∷ l) = IsBuffer base size k b × AreBuffers base size k l

pub product_lt : (size i j : ℕ) → i < j → i * size + size ≤ j * size
product_lt size i j h = omega (arith, suc-mul i size, mul-le-mul_right size h)

-- Different buffers have no byte in common.
IsBuffer-apart :
    (base size k b d : ℕ)
    → IsBuffer base size k b
    → IsBuffer base size k d
    → d ≢ b
    → (d + size ≤ b) ⊎ (b + size ≤ d)
IsBuffer-apart base size k b d (i, p, e) (j, q, e') ne = elim (Bool-cases (ltb i j)) [
  | inl low ↦ inr (omega (arith, e, e', product_lt size i j (ltb→lt i j low)))
  | inr high ↦ elim (Bool-cases (ltb j i)) [
    | inl low ↦ inl (omega (arith, e, e', product_lt size j i (ltb→lt j i low)))
    | inr same ↦
        let ij : i ≡ j = omega (arith, ltb→le i j high, ltb→le j i same) in
        absurd (ne (e' ∙ ap (λ k. base + k * size) (sym ij) ∙ sym e))
  ]
]

pub copies_self : (b : ℕ) (l : List ℕ) → copies b (b ∷ l) ≡ suc (copies b l)
copies_self b l = rw (==_refl b) (omega arith)

-- A change of the bytes of one buffer that is not on the list leaves the list.
pub Chain-SameOutside :
    (base size k b head : ℕ) (memory memory' : Bytes) (l : List ℕ)
    → 8 ≤ size
    → SameOutside memory memory' b size
    → IsBuffer base size k b
    → AreBuffers base size k l
    → copies b l ≡ 0
    → Chain memory head l
    → Chain memory' head l
unfolding next_of
Chain-SameOutside base size k b head memory memory' [] long same at_b all out c = c
Chain-SameOutside base size k b head memory memory' (d ∷ l) long same at_b (at_d, all) out
      (at_head, real, rest) =
    elim (Bool-cases (b == d)) [
      | inl e ↦ absurd (ground (arith, out, e))
      | inr other ↦
          let ne : d ≢ b = λ q. ==→ne b d other (sym q) in
          let link : read_le 8 d memory ≡ read_le 8 d memory' =
            read_le_ext 8 d memory memory' (λ j p q.
              ap (λ v. v % 256)
                (sym (
                  same j (elim (IsBuffer-apart base size k b d at_b at_d ne) [
                    | inl before ↦ inl (omega arith)
                    | inr behind ↦ inr (omega arith)
                  ])))) in
          (
            at_head,
            real,
            rw⁻¹ link (
                Chain-SameOutside base size k b (read_le 8 d memory) memory memory' l long same at_b
                  all (ground (arith, out, other)) rest),
          )
    ]

pub set_next-SameOutside :
    (size b v : ℕ) (memory : Bytes) → 8 ≤ size → SameOutside memory (set_next memory b v) b size
unfolding set_next
set_next-SameOutside size b v memory long j (inl p) = write_le_outside 8 b v memory j (inl p)
set_next-SameOutside size b v memory long j (inr p) =
    write_le_outside 8 b v memory j (inr (omega arith))

-- A buffer that is not on the list goes to its front.
pub Chain-set_next :
    (base size k b head : ℕ) (memory : Bytes) (l : List ℕ)
    → 8 ≤ size
    → b ≢ 0
    → head < u64_mod
    → IsBuffer base size k b
    → AreBuffers base size k l
    → copies b l ≡ 0
    → Chain memory head l
    → Chain (set_next memory b head) b (b ∷ l)
unfolding next_of set_next
Chain-set_next base size k b head memory l long real small at_b all out c = (
  refl,
  real,
  rw (read-write_le 8 b head memory (omega (arith, small))) (
      Chain-SameOutside base size k b head memory (set_next memory b head) l long
        (set_next-SameOutside size b head memory long) at_b all out c),
)

AreBuffers-more :
    (base size k : ℕ) (l : List ℕ) → AreBuffers base size k l → AreBuffers base size (k + 1) l
AreBuffers-more base size k [] h = tt
AreBuffers-more base size k (b ∷ l) ((i, p, e), h) =
    ((i, omega arith, e), AreBuffers-more base size k l h)

-- The buffers behind the ones on the list are not on it.
copies_behind :
    (base size k j : ℕ) (l : List ℕ)
    → 0 < size
    → AreBuffers base size k l
    → base + k * size ≤ j
    → copies j l ≡ 0
copies_behind base size k j [] pos h le = refl
copies_behind base size k j (b ∷ l) pos ((i, p, e), h) le =
    rw (ne→== j b (λ z. absurd (omega (arith, z, e, le, product_lt size i k p, pos))))
      (omega (arith, copies_behind base size k j l pos h le))

copies_new : (b j : ℕ) (l : List ℕ) → copies b l ≡ 0 → copies j l ≤ 1 → copies j (b ∷ l) ≤ 1
copies_new b j l fresh once = elim (Bool-cases (j == b)) [
  | inl same ↦
      let e : copies j l ≡ 0 = ap (λ k. copies k l) (==→eq j b same) ∙ fresh in
      rw same (omega (arith, e))
  | inr other ↦ rw other (omega (arith, once))
]

pub head_small :
    (base size n head : ℕ) (memory : Bytes) (l : List ℕ)
    → 0 < size
    → base + n * size ≤ u64_mod
    → AreBuffers base size n l
    → Chain memory head l
    → head < u64_mod
head_small base size n head memory [] pos fits h e = omega (arith, e)
head_small base size n head memory (b ∷ l) pos fits ((i, p, e), h) (at_head, real, rest) =
    omega (arith, at_head, e, fits, product_lt size i n p, pos)

-- What the linking of buffers leaves: all `n` of them on the list, each once.
abbrev pub Linked : (base size n : ℕ) → ℕ × Bytes → Type 0
Linked base size n (head, memory) =
    (l : List ℕ) × Chain memory head l
    × (length l ≡ n)
    × AreBuffers base size n l
    × ((j : ℕ) → copies j l ≤ 1)

module _ (base size n : ℕ) (real : 0 < base) (long : 8 ≤ size)
    (fits : base + n * size ≤ u64_mod) where
  pub link_buffers-Linked :
      (rounds k ptr head : ℕ) (memory : Bytes) (l : List ℕ)
      → k + rounds ≡ n
      → (0 < rounds → ptr ≡ base + k * size)
      → Chain memory head l
      → length l ≡ k
      → AreBuffers base size k l
      → ((j : ℕ) → copies j l ≤ 1)
      → Linked base size n (link_buffers rounds ptr size (head, memory))
  unfolding link_buffers
  link_buffers-Linked zero k ptr head memory l sum place chain len all once =
      let e : k ≡ n = omega arith in (l, chain, len ∙ e, rw⁻¹ e all, once)
  link_buffers-Linked (suc rounds) k ptr head memory l sum place chain len all once =
      let at_ptr : ptr ≡ base + k * size = place (omega arith) in
      let out : copies ptr l ≡ 0 =
        copies_behind base size k ptr l (omega arith) all (omega arith) in
      let all' = AreBuffers-more base size k l all in
      let ptr_buffer : IsBuffer base size (k + 1) ptr = (k, omega arith, at_ptr) in
      let within_n : base + k * size ≤ u64_mod =
        omega (arith, fits, product_lt size k n (omega (arith, sum))) in
      link_buffers-Linked rounds (k + 1) (add64 ptr size) ptr (set_next memory ptr head) (ptr ∷ l)
        (omega arith)
        (λ more. omega (
          arith,
          at_ptr,
          fits,
          suc-mul k size,
          product_lt size (suc k) n (omega (arith, sum, more)),
        ))
        (Chain-set_next base size (k + 1) ptr head memory l long
          (λ z. absurd (omega (arith, z, at_ptr, real)))
          (head_small base size k head memory l (omega arith) within_n all chain) ptr_buffer all'
          out chain)
        (omega (arith, len)) (ptr_buffer, all') (λ j. copies_new ptr j l out (once j))
