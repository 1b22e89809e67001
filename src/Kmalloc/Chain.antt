-- ===== src/Kmalloc/Chain.antt =====
-- The free list of a page (kern/vm/kmalloc.c): the blocks that the `next` words lead through.
use os161_kernel.Prelude.{
  ℕ, zero, suc, ◌+◌, ◌-◌, ◌*◌, ◌/◌, ◌%◌, ◌<◌, ◌≤◌, ◌≡◌, ◌≢◌, refl, sym, ap, ◌∙◌, subst, true, false,
  List, [], ◌∷◌, length, arith, ℕ_discrete, Bool-cases, update, ◌⊎◌, inl, inr,
}
use native.Mathlib.Nat.{suc-mul, mul-mod_left}
pub use os161_kernel.Prelude.Members.{has, has-cons, Distinct}
use os161_kernel.Kmalloc.{size_of, link_blocks, fill_deadbeef}

-- From `head` on the words lead through the distinct blocks, and then to NULL.
abbrev pub Chain : (ℕ → ℕ) → ℕ → List ℕ → Type 0
Chain word head [] = head ≡ 0
Chain word head (b ∷ bs) = (head ≡ b) × (b ≢ 0) × (has b bs ≡ false) × Chain word (word b) bs

-- A chain survives a change of memory that spares its own blocks.
pub Chain-frame :
    (word word' : ℕ → ℕ) (head : ℕ) (bs : List ℕ)
    → ((a : ℕ) → has a bs ≡ true → word' a ≡ word a)
    → Chain word head bs
    → Chain word' head bs
Chain-frame word word' head [] same c = c
Chain-frame word word' head (b ∷ bs) same c =
    let here : word' b ≡ word b = same b (ground arith) in
    (
      c.0,
      c.1,
      c.2,
      subst (λ x. Chain word' x bs) (sym here)
          (Chain-frame word word' (word b) bs (λ a h. same a (ground arith)) c.3),
    )

-- The address of one of the equal blocks of a page.
pub record IsBlock (page size b : ℕ) : Type 0 where
  pub low : page ≤ b
  pub high : b < page + 4096
  pub aligned : (b - page) % size ≡ 0

pub size_cases :
    (P : ℕ → Type 0) (k : ℕ)
    → P 16
    → P 32
    → P 64
    → P 128
    → P 256
    → P 512
    → P 1024
    → P 2048
    → k < 8
    → P (size_of k)
size_cases P zero a b c d e f g h l = a
size_cases P (suc zero) a b c d e f g h l = b
size_cases P (suc (suc zero)) a b c d e f g h l = c
size_cases P (suc (suc (suc zero))) a b c d e f g h l = d
size_cases P (suc (suc (suc (suc zero)))) a b c d e f g h l = e
size_cases P (suc (suc (suc (suc (suc zero))))) a b c d e f g h l = f
size_cases P (suc (suc (suc (suc (suc (suc zero)))))) a b c d e f g h l = g
size_cases P (suc (suc (suc (suc (suc (suc (suc zero))))))) a b c d e f g h l = h
size_cases P (suc (suc (suc (suc (suc (suc (suc (suc k)))))))) a b c d e f g h l =
    absurd (omega arith)

-- Two different multiples of a block size are at least a block apart.
Apart : ℕ → Type 0
Apart size = (x y : ℕ) → x % size ≡ 0 → y % size ≡ 0 → x < y → x + size ≤ y

size-Apart : (k : ℕ) → k < 8 → Apart (size_of k)
unfolding Apart
size-Apart k l =
    size_cases Apart k (λ x y p q h. omega arith) (λ x y p q h. omega arith)
      (λ x y p q h. omega arith) (λ x y p q h. omega arith) (λ x y p q h. omega arith)
      (λ x y p q h. omega arith) (λ x y p q h. omega arith) (λ x y p q h. omega arith) l

-- Filling a block leaves the first words of the others.
pub fill_deadbeef-other :
    (page k : ℕ) (word : ℕ → ℕ) (ptr b : ℕ)
    → k < 8
    → IsBlock page (size_of k) ptr
    → IsBlock page (size_of k) b
    → b ≢ ptr
    → fill_deadbeef ptr (size_of k) word b ≡ word b
unfolding Apart
fill_deadbeef-other page k word ptr b l p q ne = ground (
  arith,
  size-Apart k l (b - page) (ptr - page),
  size-Apart k l (ptr - page) (b - page),
  p.low,
  p.high,
  p.aligned,
  q.low,
  q.high,
  q.aligned,
)

-- The blocks of a page of `n` blocks, the last one first.
abbrev pub blocks_down : ℕ → ℕ → ℕ → List ℕ
blocks_down zero size page = []
blocks_down (suc n) size page = (page + n * size) ∷ blocks_down n size page

module _ (size page : ℕ) (pos : 0 < size) where
  pub blocks_down-range :
      (n b : ℕ) → has b (blocks_down n size page) ≡ true → (page ≤ b) × (b + size ≤ page + n * size)
  blocks_down-range zero b h = cc
  blocks_down-range (suc n) b h = elim (ℕ_discrete (page + n * size) b) [
    | yes e ↦ (omega arith, omega (arith, suc-mul n size))
    | no ne ↦
        let r = blocks_down-range n b (ground arith) in (r.0, omega (arith, r.1, suc-mul n size))
  ]

  pub blocks_down-aligned :
      (n b : ℕ) → has b (blocks_down n size page) ≡ true → (b - page) % size ≡ 0
  blocks_down-aligned zero b h = cc
  blocks_down-aligned (suc n) b h = elim (ℕ_discrete (page + n * size) b) [
    | yes e ↦
        let x : b - page ≡ n * size = omega arith in ap (λ k. k % size) x ∙ mul-mod_left n size
    | no ne ↦ blocks_down-aligned n b (ground arith)
  ]

  pub top-fresh : (n : ℕ) → has (page + n * size) (blocks_down n size page) ≡ false
  top-fresh n = elim (Bool-cases (has (page + n * size) (blocks_down n size page))) [
    | inl t ↦ absurd (omega (arith, (blocks_down-range n (page + n * size) t).1))
    | inr f ↦ f
  ]

  pub link_blocks-Chain :
      (n i m : ℕ) (word : ℕ → ℕ)
      → i + n ≡ m
      → 0 < page
      → Chain word (page + i * size) (blocks_down (suc i) size page)
      → Chain
          (link_blocks n (suc i) size page word)
          (page + m * size)
          (blocks_down (suc m) size page)
  unfolding link_blocks
  link_blocks-Chain zero i m word e p c =
      let same : i ≡ m = omega arith in
      subst (λ k. Chain word (page + k * size) (blocks_down (suc k) size page)) same c
  link_blocks-Chain (suc n) i m word e p c =
      let one : suc i + 1 ≡ suc (suc i) = omega arith in
      let word' = update word (page + suc i * size) (page + (suc i - 1) * size) in
      let next : word' (page + suc i * size) ≡ page + i * size = ground arith in
      let keeps : (a : ℕ) → has a (blocks_down (suc i) size page) ≡ true → word' a ≡ word a =
        λ a h. ground (arith, blocks_down-range (suc i) a h) in
      subst
        (λ k.
          Chain (link_blocks n k size page word') (page + m * size) (blocks_down (suc m) size page))
        (sym one)
        (link_blocks-Chain n (suc i) m word' (omega arith) p (
          refl,
          omega arith,
          top-fresh (suc i),
          subst (λ x. Chain word' x (blocks_down (suc i) size page)) (sym next)
              (Chain-frame word word' (page + i * size) (blocks_down (suc i) size page) keeps c),
        ))

  -- The links touch nothing but the page.
  pub link_blocks-outside :
      (n i a : ℕ) (word : ℕ → ℕ)
      → (a < page) ⊎ (page + i * size + n * size ≤ a)
      → link_blocks n i size page word a ≡ word a
  unfolding link_blocks
  link_blocks-outside zero i a word h = refl
  link_blocks-outside (suc n) i a word h =
      let next : (i + 1) * size ≡ i * size + size =
        ap (λ k. k * size) (omega arith) ∙ suc-mul i size in
      link_blocks-outside n (i + 1) a (update word (page + i * size) (page + (i - 1) * size))
        (omega (arith, next, suc-mul n size))
      ∙ ground (arith, suc-mul n size)

pub length-blocks_down : (n size page : ℕ) → length (blocks_down n size page) ≡ n
length-blocks_down zero size page = refl
length-blocks_down (suc n) size page = ap suc (length-blocks_down n size page)

-- The blocks of a class fill a page exactly, and there are two at least.
Fits : ℕ → Type 0
Fits size = (4096 / size * size ≡ 4096) × (16 ≤ size) × (2 ≤ 4096 / size)

pub size-Fits :
    (k : ℕ)
    → k < 8
    → (4096 / size_of k * size_of k ≡ 4096) × (16 ≤ size_of k) × (2 ≤ 4096 / size_of k)
unfolding Fits
size-Fits k l =
    size_cases Fits k (refl, omega arith, omega arith) (refl, omega arith, omega arith)
      (refl, omega arith, omega arith) (refl, omega arith, omega arith)
      (refl, omega arith, omega arith) (refl, omega arith, omega arith)
      (refl, omega arith, omega arith) (refl, omega arith, omega arith) l

-- A block ends within its page.
pub IsBlock-within :
    (page k b : ℕ) → k < 8 → IsBlock page (size_of k) b → b + size_of k ≤ page + 4096
unfolding Apart
IsBlock-within page k b l p =
    let whole : 4096 % size_of k ≡ 0 =
      size_cases (λ s. 4096 % s ≡ 0) k refl refl refl refl refl refl refl refl l in
    omega (
      arith,
      p.low,
      p.high,
      size-Apart k l (b - page) 4096 p.aligned whole (omega (arith, p.low, p.high)),
    )

-- Two different blocks of a page do not overlap.
pub blocks_apart :
    (page k b c : ℕ)
    → k < 8
    → IsBlock page (size_of k) b
    → IsBlock page (size_of k) c
    → b ≢ c
    → (b + size_of k ≤ c) ⊎ (c + size_of k ≤ b)
unfolding Apart
blocks_apart page k b c l p q ne = ground (
  arith,
  size-Apart k l (b - page) (c - page),
  size-Apart k l (c - page) (b - page),
  p.low,
  p.high,
  p.aligned,
  q.low,
  q.high,
  q.aligned,
)
