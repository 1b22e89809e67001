-- ===== src/Bitmap/Search.antt =====
-- bitmap_alloc (kern/lib/bitmap.c): the search for the first clear bit.
use os161_kernel.Prelude.{
  ℕ, suc, ◌+◌, ◌-◌, ◌*◌, ◌/◌, ◌%◌, ◌≤◌, ◌<◌, ◌≡◌, refl, ◌∙◌, ◌≢◌, ◌⊎◌, inl, inr, true, false, none,
  some, List, [], ◌∷◌, bit_or, get_or, length, arith, subst, dec_lt, ℕ_discrete, Option-cases,
}
use os161_kernel.Prelude.Outcome.{done}
use os161_kernel.Bitmap.Word.{
  word_allbits, mask, bit, find_offset, find_offset-some, find_offset-none, IsFirstClear,
  bit-allbits, allbits_of_bits,
}
use os161_kernel.Bitmap.Marks.{test, set_bit, IsValid, set_bit-IsValid, bitmap_mark-done}
use os161_kernel.Bitmap.{Bitmap, allocated, enospc, alloc_words, bitmap_alloc, bitmap_mark}

-- Bit `k` is the first one of the words that is clear.
pub record IsFirst (ws : List ℕ) (k : ℕ) : Type 0 where
  pub inside : k < 8 * length ws
  pub clear : test ws k ≡ false
  pub first : (j : ℕ) → j < k → test ws j ≡ true

test-cons : (w : ℕ) (ws : List ℕ) (k : ℕ) → 8 ≤ k → test (w ∷ ws) k ≡ test ws (k - 8)
test-cons w ws k h =
    let e : k / 8 ≡ suc ((k - 8) / 8) = omega arith in
    let m : k % 8 ≡ (k - 8) % 8 = omega arith in rw (e, m)

test-head : (w : ℕ) (ws : List ℕ) (k : ℕ) → k < 8 → test (w ∷ ws) k ≡ bit w k
test-head w ws k h = let e : k / 8 ≡ 0 = omega arith in let m : k % 8 ≡ k = omega arith in rw (e, m)

-- The outcome of the search over all the words: none is clear, or the first clear bit is set.
abbrev Searched : List ℕ → ℕ → Type 0
Searched ws ix =
    ((alloc_words (length ws) ws ix ≡ done none) × ((k : ℕ) → test ws k ≡ true))
    ⊎ ((k : ℕ) × IsFirst ws k
        × (alloc_words (length ws) ws ix ≡ done (some (ix * 8 + k, set_bit ws k))))

set_bit-cons : (w : ℕ) (ws : List ℕ) (k : ℕ) → set_bit (w ∷ ws) (8 + k) ≡ w ∷ set_bit ws k
set_bit-cons w ws k =
    let e : (8 + k) / 8 ≡ suc (k / 8) = omega arith in
    let m : (8 + k) % 8 ≡ k % 8 = omega arith in rw (e, m)

set_bit-head : (w : ℕ) (ws : List ℕ) (k : ℕ) → k < 8 → set_bit (w ∷ ws) k ≡ bit_or w (mask k) ∷ ws
set_bit-head w ws k h =
    let e : k / 8 ≡ 0 = omega arith in let m : k % 8 ≡ k = omega arith in rw (e, m)

module _ (w : ℕ) (ws : List ℕ) (ix : ℕ) where
  before_word :
      (m : ℕ)
      → ((j : ℕ) → j < 8 → bit w j ≡ true)
      → ((j : ℕ) → j < m → test ws j ≡ true)
      → (j : ℕ) → j < 8 + m
      → test (w ∷ ws) j ≡ true
  before_word m here later j p = elim (dec_lt j 8) [
    | yes q ↦ test-head w ws j q ∙ here j q
    | no q ↦ test-cons w ws j (omega arith) ∙ later (j - 8) (omega arith)
  ]

  full_word : w ≡ word_allbits → Searched ws (ix + 1) → Searched (w ∷ ws) ix
  unfolding alloc_words
  full_word e (inl (none_left, all)) = inl (
    ground arith,
    λ k. before_word (k + 1) (λ j p. rw e (bit-allbits j p)) (λ j _. all j) k (omega arith),
  )
  full_word e (inr (k, f, found)) = inr (
    8 + k,
    record {
      inside = omega (arith, f.inside);
      clear =
          test-cons w ws (8 + k) (omega arith)
          ∙ subst (λ i. test ws i ≡ false) (omega arith) f.clear;
      first = before_word k (λ j p. rw e (bit-allbits j p)) f.first;
    },
    rw (set_bit-cons w ws k) (ground arith),
  )

  open_word : w < 256 → w ≢ word_allbits → Searched (w ∷ ws) ix
  unfolding alloc_words
  open_word lt ne = elim (Option-cases (find_offset 8 0 w)) [
    | inl e ↦
        absurd (
          ne (allbits_of_bits w lt (λ j p. find_offset-none 8 0 w e j (omega arith) (omega arith))))
    | inr (k, e) ↦ found k e (find_offset-some 8 0 w e)
  ]
    where
      found :
          (k : ℕ) → find_offset 8 0 w ≡ some k → IsFirstClear w 0 (0 + 8) k → Searched (w ∷ ws) ix
      found k e f = inr (
        k,
        record {
          inside = omega (arith, f.high);
          clear = test-head w ws k (omega (arith, f.high)) ∙ f.clear;
          first = λ j p. test-head w ws j (omega (arith, f.high)) ∙ f.first j (omega arith) p;
        },
        rw (set_bit-head w ws k (omega (arith, f.high))) (ground arith),
      )

alloc_words-Searched :
    (ws : List ℕ) (ix : ℕ) → ((k : ℕ) → get_or ws k word_allbits < 256) → Searched ws ix
unfolding alloc_words
alloc_words-Searched [] ix lt = inl (refl, λ k. bit-allbits (k % 8) (omega arith))
alloc_words-Searched (w ∷ ws) ix lt = elim (ℕ_discrete w word_allbits) [
  | yes e ↦ full_word w ws ix e (alloc_words-Searched ws (ix + 1) (λ k. lt (suc k)))
  | no ne ↦ open_word w ws ix (lt 0) ne
]

-- What bitmap_alloc may come to: ENOSPC when every bit is set; or the first clear bit is marked,
-- exactly as bitmap_mark does, and its index is the answer.
pub data Allocates (b : Bitmap) : Type 0 where
  full : bitmap_alloc b ≡ done enospc → ((i : ℕ) → i < b.nbits → test b.v i ≡ true) → Allocates b
  found :
      (i : ℕ) (c : Bitmap)
      → bitmap_alloc b ≡ done (allocated i c)
      → i < b.nbits
      → test b.v i ≡ false
      → ((j : ℕ) → j < i → test b.v j ≡ true)
      → bitmap_mark b i ≡ done c
      → IsValid c
      → Allocates b

-- On a valid bitmap bitmap_alloc either answers ENOSPC, and then every bit is set, or answers the
-- index of the first clear bit, and leaves the valid bitmap that bitmap_mark makes of that bit. So
-- none of its KASSERTs fails.
pub bitmap_alloc_lem : {b : Bitmap} → IsValid b → Allocates b
unfolding bitmap_alloc
bitmap_alloc_lem {b} v = go (alloc_words-Searched b.v 0 v.words)
  where
    inside : (k : ℕ) → test b.v k ≡ false → k < b.nbits
    inside k clear = elim (dec_lt k b.nbits) [
      | yes p ↦ p
      | no p ↦ absurd (ground (arith, v.leftover k (omega arith)))
    ]

    go : Searched b.v 0 → Allocates b
    go (inl (e, all)) = full (ground (arith, v.sized)) (λ i _. all i)
    go (inr (k, f, e)) =
        found k (record b { v = set_bit b.v k }) (ground (arith, v.sized, inside k f.clear))
          (inside k f.clear) f.clear f.first (bitmap_mark-done v k (inside k f.clear) f.clear)
          (set_bit-IsValid v k (inside k f.clear))
