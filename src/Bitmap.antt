-- ===== src/Bitmap.antt =====
-- kern/lib/bitmap.c, the fixed-size array of bits that the memory map and the swap map stand on.
-- A word is an unsigned char, so a number below 256; `kmalloc` answers by a Boolean.
pub mod Word
pub mod Marks
pub mod Search
pub mod Create
mod Tests
use os161_kernel.Prelude.{
  ℕ, zero, suc, ◌+◌, ◌-◌, ◌*◌, ◌/◌, ◌%◌, ◌^◌, Bool, true, false, Option, none, some, List, [], ◌∷◌,
  bit_and, bit_or, ltb, leb, ◌==◌, not, ◌&&◌, if◌then◌else◌, get_elem?, set, replicate,
}
use os161_kernel.Prelude.Outcome.{Outcome, done, panic, ◌>>=◌, ◌>>◌, kassert, access}
use Word.{word_allbits, mask, unmask, find_offset}

pub record Bitmap : Type 0 where
  pub nbits : ℕ
  pub v : List ℕ

abbrev pub bits_per_word : ℕ
bits_per_word = 8

-- DIVROUNDUP(nbits, BITS_PER_WORD), whose sum is an unsigned one.
abbrev pub words_for : ℕ → ℕ
words_for nbits = (nbits + 8 - 1) % 2 ^ 32 / 8

-- for (j = overbits; j < BITS_PER_WORD; j++) b->v[ix] |= 1 << j, over the rounds left
pub fill_leftover : ℕ → ℕ → ℕ → ℕ
fill_leftover zero j w = w
fill_leftover (suc n) j w = fill_leftover n (j + 1) (bit_or w (mask j))

-- The two Booleans are the answers of the two calls of kmalloc; `none` is the NULL result.
unfoldable pub bitmap_create : Bool → Bool → ℕ → Outcome (Option Bitmap)
unfolding fill_leftover
bitmap_create false _ nbits = done none
bitmap_create true false nbits = done none
bitmap_create true true nbits =
    let words = words_for nbits in
    let v = replicate words 0 in
    let ix = words - 1 in
    let overbits = nbits - ix * 8 in
    if ltb (nbits / 8) words
    then (do
      kassert (nbits / 8 == words - 1)
      kassert (ltb 0 overbits && ltb overbits 8)
      w ← access (get_elem? v ix)
      done
          (some (record { nbits = nbits; v = set v ix (fill_leftover (8 - overbits) overbits w) })))
    else done (some (record { nbits = nbits; v = v }))

pub data Alloc : Type 0 where
  allocated : ℕ → Bitmap → Alloc
  enospc : Alloc

-- The outer loop of bitmap_alloc from word `ix` on, over the rounds left: the index found, with
-- the words from there on after the change. The list is b->v from `ix` on.
unfoldable pub alloc_words : ℕ → List ℕ → ℕ → Outcome (Option (ℕ × List ℕ))
alloc_words zero ws ix = done none
alloc_words (suc n) [] ix = panic
alloc_words (suc n) (w ∷ ws) ix =
    let rest = alloc_words n ws (ix + 1) in
    if w == word_allbits
    then (rest >>= λ r. done (elim r [ none ↦ none | some (i, ws') ↦ some (i, w ∷ ws') ]))
    else elim (find_offset 8 0 w) [
      | none ↦ panic
      | some offset ↦ done (some (ix * 8 + offset, bit_or w (mask offset) ∷ ws))
    ]

unfoldable pub bitmap_alloc : Bitmap → Outcome Alloc
bitmap_alloc b = do
  r ← alloc_words (words_for b.nbits) b.v 0
  elim r [
    | none ↦ done enospc
    | some (i, v) ↦ kassert (ltb i b.nbits) >> done (allocated i (record b { v = v }))
  ]

-- bitmap_translate: the index of the word, and the mask of the bit in it.
abbrev pub bitmap_translate : ℕ → ℕ × ℕ
bitmap_translate bitno = (bitno / 8, mask (bitno % 8))

unfoldable pub bitmap_mark : Bitmap → ℕ → Outcome Bitmap
bitmap_mark b index = do
  kassert (ltb index b.nbits)
  let (ix, m) = bitmap_translate index
  w ← access (get_elem? b.v ix)
  kassert (bit_and w m == 0)
  done (record b { v = set b.v ix (bit_or w m) })

unfoldable pub bitmap_unmark : Bitmap → ℕ → Outcome Bitmap
bitmap_unmark b index = do
  kassert (ltb index b.nbits)
  let (ix, m) = bitmap_translate index
  w ← access (get_elem? b.v ix)
  kassert (not (bit_and w m == 0))
  done (record b { v = set b.v ix (bit_and w (unmask m)) })

unfoldable pub bitmap_isset : Bitmap → ℕ → Outcome ℕ
bitmap_isset b index = do
  let (ix, m) = bitmap_translate index
  w ← access (get_elem? b.v ix)
  done (bit_and w m)
