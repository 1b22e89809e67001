-- ===== src/Bitmap/Create.antt =====
-- bitmap_create (kern/lib/bitmap.c): every bit of the new bitmap is clear.
use os161_kernel.Prelude.{
  ℕ, ◌+◌, ◌-◌, ◌*◌, ◌/◌, ◌%◌, ◌<◌, ◌^◌, ◌≡◌, refl, ◌≢◌, true, false, none, some, List, ◌==◌,
  if◌then◌else◌, get_or, set, length, arith, subst, dec_lt, ltb, ltb→lt, leb, sym, replicate,
  length-replicate, length-set, get_or-replicate, get_or-out, get_elem?-eq-get_or, ℕ_discrete,
  get_or-set_self, get_or-set_ne,
}
use os161_kernel.Prelude.Bits.{all_below, all_below_sound}
use os161_kernel.Prelude.Outcome.{done}
use os161_kernel.Bitmap.Word.{word_allbits, bit, eqb, eqb-eq, bit-allbits}
use os161_kernel.Bitmap.Marks.{test, IsValid}
use os161_kernel.Bitmap.{Bitmap, words_for, fill_leftover, bitmap_create}

fill_table :
    all_below 8 (λ o. all_below 8 (λ j. eqb (bit (fill_leftover (8 - o) o 0) j) (leb o j))) ≡ true
unfolding all_below bit fill_leftover eqb
fill_table = refl

word_table : all_below 8 (λ o. ltb (fill_leftover (8 - o) o 0) 256) ≡ true
unfolding all_below fill_leftover
word_table = refl

zero_table : all_below 8 (λ j. eqb (bit 0 j) false) ≡ true
unfolding all_below bit eqb
zero_table = refl

bit-fill : (o j : ℕ) → o < 8 → j < 8 → bit (fill_leftover (8 - o) o 0) j ≡ leb o j
bit-fill o j ho hj = eqb-eq _ _ (all_below_sound 8 _ j (all_below_sound 8 _ o fill_table ho) hj)

bit-zero : (j : ℕ) → j < 8 → bit 0 j ≡ false
bit-zero j hj = eqb-eq _ _ (all_below_sound 8 _ j zero_table hj)

pub record IsEmpty (nbits : ℕ) (b : Bitmap) : Type 0 where
  pub valid : IsValid b
  pub same : b.nbits ≡ nbits
  pub clear : (i : ℕ) → i < nbits → test b.v i ≡ false

-- The words of a new bitmap, once the leftover bits of the last one are marked.
abbrev fresh_words : ℕ → List ℕ
fresh_words n =
    if ltb (n / 8) (words_for n)
    then set (replicate (words_for n) 0) (words_for n - 1)
        (fill_leftover (8 - (n - (words_for n - 1) * 8)) (n - (words_for n - 1) * 8) 0)
    else replicate (words_for n) 0

module _ (n : ℕ) (room : n + 7 < 2 ^ 32) where
  fresh_words-even : n % 8 ≡ 0 → fresh_words n ≡ replicate (n / 8) 0
  fresh_words-even h = let w : words_for n ≡ n / 8 = omega arith in rw w (ground arith)

  fresh_words-odd :
      n % 8 ≢ 0
      → fresh_words n ≡ set (replicate (n / 8 + 1) 0) (n / 8) (fill_leftover (8 - n % 8) (n % 8) 0)
  fresh_words-odd h =
      let w : words_for n ≡ n / 8 + 1 = omega arith in
      let x : n / 8 + 1 - 1 ≡ n / 8 = omega arith in
      let o : n - n / 8 * 8 ≡ n % 8 = omega arith in rw (w, x, o) (ground arith)

abbrev zeros : ℕ → List ℕ
zeros m = replicate m 0

word-replicate : (m k : ℕ) → get_or (zeros m) k 255 ≡ (if ltb k m then 0 else 255)
word-replicate m k = elim (dec_lt k m) [
  | yes p ↦ ground (arith, get_or-replicate {A = ℕ} m k 0 255 p)
  | no p ↦ ground (arith, get_or-out (zeros m) k 255, length-replicate {A = ℕ} m 0)
]

word-set :
    (m x k : ℕ)
    → get_or (set (zeros (m + 1)) m x) k 255 ≡ (if k == m then x else if ltb k m then 0 else 255)
word-set m x k = elim (ℕ_discrete m k) [
  | yes e ↦ rw (← e) (
      rw
        (get_or-set_self (zeros (m + 1)) m x 255
          (omega (arith, length-replicate {A = ℕ} (m + 1) 0)))
        (ground arith))
  | no ne ↦ rw (get_or-set_ne (zeros (m + 1)) m k x 255 ne, word-replicate (m + 1) k) (ground arith)
]

fill-lt : (o : ℕ) → o < 8 → fill_leftover (8 - o) o 0 < 256
fill-lt o h = ltb→lt _ _ (all_below_sound 8 _ o word_table h)

-- What is to be shown of the words of a new bitmap of `n` bits.
abbrev Fresh : ℕ → List ℕ → Type 0
Fresh n v =
    (length v ≡ words_for n)
    × ((k : ℕ) → get_or v k word_allbits < 256)
    × ((i : ℕ) → test v i ≡ leb n i)

module _ (n : ℕ) (room : n + 7 < 2 ^ 32) where
  even-Fresh : n % 8 ≡ 0 → Fresh n (zeros (n / 8))
  even-Fresh h = (
    omega (arith, length-replicate {A = ℕ} (n / 8) 0),
    (λ k. ground (arith, word-replicate (n / 8) k)),
    λ i. ground (arith, word-replicate (n / 8) (i / 8), bit-zero (i % 8), bit-allbits (i % 8)),
  )

  odd-Fresh :
      n % 8 ≢ 0 → Fresh n (set (zeros (n / 8 + 1)) (n / 8) (fill_leftover (8 - n % 8) (n % 8) 0))
  odd-Fresh h = (
    omega (
      arith,
      length-replicate {A = ℕ} (n / 8 + 1) 0,
      length-set (zeros (n / 8 + 1)) (n / 8) (fill_leftover (8 - n % 8) (n % 8) 0),
    ),
    (λ k.
        ground (arith, word-set (n / 8) (fill_leftover (8 - n % 8) (n % 8) 0) k, fill-lt (n % 8))),
    λ i. ground (
      arith,
      word-set (n / 8) (fill_leftover (8 - n % 8) (n % 8) 0) (i / 8),
      bit-fill (n % 8) (i % 8),
      bit-zero (i % 8),
      bit-allbits (i % 8),
    ),
  )

  fresh_words-Fresh : Fresh n (fresh_words n)
  fresh_words-Fresh = elim (ℕ_discrete (n % 8) 0) [
    | yes e ↦ subst (Fresh n) (sym (fresh_words-even n room e)) (even-Fresh e)
    | no ne ↦ subst (Fresh n) (sym (fresh_words-odd n room ne)) (odd-Fresh ne)
  ]

  bitmap_create-done :
      bitmap_create true true n ≡ done (some (record { nbits = n; v = fresh_words n }))
  unfolding bitmap_create
  bitmap_create-done = ground (
    arith,
    length-replicate {A = ℕ} (words_for n) 0,
    get_elem?-eq-get_or (zeros (words_for n)) (words_for n - 1) 0,
    get_or-replicate {A = ℕ} (words_for n) (words_for n - 1) 0 0,
  )

-- When both allocations succeed, bitmap_create returns a valid bitmap of `n` bits that are all
-- clear; when one fails it returns NULL. So no KASSERT of it fails.
pub bitmap_create_lem :
    (n : ℕ)
    → n + 7 < 2 ^ 32
    → ((b : Bitmap) × (bitmap_create true true n ≡ done (some b)) × IsEmpty n b)
      × (bitmap_create true false n ≡ done none)
      × (bitmap_create false true n ≡ done none)
unfolding bitmap_create
bitmap_create_lem n room = (
  (
    record { nbits = n; v = fresh_words n },
    bitmap_create-done n room,
    empty (fresh_words-Fresh n room),
  ),
  refl,
  refl,
)
  where
    empty : Fresh n (fresh_words n) → IsEmpty n (record { nbits = n; v = fresh_words n })
    empty (len, words, bits) = record {
      valid = record {
        room = room;
        sized = len;
        words = words;
        leftover = λ i p. ground (arith, bits i);
      };
      same = refl;
      clear = λ i p. ground (arith, bits i);
    }
