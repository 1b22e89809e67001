-- ===== src/Bitmap/Marks.antt =====
-- The bits of a bitmap (kern/lib/bitmap.c), its invariant, and the operations on one bit:
-- bitmap_mark, bitmap_unmark and bitmap_isset.
use os161_kernel.Prelude.{
  ℕ, ◌+◌, ◌/◌, ◌%◌, ◌^◌, ◌≤◌, ◌<◌, ◌≡◌, ap, ◌≢◌, ◌↔◌, ◌⊎◌, inl, inr, Bool, true, false, List,
  bit_and, bit_or, ◌==◌, if◌then◌else◌, get_or, set, length, arith, subst, ℕ_discrete, dec_lt,
  Bool-cases, get_elem?-eq-get_or, get_or-set_self, get_or-set_ne, length-set, set-set, set-get_or,
}
use os161_kernel.Prelude.Outcome.{done, panic}
use os161_kernel.Bitmap.Word.{
  word_allbits, mask, unmask, bit, or_mask-lt, bit-or_mask, and_unmask-lt, bit-and_unmask,
  and_unmask-or_mask,
}
use os161_kernel.Bitmap.{Bitmap, words_for, bitmap_mark, bitmap_unmark, bitmap_isset}

-- Bit `i` of a list of words; one past the end counts as in use.
abbrev pub test : List ℕ → ℕ → Bool
test v i = bit (get_or v (i / 8) word_allbits) (i % 8)

pub record IsValid (b : Bitmap) : Type 0 where
  pub room : b.nbits + 7 < 2 ^ 32
  pub sized : length b.v ≡ words_for b.nbits
  pub words : (i : ℕ) → get_or b.v i word_allbits < 256
  pub leftover : (i : ℕ) → b.nbits ≤ i → test b.v i ≡ true

-- The word that bit `i` lies in is one of the bitmap's.
pub word_in : {b : Bitmap} → IsValid b → (i : ℕ) → i < b.nbits → i / 8 < length b.v
word_in v i h = omega (arith, v.sized, v.room)

-- A write to the word of bit `i` changes the bits of that word only.
test-set :
    (v : List ℕ) (i j w : ℕ)
    → i / 8 < length v
    → test (set v (i / 8) w) j ≡ (if i / 8 == j / 8 then bit w (j % 8) else test v j)
test-set v i j w h = elim (ℕ_discrete (i / 8) (j / 8)) [
  | yes e ↦ ground (
    arith,
    ap (λ x. bit x (j % 8)) (get_or-set_self v (i / 8) w word_allbits h),
    ap (λ k. bit (get_or (set v (i / 8) w) k word_allbits) (j % 8)) e,
  )
  | no ne ↦
      ground (arith, ap (λ x. bit x (j % 8)) (get_or-set_ne v (i / 8) (j / 8) w word_allbits ne))
]

-- The words with bit `i` set, and with it clear.
abbrev pub set_bit : List ℕ → ℕ → List ℕ
set_bit v i = set v (i / 8) (bit_or (get_or v (i / 8) word_allbits) (mask (i % 8)))

abbrev pub clear_bit : List ℕ → ℕ → List ℕ
clear_bit v i = set v (i / 8) (bit_and (get_or v (i / 8) word_allbits) (unmask (mask (i % 8))))

module _ (v : List ℕ) (i : ℕ) (h : i / 8 < length v) where
  words-set :
      (w : ℕ)
      → w < 256
      → ((k : ℕ) → get_or v k word_allbits < 256)
      → (k : ℕ) → get_or (set v (i / 8) w) k word_allbits < 256
  words-set w lt all k = elim (ℕ_discrete (i / 8) k) [
    | yes e ↦
        subst (λ x. get_or (set v (i / 8) w) x word_allbits < 256) e
          (rw (get_or-set_self v (i / 8) w word_allbits h) lt)
    | no ne ↦ rw (get_or-set_ne v (i / 8) k w word_allbits ne) (all k)
  ]

  -- Setting the bit of the word sets the bit of the list, and no other.
  pub test-set-or :
      get_or v (i / 8) word_allbits < 256
      → (j : ℕ) → test (set_bit v i) j ≡ (if i == j then true else test v j)
  test-set-or lt j = ground (
    arith,
    test-set v i j (bit_or (get_or v (i / 8) word_allbits) (mask (i % 8))) h,
    bit-or_mask (get_or v (i / 8) word_allbits) (i % 8) lt (omega arith) (j % 8) (omega arith),
    λ (e : i / 8 ≡ j / 8). ap (λ k. bit (get_or v k word_allbits) (j % 8)) e,
  )

  pub test-set-and :
      get_or v (i / 8) word_allbits < 256
      → (j : ℕ) → test (clear_bit v i) j ≡ (if i == j then false else test v j)
  test-set-and lt j = ground (
    arith,
    test-set v i j (bit_and (get_or v (i / 8) word_allbits) (unmask (mask (i % 8)))) h,
    bit-and_unmask (get_or v (i / 8) word_allbits) (i % 8) lt (omega arith) (j % 8) (omega arith),
    λ (e : i / 8 ≡ j / 8). ap (λ k. bit (get_or v k word_allbits) (j % 8)) e,
  )

module _ {b : Bitmap} (v : IsValid b) (i : ℕ) (h : i < b.nbits) where
  pub set_bit-IsValid : IsValid (record b { v = set_bit b.v i })
  set_bit-IsValid = record {
    room = v.room;
    sized = omega (
      arith,
      v.sized,
      length-set b.v (i / 8) (bit_or (get_or b.v (i / 8) word_allbits) (mask (i % 8))),
    );
    words =
        words-set b.v i (word_in v i h) _ (or_mask-lt _ (i % 8) (v.words (i / 8)) (omega arith))
          v.words;
    leftover = λ j p.
        ground (arith, test-set-or b.v i (word_in v i h) (v.words (i / 8)) j, v.leftover j p);
  }

  pub clear_bit-IsValid : IsValid (record b { v = clear_bit b.v i })
  clear_bit-IsValid = record {
    room = v.room;
    sized = omega (
      arith,
      v.sized,
      length-set b.v (i / 8) (bit_and (get_or b.v (i / 8) word_allbits) (unmask (mask (i % 8)))),
    );
    words =
        words-set b.v i (word_in v i h) _ (and_unmask-lt _ (i % 8) (v.words (i / 8)) (omega arith))
          v.words;
    leftover = λ j p.
        ground (arith, test-set-and b.v i (word_in v i h) (v.words (i / 8)) j, v.leftover j p);
  }

  pub bitmap_mark-done :
      test b.v i ≡ false → bitmap_mark b i ≡ done (record b { v = set_bit b.v i })
  unfolding bitmap_mark bit
  bitmap_mark-done clear =
      ground (arith, get_elem?-eq-get_or b.v (i / 8) word_allbits (word_in v i h))

  pub bitmap_unmark-done :
      test b.v i ≡ true → bitmap_unmark b i ≡ done (record b { v = clear_bit b.v i })
  unfolding bitmap_unmark bit
  bitmap_unmark-done taken =
      ground (arith, get_elem?-eq-get_or b.v (i / 8) word_allbits (word_in v i h))

  -- bitmap_isset answers nonzero exactly for a bit that is set.
  pub bitmap_isset_lem : (r : ℕ) × (bitmap_isset b i ≡ done r) × ((r ≢ 0) ↔ (test b.v i ≡ true))
  unfolding bitmap_isset bit
  bitmap_isset_lem = (
    bit_and (get_or b.v (i / 8) word_allbits) (mask (i % 8)),
    ground (arith, get_elem?-eq-get_or b.v (i / 8) word_allbits (word_in v i h)),
    (λ ne. ground arith, λ t. ground arith),
  )

  -- Marking a clear bit succeeds. The result is valid, the bit is set, the others are as before.
  pub bitmap_mark_lem :
      test b.v i ≡ false
      → (c : Bitmap) × (bitmap_mark b i ≡ done c)
        × IsValid c
        × ((j : ℕ) → test c.v j ≡ (if i == j then true else test b.v j))
  bitmap_mark_lem clear = (
    record b { v = set_bit b.v i },
    bitmap_mark-done clear,
    set_bit-IsValid,
    test-set-or b.v i (word_in v i h) (v.words (i / 8)),
  )

  -- Unmarking a set bit succeeds. The result is valid, the bit is clear, the others are as before.
  pub bitmap_unmark_lem :
      test b.v i ≡ true
      → (c : Bitmap) × (bitmap_unmark b i ≡ done c)
        × IsValid c
        × ((j : ℕ) → test c.v j ≡ (if i == j then false else test b.v j))
  bitmap_unmark_lem taken = (
    record b { v = clear_bit b.v i },
    bitmap_unmark-done taken,
    clear_bit-IsValid,
    test-set-and b.v i (word_in v i h) (v.words (i / 8)),
  )

module _ {b : Bitmap} (v : IsValid b) (i : ℕ) where
  -- On a valid bitmap, bitmap_mark stops the kernel on an index out of range and on a bit that is
  -- set already; bitmap_unmark on an index out of range and on a bit that is clear.
  pub bitmap_mark_refuses :
      ((b.nbits ≤ i) ⊎ (test b.v i ≡ true) → bitmap_mark b i ≡ panic)
      × ((b.nbits ≤ i) ⊎ (test b.v i ≡ false) → bitmap_unmark b i ≡ panic)
  unfolding bitmap_mark bitmap_unmark bit
  bitmap_mark_refuses = (
    λ h. ground (
      arith,
      λ (p : i / 8 < length b.v). get_elem?-eq-get_or b.v (i / 8) word_allbits p,
      λ (p : i < b.nbits). word_in v i p,
    ),
    λ h. ground (
      arith,
      λ (p : i / 8 < length b.v). get_elem?-eq-get_or b.v (i / 8) word_allbits p,
      λ (p : i < b.nbits). word_in v i p,
    ),
  )

clear_bit-set_bit :
    (v : List ℕ) (i : ℕ)
    → i / 8 < length v
    → get_or v (i / 8) word_allbits < 256
    → test v i ≡ false
    → clear_bit (set_bit v i) i ≡ v
clear_bit-set_bit v i h lt clear =
    rw
      (
        get_or-set_self v (i / 8) (bit_or (get_or v (i / 8) word_allbits) (mask (i % 8)))
            word_allbits h,
        set-set v (i / 8),
        and_unmask-or_mask (get_or v (i / 8) word_allbits) (i % 8) lt (omega arith) clear,
      )
      (set-get_or v (i / 8) word_allbits)

-- What bitmap_mark accepts on a valid bitmap.
pub bitmap_mark_accepts :
    {b c : Bitmap}
    → IsValid b
    → (i : ℕ) → bitmap_mark b i ≡ done c
    → (i < b.nbits) × (test b.v i ≡ false) × (c ≡ record b { v = set_bit b.v i })
bitmap_mark_accepts {b} {c} v i e = elim (dec_lt i b.nbits) [
  | no out ↦ absurd (refused (inl (omega arith)))
  | yes h ↦ elim (Bool-cases (test b.v i)) [
    | inl taken ↦ absurd (refused (inr taken))
    | inr clear ↦ (h, clear, ground (arith, bitmap_mark-done v i h clear))
  ]
]
  where
    refused : (b.nbits ≤ i) ⊎ (test b.v i ≡ true) → ⊥
    refused h = ground (arith, (bitmap_mark_refuses v i).0 h)

-- On a valid bitmap bitmap_unmark undoes a bitmap_mark that succeeded.
pub bitmap_unmark-mark :
    {b c : Bitmap} → IsValid b → (i : ℕ) → bitmap_mark b i ≡ done c → bitmap_unmark c i ≡ done b
bitmap_unmark-mark {b} {c} v i e = go (bitmap_mark_accepts v i e)
  where
    go :
        (i < b.nbits) × (test b.v i ≡ false) × (c ≡ record b { v = set_bit b.v i })
        → bitmap_unmark c i ≡ done b
    go (h, clear, e') =
        rw
          (
            e',
            bitmap_unmark-done (set_bit-IsValid v i h) i h
                (ground (arith, test-set-or b.v i (word_in v i h) (v.words (i / 8)) i)),
          )
          (ap (λ w. done (record b { v = w }))
            (clear_bit-set_bit b.v i (word_in v i h) (v.words (i / 8)) clear))
