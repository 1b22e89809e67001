-- ===== src/Bitmap/Word.antt =====
-- One word of a bitmap (kern/lib/bitmap.c): the masks, and the search for a clear bit.
use os161_kernel.Prelude.{
  ℕ, zero, suc, ◌+◌, ◌-◌, ◌%◌, ◌^◌, ◌≤◌, ◌<◌, ◌≡◌, refl, Bool, true, false, Option, none, some,
  bit_and, bit_or, ltb, ltb→lt, ◌==◌, not, ◌&&◌, ◌||◌, if◌then◌else◌, arith, Bool-cases, inl, inr,
  subst, ℕ_discrete,
}
use os161_kernel.Prelude.Bits.{all_below, all_below_sound}

-- WORD_ALLBITS
abbrev pub word_allbits : ℕ
word_allbits = 0xff

-- ((WORD_TYPE)1) << offset
abbrev pub mask : ℕ → ℕ
mask offset = 2 ^ offset % 256

-- ~mask, in a word
abbrev pub unmask : ℕ → ℕ
unmask m = 255 - m

-- The inner loop of bitmap_alloc, from `offset` on over the rounds left: the first clear bit.
unfoldable pub find_offset : ℕ → ℕ → ℕ → Option ℕ
find_offset zero offset w = none
find_offset (suc n) offset w =
    let rest = find_offset n (offset + 1) w in
    if bit_and w (mask offset) == 0 then some offset else rest

-- The bit of a word, as bitmap_isset tests it.
unfoldable pub bit : ℕ → ℕ → Bool
bit w k = not (bit_and w (mask k) == 0)

-- Equality of two Booleans, for the tables.
unfoldable pub eqb : Bool → Bool → Bool
eqb true b = b
eqb false b = not b

pub eqb-eq : (a b : Bool) → eqb a b ≡ true → a ≡ b
unfolding eqb
eqb-eq true b h = ground arith
eqb-eq false b h = ground arith

or_table :
    all_below 256 (λ w. all_below 8 (λ k.
      ltb (bit_or w (mask k)) 256
      && all_below 8 (λ j. eqb (bit (bit_or w (mask k)) j) (if k == j then true else bit w j))))
    ≡ true
unfolding all_below eqb bit
or_table = refl

and_table :
    all_below 256 (λ w. all_below 8 (λ k.
      ltb (bit_and w (unmask (mask k))) 256
      && all_below 8
          (λ j. eqb (bit (bit_and w (unmask (mask k))) j) (if k == j then false else bit w j))))
    ≡ true
unfolding all_below eqb bit
and_table = refl

full_table : all_below 256 (λ w. not (all_below 8 (λ k. bit w k)) || (w == word_allbits)) ≡ true
unfolding all_below bit
full_table = refl

allbits_table : all_below 8 (λ k. bit word_allbits k) ≡ true
unfolding all_below bit
allbits_table = refl

and-or_table :
    all_below 256
      (λ w. all_below 8 (λ k. bit w k || (bit_and (bit_or w (mask k)) (unmask (mask k)) == w)))
    ≡ true
unfolding all_below bit
and-or_table = refl

module _ (w k : ℕ) (hw : w < 256) (hk : k < 8) where
  or_row :
      (ltb (bit_or w (mask k)) 256
        && all_below 8 (λ j. eqb (bit (bit_or w (mask k)) j) (if k == j then true else bit w j)))
      ≡ true
  or_row = all_below_sound 8 _ k (all_below_sound 256 _ w or_table hw) hk

  and_row :
      (ltb (bit_and w (unmask (mask k))) 256
        && all_below 8
            (λ j. eqb (bit (bit_and w (unmask (mask k))) j) (if k == j then false else bit w j)))
      ≡ true
  and_row = all_below_sound 8 _ k (all_below_sound 256 _ w and_table hw) hk

&&-left : (a b : Bool) → (a && b) ≡ true → a ≡ true
&&-left a b h = ground arith

&&-right : (a b : Bool) → (a && b) ≡ true → b ≡ true
&&-right a b h = ground arith

module _ (w k : ℕ) (hw : w < 256) (hk : k < 8) where
  -- Setting a bit of a word leaves a word, and changes that bit alone.
  pub or_mask-lt : bit_or w (mask k) < 256
  or_mask-lt = ltb→lt _ _ (&&-left _ _ (or_row w k hw hk))

  pub bit-or_mask : (j : ℕ) → j < 8 → bit (bit_or w (mask k)) j ≡ (if k == j then true else bit w j)
  bit-or_mask j hj = eqb-eq _ _ (all_below_sound 8 _ j (&&-right _ _ (or_row w k hw hk)) hj)

  -- So does clearing it.
  pub and_unmask-lt : bit_and w (unmask (mask k)) < 256
  and_unmask-lt = ltb→lt _ _ (&&-left _ _ (and_row w k hw hk))

  pub bit-and_unmask :
      (j : ℕ) → j < 8 → bit (bit_and w (unmask (mask k))) j ≡ (if k == j then false else bit w j)
  bit-and_unmask j hj = eqb-eq _ _ (all_below_sound 8 _ j (&&-right _ _ (and_row w k hw hk)) hj)

  -- Clearing a bit that was just set gives the word back.
  pub and_unmask-or_mask : bit w k ≡ false → bit_and (bit_or w (mask k)) (unmask (mask k)) ≡ w
  and_unmask-or_mask h =
      ground (arith, all_below_sound 8 _ k (all_below_sound 256 _ w and-or_table hw) hk)

pub bit-allbits : (k : ℕ) → k < 8 → bit word_allbits k ≡ true
bit-allbits k h = all_below_sound 8 _ k allbits_table h

all_below_complete : (n : ℕ) (p : ℕ → Bool) → ((j : ℕ) → j < n → p j ≡ true) → all_below n p ≡ true
unfolding all_below
all_below_complete zero p h = refl
all_below_complete (suc n) p h =
    ground (arith, h n, all_below_complete n p (λ j q. h j (omega arith)))

-- A word whose bits are all set is WORD_ALLBITS.
pub allbits_of_bits : (w : ℕ) → w < 256 → ((j : ℕ) → j < 8 → bit w j ≡ true) → w ≡ word_allbits
allbits_of_bits w hw h =
    ground (arith, all_below_sound 256 _ w full_table hw, all_below_complete 8 (λ j. bit w j) h)

pub record IsFirstClear (w from upto k : ℕ) : Type 0 where
  pub low : from ≤ k
  pub high : k < upto
  pub clear : bit w k ≡ false
  pub first : (j : ℕ) → from ≤ j → j < k → bit w j ≡ true

pub find_offset-some :
    (n offset w : ℕ) {k : ℕ}
    → find_offset n offset w ≡ some k
    → IsFirstClear w offset (offset + n) k
unfolding find_offset bit
find_offset-some zero offset w h = absurd (ground arith)
find_offset-some (suc n) offset w {k} h = elim (Bool-cases (bit_and w (mask offset) == 0)) [
  | inl clear ↦
      let e : offset ≡ k = ground arith in
      subst (IsFirstClear w offset (offset + suc n)) e (record {
        low = omega arith;
        high = omega arith;
        clear = ground arith;
        first = λ j p q. absurd (omega arith);
      })
  | inr taken ↦ after_set taken (find_offset-some n (offset + 1) w (ground arith))
]
  where
    after_set :
        (bit_and w (mask offset) == 0) ≡ false
        → IsFirstClear w (offset + 1) (offset + 1 + n) k
        → IsFirstClear w offset (offset + suc n) k
    after_set taken f = record {
      low = omega arith;
      high = omega arith;
      clear = f.clear;
      first = λ j p q. elim (ℕ_discrete offset j) [
        | yes e ↦ subst (λ i. bit w i ≡ true) e (ground arith)
        | no ne ↦ f.first j (omega arith) q
      ];
    }

pub find_offset-none :
    (n offset w : ℕ)
    → find_offset n offset w ≡ none
    → (j : ℕ) → offset ≤ j
    → j < offset + n
    → bit w j ≡ true
unfolding find_offset bit
find_offset-none zero offset w h j p q = absurd (omega arith)
find_offset-none (suc n) offset w h j p q = elim (ℕ_discrete offset j) [
  | yes e ↦ subst (λ i. bit w i ≡ true) e (ground arith)
  | no ne ↦ find_offset-none n (offset + 1) w (ground arith) j (omega arith) (omega arith)
]
