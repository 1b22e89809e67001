-- ===== src/Array/Resize.antt =====
-- array_setsize (kern/lib/array.c): the doubling of the block.
use os161_kernel.Prelude.{
  ℕ, zero, suc, ◌*◌, ◌%◌, ◌^◌, ◌<◌, ◌≤◌, ◌≡◌, refl, ◌⊎◌, inl, inr, true, false, Option, none, some,
  ltb, ◌==◌, if◌then◌else◌, arith, dec_lt, ap, ◌∙◌, Option-cases,
}
use os161_kernel.Prelude.Outcome.{done}
use os161_kernel.Prelude.Errno.{enomem}
use os161_kernel.Array.{Array, grow, array_setsize}

-- The elements are in the block, and its size in bytes is an unsigned number.
pub record IsValid (a : Array) : Type 0 where
  pub fits : a.num ≤ a.max
  pub small : a.max < 2 ^ 30
  pub least : (a.max ≡ 0) ⊎ (4 ≤ a.max)

grow-enough : (fuel num newmax : ℕ) → num ≤ newmax → grow (suc fuel) num newmax ≡ done newmax
unfolding grow
grow-enough fuel num newmax h = ground arith

grow-more :
    (fuel num newmax : ℕ)
    → newmax < num
    → 4 ≤ newmax
    → newmax < 2 ^ 30
    → grow (suc fuel) num newmax ≡ grow fuel num (newmax * 2)
unfolding grow
grow-more fuel num newmax h lo hi =
    let e : newmax * 2 % 2 ^ 32 ≡ newmax * 2 = omega arith in
    let t : ltb newmax num ≡ true = ground arith in
    let z : (newmax == 0) ≡ false = ground arith in rw (t, z, e) refl

grow-empty : (fuel num : ℕ) → 0 < num → grow (suc fuel) num 0 ≡ grow fuel num 4
unfolding grow
grow-empty fuel num h = let t : ltb 0 num ≡ true = ground arith in rw t refl

-- The size after `k` doublings.
abbrev reach : ℕ → ℕ → ℕ
reach zero m = m
reach (suc k) m = reach k (m * 2)

reach-le : (k m n : ℕ) → m ≤ n → reach k m ≤ reach k n
reach-le zero m n h = h
reach-le (suc k) m n h = reach-le k (m * 2) (n * 2) (omega arith)

-- From a size of at least 4, `k + 1` rounds reach every size up to that of `k` doublings.
grow-doubles :
    (k num newmax : ℕ)
    → 4 ≤ newmax
    → newmax < 2 ^ 30
    → num ≤ reach k newmax
    → num ≤ 2 ^ 29
    → (m : ℕ) × (grow (suc k) num newmax ≡ done m) × (num ≤ m) × (4 ≤ m) × (m < 2 ^ 30)
grow-doubles zero num newmax lo hi h small =
    (newmax, grow-enough 0 num newmax (omega arith), omega arith, lo, hi)
grow-doubles (suc k) num newmax lo hi h small = elim (dec_lt newmax num) [
  | no enough ↦ (newmax, grow-enough (suc k) num newmax (omega arith), omega arith, lo, hi)
  | yes more ↦
      let (m, e, up, lo', hi') =
        grow-doubles k num (newmax * 2) (omega arith) (omega arith) h small in
      (m, grow-more (suc k) num newmax more lo hi ∙ e, up, lo', hi')
]

grow_lem :
    (num max : ℕ)
    → num ≤ 2 ^ 29
    → max < num
    → (max ≡ 0) ⊎ (4 ≤ max)
    → (m : ℕ) × (grow 32 num max ≡ done m) × (num ≤ m) × (4 ≤ m) × (m < 2 ^ 30)
grow_lem num max small more (inl e) =
    let (m, q, up, lo, hi) =
      grow-doubles 30 num 4 (omega arith) (omega arith) (omega arith) small in
    (m, ap (grow 32 num) e ∙ grow-empty 31 num (omega arith) ∙ q, up, lo, hi)
grow_lem num max small more (inr lo) =
    let h : num ≤ reach 31 max = omega (arith, reach-le 31 4 max lo) in
    grow-doubles 31 num max lo (omega arith) h small

module _ (kmalloc : ℕ → Option (ℕ → ℕ)) where
  -- On a valid array, for up to 2 ^ 29 elements, array_setsize returns within 32 rounds of its loop.
  -- If it succeeds the array is valid, has `num` elements, and those that were there are as before;
  -- it fails only with ENOMEM, where more than `max` elements were asked for and kmalloc returned
  -- NULL for a block with room for them, and then the array is as before.
  pub array_setsize_lem :
      (a : Array) (num : ℕ)
      → IsValid a
      → num ≤ 2 ^ 29
      → ((b : Array) × (array_setsize kmalloc 32 a num ≡ done (none, b))
          × IsValid b
          × (b.num ≡ num)
          × ((i : ℕ) → i < a.num → b.v i ≡ a.v i))
        ⊎ ((array_setsize kmalloc 32 a num ≡ done (some enomem, a))
            × (a.max < num)
            × ((m : ℕ) × (num ≤ m) × (kmalloc (m * 4) ≡ none)))
  unfolding array_setsize
  array_setsize_lem a num v small = elim (dec_lt a.max num) [
    | no fits ↦ inl (
      record a { num = num },
      ground arith,
      record { fits = omega arith; small = v.small; least = v.least },
      refl,
      λ i h. refl,
    )
    | yes more ↦
        let (m, e, up, lo, hi) = grow_lem num a.max small more v.least in
        let bytes : m * 4 % 2 ^ 32 ≡ m * 4 = omega arith in
        let t : ltb a.max num ≡ true = ground arith in
        elim (Option-cases (kmalloc (m * 4))) [
          | inl fails ↦ inr (rw (t, e, bytes, fails) refl, more, (m, up, fails))
          | inr (block, given) ↦ inl (
            record { v = λ i. if ltb i a.num then a.v i else block i; num = num; max = m },
            rw (t, e, bytes, given) refl,
            record { fits = up; small = hi; least = inr lo },
            refl,
            λ i h. let q : ltb i a.num ≡ true = ground arith in rw q refl,
          )
        ]
  ]
