-- ===== src/Array/Contents.antt =====
-- array_get, array_set, array_add and array_remove (kern/lib/array.c, kern/include/array.h): what
-- they do to the elements.
use os161_kernel.Prelude.{
  ℕ, ◌+◌, ◌-◌, ◌%◌, ◌^◌, ◌<◌, ◌≤◌, ◌≡◌, refl, ◌⊎◌, inl, inr, true, Option, none, some, ltb, leb,
  ◌==◌, ◌&&◌, if◌then◌else◌, arith,
}
use os161_kernel.Prelude.Outcome.{done, panic}
use os161_kernel.Prelude.Errno.{enomem}
use os161_kernel.Array.{Array, array_get, array_set, array_add, array_remove, put}
use os161_kernel.Array.Resize.{IsValid, array_setsize_lem}

-- On a valid array array_get and array_set stop the kernel exactly on an index that is not below
-- `num`; below it, array_get returns the element, and after array_set it returns the new value at
-- the index and the old ones elsewhere.
pub array_get-array_set :
    (a : Array) (i val : ℕ)
    → IsValid a
    → ((a.num ≤ i) → (array_get a i ≡ panic) × (array_set a i val ≡ panic))
      × ((i < a.num)
          → (b : Array) × (array_set a i val ≡ done b)
            × IsValid b
            × (b.num ≡ a.num)
            × ((j : ℕ) → j < a.num → array_get b j ≡ (if i == j then done val else array_get a j)))
unfolding array_get array_set
array_get-array_set a i val v = (
  (λ h. ground arith),
  λ h. (
    record a { v = put a.v i val },
    ground (arith, v.fits),
    record { fits = v.fits; small = v.small; least = v.least },
    refl,
    λ j q. ground (arith, v.fits),
  ),
)

module _ (kmalloc : ℕ → Option (ℕ → ℕ)) where
  -- On a valid array of fewer than 2 ^ 29 elements array_add either appends the value, at the index
  -- that it returns, and keeps the elements before it, or returns ENOMEM and the same array.
  pub array_add_lem :
      (a : Array) (val : ℕ)
      → IsValid a
      → a.num < 2 ^ 29
      → ((b : Array) × (array_add kmalloc 32 a val ≡ done (none, a.num, b))
          × IsValid b
          × (b.num ≡ a.num + 1)
          × (b.v a.num ≡ val)
          × ((i : ℕ) → i < a.num → b.v i ≡ a.v i))
        ⊎ (array_add kmalloc 32 a val ≡ done (some enomem, 0, a))
  unfolding array_add
  array_add_lem a val v h =
      let n : (a.num + 1) % 2 ^ 32 ≡ a.num + 1 = omega arith in
      elim (array_setsize_lem kmalloc a (a.num + 1) v (omega arith)) [
        | inr (e, _, _) ↦ inr (rw (n, e) refl)
        | inl (b, e, w, sized, same) ↦
            let t : ltb a.num b.max ≡ true = ground (arith, w.fits) in
            inl (
              record b { v = put b.v a.num val },
              rw (n, e, t) refl,
              record { fits = w.fits; small = w.small; least = w.least },
              sized,
              ground arith,
              λ i q. ground (arith, same i q),
            )
      ]

-- On a valid array array_remove stops the kernel exactly on an index that is not below `num`; below
-- it, the elements before the index stay and those after it move down by one.
pub array_remove_lem :
    (a : Array) (i : ℕ)
    → IsValid a
    → ((a.num ≤ i) → array_remove a i ≡ panic)
      × ((i < a.num)
          → (b : Array) × (array_remove a i ≡ done b)
            × IsValid b
            × (b.num + 1 ≡ a.num)
            × ((j : ℕ) → j < b.num → b.v j ≡ (if ltb j i then a.v j else a.v (j + 1))))
unfolding array_remove
array_remove_lem a i v = (
  (λ h. ground (arith, v.fits)),
  λ h. (
    record a {
      v = λ j. if leb i j && ltb j (i + (a.num - (i + 1))) then a.v (j + 1) else a.v j;
      num = a.num - 1;
    },
    ground (arith, v.fits),
    record { fits = omega (arith, v.fits); small = v.small; least = v.least },
    omega arith,
    λ j q. ground arith,
  ),
)
