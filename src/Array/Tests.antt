-- ===== src/Array/Tests.antt =====
-- An array of two pointers in a block of four, and a kmalloc that hands out zeroed memory.
use os161_kernel.Prelude.{
  ℕ, ◌+◌, ◌*◌, ◌≤◌, ◌<◌, ◌≡◌, ◌⊎◌, inr, Option, none, some, ltb, if◌then◌else◌, arith,
}
use os161_kernel.Prelude.Outcome.{done}
use os161_kernel.Prelude.Errno.{enomem}
use os161_kernel.Array.{Array, array_setsize}
use os161_kernel.Array.Resize.{IsValid, array_setsize_lem}

abbrev zeroed : ℕ → Option (ℕ → ℕ)
zeroed bytes = if ltb bytes 1024 then some (λ i. 0) else none

abbrev two : Array
two = record { v = λ i. i + 100; num = 2; max = 4 }

two-IsValid : IsValid two
two-IsValid = record { fits = omega arith; small = omega arith; least = inr (omega arith) }

array_setsize_lem_example :
    ((b : Array) × (array_setsize zeroed 32 two 6 ≡ done (none, b))
      × IsValid b
      × (b.num ≡ 6)
      × ((i : ℕ) → i < 2 → b.v i ≡ i + 100))
    ⊎ ((array_setsize zeroed 32 two 6 ≡ done (some enomem, two))
        × (two.max < 6)
        × ((m : ℕ) × (6 ≤ m) × (zeroed (m * 4) ≡ none)))
array_setsize_lem_example = array_setsize_lem zeroed two 6 two-IsValid (omega arith)
