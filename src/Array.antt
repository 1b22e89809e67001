-- ===== src/Array.antt =====
-- kern/lib/array.c and kern/include/array.h, the resizable array of pointers, with ARRAYASSERT
-- checked. `v` gives the words of the block; a word at `max` or beyond is out of the block.
-- What kmalloc does is a parameter: for a size in bytes, NULL or the words that the block holds.
pub mod Resize
pub mod Contents
mod Tests
use os161_kernel.Prelude.{
  ℕ, zero, suc, ◌+◌, ◌-◌, ◌*◌, ◌%◌, ◌^◌, ◌<◌, Bool, true, false, Option, none, some, ltb, leb, ◌==◌,
  ◌&&◌, if◌then◌else◌,
}
use os161_kernel.Prelude.Outcome.{Outcome, done, panic, spin, ◌>>=◌, ◌>>◌, kassert, access}
use os161_kernel.Prelude.Errno.{Errno, enomem}

pub record Array : Type 0 where
  pub v : ℕ → ℕ
  pub num : ℕ
  pub max : ℕ

unfoldable pub array_init : Array
array_init = record { v = λ i. 0; num = 0; max = 0 }

unfoldable pub array_num : Array → ℕ
array_num a = a.num

abbrev pub word_at : Array → ℕ → Option ℕ
word_at a i = if ltb i a.max then some (a.v i) else none

pub array_get : Array → ℕ → Outcome ℕ
array_get a index = do kassert (ltb index a.num); access (word_at a index)

abbrev pub put : (ℕ → ℕ) → ℕ → ℕ → ℕ → ℕ
put v i val j = if i == j then val else v j

pub array_set : Array → ℕ → ℕ → Outcome Array
array_set a index val = do
  kassert (ltb index a.num)
  _w ← access (word_at a index)
  done (record a { v = put a.v index val })

-- The loop that doubles newmax, on fuel.
pub grow : ℕ → ℕ → ℕ → Outcome ℕ
grow zero num newmax = spin
grow (suc fuel) num newmax =
    let rest = grow fuel num (if newmax == 0 then 4 else newmax * 2 % 2 ^ 32) in
    if ltb newmax num then rest else done newmax

module _ (kmalloc : ℕ → Option (ℕ → ℕ)) where
  -- The error code, or none for 0, and the array.
  pub array_setsize : ℕ → Array → ℕ → Outcome (Option Errno × Array)
  array_setsize fuel a num =
      if ltb a.max num
      then (do
        newmax ← grow fuel num a.max
        elim (kmalloc (newmax * 4 % 2 ^ 32)) [
          | none ↦ done (some enomem, a)
          | some block ↦ done (
            none,
            record { v = λ i. if ltb i a.num then a.v i else block i; num = num; max = newmax },
          )
        ])
      else done (none, record a { num = num })

  -- With the index of the new element on success.
  pub array_add : ℕ → Array → ℕ → Outcome (Option Errno × ℕ × Array)
  array_add fuel a val = do
    (ret, b) ← array_setsize fuel a ((a.num + 1) % 2 ^ 32)
    elim ret [
      | some e ↦ done (some e, 0, b)
      | none ↦
          (access (word_at b a.num) >>= λ _. done (none, a.num, record b { v = put b.v a.num val }))
    ]

-- memmove(a->v + index, a->v + index + 1, num_to_move * sizeof(void *))
pub array_remove : Array → ℕ → Outcome Array
array_remove a index = do
  kassert (leb a.num a.max)
  kassert (ltb index a.num)
  let num_to_move = a.num - (index + 1)
  done (record a {
    v = λ i. if leb index i && ltb i (index + num_to_move) then a.v (i + 1) else a.v i;
    num = a.num - 1;
  })

unfoldable pub array_cleanup : Array → Outcome (Unit {0})
array_cleanup a = kassert (a.num == 0)
