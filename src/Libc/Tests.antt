-- ===== src/Libc/Tests.antt =====
-- Runs of common/libc/string on a memory with the texts "ab" at 16 and "b" at 32.
use os161_kernel.Prelude.{ℕ, ◌≡◌, refl, List, [], ◌∷◌, arith, ◌==◌, if◌then◌else◌}
use os161_kernel.Prelude.Memory.{Mem}
use os161_kernel.Libc.{memmove, copy_up, copy_down}
use os161_kernel.Libc.Blocks.{moved, memmove-moved}
use os161_kernel.Libc.Text.{IsText}

abbrev bytes : Mem
bytes a = if a == 16 then 97 else (if a == 17 then 98 else (if a == 32 then 98 else 0))

abbrev ab : List ℕ
ab = 97 ∷ 98 ∷ []

abbrev b : List ℕ
b = 98 ∷ []

ab-IsText : IsText bytes 16 ab
ab-IsText = (refl, (omega arith), (refl, (omega arith), refl))

b-IsText : IsText bytes 32 b
b-IsText = (refl, (omega arith), refl)

-- Copied upwards over itself, the byte at 16 spreads; memmove copies downwards then.
spread : copy_up 1 2 0 17 16 bytes 18 ≡ 97
unfolding copy_up
spread = refl

no_spread : copy_down 1 2 17 16 bytes 18 ≡ 98
unfolding copy_down
no_spread = refl

memmove-moved_example : memmove 17 16 2 bytes ≡ moved 17 16 2 bytes
memmove-moved_example = memmove-moved 17 16 2 bytes
