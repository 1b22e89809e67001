-- ===== src/Bitmap/Tests.antt =====
-- The bitmap of kern/lib/bitmap.c on ten bits.
use os161_kernel.Prelude.{ℕ, ◌≡◌, refl, ◌≢◌, ◌↔◌, true, some, [], ◌∷◌, arith, subst}
use os161_kernel.Prelude.Outcome.{done}
use os161_kernel.Bitmap.{
  Bitmap, allocated, enospc, bitmap_create, bitmap_alloc, bitmap_mark, bitmap_isset, alloc_words,
}
use os161_kernel.Bitmap.Word.{find_offset}
use os161_kernel.Bitmap.Marks.{test, IsValid, set_bit-IsValid, bitmap_isset_lem}
use os161_kernel.Bitmap.Search.{Allocates, bitmap_alloc_lem}
use os161_kernel.Bitmap.Create.{bitmap_create_lem}

-- Ten bits, all of them clear; and with bit 0 set.
abbrev ten : Bitmap
ten = record { nbits = 10; v = 0 ∷ 252 ∷ [] }

abbrev ten_first : Bitmap
ten_first = record { nbits = 10; v = 1 ∷ 252 ∷ [] }

create_ten : bitmap_create true true 10 ≡ done (some ten)
unfolding bitmap_create
create_ten = refl

alloc_ten : bitmap_alloc ten ≡ done (allocated 0 ten_first)
unfolding bitmap_alloc alloc_words find_offset
alloc_ten = refl

alloc_full : bitmap_alloc (record { nbits = 10; v = 255 ∷ 255 ∷ [] }) ≡ done enospc
unfolding bitmap_alloc alloc_words
alloc_full = refl

mark_ten : bitmap_mark ten 0 ≡ done ten_first
unfolding bitmap_mark
mark_ten = refl

isset_ten : bitmap_isset ten_first 0 ≡ done 1
unfolding bitmap_isset
isset_ten = refl

ten-IsValid : IsValid ten
ten-IsValid =
    let ((b, e, empty), _, _) = bitmap_create_lem 10 (omega arith) in
    let same : b ≡ ten = ground (arith, create_ten) in subst IsValid same empty.valid

ten_first-IsValid : IsValid ten_first
ten_first-IsValid = set_bit-IsValid ten-IsValid 0 (omega arith)

bitmap_alloc_lem_example : Allocates ten_first
bitmap_alloc_lem_example = bitmap_alloc_lem ten_first-IsValid

bitmap_isset_lem_example :
    (r : ℕ) × (bitmap_isset ten_first 0 ≡ done r) × ((r ≢ 0) ↔ (test ten_first.v 0 ≡ true))
bitmap_isset_lem_example = bitmap_isset_lem ten_first-IsValid 0 (omega arith)
