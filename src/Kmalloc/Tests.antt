-- ===== src/Kmalloc/Tests.antt =====
-- Runs of kern/vm/kmalloc.c on an empty heap and on a heap of one page.
use os161_kernel.Prelude.{
  ℕ, zero, suc, ◌+◌, ◌-◌, ◌^◌, ◌<◌, ◌≡◌, refl, true, false, List, [], ◌∷◌, length, get_or, arith,
  update, ◌⊎◌,
}
use os161_kernel.Prelude.Outcome.{Outcome, done}
use os161_kernel.Kmalloc.{
  in_use, bit_set, shift_right, Heap, Kernel, unlink, subpage_kfree, freed, freed_page,
}
use os161_kernel.Kmalloc.Chain.{has}
use os161_kernel.Kmalloc.Pages.{Represents, taken, taken-IsPage, Represents-update}
use os161_kernel.Kmalloc.Entries.{here-Entered}
use os161_kernel.Kmalloc.Fresh.{with_page, with_page-Represents}
use os161_kernel.Kmalloc.Release.{subpage_kfree-used}

abbrev page : ℕ
page = 0x80010000

abbrev no_words : List ℕ
no_words = 0 ∷ 0 ∷ 0 ∷ 0 ∷ 0 ∷ 0 ∷ 0 ∷ 0 ∷ []

abbrev empty : Heap
empty = record {
  refs = λ p. record { pab = 0; offset = 0; nfree = 0 };
  inuse = no_words;
  sizebases = λ k. [];
  allbase = [];
  word = λ a. 0;
}

abbrev nothing : ℕ → List ℕ
nothing p = []

no_words-small : (i : ℕ) → get_or no_words i 0 < 2 ^ 32
no_words-small zero = omega arith
no_words-small (suc zero) = omega arith
no_words-small (suc (suc zero)) = omega arith
no_words-small (suc (suc (suc zero))) = omega arith
no_words-small (suc (suc (suc (suc zero)))) = omega arith
no_words-small (suc (suc (suc (suc (suc zero))))) = omega arith
no_words-small (suc (suc (suc (suc (suc (suc zero)))))) = omega arith
no_words-small (suc (suc (suc (suc (suc (suc (suc zero))))))) = omega arith
no_words-small (suc (suc (suc (suc (suc (suc (suc (suc i)))))))) = omega arith

empty-Represents : Represents empty nothing nothing
empty-Represents = record {
  pages = λ p i. cc;
  apart = λ p q i j e. cc;
  sized = λ k p i. cc;
  listed = λ p i. cc;
  once = tt;
  sized_once = λ k. tt;
  words = refl;
  small = no_words-small;
}

clear_zero : bit_set 0 0 ≡ false
unfolding bit_set shift_right
clear_zero = refl

-- One page of blocks of 2048 bytes, both free; and the same page with the upper one handed out.
abbrev one_page : Heap
one_page = with_page 7 page 0 (1 ∷ 0 ∷ 0 ∷ 0 ∷ 0 ∷ 0 ∷ 0 ∷ 0 ∷ []) empty

one_page-Represents :
    Represents one_page (update nothing 0 ((page + 2048) ∷ page ∷ [])) (update nothing 0 [])
one_page-Represents =
    with_page-Represents empty-Represents 7 page 0 (1 ∷ 0 ∷ 0 ∷ 0 ∷ 0 ∷ 0 ∷ 0 ∷ 0 ∷ [])
      (omega arith) (omega arith) refl (omega arith) (λ q i. cc)
      (here-Entered 0 (0 ∷ 0 ∷ 0 ∷ 0 ∷ 0 ∷ 0 ∷ 0 ∷ []) 0 no_words-small (omega arith) clear_zero)

abbrev both : ℕ → List ℕ
both = update nothing 0 ((page + 2048) ∷ page ∷ [])

abbrev half_used : Heap
half_used = record one_page { refs = update one_page.refs 0 (taken (one_page.refs 0) (page ∷ [])) }

half_used-Represents :
    Represents half_used
      (update both 0 (page ∷ []))
      (update (update nothing 0 []) 0 ((page + 2048) ∷ []))
half_used-Represents =
    let w = one_page-Represents in
    Represents-update w 0 refl (taken (one_page.refs 0) (page ∷ [])) one_page.word (page ∷ [])
      ((page + 2048) ∷ []) refl
      (taken-IsPage one_page.word (one_page.refs 0) (page + 2048) (page ∷ []) [] (w.pages 0 refl))
      (λ q i ne. w.pages q i)

-- And with both blocks handed out.
abbrev all_used : Heap
all_used = record half_used { refs = update half_used.refs 0 (taken (half_used.refs 0) []) }

all_used-Represents :
    Represents all_used
      (update (update both 0 (page ∷ [])) 0 [])
      (update (update (update nothing 0 []) 0 ((page + 2048) ∷ [])) 0 (page ∷ (page + 2048) ∷ []))
all_used-Represents =
    let w = half_used-Represents in
    Represents-update w 0 refl (taken (half_used.refs 0) []) half_used.word []
      (page ∷ (page + 2048) ∷ []) refl
      (taken-IsPage half_used.word (half_used.refs 0) page [] ((page + 2048) ∷ []) (w.pages 0 refl))
      (λ q i ne. w.pages q i)

-- The pages of a kernel that has just this one.
abbrev give_page : ℕ → ℕ → Outcome (ℕ × ℕ)
give_page npages s = done (page, s + 1)

abbrev take_page : ℕ → ℕ → Outcome ℕ
take_page addr s = done (s - 1)

abbrev start : Kernel ℕ
start = record { heap = empty; pages = 0 }

abbrev with_two : Kernel ℕ
with_two = record { heap = one_page; pages = 1 }

abbrev with_half : Kernel ℕ
with_half = record { heap = half_used; pages = 1 }

abbrev no_page : ℕ → ℕ → Outcome (ℕ × ℕ)
no_page npages s = done (0, s)

subpage_kfree-used_example :
    (h' : Heap) × (((subpage_kfree (page + 2048) half_used ≡ done (freed h'))
        × (has 0 h'.allbase ≡ true)
        × (0 < 0))
      ⊎ ((subpage_kfree (page + 2048) half_used ≡ done (freed_page page h'))
          × (has 0 h'.allbase ≡ false)
          × (in_use h'.inuse 0 ≡ false)
          × (length {A = ℕ} [] ≡ 0)))
    × Represents h'
        (update (update both 0 (page ∷ [])) 0 ((page + 2048) ∷ page ∷ []))
        (update (update (update nothing 0 []) 0 ((page + 2048) ∷ [])) 0 [])
unfolding unlink
subpage_kfree-used_example =
    subpage_kfree-used half_used (update both 0 (page ∷ []))
      (update (update nothing 0 []) 0 ((page + 2048) ∷ [])) 0 (page + 2048) half_used-Represents
      refl refl (omega arith)
