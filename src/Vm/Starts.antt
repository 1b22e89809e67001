-- ===== src/Vm/Starts.antt =====
-- The tables of kern/vm/addrspace.c on a memory of seven pages at the start, and on three frames
-- that are all in use.
use os161_kernel.Prelude.{
  ℕ, zero, suc, ◌+◌, ◌-◌, ◌/◌, ◌≡◌, ◌≤◌, refl, Bool, true, false, some, [], ◌∷◌, arith, subst,
}
use os161_kernel.Prelude.Outcome.{done}
use os161_kernel.Bitmap.{Bitmap, bitmap_create}
use os161_kernel.Bitmap
use os161_kernel.Bitmap.Marks
use os161_kernel.Bitmap.Marks.{test, set_bit-IsValid}
use os161_kernel.Bitmap.Create.{bitmap_create_lem}
use os161_kernel.Vm.State.{Entry, Vm}
use os161_kernel.Vm.Coremap.{Framed, IsValid}
use os161_kernel.Vm.Boot.{TableMade, coremap_init, coreswap_init, coremap_init_lem}
use os161_kernel.Vm.Contiguous.{alloc_npages, Given, alloc_npages-in_use}

abbrev ok_disk : ℕ → Bool
ok_disk offset = false

abbrev junk : ℕ → Entry
junk i = record { vaddr = 1; paddr = 2; pid = 3; counter = 4; ncounter = 5 }

coremap_init_lem_example :
    TableMade true true true 0x11000
      ((0x20000 - (0x10000 + 4096)) / 4096)
      (λ mem_map coremap. (0x11000, mem_map, coremap))
      (coremap_init true true true 0x20000 0x10000 0x11000 junk)
    × TableMade true true true 0
        (0x5000 / 4096)
        (λ swap_map coreswap. (swap_map, coreswap))
        (coreswap_init true true true 0x5000 junk)
coremap_init_lem_example =
    coremap_init_lem true true true 0x20000 0x10000 0x11000 0x5000 junk (omega arith) (omega arith)
      (omega arith) (omega arith) (omega arith) (omega arith)

abbrev clear3 : Bitmap
clear3 = record { nbits = 3; v = 248 ∷ [] }

create3 : bitmap_create true true 3 ≡ done (some clear3)
unfolding bitmap_create
create3 = refl

clear3-IsValid : Marks.IsValid clear3
clear3-IsValid =
    let ((b, e, empty), _, _) = bitmap_create_lem 3 (omega arith) in
    let same : b ≡ clear3 = ground (arith, create3) in subst Marks.IsValid same empty.valid

abbrev used3 : Bitmap
used3 = record { nbits = 3; v = 255 ∷ [] }

used3-IsValid : Marks.IsValid used3
used3-IsValid =
    set_bit-IsValid
      (set_bit-IsValid (set_bit-IsValid clear3-IsValid 0 (omega arith)) 1 (omega arith)) 2
      (omega arith)

abbrev page : ℕ → ℕ → Entry
page paddr pid = record { vaddr = 0x400000; paddr = paddr; pid = pid; counter = 0; ncounter = 0 }

abbrev state : Vm
state = record {
  start = 0x10000;
  mem_map = used3;
  coremap = page 0x10600 7 ∷ page 0x11600 8 ∷ page 0x12600 9 ∷ [];
  swap_map = clear3;
  coreswap = page 0 0 ∷ page 4096 0 ∷ page 8192 0 ∷ [];
  frames = λ a. 0;
  slots = λ a. 0;
  tlb = [];
  draws = [];
  curpid = 5;
  as_pid = 5;
  no_tlb = 0;
  no_page = 0;
  no_page_write = 0;
}

memory-Framed : Framed state.start state.coremap
memory-Framed zero e h = ground arith
memory-Framed (suc zero) e h = ground arith
memory-Framed (suc (suc zero)) e h = ground arith
memory-Framed (suc (suc (suc i))) e h = cc

swap-Framed : Framed 0 state.coreswap
swap-Framed zero e h = ground arith
swap-Framed (suc zero) e h = ground arith
swap-Framed (suc (suc zero)) e h = ground arith
swap-Framed (suc (suc (suc i))) e h = cc

state-IsValid : IsValid state
state-IsValid = record {
  memory = record {
    aligned = refl;
    room = omega arith;
    framed = memory-Framed;
    bits = used3-IsValid;
    sized = refl;
  };
  swap = record {
    aligned = refl;
    room = omega arith;
    framed = swap-Framed;
    bits = clear3-IsValid;
    sized = refl;
  };
}

all_used : (j : ℕ) → j ≤ 2 → test used3.v j ≡ true
unfolding Bitmap.Word.bit
all_used zero h = refl
all_used (suc zero) h = refl
all_used (suc (suc zero)) h = refl
all_used (suc (suc (suc j))) h = absurd (omega arith)

-- Two frames for process 5: the ones of processes 7 and 8.
alloc_npages-in_use_example :
    (s' : Vm) × (alloc_npages ok_disk ok_disk 2 5 state ≡ done (state.start, s'))
    × Given 5 0 2 state s'
alloc_npages-in_use_example =
    alloc_npages-in_use ok_disk ok_disk 2 5 state state-IsValid (omega arith) (omega arith) all_used
