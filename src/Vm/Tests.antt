-- ===== src/Vm/Tests.antt =====
-- The memory and swap maps of kern/vm/addrspace.c on two page frames and two slots, of which the
-- first frame holds a page of process 7.
use os161_kernel.Prelude.{
  get_elem?, ℕ, zero, suc, ◌+◌, ◌≡◌, refl, Bool, true, false, some, [], ◌∷◌, arith, subst,
}
use os161_kernel.Prelude.Outcome.{done, panic}
use os161_kernel.Bitmap.{
  Bitmap, bitmap_create, bitmap_mark, bitmap_unmark, bitmap_isset, bitmap_alloc, alloc_words,
}
use os161_kernel.Bitmap
use os161_kernel.Bitmap.Marks
use os161_kernel.Bitmap.Create.{bitmap_create_lem}
use os161_kernel.Bitmap.Marks.{set_bit-IsValid}
use os161_kernel.Vm.State.{
  slot_index, Entry, Vm, coremap_insert_pid, coreswap_insert, coreswap_remove, mark_if_clear,
}
use os161_kernel.Vm.Swap.{swap_out, swap_in, alloc_page, get_free_page, tlb_invalidate, update}
use os161_kernel.Vm.Fault.{
  hit, foreign, search_pgtbl, search_swap, find_swap_table, page_fault_handler,
}
use os161_kernel.Vm.Coremap.{Framed, IsValid}
use os161_kernel.Vm.Alloc.{Allocated, alloc_page-Allocated}
use os161_kernel.Vm.Owner.{swap_out-foreign_page, page_fault_handler-everyone}

abbrev ok_disk : ℕ → Bool
ok_disk offset = false

abbrev entry : ℕ → ℕ → ℕ → Entry
entry vaddr paddr pid = record {
  vaddr = vaddr;
  paddr = paddr;
  pid = pid;
  counter = 0;
  ncounter = 0;
}

abbrev clear2 : Bitmap
clear2 = record { nbits = 2; v = 252 ∷ [] }

abbrev first2 : Bitmap
first2 = record { nbits = 2; v = 253 ∷ [] }

abbrev state : Vm
state = record {
  start = 0x10000;
  mem_map = first2;
  coremap = entry 0x400000 0x10600 7 ∷ entry 0 0x11000 0 ∷ [];
  swap_map = clear2;
  coreswap = entry 0 0 0 ∷ entry 0 4096 0 ∷ [];
  frames = λ a. a + 42;
  slots = λ a. 0;
  tlb = record { ehi = 0x400000; elo = 0x10600 } ∷ [];
  draws = [];
  curpid = 5;
  as_pid = 5;
  no_tlb = 0;
  no_page = 0;
  no_page_write = 0;
}

create2 : bitmap_create true true 2 ≡ done (some clear2)
unfolding bitmap_create
create2 = refl

clear2-IsValid : Marks.IsValid clear2
clear2-IsValid =
    let ((b, e, empty), _, _) = bitmap_create_lem 2 (omega arith) in
    let same : b ≡ clear2 = ground (arith, create2) in subst Marks.IsValid same empty.valid

memory-Framed : Framed state.start state.coremap
memory-Framed zero e h = ground arith
memory-Framed (suc zero) e h = ground arith
memory-Framed (suc (suc i)) e h = cc

swap-Framed : Framed 0 state.coreswap
swap-Framed zero e h = ground arith
swap-Framed (suc zero) e h = ground arith
swap-Framed (suc (suc i)) e h = cc

state-IsValid : IsValid state
state-IsValid = record {
  memory = record {
    aligned = refl;
    room = omega arith;
    framed = memory-Framed;
    bits = set_bit-IsValid clear2-IsValid 0 (omega arith);
    sized = refl;
  };
  swap = record {
    aligned = refl;
    room = omega arith;
    framed = swap-Framed;
    bits = clear2-IsValid;
    sized = refl;
  };
}

-- Process 5 writes the page of process 7 to slot 0.
abbrev swapped : Vm
swapped = record state {
  coreswap = entry 0x400000 0 5 ∷ entry 0 4096 0 ∷ [];
  swap_map = first2;
  slots = update (λ a. 0) 0 65578;
  tlb = record { ehi = 0x80000000; elo = 0 } ∷ [];
}

swap_out-state : swap_out ok_disk ok_disk 0 0x10000 state ≡ done swapped
unfolding swap_out coreswap_insert mark_if_clear bitmap_isset bitmap_mark tlb_invalidate
swap_out-state = refl

-- The slot is read into frame 1.
abbrev returned : Vm
returned = record swapped {
  coreswap = entry 0 0 0 ∷ entry 0 4096 0 ∷ [];
  swap_map = clear2;
  frames = update (λ a. a + 42) 0x11000 65578;
}

swap_in-swapped : swap_in ok_disk ok_disk 0x11000 0 swapped ≡ done returned
unfolding swap_in coreswap_remove bitmap_unmark
swap_in-swapped = refl

swap_out-foreign_page_example :
    ((slot : Entry) × (get_elem? state.coreswap (slot_index 0) ≡ some slot)
      × (search_swap 0x400000 5 5 swapped.coreswap ≡ hit slot.paddr))
    × (search_swap 0x400000 7 7 swapped.coreswap ≡ foreign)
    × (find_swap_table 0x400000 (record swapped { curpid = 7; as_pid = 7 }) ≡ panic)
swap_out-foreign_page_example =
    swap_out-foreign_page ok_disk ok_disk 0 0x10000 state swapped (entry 0x400000 0x10600 7)
      swap_out-state refl (omega arith) (omega arith, (omega arith, tt))

alloc_page-Allocated_example :
    (p : ℕ) × (s' : Vm) × (alloc_page ok_disk ok_disk 0x401000 5 state ≡ done (p, s'))
    × Allocated 0x401000 5 p state s'
unfolding Bitmap.Word.bit
alloc_page-Allocated_example =
    alloc_page-Allocated ok_disk ok_disk 0x401000 5 1 state state-IsValid (omega arith) refl

-- Process 5 has a page in slot 0, and frame 1 is free.
abbrev paged_out : Vm
paged_out = record swapped { coremap = entry 0x300000 0x10600 7 ∷ entry 0 0x11000 0 ∷ [] }

abbrev paged_in : Vm
paged_in = record paged_out {
  mem_map = record { nbits = 2; v = 255 ∷ [] };
  coremap = entry 0x300000 0x10600 7 ∷ entry 0x400000 0x11600 0 ∷ [];
  swap_map = clear2;
  coreswap = entry 0 0 0 ∷ entry 0 4096 0 ∷ [];
  frames = update (λ a. a + 42) 0x11000 65578;
  no_page_write = 1;
}

page_fault : page_fault_handler ok_disk ok_disk 0x400000 paged_out ≡ done (0x11280, paged_in)
unfolding page_fault_handler find_swap_table search_swap get_free_page bitmap_alloc alloc_words
    Bitmap.Word.find_offset swap_in coreswap_remove bitmap_unmark coremap_insert_pid mark_if_clear
    bitmap_isset
page_fault = refl

page_fault_handler-everyone_example : (a : ℕ) × (search_pgtbl 0x400000 9 paged_in.coremap ≡ hit a)
page_fault_handler-everyone_example =
    page_fault_handler-everyone ok_disk ok_disk 0x400000 paged_out paged_in 0x11280 page_fault
      (omega arith, (omega arith, tt)) 9
