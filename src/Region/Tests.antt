-- ===== src/Region/Tests.antt =====
-- An address space with one region, and a fault on a page that is in memory.
use os161_kernel.Prelude.{
  ℕ, zero, suc, ◌+◌, ◌*◌, ◌≡◌, ◌≢◌, ◌⊎◌, refl, Bool, true, false, none, some, [], ◌∷◌, get_elem?,
  set, bit_and, arith,
}
use os161_kernel.Prelude.Outcome.{done}
use os161_kernel.Prelude.Errno.{eunimp}
use os161_kernel.Vm.Flags.{page_frame}
use os161_kernel.Vm.State.{Tlb, Vm}
use os161_kernel.Vm.Fault.{tlb_fault_handler, find_pgtbl, search_pgtbl}
use os161_kernel.Region.{
  Addrspace, Memory, as_define_region, ram_stealmem, sbrk, vm_fault, tlb_entry, tlb_valid,
  write_tlb, fill_slot, take_pages, take_page,
}
use os161_kernel.Region.Bounds.{Covers, as_define_region_lem}
use os161_kernel.Region.Kernel.{KernelPages, free_kpages, NotBefore, free_kpages-first}
use os161_kernel.Region.Slot.{Filled, vm_fault_lem}

abbrev ok_disk : ℕ → Bool
ok_disk offset = false

abbrev space : Addrspace
space = record {
  vbase1 = 0x400000;
  npages1 = 2;
  vbase2 = 0x10000000;
  npages2 = 1;
  heaptop = 0x10001000;
  heapbase = 0x10001000;
  pid = 5;
}

abbrev free_slot : Tlb
free_slot = record { ehi = 0x80000000; elo = 0 }

abbrev before : Vm
before = record {
  start = 0x10000;
  mem_map = record { nbits = 2; v = 253 ∷ [] };
  coremap = record { vaddr = 0x400000; paddr = 0x10600; pid = 5; counter = 0; ncounter = 0 } ∷ [];
  swap_map = record { nbits = 2; v = 252 ∷ [] };
  coreswap = [];
  frames = λ a. 0;
  slots = λ a. 0;
  tlb = free_slot ∷ [];
  draws = [];
  curpid = 5;
  as_pid = 5;
  no_tlb = 0;
  no_page = 0;
  no_page_write = 0;
}

abbrev after : Vm
after = record before {
  coremap = record { vaddr = 0x400000; paddr = 0x10600; pid = 5; counter = 100; ncounter = 7 } ∷ [];
  tlb = record { ehi = 0x400000; elo = 0x10600 } ∷ [];
  no_tlb = 1;
}

fault : vm_fault ok_disk ok_disk 0 100 7 0 0x400123 (some space) before ≡ done (none, after)
unfolding vm_fault tlb_fault_handler find_pgtbl search_pgtbl write_tlb fill_slot
fault = refl

vm_fault_lem_example :
    (paddr : ℕ) × (t : Vm) × (tlb_fault_handler ok_disk ok_disk 100 7
        (bit_and 0x400123 page_frame)
        before
      ≡ done (paddr, t))
    × (after ≡ record t { tlb = after.tlb })
    × (Filled (tlb_entry (bit_and 0x400123 page_frame) paddr) t.tlb after.tlb
        ⊎ (((i : ℕ) (e : Tlb) → get_elem? t.tlb i ≡ some e → tlb_valid e ≡ true)
            × (after.tlb ≡ set t.tlb 0 (tlb_entry (bit_and 0x400123 page_frame) paddr))))
vm_fault_lem_example =
    vm_fault_lem ok_disk ok_disk 0 100 7 0 0x400123 (some space) before after fault (omega arith)

abbrev one_region : Addrspace
one_region = record space { vbase2 = 0; npages2 = 0 }

as_define_region_lem_example :
    (one_region.vbase1 ≡ 0
      → ((as_define_region one_region 0x10000010 0x2000).0 ≡ none)
        × Covers 0x10000010 0x2000
            (as_define_region one_region 0x10000010 0x2000).1.vbase1
            (as_define_region one_region 0x10000010 0x2000).1.npages1)
    × (one_region.vbase1 ≢ 0
        → one_region.vbase2 ≡ 0
        → (b : Addrspace) × (as_define_region one_region 0x10000010 0x2000 ≡ (none, b))
          × Covers 0x10000010 0x2000 b.vbase2 b.npages2
          × (b.vbase1 ≡ one_region.vbase1)
          × (b.heapbase ≡ b.vbase2 + b.npages2 * 4096)
          × (b.heaptop ≡ b.heapbase))
    × (one_region.vbase1 ≢ 0
        → one_region.vbase2 ≢ 0
        → as_define_region one_region 0x10000010 0x2000 ≡ (some eunimp, one_region))
as_define_region_lem_example = as_define_region_lem one_region 0x10000010 0x2000 (omega arith)

abbrev memory : Memory
memory = record { vm = before; ram = record { first = 0x8000; last = 0x20000 }; running = false }

grown_heap :
    sbrk ok_disk ok_disk 5000 space memory
    ≡ done (
      none,
      0x10001000,
      record space { heaptop = 0x10003000 },
      record memory { ram = record { first = 0xa000; last = 0x20000 } },
    )
unfolding sbrk take_pages take_page ram_stealmem
grown_heap = refl

-- One run of two pages is in the table.
abbrev kernel : KernelPages
kernel = record {
  memory = memory;
  alloc = record { vaddr = 0x80020000; npages = 2 } ∷ record { vaddr = 0; npages = 0 } ∷ [];
  al_index = 1;
}

kernel-NotBefore : NotBefore 0x80030000 1 kernel.alloc
kernel-NotBefore zero e h at = ground arith
kernel-NotBefore (suc j) e h at = absurd (omega arith)

free_kpages-first_example : free_kpages 0x80020000 kernel ≡ done kernel
free_kpages-first_example =
    free_kpages-first 0x80020000 kernel (record { vaddr = 0x80020000; npages = 2 }) (omega arith)
      refl refl
