-- ===== src/Vm/Fault.antt =====
-- The page table searches and the fault handlers (kern/vm/addrspace.c): find_pgtbl,
-- find_pgtbl_pid, find_swap_table, page_fault_handler, tlb_fault_handler.
use os161_kernel.Prelude.{
  ℕ, ◌+◌, ◌%◌, ◌^◌, Bool, List, [], ◌∷◌, bit_and, ◌==◌, ◌&&◌, ◌||◌, if◌then◌else◌, get_elem?, set,
}
use os161_kernel.Prelude.Outcome.{Outcome, done, panic, ◌>>=◌, ◌>>◌, kassert, access}
use os161_kernel.Vm.Flags.{page_frame, is_valid, set_valid, set_swapped}
use os161_kernel.Vm.State.{Entry, Vm, map_index, slot_index, coremap_insert_pid}
use os161_kernel.Vm.Swap.{get_free_page, swap_in}

-- What a search over the entries comes to: one fits, the loop ends, or the kernel stops at an entry
-- that has the address of another process.
pub data Search : Type 0 where
  hit : ℕ → Search
  miss : Search
  foreign : Search

-- The loop of find_pgtbl and of find_pgtbl_pid.
unfoldable pub search_pgtbl : ℕ → ℕ → List Entry → Search
search_pgtbl vaddr pid [] = miss
search_pgtbl vaddr pid (e ∷ es) =
    let rest = search_pgtbl vaddr pid es in
    if e.vaddr == vaddr && (e.pid == pid || e.pid == 0) && is_valid e.paddr
    then hit e.paddr
    else if e.vaddr == vaddr
    then foreign
    else rest

-- The loop of find_swap_table.
unfoldable pub search_swap : ℕ → ℕ → ℕ → List Entry → Search
search_swap vaddr pid as_pid [] = miss
search_swap vaddr pid as_pid (e ∷ es) =
    let rest = search_swap vaddr pid as_pid es in
    if e.vaddr == vaddr && (e.pid == pid || e.pid == as_pid)
    then hit e.paddr
    else if e.vaddr == vaddr
    then foreign
    else rest

unfoldable pub find_swap_table : ℕ → Vm → Outcome (ℕ × Vm)
find_swap_table vaddr s = elim (search_swap vaddr s.curpid s.as_pid s.coreswap) [
  | hit paddr ↦ done (paddr, record s { no_page_write = s.no_page_write + 1 })
  | foreign ↦ panic
  | miss ↦ panic
]

module _ (read_error write_error : ℕ → Bool) where
  -- coreswap[...].pid is read after swap_in, where the source reads it.
  unfoldable pub page_fault_handler : ℕ → Vm → Outcome (ℕ × Vm)
  page_fault_handler vaddr s = do
    (offset, s1) ← find_swap_table vaddr s
    (paddr0, s2) ← get_free_page read_error write_error s1
    s3 ← swap_in read_error write_error paddr0 offset s2
    let paddr = set_swapped (set_valid paddr0)
    e ← access (get_elem? s3.coreswap (slot_index offset))
    s4 ← coremap_insert_pid vaddr paddr e.pid s3
    done (paddr, s4)

  unfoldable pub find_pgtbl_pid : ℕ → ℕ → Vm → Outcome (ℕ × Vm)
  find_pgtbl_pid vaddr pid s = elim (search_pgtbl vaddr pid s.coremap) [
    | hit paddr ↦ done (paddr, record s { no_page = s.no_page + 1 })
    | foreign ↦ panic
    | miss ↦ page_fault_handler vaddr (record s { no_page = s.no_page + 1 })
  ]

  unfoldable pub find_pgtbl : ℕ → Vm → Outcome (ℕ × Vm)
  find_pgtbl vaddr s = elim (search_pgtbl vaddr s.curpid s.coremap) [
    | hit paddr ↦ done (paddr, record s { no_tlb = s.no_tlb + 1 })
    | foreign ↦ panic
    | miss ↦ page_fault_handler vaddr (record s { no_page = s.no_page + 1 })
  ]

  -- `secs` and `nanosecs` are what gettime stores.
  unfoldable pub tlb_fault_handler : ℕ → ℕ → ℕ → Vm → Outcome (ℕ × Vm)
  tlb_fault_handler secs nanosecs vaddr s = do
    (paddr, s1) ← find_pgtbl (bit_and vaddr page_frame) s
    kassert (is_valid paddr)
    let i = map_index s1 (bit_and paddr page_frame)
    e ← access (get_elem? s1.coremap i)
    let e' = record e { counter = secs % 2 ^ 32; ncounter = nanosecs }
    done (bit_and paddr page_frame, record s1 { coremap = set s1.coremap i e' })
