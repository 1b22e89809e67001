-- ===== src/Vm/Swap.antt =====
-- The search for a free page frame or swap slot and the transfers of a page (kern/vm/addrspace.c):
-- find_lru_page, get_free_page, get_free_offset, swap_in, swap_out, alloc_page; tlb_invalidate
-- (kern/arch/mips/vm/vm.c).
-- `read_error` and `write_error` say at which offsets the disk fails.
use os161_kernel.Prelude.{
  ℕ, ◌+◌, ◌*◌, ◌%◌, ◌^◌, Bool, List, [], ◌∷◌, bit_and, ltb, leb, ◌==◌, not, if◌then◌else◌,
  get_elem?, length,
}
use os161_kernel.Prelude.Outcome.{Outcome, done, spin, exited, ◌>>=◌, ◌>>◌, kassert, access}
use os161_kernel.Bitmap.{bitmap_alloc, allocated, enospc}
use os161_kernel.Vm.Flags.{
  page_frame, userspacetop, mips_kseg0, is_valid, is_kernel, set_valid, set_kernel,
}
use os161_kernel.Vm.State.{
  Entry, Vm, Tlb, map_index, coremap_insert_pid, coreswap_insert, coreswap_remove,
}

abbrev pub update : (ℕ → ℕ) → ℕ → ℕ → ℕ → ℕ
update f i v j = if i == j then v else f j

-- The loop `repeat` of find_lru_page, over the values of random() to come: the index of an entry
-- that is not the kernel's, and the values left.
unfoldable pub pick_page : List ℕ → List Entry → Outcome (ℕ × Entry × List ℕ)
pick_page [] es = spin
pick_page (r ∷ draws) es = do
  let rest = pick_page draws es
  let i = r % length es
  e ← access (get_elem? es i)
  if is_kernel e.paddr then rest else done (i, e, draws)

-- The branch that is compiled: USE_LRU is not defined, and counts as 0.
unfoldable pub find_lru_page : Vm → Outcome (ℕ × Vm)
find_lru_page s = do
  kassert (ltb 0 (length s.coremap))
  (i, e, draws) ← pick_page s.draws s.coremap
  kassert (not (ltb userspacetop e.vaddr))
  done (e.paddr, record s { draws = draws })

-- TLBHI_INVALID(i) and TLBLO_INVALID()
abbrev pub invalid_tlb : ℕ → Tlb
invalid_tlb i = record { ehi = (0x80000 + i) * 2 ^ 12; elo = 0 }

-- The loop of tlb_invalidate from TLB entry `i` on.
unfoldable pub tlb_invalidate : ℕ → ℕ → List Tlb → List Tlb
tlb_invalidate paddr i [] = []
tlb_invalidate paddr i (t ∷ ts) =
    (if bit_and t.elo 0xfffff000 == bit_and paddr 0xfffff000 then invalid_tlb i else t)
    ∷ tlb_invalidate paddr (i + 1) ts

unfoldable pub get_free_offset : Vm → Outcome (ℕ × Vm)
get_free_offset s = do
  r ← bitmap_alloc s.swap_map
  elim r [ enospc ↦ exited | allocated i b ↦ done (i * 4096, record s { swap_map = b }) ]

module _ (read_error write_error : ℕ → Bool) where
  unfoldable pub swap_in : ℕ → ℕ → Vm → Outcome Vm
  swap_in paddr offset s = do
    kassert (leb s.start paddr)
    s' ← coreswap_remove offset s
    kassert (not (read_error offset))
    done (record s' { frames = update s'.frames (bit_and paddr page_frame) (s'.slots offset) })

  unfoldable pub swap_out : ℕ → ℕ → Vm → Outcome Vm
  swap_out offset paddr s = do
    kassert (leb s.start paddr)
    e ← access (get_elem? s.coremap (map_index s paddr))
    s' ← coreswap_insert e.vaddr offset e.pid s
    kassert (not (write_error offset))
    done (record s' {
      slots = update s'.slots offset (s'.frames (bit_and paddr page_frame));
      tlb = tlb_invalidate paddr 0 s'.tlb;
    })

  -- The branch of get_free_page for a full memory map.
  unfoldable pub evict_page : Vm → Outcome (ℕ × Vm)
  evict_page s = do
    (paddr, s1) ← find_lru_page s
    kassert (is_valid paddr)
    (offset, s2) ← get_free_offset s1
    s3 ← swap_out offset paddr s2
    done (paddr, record s3 { no_page_write = s3.no_page_write + 1 })

  unfoldable pub get_free_page : Vm → Outcome (ℕ × Vm)
  get_free_page s = do
    r ← bitmap_alloc s.mem_map
    elim r [
      | enospc ↦ evict_page s
      | allocated i b ↦
          (access (get_elem? s.coremap i) >>= λ e. done (e.paddr, record s { mem_map = b }))
    ]

  unfoldable pub alloc_page : ℕ → ℕ → Vm → Outcome (ℕ × Vm)
  alloc_page vir_addr pid s = do
    (paddr0, s1) ← get_free_page s
    let paddr1 = set_valid paddr0
    let paddr = if leb mips_kseg0 vir_addr then set_kernel paddr1 else paddr1
    s2 ← coremap_insert_pid vir_addr paddr pid s1
    done (paddr, s2)
