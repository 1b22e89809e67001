-- ===== src/Vm/Owner.antt =====
-- Whose page it is (kern/vm/addrspace.c): the processes recorded by swap_out and
-- page_fault_handler.
use os161_kernel.Prelude.{
  ℕ, ◌≡◌, refl, ◌≢◌, inl, inr, Bool, some, bit_and, get_elem?, set, arith, Option-cases, ap, ◌∙◌,
  sym, get_elem?-lt, get_elem?-set_self,
}
use os161_kernel.Prelude.Outcome.{done, panic, Outcome-cases}
use os161_kernel.Vm.Flags.{page_frame, set_swapped, set_valid}
use os161_kernel.Vm.State.{Entry, Vm, map_index, slot_index, insert_flags, coremap_insert_pid}
use os161_kernel.Vm.Transfers.{swap_out-SwappedOut, swap_in-SwappedIn}
use os161_kernel.Vm.Frames.{get_free_page-coremap, coremap_insert_pid-Inserted, insert_flags-valid}
use os161_kernel.Vm.Swap.{get_free_page, swap_in, swap_out}
use os161_kernel.Vm.Fault.{
  hit, foreign, search_swap, find_swap_table, search_pgtbl, page_fault_handler,
}
use os161_kernel.Vm.Search.{Absent, search_swap-own, search_swap-foreign, search_pgtbl-set}

module _ (read_error write_error : ℕ → Bool) where
  -- When swap_out evicts a page of another process, whose address is in no other slot, it records
  -- the running process as the owner of the slot: the search for the page finds the slot in the
  -- running process, and in the owner it comes to the slot, takes it for a foreign one and stops
  -- the kernel.
  pub swap_out-foreign_page :
      (offset paddr : ℕ) (s s1 : Vm) (page : Entry)
      → swap_out read_error write_error offset paddr s ≡ done s1
      → get_elem? s.coremap (map_index s paddr) ≡ some page
      → page.pid ≢ s.curpid
      → Absent page.vaddr s.coreswap
      → ((slot : Entry) × (get_elem? s.coreswap (slot_index offset) ≡ some slot)
          × (search_swap page.vaddr s.curpid s.curpid s1.coreswap ≡ hit slot.paddr))
        × (search_swap page.vaddr page.pid page.pid s1.coreswap ≡ foreign)
        × (find_swap_table page.vaddr (record s1 { curpid = page.pid; as_pid = page.pid }) ≡ panic)
  unfolding find_swap_table
  swap_out-foreign_page offset paddr s s1 page h at ne a =
      let o = swap_out-SwappedOut read_error write_error offset paddr s h in
      let n = o.inserted in
      let same : o.page ≡ page = ground (arith, o.found) in
      let own : s.curpid ≢ page.pid = λ e. ne (sym e) in
      let written : Entry = record n.entry { vaddr = page.vaddr; counter = 0; pid = s.curpid } in
      let table : s1.coreswap ≡ set s.coreswap (slot_index offset) written =
        ground (arith, o.result, n.result, ap (λ (e : Entry). e.vaddr) same) in
      let inside = get_elem?-lt s.coreswap (slot_index offset) n.found in
      let other : search_swap page.vaddr page.pid page.pid s1.coreswap ≡ foreign = rw table (
        search_swap-foreign page.vaddr page.pid page.pid s.coreswap (slot_index offset) written a
          inside refl own own) in
      (
        (
          n.entry,
          n.found,
          rw table (
              search_swap-own page.vaddr s.curpid s.curpid s.coreswap (slot_index offset) written a
                inside refl refl),
        ),
        other,
        rw (find_swap_table, other) refl,
      )

  swap_in-frees :
      (paddr offset : ℕ) (s : Vm) {s' : Vm}
      → swap_in read_error write_error paddr offset s ≡ done s'
      → (s'.coremap ≡ s.coremap)
        × ((e : Entry) → get_elem? s'.coreswap (slot_index offset) ≡ some e → e.pid ≡ 0)
  swap_in-frees paddr offset s {s'} h =
      let i = swap_in-SwappedIn read_error write_error paddr offset s h in
      let r = i.removed in
      let freed = record r.entry { vaddr = 0; paddr = offset; counter = 0; pid = 0 } in
      let table : s'.coreswap ≡ set s.coreswap (slot_index offset) freed =
        ground (arith, i.result, r.result) in
      (
        ground (arith, i.result, r.result),
        λ e q. ground (
          arith,
          table,
          get_elem?-set_self s.coreswap (slot_index offset) freed
              (get_elem?-lt s.coreswap (slot_index offset) r.found),
        ),
      )

  find_swap_table-coremap :
      (vaddr : ℕ) (s : Vm) {p : ℕ} {s' : Vm}
      → find_swap_table vaddr s ≡ done (p, s')
      → s'.coremap ≡ s.coremap
  unfolding find_swap_table
  find_swap_table-coremap vaddr s h = ground arith

  -- When page_fault_handler returns, for an address that no entry of the coremap had, the entry of
  -- the page belongs to process 0: swap_in has cleared the slot before its process is read. So the
  -- search of every process finds the page, whosever it was.
  pub page_fault_handler-everyone :
      (vaddr : ℕ) (s s' : Vm) (p : ℕ)
      → page_fault_handler read_error write_error vaddr s ≡ done (p, s')
      → Absent vaddr s.coremap
      → (q : ℕ) → (a : ℕ) × (search_pgtbl vaddr q s'.coremap ≡ hit a)
  unfolding page_fault_handler
  page_fault_handler-everyone vaddr s s' p h a q = elim (Outcome-cases (find_swap_table vaddr s)) [
    | inr bad ↦ absurd (ground arith)
    | inl ((offset, s1), q1) ↦ elim (Outcome-cases (get_free_page read_error write_error s1)) [
      | inr bad ↦ absurd (ground arith)
      | inl ((p0, s2), q2) ↦ elim (Outcome-cases (swap_in read_error write_error p0 offset s2)) [
        | inr bad ↦ absurd (ground arith)
        | inl (s3, q3) ↦ elim (Option-cases (get_elem? s3.coreswap (slot_index offset))) [
          | inl e ↦ absurd (ground arith)
          | inr (e, he) ↦
              let f = swap_in-frees p0 offset s2 q3 in
              let same : s3.coremap ≡ s.coremap =
                f.0
                ∙ get_free_page-coremap read_error write_error s1 q2
                ∙ find_swap_table-coremap vaddr s q1 in
              written (set_swapped (set_valid p0)) e.pid s3 (f.1 e he) same (ground arith)
        ]
      ]
    ]
  ]
    where
      written :
          (paddr pid : ℕ) (s3 : Vm)
          → pid ≡ 0
          → s3.coremap ≡ s.coremap
          → coremap_insert_pid vaddr paddr pid s3 ≡ done s'
          → (x : ℕ) × (search_pgtbl vaddr q s'.coremap ≡ hit x)
      written paddr pid s3 zero_pid same done_insert =
          let n = coremap_insert_pid-Inserted vaddr paddr pid s3 done_insert in
          (
            insert_flags vaddr (bit_and paddr page_frame),
            rw (n.result, same)
                (search_pgtbl-set vaddr q s.coremap n.index _ a
                  (get_elem?-lt s.coremap n.index
                    (ap (λ t. get_elem? t n.index) (sym same) ∙ n.found))
                  (refl, inr zero_pid, insert_flags-valid vaddr paddr)),
          )
