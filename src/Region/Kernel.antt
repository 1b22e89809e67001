-- ===== src/Region/Kernel.antt =====
-- alloc_kpages and free_kpages (kern/arch/mips/vm/vm.c): the pages of the kernel, and the table of
-- the runs of pages that were handed out.
use os161_kernel.Prelude.{
  ℕ, zero, suc, ◌+◌, ◌-◌, ◌%◌, ◌^◌, ◌<◌, ◌≤◌, ◌≡◌, ◌≢◌, refl, sym, ap, ◌∙◌, Bool, some, List, ltb,
  ◌==◌, ==-true, ==-false, if◌then◌else◌, get_elem?, get_elem?-lt, get_elem?-set_self,
  get_elem?-set_ne, set, length, arith, some_of_lt, ℕ_discrete,
}
use os161_kernel.Prelude.Outcome.{Outcome, done, ◌>>=◌, access}
use os161_kernel.Vm.Flags.{mips_kseg0}
use os161_kernel.Vm.State.{Vm, paddr_to_kvaddr, coremap_remove}
use os161_kernel.Vm.Contiguous.{alloc_npages}
use os161_kernel.Region.{ram_stealmem, Memory}

-- struct alloc_status
pub record AllocStatus : Type 0 where
  pub vaddr : ℕ
  pub npages : ℕ

-- The array `alloc` of 64 entries, and al_index.
pub record KernelPages : Type 0 where
  pub memory : Memory
  pub alloc : List AllocStatus
  pub al_index : ℕ

pub enter_status : ℕ → ℕ → KernelPages → Outcome KernelPages
enter_status vaddr no_pages k = do
  _old ← access (get_elem? k.alloc k.al_index)
  done (record k {
    alloc = set k.alloc k.al_index (record { vaddr = vaddr; npages = no_pages });
    al_index = k.al_index + 1;
  })

-- The loop over the entries from `i` on; 0 when no entry has the address.
pub find_status : ℕ → ℕ → ℕ → List AllocStatus → Outcome ℕ
find_status vaddr zero i alloc = done 0
find_status vaddr (suc n) i alloc = do
  e ← access (get_elem? alloc i)
  if e.vaddr == vaddr then done i else find_status vaddr n (i + 1) alloc

abbrev pub check_in_alloc_status : ℕ → KernelPages → Outcome ℕ
check_in_alloc_status vaddr k = find_status vaddr k.al_index 0 k.alloc

-- The pages from `addr` on are taken out of the coremap.
unfoldable pub remove_pages : ℕ → ℕ → Vm → Outcome Vm
remove_pages zero addr s = done s
remove_pages (suc n) addr s = do
  s' ← coremap_remove ((addr + 2 ^ 32 - mips_kseg0) % 2 ^ 32) s
  remove_pages n ((addr + 4096) % 2 ^ 32) s'

-- for(int i=index; i < al_index; i++) alloc[index]=alloc[index+1], over the rounds left
unfoldable pub shift_status : ℕ → ℕ → List AllocStatus → Outcome (List AllocStatus)
shift_status zero index alloc = done alloc
shift_status (suc n) index alloc = do
  e ← access (get_elem? alloc (index + 1))
  shift_status n index (set alloc index e)

pub free_kpages : ℕ → KernelPages → Outcome KernelPages
free_kpages addr k = check_in_alloc_status addr k >>= λ index.
    if index == 0
    then done k
    else (access (get_elem? k.alloc index) >>= λ e. remove_pages e.npages addr k.memory.vm >>= λ s.
        shift_status (k.al_index - index) index
          (set k.alloc index (record { vaddr = 0; npages = 0 }))
        >>= λ alloc. done (record k { memory = record k.memory { vm = s }; alloc = alloc }))

module _ (read_error write_error : ℕ → Bool) where
  -- getppages, without its spinlock, or alloc_npages
  unfoldable pub take_run : ℕ → KernelPages → Outcome (ℕ × KernelPages)
  take_run npages k =
      if k.memory.running
      then (alloc_npages read_error write_error npages k.memory.vm.curpid k.memory.vm >>= λ r.
          done (r.0, record k { memory = record k.memory { vm = r.1 } }))
      else (let r = ram_stealmem npages k.memory.ram in
          done (r.0, record k { memory = record k.memory { ram = r.1 } }))

  -- The entry is made whether or not there were pages, and whichever branch found them.
  unfoldable pub alloc_kpages : ℕ → KernelPages → Outcome (ℕ × KernelPages)
  alloc_kpages npages k = do
    (pa, k1) ← take_run npages k
    k2 ← (if ltb 1 npages then enter_status (paddr_to_kvaddr pa) npages k1 else done k1)
    done ((if pa == 0 then 0 else paddr_to_kvaddr pa), k2)

-- No entry before entry `i` has the address.
abbrev pub NotBefore : ℕ → ℕ → List AllocStatus → Type 0
NotBefore vaddr i alloc =
    (j : ℕ) (e : AllocStatus) → j < i → get_elem? alloc j ≡ some e → e.vaddr ≢ vaddr

find_status-first :
    (vaddr n i at : ℕ) (alloc : List AllocStatus) (e : AllocStatus)
    → i ≤ at
    → at < i + n
    → get_elem? alloc at ≡ some e
    → e.vaddr ≡ vaddr
    → NotBefore vaddr at alloc
    → find_status vaddr n i alloc ≡ done at
unfolding find_status
find_status-first vaddr zero i at alloc e lo hi here q first = absurd (omega arith)
find_status-first vaddr (suc n) i at alloc e lo hi here q first = elim (ℕ_discrete i at) [
  | yes same ↦ rw (ap (get_elem? alloc) same ∙ here, ==-true q) (ap done same)
  | no ne ↦
      let (x, there) = some_of_lt alloc i (omega (arith, get_elem?-lt alloc at here)) in
      rw (there, ==-false (first i x (omega arith) there))
        (find_status-first vaddr n (i + 1) at alloc e (omega arith) (omega arith) here q first)
]

-- With room in the table, the entry that enter_status makes is the one that check_in_alloc_status
-- finds for its address, if no entry before it has the address.
pub check_in_alloc_status-enter_status :
    (vaddr no_pages : ℕ) (k : KernelPages)
    → k.al_index < length k.alloc
    → NotBefore vaddr k.al_index k.alloc
    → (k' : KernelPages) × (enter_status vaddr no_pages k ≡ done k')
      × (check_in_alloc_status vaddr k' ≡ done k.al_index)
      × (get_elem? k'.alloc k.al_index ≡ some (record { vaddr = vaddr; npages = no_pages }))
unfolding enter_status
check_in_alloc_status-enter_status vaddr no_pages k room first =
    let new : AllocStatus = record { vaddr = vaddr; npages = no_pages } in
    let (old, at) = some_of_lt k.alloc k.al_index room in
    let here = get_elem?-set_self k.alloc k.al_index new room in
    (
      record k { alloc = set k.alloc k.al_index new; al_index = k.al_index + 1 },
      rw at refl,
      find_status-first vaddr (k.al_index + 1) 0 k.al_index (set k.alloc k.al_index new) new
          (omega arith) (omega arith) here refl
          (λ j e p q. first j e p (sym (get_elem?-set_ne k.alloc new (omega arith)) ∙ q)),
      here,
    )

-- free_kpages of the address in the first entry frees nothing: the index 0 that is found is also the
-- answer for an address that is in no entry.
pub free_kpages-first :
    (vaddr : ℕ) (k : KernelPages) (e : AllocStatus)
    → 0 < k.al_index
    → get_elem? k.alloc 0 ≡ some e
    → e.vaddr ≡ vaddr
    → free_kpages vaddr k ≡ done k
unfolding free_kpages
free_kpages-first vaddr k e some_entry here q =
    rw
      (find_status-first vaddr k.al_index 0 0 k.alloc e (omega arith) (omega arith) here q
        (λ j x p. absurd (omega arith)))
      refl
