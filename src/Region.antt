-- ===== src/Region.antt =====
-- kern/arch/mips/vm/vm.c and kern/arch/mips/vm/ram.c: the regions and the heap of an address space,
-- the fault of the TLB, and the physical memory handed out before the VM system runs.
-- The header with the heap's fields of struct addrspace is not in the repository; the record has the
-- fields that the code uses.
pub mod Bounds
pub mod Steal
pub mod Slot
pub mod Kernel
mod Tests
use os161_kernel.Prelude.{
  ℕ, zero, suc, ◌+◌, ◌-◌, ◌*◌, ◌/◌, ◌%◌, ◌^◌, Bool, true, false, Option, none, some, List, [], ◌∷◌,
  bit_and, bit_or, ltb, leb, ◌==◌, not, if◌then◌else◌, set,
}
use os161_kernel.Prelude.Outcome.{Outcome, done, panic, ◌>>=◌, ◌>>◌, kassert}
use os161_kernel.Prelude.Errno.{Errno, einval, efault, enomem, eunimp}
use os161_kernel.Vm.Flags.{page_frame, userspacetop, mips_kseg0}
use os161_kernel.Vm.State.{Vm, Tlb}
use os161_kernel.Vm.Swap.{alloc_page, invalid_tlb}
use os161_kernel.Vm.Fault.{tlb_fault_handler}

-- struct addrspace
pub record Addrspace : Type 0 where
  pub vbase1 : ℕ
  pub npages1 : ℕ
  pub vbase2 : ℕ
  pub npages2 : ℕ
  pub heaptop : ℕ
  pub heapbase : ℕ
  pub pid : ℕ

-- `allocated` is the answer of kmalloc.
unfoldable pub as_create : Bool → Vm → Option Addrspace
as_create allocated s =
    if allocated
    then some (record {
      vbase1 = 0;
      npages1 = 0;
      vbase2 = 0;
      npages2 = 0;
      heaptop = 0;
      heapbase = 0;
      pid = s.curpid;
    })
    else none

-- (sz + PAGE_SIZE - 1) & PAGE_FRAME, after the offset in the page is added, in pages
abbrev pub region_pages : ℕ → ℕ → ℕ
region_pages vaddr sz =
    bit_and (((sz + vaddr % 4096) % 2 ^ 32 + 4096 - 1) % 2 ^ 32) page_frame / 4096

pub as_define_region : Addrspace → ℕ → ℕ → Option Errno × Addrspace
as_define_region space vaddr sz =
    let npages = region_pages vaddr sz in
    let base = bit_and vaddr page_frame in
    let heap1 = (space.vbase2 + space.npages2 * 4096) % 2 ^ 32 in
    let heap2 = (base + npages * 4096) % 2 ^ 32 in
    if space.vbase1 == 0
    then (none, record space { vbase1 = base; npages1 = npages; heapbase = heap1; heaptop = heap1 })
    else if space.vbase2 == 0
    then (none, record space { vbase2 = base; npages2 = npages; heapbase = heap2; heaptop = heap2 })
    else (some eunimp, space)

-- firstpaddr and lastpaddr
pub record Ram : Type 0 where
  pub first : ℕ
  pub last : ℕ

unfoldable pub ram_bootstrap : ℕ → ℕ → Ram
ram_bootstrap ramsize firstfree = record {
  first = (firstfree + 2 ^ 32 - mips_kseg0) % 2 ^ 32;
  last = if ltb (508 * 1024 * 1024) ramsize then 508 * 1024 * 1024 else ramsize;
}

pub ram_stealmem : ℕ → Ram → ℕ × Ram
ram_stealmem npages r =
    let size = npages * 4096 % 2 ^ 32 in
    if ltb r.last ((r.first + size) % 2 ^ 32)
    then (0, r)
    else (r.first, record r { first = (r.first + size) % 2 ^ 32 })

unfoldable pub ram_getsize : Ram → (ℕ × ℕ) × Ram
ram_getsize r = ((r.first, r.last), record { first = 0; last = 0 })

-- The memory before and after the VM system runs; `running` is myvm_fl.
pub record Memory : Type 0 where
  pub vm : Vm
  pub ram : Ram
  pub running : Bool

-- as_activate, on the TLB entries from `i` on
unfoldable pub flush_tlb : ℕ → List Tlb → List Tlb
flush_tlb i [] = []
flush_tlb i (t ∷ ts) = invalid_tlb i ∷ flush_tlb (i + 1) ts

unfoldable pub as_activate : Vm → Vm
as_activate s = record s { tlb = flush_tlb 0 s.tlb }

-- STACKPAGES
abbrev pub stackpages : ℕ
stackpages = 12

-- USERSTACK
abbrev pub userstack : ℕ
userstack = userspacetop

abbrev pub as_define_stack : Addrspace → Option Errno × ℕ
as_define_stack space = (none, userstack)

-- paddr | TLBLO_DIRTY | TLBLO_VALID
abbrev pub tlb_entry : ℕ → ℕ → Tlb
tlb_entry vaddr paddr = record { ehi = vaddr; elo = bit_or (bit_or paddr 0x400) 0x200 }

abbrev pub tlb_valid : Tlb → Bool
tlb_valid t = not (bit_and t.elo 0x200 == 0)

-- The loop of vm_fault: the TLB with the entry in the first slot that is not valid, if there is one.
pub fill_slot : Tlb → List Tlb → Option (List Tlb)
fill_slot e [] = none
fill_slot e (t ∷ ts) =
    let rest = fill_slot e ts in
    if tlb_valid t then elim rest [ none ↦ none | some us ↦ some (t ∷ us) ] else some (e ∷ ts)

-- `slot` is the one that tlb_random takes.
pub write_tlb : ℕ → Tlb → List Tlb → List Tlb
write_tlb slot e ts = elim (fill_slot e ts) [ some us ↦ us | none ↦ set ts slot e ]

module _ (read_error write_error : ℕ → Bool) where
  -- A page for a virtual address, by getppages or by alloc_page.
  pub take_page : ℕ → ℕ → Memory → Outcome (ℕ × Memory)
  take_page vaddr pid m =
      if m.running
      then (alloc_page read_error write_error vaddr pid m.vm >>= λ r.
          done (r.0, record m { vm = r.1 }))
      else (let r = ram_stealmem 1 m.ram in done (r.0, record m { ram = r.1 }))

  -- A loop that takes `n` pages from `vaddr` on, and whether it got them all.
  pub take_pages : ℕ → ℕ → ℕ → Memory → Outcome (Bool × Memory)
  take_pages zero vaddr pid m = done (true, m)
  take_pages (suc n) vaddr pid m = do
    (paddr, m') ← take_page vaddr pid m
    if paddr == 0 then done (false, m') else take_pages n ((vaddr + 4096) % 2 ^ 32) pid m'

  unfoldable pub as_prepare_load : Addrspace → Memory → Outcome (Option Errno × Memory)
  as_prepare_load space m = take_pages space.npages1 space.vbase1 space.pid m >>= λ a.
      if a.0
      then (take_pages space.npages2 space.vbase2 space.pid a.1 >>= λ b.
          if b.0
          then (take_pages stackpages (userstack - stackpages * 4096) space.pid b.1 >>= λ c.
              done ((if c.0 then none else some enomem), c.1))
          else done (some enomem, b.1))
      else done (some enomem, a.1)

  -- `size` is the 32-bit pattern of an int. The answer is the error code, the value of *retval (the
  -- pattern of -1 on errors), the address space and the memory.
  pub sbrk : ℕ → Addrspace → Memory → Outcome (Option Errno × ℕ × Addrspace × Memory)
  sbrk size space m =
      let no_pages = size / 4096 + 1 in
      let top = (space.heaptop + no_pages * 4096) % 2 ^ 32 in
      if size == 0
      then done (none, space.heaptop, space, m)
      else if leb (2 ^ 31) size
      then done (some einval, 2 ^ 32 - 1, space, m)
      else if ltb (userstack + stackpages * 4096) top
      then done (some einval, 2 ^ 32 - 1, space, m)
      else (take_pages no_pages space.heaptop space.pid m >>= λ r.
          if r.0
          then done (none, space.heaptop, record space { heaptop = top }, r.1)
          else done (some enomem, 2 ^ 32 - 1, space, r.1))

  -- `secs` and `nanosecs` are what gettime stores; VM_FAULT_READ is 0, VM_FAULT_WRITE 1 and
  -- VM_FAULT_READONLY 2; the address space is none for NULL.
  pub vm_fault : ℕ → ℕ → ℕ → ℕ → ℕ → Option Addrspace → Vm → Outcome (Option Errno × Vm)
  vm_fault slot secs nanosecs faulttype faultaddress0 space s =
      let faultaddress = bit_and faultaddress0 page_frame in
      if faulttype == 2
      then panic
      else if ltb 2 faulttype
      then done (some einval, s)
      else elim space [
        | none ↦ done (some efault, s)
        | some a ↦
            kassert (not (a.vbase1 == 0))
            >> kassert (not (a.npages1 == 0))
            >> kassert (not (a.vbase2 == 0))
            >> kassert (not (a.npages2 == 0))
            >> kassert (bit_and a.vbase1 page_frame == a.vbase1)
            >> kassert (bit_and a.vbase2 page_frame == a.vbase2)
            >> (if leb faultaddress mips_kseg0
                then (tlb_fault_handler read_error write_error secs nanosecs faultaddress s >>= λ r.
                    kassert (not (r.0 == 0))
                    >> kassert (bit_and r.0 page_frame == r.0)
                    >> done (
                      none,
                      record r.1 { tlb = write_tlb slot (tlb_entry faultaddress r.0) r.1.tlb },
                    ))
                else done (none, s))
      ]
