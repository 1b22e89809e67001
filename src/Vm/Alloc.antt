-- ===== src/Vm/Alloc.antt =====
-- alloc_page (kern/vm/addrspace.c) while a page frame is free.
use os161_kernel.Prelude.{
  ℕ, ◌+◌, ◌*◌, ◌/◌, ◌^◌, ◌<◌, ◌≡◌, refl, ap, ◌∙◌, Bool, true, false, some, ◌==◌, leb, if◌then◌else◌,
  get_elem?, set, arith, some_of_lt, Bool-cases, inl, inr,
}
use os161_kernel.Prelude.Outcome.{done}
use os161_kernel.Bitmap.{Bitmap, bitmap_alloc, allocated, bitmap_mark}
use os161_kernel.Bitmap.Marks
use os161_kernel.Bitmap.Marks.{test, set_bit, bitmap_mark_accepts, test-set-or, word_in}
use os161_kernel.Bitmap.Search.{Allocates, full, found, bitmap_alloc_lem}
use os161_kernel.Vm.Flags.{set_flag-frame, set_valid, set_kernel, mips_kseg0}
use os161_kernel.Vm.State.{Entry, Vm, coremap_insert_pid}
use os161_kernel.Vm.Coremap.{
  IsValid, inserted, after_insert, coremap_insert_pid-done, after_insert-IsValid,
}
use os161_kernel.Vm.Swap.{get_free_page, alloc_page}

-- The page `p` that was allocated is the first free frame `index`: it was free and is in use now,
-- its entry has the address and the process, and every other entry, frame bit and slot is as before.
pub record Allocated (vaddr pid p : ℕ) (s s' : Vm) : Type 0 where
  pub index : ℕ
  pub entry : Entry
  pub at : get_elem? s.coremap index ≡ some entry
  pub free : test s.mem_map.v index ≡ false
  pub first : (j : ℕ) → j < index → test s.mem_map.v j ≡ true
  pub page : p / 4096 * 4096 ≡ s.start + index * 4096
  pub coremap : s'.coremap ≡ set s.coremap index (inserted entry vaddr (s.start + index * 4096) pid)
  pub mem_map : (j : ℕ) → test s'.mem_map.v j ≡ (if index == j then true else test s.mem_map.v j)
  pub coreswap : s'.coreswap ≡ s.coreswap
  pub swap_map : s'.swap_map ≡ s.swap_map
  pub valid : IsValid s'

-- The address that alloc_page returns for an entry's address, in the same frame.
abbrev page_of : ℕ → ℕ → ℕ
page_of vaddr paddr = if leb mips_kseg0 vaddr then set_kernel (set_valid paddr) else set_valid paddr

page_of-frame :
    (vaddr paddr : ℕ)
    → paddr < 2 ^ 32
    → (page_of vaddr paddr < 2 ^ 32) × (page_of vaddr paddr / 4096 * 4096 ≡ paddr / 4096 * 4096)
page_of-frame vaddr paddr h =
    let v = set_flag-frame paddr 0x200 h (omega arith) in
    let k = set_flag-frame (set_valid paddr) 0x1 v.0 (omega arith) in
    elim (Bool-cases (leb mips_kseg0 vaddr)) [ inl e ↦ rw e (k.0, k.1 ∙ v.1) | inr e ↦ rw e v ]

-- The state after bitmap_alloc has set bit `i`.
taken_frame :
    (s : Vm) (i : ℕ) (c : Bitmap)
    → IsValid s
    → bitmap_mark s.mem_map i ≡ done c
    → Marks.IsValid c
    → IsValid (record s { mem_map = c })
taken_frame s i c v m cv =
    let same = ap (λ (b : Bitmap). b.nbits) (bitmap_mark_accepts v.memory.bits i m).2 in
    record {
      memory = record {
        aligned = v.memory.aligned;
        room = v.memory.room;
        framed = v.memory.framed;
        bits = cv;
        sized = same ∙ v.memory.sized;
      };
      swap = v.swap;
    }

module _ (read_error write_error : ℕ → Bool) where
  alloc_page_is :
      (vaddr pid i : ℕ) (c : Bitmap) (e0 : Entry) (s : Vm) {s2 : Vm}
      → bitmap_alloc s.mem_map ≡ done (allocated i c)
      → get_elem? s.coremap i ≡ some e0
      → coremap_insert_pid vaddr (page_of vaddr e0.paddr) pid (record s { mem_map = c }) ≡ done s2
      → alloc_page read_error write_error vaddr pid s ≡ done (page_of vaddr e0.paddr, s2)
  unfolding alloc_page get_free_page
  alloc_page_is vaddr pid i c e0 s e at w = rw (e, at, w) refl

  -- On a well-formed memory with a free frame alloc_page returns: the page is the first free frame,
  -- its entry has the address and the process and its bit is set, everything else in the two tables
  -- is as before, and the memory is well formed again.
  pub alloc_page-Allocated :
      (vaddr pid j : ℕ) (s : Vm)
      → IsValid s
      → j < s.mem_map.nbits
      → test s.mem_map.v j ≡ false
      → (p : ℕ) × (s' : Vm) × (alloc_page read_error write_error vaddr pid s ≡ done (p, s'))
        × Allocated vaddr pid p s s'
  alloc_page-Allocated vaddr pid j s v h clear = go (bitmap_alloc_lem v.memory.bits)
    where
      Goal : Type 0
      Goal =
          (p : ℕ) × (s' : Vm) × (alloc_page read_error write_error vaddr pid s ≡ done (p, s'))
          × Allocated vaddr pid p s s'

      go : Allocates s.mem_map → Goal
      go (full e all) = absurd (ground (arith, all j h))
      go (found i c e hi free first marks cv) =
          let (e0, at) = some_of_lt s.coremap i (omega (arith, hi, v.memory.sized)) in
          let points = v.memory.framed i e0 at in
          let small : e0.paddr < 2 ^ 32 =
            omega (arith, points, v.memory.room, v.memory.sized, hi) in
          let frame = page_of-frame vaddr e0.paddr small in
          let v1 = taken_frame s i c v marks cv in
          let c_is = (bitmap_mark_accepts v.memory.bits i marks).2 in
          let bits : ((j : ℕ) → test c.v j ≡ (if i == j then true else test s.mem_map.v j)) = λ j.
            ap (λ (b : Bitmap). test b.v j) c_is
            ∙ test-set-or s.mem_map.v i (word_in v.memory.bits i hi) (v.memory.bits.words (i / 8))
                j in
          let taken : test c.v i ≡ true = ground (arith, bits i) in
          let written =
            coremap_insert_pid-done v1 i e0 at (page_of vaddr e0.paddr) frame.0 (frame.1 ∙ points)
              vaddr pid in
          (
            page_of vaddr e0.paddr,
            after_insert v1 i e0 at vaddr pid,
            alloc_page_is vaddr pid i c e0 s e at written,
            record {
              index = i;
              entry = e0;
              at = at;
              free = free;
              first = first;
              page = frame.1 ∙ points;
              coremap = refl;
              mem_map = λ j. rw taken (bits j);
              coreswap = refl;
              swap_map = refl;
              valid = after_insert-IsValid v1 i e0 at vaddr pid;
            },
          )
