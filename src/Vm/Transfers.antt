-- ===== src/Vm/Transfers.antt =====
-- swap_out and swap_in (kern/vm/addrspace.c): what a call that returned did.
use os161_kernel.Prelude.{ℕ, ◌≡◌, inl, inr, Bool, some, bit_and, get_elem?, arith, Option-cases}
use os161_kernel.Prelude.Outcome.{done, Outcome-cases}
use os161_kernel.Vm.Flags.{page_frame}
use os161_kernel.Vm.State.{Entry, Vm, map_index, coreswap_insert, coreswap_remove}
use os161_kernel.Vm.Slots.{Inserted, coreswap_insert-Inserted, Removed, coreswap_remove-Removed}
use os161_kernel.Vm.Swap.{swap_in, swap_out, update, tlb_invalidate}

module _ (read_error write_error : ℕ → Bool) where
  -- What a swap_out that returned did.
  pub record SwappedOut (offset paddr : ℕ) (s s' : Vm) : Type 0 where
    pub page : Entry
    pub middle : Vm
    pub found : get_elem? s.coremap (map_index s paddr) ≡ some page
    pub inserted : Inserted page.vaddr offset s middle
    pub result : s' ≡ record middle {
      slots = update middle.slots offset (middle.frames (bit_and paddr page_frame));
      tlb = tlb_invalidate paddr 0 middle.tlb;
    }

  pub swap_out-SwappedOut :
      (offset paddr : ℕ) (s : Vm) {s' : Vm}
      → swap_out read_error write_error offset paddr s ≡ done s'
      → SwappedOut offset paddr s s'
  unfolding swap_out
  swap_out-SwappedOut offset paddr s h =
      elim (Option-cases (get_elem? s.coremap (map_index s paddr))) [
        | inl e ↦ absurd (ground arith)
        | inr (e, he) ↦ elim (Outcome-cases (coreswap_insert e.vaddr offset e.pid s)) [
          | inl (m, hm) ↦ record {
            page = e;
            middle = m;
            found = he;
            inserted = coreswap_insert-Inserted e.vaddr offset e.pid s hm;
            result = ground arith;
          }
          | inr bad ↦ absurd (ground arith)
        ]
      ]

  pub record SwappedIn (paddr offset : ℕ) (s s' : Vm) : Type 0 where
    pub middle : Vm
    pub removed : Removed offset s middle
    pub result : s' ≡ record middle {
      frames = update middle.frames (bit_and paddr page_frame) (middle.slots offset);
    }

  pub swap_in-SwappedIn :
      (paddr offset : ℕ) (s : Vm) {s' : Vm}
      → swap_in read_error write_error paddr offset s ≡ done s'
      → SwappedIn paddr offset s s'
  unfolding swap_in
  swap_in-SwappedIn paddr offset s h = elim (Outcome-cases (coreswap_remove offset s)) [
    | inl (m, hm) ↦ record {
      middle = m;
      removed = coreswap_remove-Removed offset s hm;
      result = ground arith;
    }
    | inr bad ↦ absurd (ground arith)
  ]
