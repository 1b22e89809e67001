-- ===== src/Region/Slot.antt =====
-- The TLB after vm_fault (kern/arch/mips/vm/vm.c).
use os161_kernel.Prelude.{
  ℕ, zero, suc, ◌≤◌, bit_and, sym, ap, ◌∙◌, ◌≡◌, refl, Bool, true, false, Option, none, some, List,
  [], ◌∷◌, get_elem?, set, arith, ◌⊎◌, inl, inr, Option-cases, Bool-cases,
}
use os161_kernel.Vm.State.{Tlb, Vm}
use os161_kernel.Vm.Flags.{page_frame, mips_kseg0}
use os161_kernel.Vm.Fault.{tlb_fault_handler}
use os161_kernel.Prelude.Outcome.{done, Outcome-cases}
use os161_kernel.Region.{Addrspace, vm_fault, tlb_entry}
use os161_kernel.Region.{fill_slot, write_tlb, tlb_valid}

-- Slot `i` was not valid, and it alone is replaced by `e`.
pub record Filled (e : Tlb) (ts us : List Tlb) : Type 0 where
  pub index : ℕ
  pub old : Tlb
  pub at : get_elem? ts index ≡ some old
  pub free : tlb_valid old ≡ false
  pub written : us ≡ set ts index e

fill_slot-some :
    (e : Tlb) (ts : List Tlb) {us : List Tlb} → fill_slot e ts ≡ some us → Filled e ts us
unfolding fill_slot
fill_slot-some e [] h = cc
fill_slot-some e (t ∷ ts) h = elim (Bool-cases (tlb_valid t)) [
  | inr free ↦ record { index = 0; old = t; at = refl; free = free; written = ground arith }
  | inl taken ↦ elim (Option-cases (fill_slot e ts)) [
    | inl q ↦ absurd (ground arith)
    | inr (vs, q) ↦
        let f = fill_slot-some e ts q in
        record {
          index = suc f.index;
          old = f.old;
          at = f.at;
          free = f.free;
          written = ground (arith, f.written);
        }
  ]
]

fill_slot-none :
    (e : Tlb) (ts : List Tlb)
    → fill_slot e ts ≡ none
    → (i : ℕ) (t : Tlb) → get_elem? ts i ≡ some t
    → tlb_valid t ≡ true
unfolding fill_slot
fill_slot-none e [] h i t at = cc
fill_slot-none e (x ∷ ts) h zero t at = elim (Bool-cases (tlb_valid x)) [
  | inl v ↦ ground arith
  | inr v ↦ absurd (ground arith)
]
fill_slot-none e (x ∷ ts) h (suc i) t at = elim (Bool-cases (tlb_valid x)) [
  | inl v ↦ fill_slot-none e ts (ground arith) i t at
  | inr v ↦ absurd (ground arith)
]

-- The write of vm_fault either replaces an entry that was not valid, and then keeps every other one;
-- or all entries were valid, and the one that tlb_random takes is replaced.
pub write_tlb_lem :
    (slot : ℕ) (e : Tlb) (ts : List Tlb)
    → Filled e ts (write_tlb slot e ts)
      ⊎ (((i : ℕ) (t : Tlb) → get_elem? ts i ≡ some t → tlb_valid t ≡ true)
          × (write_tlb slot e ts ≡ set ts slot e))
unfolding write_tlb
write_tlb_lem slot e ts = elim (Option-cases (fill_slot e ts)) [
  | inl q ↦ inr (fill_slot-none e ts q, rw (write_tlb, q) refl)
  | inr (us, q) ↦ inl (rw (write_tlb, q) (fill_slot-some e ts q))
]

module _ (read_error write_error : ℕ → Bool) where
  -- When vm_fault returns 0 for an address of user space, tlb_fault_handler found a page frame for
  -- it, and the TLB is as that left it but for one entry, which maps the page of the address to the
  -- frame, valid and writable. That entry was not valid; or all entries were, and it is the one that
  -- tlb_random takes.
  pub vm_fault_lem :
      (slot secs nanosecs faulttype addr : ℕ) (space : Option Addrspace) (s s' : Vm)
      → vm_fault read_error write_error slot secs nanosecs faulttype addr space s ≡ done (none, s')
      → bit_and addr page_frame ≤ mips_kseg0
      → (paddr : ℕ) × (t : Vm) × (tlb_fault_handler read_error write_error secs nanosecs
            (bit_and addr page_frame)
            s
          ≡ done (paddr, t))
        × (s' ≡ record t { tlb = s'.tlb })
        × (Filled (tlb_entry (bit_and addr page_frame) paddr) t.tlb s'.tlb
            ⊎ (((i : ℕ) (e : Tlb) → get_elem? t.tlb i ≡ some e → tlb_valid e ≡ true)
                × (s'.tlb ≡ set t.tlb slot (tlb_entry (bit_and addr page_frame) paddr))))
  unfolding vm_fault
  vm_fault_lem slot secs nanosecs faulttype addr none s s' h user = absurd (ground arith)
  vm_fault_lem slot secs nanosecs faulttype addr (some a) s s' h user =
      elim (Outcome-cases
        (tlb_fault_handler read_error write_error secs nanosecs (bit_and addr page_frame) s)) [
          | inr bad ↦ absurd (ground arith)
          | inl ((paddr, t), q) ↦
              let e = tlb_entry (bit_and addr page_frame) paddr in
              let r : s' ≡ record t { tlb = write_tlb slot e t.tlb } = ground arith in
              let same : s'.tlb ≡ write_tlb slot e t.tlb = ap (λ (u : Vm). u.tlb) r in
              (
                paddr,
                t,
                q,
                r ∙ ap (λ ts. record t { tlb = ts }) (sym same),
                rw same (write_tlb_lem slot e t.tlb),
              )
        ]
