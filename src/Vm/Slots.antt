-- ===== src/Vm/Slots.antt =====
-- coreswap_insert and coreswap_remove (kern/vm/addrspace.c): what a call that returned did.
use os161_kernel.Prelude.{ℕ, ◌≡◌, some, get_elem?, set, arith, Option-cases, inl, inr}
use os161_kernel.Prelude.Outcome.{done, Outcome-cases}
use os161_kernel.Bitmap.{Bitmap, bitmap_unmark}
use os161_kernel.Vm.State.{Entry, Vm, slot_index, mark_if_clear, coreswap_insert, coreswap_remove}

-- A call of coreswap_insert that returned wrote the entry of the slot: the address, the process that
-- is running, the counter reset, and the rest of the entry kept; and it marked the slot.
pub record Inserted (vaddr offset : ℕ) (s s' : Vm) : Type 0 where
  pub entry : Entry
  pub map : Bitmap
  pub found : get_elem? s.coreswap (slot_index offset) ≡ some entry
  pub marks : mark_if_clear s.swap_map (slot_index offset) ≡ done map
  pub result : s' ≡ record s {
    coreswap =
        set s.coreswap
          (slot_index offset)
          (record entry { vaddr = vaddr; counter = 0; pid = s.curpid });
    swap_map = map;
  }

pub coreswap_insert-Inserted :
    (vaddr offset pid : ℕ) (s : Vm) {s' : Vm}
    → coreswap_insert vaddr offset pid s ≡ done s'
    → Inserted vaddr offset s s'
unfolding coreswap_insert
coreswap_insert-Inserted vaddr offset pid s h =
    elim (Option-cases (get_elem? s.coreswap (slot_index offset))) [
      | inl e ↦ absurd (ground arith)
      | inr (e, he) ↦ elim (Outcome-cases (mark_if_clear s.swap_map (slot_index offset))) [
        | inl (b, hb) ↦ record { entry = e; map = b; found = he; marks = hb; result = ground arith }
        | inr bad ↦ absurd (ground arith)
      ]
    ]

pub record Removed (offset : ℕ) (s s' : Vm) : Type 0 where
  pub entry : Entry
  pub map : Bitmap
  pub found : get_elem? s.coreswap (slot_index offset) ≡ some entry
  pub clears : bitmap_unmark s.swap_map (slot_index offset) ≡ done map
  pub result : s' ≡ record s {
    coreswap =
        set s.coreswap
          (slot_index offset)
          (record entry { vaddr = 0; paddr = offset; counter = 0; pid = 0 });
    swap_map = map;
  }

pub coreswap_remove-Removed :
    (offset : ℕ) (s : Vm) {s' : Vm} → coreswap_remove offset s ≡ done s' → Removed offset s s'
unfolding coreswap_remove
coreswap_remove-Removed offset s h =
    elim (Option-cases (get_elem? s.coreswap (slot_index offset))) [
      | inl e ↦ absurd (ground arith)
      | inr (e, he) ↦ elim (Outcome-cases (bitmap_unmark s.swap_map (slot_index offset))) [
        | inl (b, hb) ↦ record {
          entry = e;
          map = b;
          found = he;
          clears = hb;
          result = ground arith;
        }
        | inr bad ↦ absurd (ground arith)
      ]
    ]
