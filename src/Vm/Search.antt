-- ===== src/Vm/Search.antt =====
-- The searches of find_pgtbl, find_pgtbl_pid and find_swap_table (kern/vm/addrspace.c).
use os161_kernel.Prelude.{
  ℕ, zero, suc, ◌<◌, ◌≡◌, refl, ◌≢◌, ◌⊎◌, ◌↔◌, true, some, List, [], ◌∷◌, get_elem?, set, length,
  arith, ℕ_discrete,
}
use os161_kernel.Vm.Flags.{is_valid}
use os161_kernel.Vm.State.{Entry}
use os161_kernel.Vm.Fault.{hit, miss, foreign, search_pgtbl, search_swap}

-- No entry has the address.
abbrev pub Absent : ℕ → List Entry → Type 0
Absent vaddr [] = Unit
Absent vaddr (e ∷ es) = (e.vaddr ≢ vaddr) × Absent vaddr es

-- An entry by which the search for process `pid` may end: it has the address, is the process's or
-- nobody's, and is valid.
abbrev pub IsFor : ℕ → ℕ → Entry → Type 0
IsFor vaddr pid e = (e.vaddr ≡ vaddr) × ((e.pid ≡ pid) ⊎ (e.pid ≡ 0)) × (is_valid e.paddr ≡ true)

pub search_pgtbl-miss :
    (vaddr pid : ℕ) (es : List Entry) → (search_pgtbl vaddr pid es ≡ miss) ↔ Absent vaddr es
unfolding search_pgtbl
search_pgtbl-miss vaddr pid [] = (λ h. tt, λ h. refl)
search_pgtbl-miss vaddr pid (e ∷ es) =
    let ih = search_pgtbl-miss vaddr pid es in
    (
      λ h. ground (arith, λ (p : search_pgtbl vaddr pid es ≡ miss). ih.0 p),
      λ h. ground (arith, ih.1 h.1),
    )

-- The search for a page of a process answers only with an entry of the table that has the address,
-- is the process's own or nobody's, and is valid.
pub search_pgtbl-hit :
    (vaddr pid : ℕ) (es : List Entry) {p : ℕ}
    → search_pgtbl vaddr pid es ≡ hit p
    → (i : ℕ) × (e : Entry) × (get_elem? es i ≡ some e) × IsFor vaddr pid e × (e.paddr ≡ p)
unfolding search_pgtbl
search_pgtbl-hit vaddr pid [] h = cc
search_pgtbl-hit vaddr pid (e ∷ es) h = elim (ℕ_discrete e.vaddr vaddr) [
  | yes q ↦ (0, e, refl, ground arith, ground arith)
  | no ne ↦
      let (i, e', at, f, x) = search_pgtbl-hit vaddr pid es (ground arith) in (suc i, e', at, f, x)
]

-- Where no entry had the address, the search finds an entry that is written with it.
pub search_pgtbl-set :
    (vaddr pid : ℕ) (es : List Entry) (i : ℕ) (e : Entry)
    → Absent vaddr es
    → i < length es
    → IsFor vaddr pid e
    → search_pgtbl vaddr pid (set es i e) ≡ hit e.paddr
unfolding search_pgtbl
search_pgtbl-set vaddr pid [] i e a h f = absurd (omega arith)
search_pgtbl-set vaddr pid (x ∷ es) zero e a h f = ground arith
search_pgtbl-set vaddr pid (x ∷ es) (suc i) e a h f =
    ground (arith, search_pgtbl-set vaddr pid es i e a.1 (omega arith) f)

-- Where no slot had the address, the search of the process that a slot is written for ends there.
pub search_swap-own :
    (vaddr pid as_pid : ℕ) (es : List Entry) (i : ℕ) (e : Entry)
    → Absent vaddr es
    → i < length es
    → e.vaddr ≡ vaddr
    → e.pid ≡ pid
    → search_swap vaddr pid as_pid (set es i e) ≡ hit e.paddr
unfolding search_swap
search_swap-own vaddr pid as_pid [] i e a h v n = absurd (omega arith)
search_swap-own vaddr pid as_pid (x ∷ es) zero e a h v n = ground arith
search_swap-own vaddr pid as_pid (x ∷ es) (suc i) e a h v n =
    ground (arith, search_swap-own vaddr pid as_pid es i e a.1 (omega arith) v n)

-- Where no slot had the address, the search of another process stops the kernel at a slot that is
-- written with it.
pub search_swap-foreign :
    (vaddr pid as_pid : ℕ) (es : List Entry) (i : ℕ) (e : Entry)
    → Absent vaddr es
    → i < length es
    → e.vaddr ≡ vaddr
    → e.pid ≢ pid
    → e.pid ≢ as_pid
    → search_swap vaddr pid as_pid (set es i e) ≡ foreign
unfolding search_swap
search_swap-foreign vaddr pid as_pid [] i e a h v n m = absurd (omega arith)
search_swap-foreign vaddr pid as_pid (x ∷ es) zero e a h v n m = ground arith
search_swap-foreign vaddr pid as_pid (x ∷ es) (suc i) e a h v n m =
    ground (arith, search_swap-foreign vaddr pid as_pid es i e a.1 (omega arith) v n m)
