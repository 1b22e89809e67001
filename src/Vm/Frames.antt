-- ===== src/Vm/Frames.antt =====
-- get_free_page and its parts (kern/vm/addrspace.c) leave the coremap's entries alone; and what a
-- coremap_insert_pid that returned wrote.
use os161_kernel.Prelude.{
  ℕ, ◌/◌, ◌≡◌, refl, inl, inr, Bool, true, some, bit_and, ltb, get_elem?, set, arith, Option-cases,
  Bool-cases,
}
use os161_kernel.Prelude.Outcome.{done, Outcome-cases}
use os161_kernel.Bitmap.{bitmap_alloc, allocated, enospc}
use os161_kernel.Vm.Flags.{page_frame, is_valid, frame_number, new_entry_valid, userspacetop}
use os161_kernel.Vm.State.{Entry, Vm, map_index, insert_flags, mark_if_clear, coremap_insert_pid}
use os161_kernel.Vm.Coremap.{insert_flags_lem}
use os161_kernel.Vm.Transfers.{swap_out-SwappedOut}
use os161_kernel.Vm.Swap.{
  pick_page, find_lru_page, get_free_offset, swap_out, evict_page, get_free_page,
}

find_lru_page-coremap :
    (s : Vm) {p : ℕ} {s' : Vm} → find_lru_page s ≡ done (p, s') → s'.coremap ≡ s.coremap
unfolding find_lru_page
find_lru_page-coremap s h = elim (Outcome-cases (pick_page s.draws s.coremap)) [
  | inl ((i, e, draws), q) ↦ ground arith
  | inr bad ↦ absurd (ground arith)
]

get_free_offset-coremap :
    (s : Vm) {p : ℕ} {s' : Vm} → get_free_offset s ≡ done (p, s') → s'.coremap ≡ s.coremap
unfolding get_free_offset
get_free_offset-coremap s h = ground arith

module _ (read_error write_error : ℕ → Bool) where
  swap_out-coremap :
      (offset paddr : ℕ) (s : Vm) {s' : Vm}
      → swap_out read_error write_error offset paddr s ≡ done s'
      → s'.coremap ≡ s.coremap
  swap_out-coremap offset paddr s h =
      let o = swap_out-SwappedOut read_error write_error offset paddr s h in
      ground (arith, o.result, o.inserted.result)

  evict_page-coremap :
      (s : Vm) {p : ℕ} {s' : Vm}
      → evict_page read_error write_error s ≡ done (p, s')
      → s'.coremap ≡ s.coremap
  unfolding evict_page
  evict_page-coremap s h = elim (Outcome-cases (find_lru_page s)) [
    | inr bad ↦ absurd (ground arith)
    | inl ((p, s1), q1) ↦ elim (Outcome-cases (get_free_offset s1)) [
      | inr bad ↦ absurd (ground arith)
      | inl ((o, s2), q2) ↦ elim (Outcome-cases (swap_out read_error write_error o p s2)) [
        | inr bad ↦ absurd (ground arith)
        | inl (s3, q3) ↦ ground (
          arith,
          find_lru_page-coremap s q1,
          get_free_offset-coremap s1 q2,
          swap_out-coremap o p s2 q3,
        )
      ]
    ]
  ]

  pub get_free_page-coremap :
      (s : Vm) {p : ℕ} {s' : Vm}
      → get_free_page read_error write_error s ≡ done (p, s')
      → s'.coremap ≡ s.coremap
  unfolding get_free_page
  get_free_page-coremap s {p} {s'} h = elim (Outcome-cases (bitmap_alloc s.mem_map)) [
    | inr bad ↦ absurd (ground arith)
    | inl (enospc, q) ↦ evict_page-coremap s {p = p} {s' = s'} (ground arith)
    | inl (allocated i b, q) ↦ ground arith
  ]

pub record Inserted (vaddr paddr pid : ℕ) (s s' : Vm) : Type 0 where
  pub entry : Entry
  pub index : ℕ
  pub found : get_elem? s.coremap index ≡ some entry
  pub index_lem : index ≡ map_index s (bit_and paddr page_frame)
  pub result :
      s'.coremap
      ≡ set s.coremap index (record entry {
        vaddr = vaddr;
        paddr = insert_flags vaddr (bit_and paddr page_frame);
        counter = 0;
        pid = pid;
      })

pub coremap_insert_pid-Inserted :
    (vaddr paddr pid : ℕ) (s : Vm) {s' : Vm}
    → coremap_insert_pid vaddr paddr pid s ≡ done s'
    → Inserted vaddr paddr pid s s'
unfolding coremap_insert_pid
coremap_insert_pid-Inserted vaddr paddr pid s h =
    elim (Option-cases (get_elem? s.coremap (map_index s (bit_and paddr page_frame)))) [
      | inl e ↦ absurd (ground arith)
      | inr (e, he) ↦
          elim (Outcome-cases (mark_if_clear s.mem_map (map_index s (bit_and paddr page_frame)))) [
            | inl (b, hb) ↦ record {
              entry = e;
              index = map_index s (bit_and paddr page_frame);
              found = he;
              index_lem = refl;
              result = ground arith;
            }
            | inr bad ↦ absurd (ground arith)
          ]
    ]

-- A new entry is valid.
pub insert_flags-valid :
    (vaddr paddr : ℕ) → is_valid (insert_flags vaddr (bit_and paddr page_frame)) ≡ true
insert_flags-valid vaddr paddr =
    let f : ℕ = bit_and (paddr / 4096) 0xfffff in
    rw (frame_number paddr, insert_flags_lem vaddr f)
      (elim (Bool-cases (ltb userspacetop vaddr)) [
        | inl k ↦ rw k (new_entry_valid f).1
        | inr k ↦ rw k (new_entry_valid f).0
      ])
