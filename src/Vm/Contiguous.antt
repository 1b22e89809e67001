-- ===== src/Vm/Contiguous.antt =====
-- alloc_npages (kern/vm/addrspace.c): the search for contiguous frames.
-- The counters stay below the number of frames, so their sums are not reduced modulo 2 ^ 32.
use os161_kernel.Prelude.{
  ℕ, zero, suc, ◌+◌, ◌*◌, ◌^◌, ◌<◌, ◌≤◌, ◌≡◌, refl, sym, ◌∙◌, ◌≢◌, Bool, true, false, some, bit_and,
  ltb, leb, not, ◌&&◌, ◌==◌, ==-true, ==-false, if◌then◌else◌, get_elem?, get_elem?-set_self,
  get_elem?-set_ne, length, length-set, arith, some_of_lt, ℕ_discrete, subst,
}
use os161_kernel.Prelude.Outcome.{Outcome, done, ◌>>=◌, access}
use os161_kernel.Bitmap.{bitmap_isset}
use os161_kernel.Bitmap.Marks.{test, bitmap_isset_lem}
use os161_kernel.Vm.Flags.{page_frame, is_valid, is_kernel, set_valid, set_kernel, frame_lem}
use os161_kernel.Vm.State.{
  Entry, Vm, paddr_to_kvaddr, coremap_insert, coremap_insert_pid, coremap_remove,
}
use os161_kernel.Vm.Swap.{get_free_page, get_free_offset, swap_out}
use os161_kernel.Vm.Coremap.{
  IsValid, inserted, after_insert, coremap_insert_pid-done, after_insert-IsValid,
}

-- The local variables of the search.
pub record Hole : Type 0 where
  pub index : ℕ
  pub count : ℕ
  pub swap_index : ℕ
  pub swap_count : ℕ
  pub best_count : ℕ
  pub best_index : ℕ

-- The first half of the loop's body, at entry `i` with address `paddr`.
abbrev pub note_page : ℕ → ℕ → ℕ → Hole → Hole
note_page n i paddr h =
    if is_kernel paddr
    then record h { swap_count = 0 }
    else (let first = if h.swap_count == 0 then i else h.swap_index in
        if leb n (h.swap_count + 1)
        then record h {
          swap_index = first;
          swap_count = 0;
          best_count = if ltb h.count h.best_count then h.count else h.best_count;
          best_index = if ltb h.count h.best_count then first else h.best_index;
        }
        else record h { swap_index = first; swap_count = h.swap_count + 1 })

-- The loop from entry `i` on, over the rounds left.
pub find_hole : ℕ → ℕ → ℕ → Hole → Vm → Outcome Hole
find_hole n zero i h s = done h
find_hole n (suc rounds) i h s = do
  e ← access (get_elem? s.coremap i)
  let g = note_page n i e.paddr h
  r ← bitmap_isset s.mem_map i
  if not (r == 0) && (g.count == n)
      then done g
      else find_hole n rounds (i + 1)
          (if r == 0 then record g { index = i; count = 1 } else record g { count = g.count + 1 }) s

pub insert_frames : ℕ → ℕ → ℕ → Vm → Outcome Vm
insert_frames zero i pid s = done s
insert_frames (suc k) i pid s = do
  e ← access (get_elem? s.coremap i)
  s' ← coremap_insert_pid (paddr_to_kvaddr e.paddr) e.paddr pid s
  insert_frames k (i + 1) pid s'

abbrev pub no_hole : Hole
no_hole = record {
  index = 0;
  count = 0;
  swap_index = 0;
  swap_count = 0;
  best_count = 0;
  best_index = 0;
}

module _ (read_error write_error : ℕ → Bool) where
  -- The loop that swaps out the frames from `i` on.
  unfoldable pub evict_frames : ℕ → ℕ → Vm → Outcome Vm
  evict_frames zero i s = done s
  evict_frames (suc k) i s = do
    e ← access (get_elem? s.coremap i)
    s' ←
        (if is_valid e.paddr
          then (get_free_offset s >>= λ o.
              swap_out read_error write_error o.0 e.paddr o.1 >>= λ t. coremap_remove e.paddr t)
          else done s)
    evict_frames k (i + 1) s'

  -- What follows the search, once the frames from `index` on are chosen.
  pub give_frames : ℕ → ℕ → ℕ → Vm → Outcome (ℕ × Vm)
  give_frames n pid index s = do
    s' ← insert_frames n index pid s
    e ← access (get_elem? s'.coremap index)
    done (bit_and e.paddr page_frame, s')

  pub alloc_npages : ℕ → ℕ → Vm → Outcome (ℕ × Vm)
  alloc_npages n pid s =
      if n == 1
      then (get_free_page read_error write_error s >>= λ r.
          let paddr = set_kernel (set_valid r.0) in
          coremap_insert (paddr_to_kvaddr paddr) paddr r.1 >>= λ t.
          done (bit_and paddr page_frame, t))
      else (find_hole n (length s.coremap) 0 no_hole s >>= λ h.
          if ltb h.count n
          then if ltb h.best_count n
            then done (0, s)
            else (evict_frames h.best_count h.best_index s >>= λ t.
                give_frames n pid h.best_index t)
          else give_frames n pid h.index s)

-- The frames from `i` on belong to `pid`, and those before are as in `s`.
pub record Given (pid i k : ℕ) (s s' : Vm) : Type 0 where
  pub valid : IsValid s'
  pub start : s'.start ≡ s.start
  pub sized : length s'.coremap ≡ length s.coremap
  pub before : (j : ℕ) → j < i → get_elem? s'.coremap j ≡ get_elem? s.coremap j
  pub own :
      (j : ℕ) → i ≤ j → j < i + k → (e : Entry) × (get_elem? s'.coremap j ≡ some e) × (e.pid ≡ pid)

insert_frames-Given :
    (k i pid : ℕ) (s : Vm)
    → IsValid s
    → i + k ≤ length s.coremap
    → (s' : Vm) × (insert_frames k i pid s ≡ done s') × Given pid i k s s'
unfolding insert_frames
insert_frames-Given zero i pid s v h = (
  s,
  refl,
  record {
    valid = v;
    start = refl;
    sized = refl;
    before = λ j p. refl;
    own = λ j p q. absurd (omega arith);
  },
)
insert_frames-Given (suc k) i pid s v h =
    let (e, at) = some_of_lt s.coremap i (omega arith) in
    let points = v.memory.framed i e at in
    let small : e.paddr < 2 ^ 32 = omega (arith, points, v.memory.room) in
    let d = coremap_insert_pid-done v i e at e.paddr small points (paddr_to_kvaddr e.paddr) pid in
    let new = inserted e (paddr_to_kvaddr e.paddr) (s.start + i * 4096) pid in
    let len = length-set s.coremap i new in
    let (s', q, g) =
      insert_frames-Given k (i + 1) pid (after_insert v i e at (paddr_to_kvaddr e.paddr) pid)
        (after_insert-IsValid v i e at (paddr_to_kvaddr e.paddr) pid) (omega (arith, len)) in
    (
      s',
      rw (at, d) q,
      record {
        valid = g.valid;
        start = g.start;
        sized = g.sized ∙ len;
        before = λ j p. g.before j (omega arith) ∙ get_elem?-set_ne s.coremap new (omega arith);
        own = λ j p q. elim (ℕ_discrete i j) [
          | yes same ↦
              subst (λ x. (f : Entry) × (get_elem? s'.coremap x ≡ some f) × (f.pid ≡ pid)) same
                (
                  new,
                  g.before i (omega arith) ∙ get_elem?-set_self s.coremap i new (omega arith),
                  refl,
                )
          | no ne ↦ g.own j (omega arith) (omega arith)
        ];
      },
    )

note_page-index : (n i paddr : ℕ) (h : Hole) → (note_page n i paddr h).index ≡ h.index
note_page-index n i paddr h = ground arith

note_page-count : (n i paddr : ℕ) (h : Hole) → (note_page n i paddr h).count ≡ h.count
note_page-count n i paddr h = ground arith

-- What find_hole does at a frame that is in use.
find_hole-taken :
    (n rounds i r : ℕ) (h : Hole) (s : Vm) (e : Entry)
    → get_elem? s.coremap i ≡ some e
    → bitmap_isset s.mem_map i ≡ done r
    → r ≢ 0
    → (h.count ≡ n → find_hole n (suc rounds) i h s ≡ done (note_page n i e.paddr h))
      × (h.count ≢ n
          → find_hole n (suc rounds) i h s
            ≡ find_hole n rounds
                (i + 1)
                (record (note_page n i e.paddr h) { count = (note_page n i e.paddr h).count + 1 })
                s)
unfolding find_hole
find_hole-taken n rounds i r h s e at isset ne =
    let c = note_page-count n i e.paddr h in
    (
      (λ q. rw (at, isset, ==-false ne, ==-true (c ∙ q)) refl),
      λ nq.
          let f : ((note_page n i e.paddr h).count == n) ≡ false = ==-false (λ q. nq (sym c ∙ q)) in
          rw (at, isset, ==-false ne, f) refl,
    )

find_hole-in_use :
    (n rounds i : ℕ) (h : Hole) (s : Vm)
    → IsValid s
    → i + rounds ≡ length s.coremap
    → n < length s.coremap
    → i ≤ n
    → h.count ≡ i
    → ((j : ℕ) → j ≤ n → test s.mem_map.v j ≡ true)
    → (g : Hole) × (find_hole n rounds i h s ≡ done g) × (g.index ≡ h.index) × (g.count ≡ n)
find_hole-in_use n zero i h s v len room le c used = absurd (omega arith)
find_hole-in_use n (suc rounds) i h s v len room le c used =
    let (e, at) = some_of_lt s.coremap i (omega arith) in
    let (r, isset, iff) = bitmap_isset_lem v.memory.bits i (omega (arith, v.memory.sized)) in
    let step = find_hole-taken n rounds i r h s e at isset (iff.1 (used i le)) in
    let same = note_page-index n i e.paddr h in
    elim (ℕ_discrete h.count n) [
      | yes q ↦ (note_page n i e.paddr h, step.0 q, same, note_page-count n i e.paddr h ∙ q)
      | no nq ↦
          let next = record (note_page n i e.paddr h) {
            count = (note_page n i e.paddr h).count + 1;
          } in
          let (g, q, x, y) =
            find_hole-in_use n rounds (i + 1) next s v (omega arith) room (omega arith)
              (omega (arith, note_page-count n i e.paddr h)) used in
          (g, step.1 nq ∙ q, x ∙ same, y)
    ]

module _ (read_error write_error : ℕ → Bool) where
  -- When the frames 0 to n of a well-formed memory are all in use, alloc_npages for n frames, where
  -- n is 2 or more, returns frame 0, and gives the frames 0 to n - 1, whosever they were, to `pid`.
  pub alloc_npages-in_use :
      (n pid : ℕ) (s : Vm)
      → IsValid s
      → 2 ≤ n
      → n < length s.coremap
      → ((j : ℕ) → j ≤ n → test s.mem_map.v j ≡ true)
      → (s' : Vm) × (alloc_npages read_error write_error n pid s ≡ done (s.start, s'))
        × Given pid 0 n s s'
  unfolding alloc_npages give_frames
  alloc_npages-in_use n pid s v two room used =
      let (g, q, x, y) =
        find_hole-in_use n (length s.coremap) 0 no_hole s v (omega arith) room (omega arith) refl
          used in
      let (s', p, given) = insert_frames-Given n 0 pid s v (omega arith) in
      let (e, at, own) = given.own 0 (omega arith) (omega arith) in
      let points = given.valid.memory.framed 0 e at in
      let frame : bit_and e.paddr page_frame ≡ s.start =
        frame_lem e.paddr (omega (arith, points, given.start, v.memory.room))
        ∙ omega (arith, points, given.start) in
      let one : (n == 1) ≡ false = ground arith in
      let enough : ltb g.count n ≡ false = ground arith in
      (s', rw (one, q, enough, x, p, at, frame) refl, given)
