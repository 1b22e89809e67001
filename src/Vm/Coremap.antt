-- ===== src/Vm/Coremap.antt =====
-- The invariant of the coremap and the swap map, and coremap_insert_pid and coremap_remove
-- (kern/vm/addrspace.c).
use os161_kernel.Prelude.{
  ℕ, ◌+◌, ◌*◌, ◌/◌, ◌%◌, ◌^◌, ◌≤◌, ◌<◌, ◌≡◌, refl, sym, ap, ◌∙◌, inl, inr, true, some, List,
  bit_and, ltb, ◌==◌, ==-true, if◌then◌else◌, get_elem?, set, length, length-set,
  get_elem?-set_self, get_elem?-set_ne, arith, ℕ_discrete, Bool-cases, length_of_set, get_elem?-lt,
}
use os161_kernel.Prelude.Outcome.{done}
use os161_kernel.Bitmap.{Bitmap}
use os161_kernel.Bitmap.Marks
use os161_kernel.Bitmap.Marks.{
  test, set_bit, clear_bit, bitmap_isset_lem, bitmap_mark-done, bitmap_unmark-done, set_bit-IsValid,
  clear_bit-IsValid, test-set-or, test-set-and, word_in,
}
use os161_kernel.Vm.Flags.{page_frame, userspacetop, frame_lem, dirty_valid, dirty_valid_kernel}
use os161_kernel.Vm.State.{
  Entry, Vm, map_index, insert_flags, mark_if_clear, coremap_insert_pid, coremap_remove,
}

-- Entry `i` of a table holds the address of page `i` from `start` on.
abbrev pub Framed : ℕ → List Entry → Type 0
Framed start es =
    (i : ℕ) (e : Entry) → get_elem? es i ≡ some e → e.paddr / 4096 * 4096 ≡ start + i * 4096

-- A table with the bitmap of its entries in use.
pub record IsTable (start : ℕ) (es : List Entry) (b : Bitmap) : Type 0 where
  pub aligned : start % 4096 ≡ 0
  pub room : start + 4096 * length es ≤ 2 ^ 32
  pub framed : Framed start es
  pub bits : Marks.IsValid b
  pub sized : b.nbits ≡ length es

pub record IsValid (s : Vm) : Type 0 where
  pub memory : IsTable s.start s.coremap s.mem_map
  pub swap : IsTable 0 s.coreswap s.swap_map

-- The bitmap with bit `i` set, as mark_if_clear leaves it.
abbrev pub marked : Bitmap → ℕ → Bitmap
marked b i = if test b.v i then b else record b { v = set_bit b.v i }

mark_if_clear_lem :
    (b : Bitmap) (i : ℕ)
    → Marks.IsValid b
    → i < b.nbits
    → (mark_if_clear b i ≡ done (marked b i))
      × Marks.IsValid (marked b i)
      × ((marked b i).nbits ≡ b.nbits)
      × ((j : ℕ) → test (marked b i).v j ≡ (if i == j then true else test b.v j))
unfolding mark_if_clear
mark_if_clear_lem b i v h = elim (Bool-cases (test b.v i)) [
  | inl taken ↦ (
    ground (arith, bitmap_isset_lem v i h),
    rw taken v,
    rw taken refl,
    λ j. ground (arith, λ (e : i ≡ j). ap (test b.v) e),
  )
  | inr clear ↦ (
    ground (arith, bitmap_isset_lem v i h, bitmap_mark-done v i h clear),
    rw clear (set_bit-IsValid v i h),
    rw clear refl,
    λ j. rw clear (test-set-or b.v i (word_in v i h) (v.words (i / 8)) j),
  )
]

-- Writing an entry that keeps its frame, with a bitmap of the same size, leaves a table.
pub set-IsTable :
    (start : ℕ) (es : List Entry) (b b' : Bitmap) (i : ℕ) (e : Entry)
    → IsTable start es b
    → Marks.IsValid b'
    → b'.nbits ≡ b.nbits
    → e.paddr / 4096 * 4096 ≡ start + i * 4096
    → IsTable start (set es i e) b'
set-IsTable start es b b' i e t v n f = record {
  aligned = t.aligned;
  room = omega (arith, length-set es i e, t.room);
  framed = framed;
  bits = v;
  sized = omega (arith, length-set es i e, t.sized);
}
  where
    framed : Framed start (set es i e)
    framed j e' p = elim (ℕ_discrete i j) [
      | yes q ↦ ground (
        arith,
        get_elem?-set_self es i e,
        length_of_set es i j e p,
        ap (λ k. get_elem? (set es i e) k) q,
      )
      | no ne ↦ t.framed j e' (sym (get_elem?-set_ne es e ne) ∙ p)
    ]

-- The flags of a new entry come to 0x600, valid and dirty, with 0x1 for a kernel address.
abbrev pub flags_for : ℕ → ℕ
flags_for vaddr = if ltb userspacetop vaddr then 0x601 else 0x600

pub insert_flags_lem : (vaddr f : ℕ) → insert_flags vaddr (f * 4096) ≡ f * 4096 + flags_for vaddr
insert_flags_lem vaddr f = ground (arith, dirty_valid f, dirty_valid_kernel f)

-- The entry that coremap_insert_pid writes, and the one that coremap_remove writes.
abbrev pub inserted : Entry → ℕ → ℕ → ℕ → Entry
inserted e vaddr frame pid = record e {
  vaddr = vaddr;
  paddr = frame + flags_for vaddr;
  counter = 0;
  pid = pid;
}

abbrev pub removed : Entry → ℕ → Entry
removed e frame = record e { vaddr = 0; paddr = frame; counter = 0; pid = 0 }

module _ {s : Vm} (v : IsValid s) (i : ℕ) (e : Entry) (at : get_elem? s.coremap i ≡ some e) where
  in_range : i < length s.coremap
  in_range = get_elem?-lt s.coremap i at

  bit_in : i < s.mem_map.nbits
  bit_in = omega (arith, v.memory.sized, in_range)

  index_of_frame : map_index s (s.start + i * 4096) ≡ i
  index_of_frame = omega (arith, v.memory.room, v.memory.aligned, in_range)

  frame_fits : e.paddr < 2 ^ 32
  frame_fits = omega (arith, v.memory.framed i e at, v.memory.room, in_range)

  own_frame : bit_and e.paddr page_frame ≡ s.start + i * 4096
  own_frame = frame_lem e.paddr frame_fits ∙ v.memory.framed i e at

  frame_again : bit_and (s.start + i * 4096) page_frame ≡ s.start + i * 4096
  frame_again =
      frame_lem (s.start + i * 4096) (omega (arith, v.memory.room, in_range))
      ∙ omega (arith, v.memory.aligned)

  new_flags :
      (vaddr : ℕ) → insert_flags vaddr (s.start + i * 4096) ≡ s.start + i * 4096 + flags_for vaddr
  new_flags vaddr =
      let f : s.start + i * 4096 ≡ (s.start / 4096 + i) * 4096 = omega (arith, v.memory.aligned) in
      rw f (insert_flags_lem vaddr (s.start / 4096 + i))

  -- The state after coremap_insert_pid on frame `i`.
  abbrev pub after_insert : ℕ → ℕ → Vm
  after_insert vaddr pid = record s {
    coremap = set s.coremap i (inserted e vaddr (s.start + i * 4096) pid);
    mem_map = marked s.mem_map i;
  }

  abbrev pub after_remove : Vm
  after_remove = record s {
    coremap = set s.coremap i (removed e (s.start + i * 4096));
    mem_map = record s.mem_map { v = clear_bit s.mem_map.v i };
  }

  module _ (paddr : ℕ) (small : paddr < 2 ^ 32)
      (points : paddr / 4096 * 4096 ≡ s.start + i * 4096) where
    at_frame : bit_and paddr page_frame ≡ s.start + i * 4096
    at_frame = frame_lem paddr small ∙ points

    pub coremap_insert_pid-done :
        (vaddr pid : ℕ) → coremap_insert_pid vaddr paddr pid s ≡ done (after_insert vaddr pid)
    unfolding coremap_insert_pid
    coremap_insert_pid-done vaddr pid =
        rw
          (
            at_frame,
            index_of_frame,
            at,
            ==-true own_frame,
            (mark_if_clear_lem s.mem_map i v.memory.bits bit_in).0,
            new_flags vaddr,
          )
          refl

    pub coremap_remove-done : test s.mem_map.v i ≡ true → coremap_remove paddr s ≡ done after_remove
    unfolding coremap_remove
    coremap_remove-done taken =
        rw
          (
            at_frame,
            index_of_frame,
            at,
            frame_again,
            ==-true own_frame,
            bitmap_unmark-done v.memory.bits i bit_in taken,
          )
          refl

  pub after_insert-IsValid : (vaddr pid : ℕ) → IsValid (after_insert vaddr pid)
  after_insert-IsValid vaddr pid =
      let m = mark_if_clear_lem s.mem_map i v.memory.bits bit_in in
      record {
        memory =
            set-IsTable s.start s.coremap s.mem_map (marked s.mem_map i) i
              (inserted e vaddr (s.start + i * 4096) pid) v.memory m.1 m.2
              (ground (arith, v.memory.aligned));
        swap = v.swap;
      }

  pub after_remove-IsValid : IsValid after_remove
  after_remove-IsValid = record {
    memory =
        set-IsTable s.start s.coremap s.mem_map (record s.mem_map { v = clear_bit s.mem_map.v i }) i
          (removed e (s.start + i * 4096)) v.memory (clear_bit-IsValid v.memory.bits i bit_in) refl
          (omega (arith, v.memory.aligned));
    swap = v.swap;
  }
