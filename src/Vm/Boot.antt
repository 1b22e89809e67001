-- ===== src/Vm/Boot.antt =====
-- coremap_init and coreswap_init (kern/vm/addrspace.c): the tables at the start.
-- What kmalloc hands out is not cleared: `junk` gives the entries that the block held. Which calls of
-- kmalloc answer a block is a parameter: two of bitmap_create, one for the table. The two
-- functions look neither at the answer of bitmap_create nor at the table's.
use os161_kernel.Prelude.{
  ℕ, zero, suc, ◌+◌, ◌-◌, ◌*◌, ◌/◌, ◌%◌, ◌^◌, ◌<◌, ◌≤◌, ◌≡◌, refl, ap, ◌∙◌, ◌⊎◌, inl, inr, Bool,
  true, false, Option, none, some, List, [], ◌∷◌, get_elem?, length, arith, ◌&&◌, ◌||◌, ◌==◌,
  if◌then◌else◌, Bool-cases, sym,
}
use os161_kernel.Prelude.Outcome.{Outcome, done, panic, ◌>>=◌}
use os161_kernel.Bitmap.{Bitmap, bitmap_create}
use os161_kernel.Bitmap.Marks.{test}
use os161_kernel.Bitmap.Create.{IsEmpty, bitmap_create_lem}
use os161_kernel.Vm.State.{Entry}
use os161_kernel.Vm.Coremap.{IsTable}

-- The loop that numbers the entries, from entry `i` on.
pub number_entries : (ℕ → Entry) → ℕ → ℕ → ℕ → List Entry
number_entries junk start zero i = []
number_entries junk start (suc n) i =
    record (junk i) { paddr = (start + i * 4096) % 2 ^ 32 } ∷ number_entries junk start n (i + 1)

-- The loop writes through the pointer to the table, which is NULL if kmalloc failed.
pub fill_table : Bool → (ℕ → Entry) → ℕ → ℕ → Outcome (List Entry)
fill_table table junk start n =
    if table || (n == 0) then done (number_entries junk start n 0) else panic

-- `stolen` and `start` are what ram_stealmem(0) answers before and after the calls of kmalloc.
-- The answer is coremap_start, mem_map (none for NULL) and coremap.
pub coremap_init :
    Bool → Bool → Bool → ℕ → ℕ → ℕ → (ℕ → Entry) → Outcome (ℕ × Option Bitmap × List Entry)
coremap_init bits words table ramsize stolen start junk = do
  let v_size = (ramsize + 2 ^ 32 - (stolen + 4096)) % 2 ^ 32 / 4096
  mem_map ← bitmap_create bits words v_size
  coremap ← fill_table table junk start v_size
  done (start, mem_map, coremap)

-- `st_size` is the size of the swap file that VOP_STAT answers.
pub coreswap_init : Bool → Bool → Bool → ℕ → (ℕ → Entry) → Outcome (Option Bitmap × List Entry)
coreswap_init bits words table st_size junk = do
  let coreswap_size = st_size / 4096
  swap_map ← bitmap_create bits words coreswap_size
  coreswap ← fill_table table junk 0 coreswap_size
  done (swap_map, coreswap)

module _ (junk : ℕ → Entry) (start : ℕ) where
  number_entries-length : (n i : ℕ) → length (number_entries junk start n i) ≡ n
  unfolding number_entries
  number_entries-length zero i = refl
  number_entries-length (suc n) i = ap suc (number_entries-length n (i + 1))

  number_entries-Framed :
      (n i k : ℕ) (e : Entry)
      → start % 4096 ≡ 0
      → start + (i + n) * 4096 ≤ 2 ^ 32
      → get_elem? (number_entries junk start n i) k ≡ some e
      → e.paddr / 4096 * 4096 ≡ start + (i + k) * 4096
  unfolding number_entries
  number_entries-Framed zero i k e al room at = cc
  number_entries-Framed (suc n) i zero e al room at =
      let p : e.paddr ≡ (start + i * 4096) % 2 ^ 32 = ground arith in omega (arith, p)
  number_entries-Framed (suc n) i (suc k) e al room at =
      omega (arith, number_entries-Framed n (i + 1) k e al (omega arith) at)

  table-IsTable :
      (n : ℕ) (b : Bitmap)
      → start % 4096 ≡ 0
      → start + n * 4096 ≤ 2 ^ 32
      → IsEmpty n b
      → IsTable start (number_entries junk start n 0) b
  table-IsTable n b al room empty = record {
    aligned = al;
    room = omega (arith, number_entries-length n 0);
    framed = λ k e at. omega (arith, number_entries-Framed n 0 k e al (omega arith) at);
    bits = empty.valid;
    sized = empty.same ∙ omega (arith, number_entries-length n 0);
  }

-- What comes of the two tables of `n` entries: `answer` of a map and entries.
pub data TableMade {A : Type 0} (bits words table : Bool) (start n : ℕ)
    (answer : Option Bitmap → List Entry → A) (r : Outcome A) : Type 0 where
  ready :
      (b : Bitmap) (es : List Entry)
      → (bits && words && table) ≡ true
      → r ≡ done (answer (some b) es)
      → IsTable start es b
      → length es ≡ n
      → ((i : ℕ) → i < n → test b.v i ≡ false)
      → TableMade bits words table start n answer r
  no_map :
      (es : List Entry)
      → (bits && words) ≡ false
      → r ≡ done (answer none es)
      → length es ≡ n
      → TableMade bits words table start n answer r
  no_table : table ≡ false → 0 < n → r ≡ panic → TableMade bits words table start n answer r
  no_entry :
      (b : Bitmap)
      → table ≡ false
      → n ≡ 0
      → r ≡ done (answer (some b) [])
      → TableMade bits words table start n answer r

fill_table-cases :
    (table : Bool) (junk : ℕ → Entry) (start n : ℕ)
    → ((table ≡ true) × (fill_table table junk start n ≡ done (number_entries junk start n 0)))
      ⊎ (((table ≡ false) × (n ≡ 0) × (fill_table table junk start n ≡ done []))
          ⊎ ((table ≡ false) × (0 < n) × (fill_table table junk start n ≡ panic)))
unfolding fill_table number_entries
fill_table-cases true junk start n = inl (refl, refl)
fill_table-cases false junk start zero = inr (inl (refl, refl, refl))
fill_table-cases false junk start (suc n) = inr (inr (refl, omega arith, ground arith))

bitmap_create-none :
    (bits words : Bool) (n : ℕ) → (bits && words) ≡ false → bitmap_create bits words n ≡ done none
unfolding bitmap_create
bitmap_create-none true true n h = cc
bitmap_create-none true false n h = refl
bitmap_create-none false words n h = refl

both_given : (bits words : Bool) → (bits && words) ≡ true → (bits ≡ true) × (words ≡ true)
both_given true true h = (refl, refl)
both_given true false h = cc
both_given false words h = cc

table-TableMade :
    {A : Type 0} (bits words table : Bool) (start n : ℕ) (junk : ℕ → Entry)
    (answer : Option Bitmap → List Entry → A) (r : Outcome A)
    → r ≡ (
        bitmap_create bits words n >>= λ m.
        fill_table table junk start n >>= λ es. done (answer m es))
    → n + 7 < 2 ^ 32
    → start % 4096 ≡ 0
    → start + n * 4096 ≤ 2 ^ 32
    → TableMade bits words table start n answer r
table-TableMade bits words table start n junk answer r run few al room =
    elim (fill_table-cases table junk start n) [
      | inl (t, f) ↦ elim (Bool-cases (bits && words)) [
        | inl both ↦
            let ((b, e, empty), _, _) = bitmap_create_lem n few in
            let (p, q) = both_given bits words both in
            ready b (number_entries junk start n 0) (rw (p, q, t) refl) (run ∙ rw (p, q, e, f) refl)
              (table-IsTable junk start n b al room empty) (number_entries-length junk start n 0)
              empty.clear
        | inr missing ↦
            no_map (number_entries junk start n 0) missing
              (run ∙ rw (bitmap_create-none bits words n missing, f) refl)
              (number_entries-length junk start n 0)
      ]
      | inr (inl (t, z, f)) ↦ elim (Bool-cases (bits && words)) [
        | inl both ↦
            let ((b, e, empty), _, _) = bitmap_create_lem n few in
            let (p, q) = both_given bits words both in no_entry b t z (run ∙ rw (p, q, e, f) refl)
        | inr missing ↦
            no_map [] missing (run ∙ rw (bitmap_create-none bits words n missing, f) refl) (sym z)
      ]
      | inr (inr (t, pos, f)) ↦ elim (Bool-cases (bits && words)) [
        | inl both ↦
            let ((b, e, empty), _, _) = bitmap_create_lem n few in
            let (p, q) = both_given bits words both in no_table t pos (run ∙ rw (p, q, e, f) refl)
        | inr missing ↦ no_table t pos (run ∙ rw (bitmap_create-none bits words n missing, f) refl)
      ]
    ]

-- Where the memory is larger than what is in use by a page or more, by 2 GB at most, and the frames
-- from the page aligned `start` on end below 4 GB, and for whichever of the three calls of kmalloc
-- answer a block: if all do, coremap_init returns a table that is well formed, with all its frames
-- free. If the one for the table fails and there is a frame, it writes through NULL. Else it
-- returns, with mem_map NULL if one of bitmap_create's failed. The same holds of coreswap_init and
-- the slots of a swap file of up to 2 GB.
pub coremap_init_lem :
    (bits words table : Bool) (ramsize stolen start st_size : ℕ) (junk : ℕ → Entry)
    → ramsize < 2 ^ 32
    → stolen + 4096 ≤ ramsize
    → ramsize - (stolen + 4096) ≤ 2 ^ 31
    → start % 4096 ≡ 0
    → start + (ramsize - (stolen + 4096)) / 4096 * 4096 ≤ 2 ^ 32
    → st_size ≤ 2 ^ 31
    → TableMade bits words table start
        ((ramsize - (stolen + 4096)) / 4096)
        (λ mem_map coremap. (start, mem_map, coremap))
        (coremap_init bits words table ramsize stolen start junk)
      × TableMade bits words table 0
          (st_size / 4096)
          (λ swap_map coreswap. (swap_map, coreswap))
          (coreswap_init bits words table st_size junk)
unfolding coremap_init coreswap_init
coremap_init_lem bits words table ramsize stolen start st_size junk hr hs signed al room ht =
    let n = (ramsize - (stolen + 4096)) / 4096 in
    let same : (ramsize + 2 ^ 32 - (stolen + 4096)) % 2 ^ 32 / 4096 ≡ n = omega arith in
    (
      table-TableMade bits words table start n junk (λ mem_map coremap. (start, mem_map, coremap)) _
          (rw same refl) (omega arith) al room,
      table-TableMade bits words table 0 (st_size / 4096) junk
          (λ swap_map coreswap. (swap_map, coreswap)) _ refl (omega arith) refl (omega arith),
    )
