-- ===== src/Vm/Flags.antt =====
-- The flags of a coremap entry (kern/vm/addrspace.c and kern/arch/mips/include/vm.h): they lie in
-- the low bits of its physical address, beside the number of the page frame.
use os161_kernel.Prelude.{
  ℕ, ◌+◌, ◌*◌, ◌/◌, ◌%◌, ◌^◌, ◌<◌, ◌≡◌, refl, ◌∙◌, ap, Bool, true, bit_and, bit_or, ◌==◌, ==_iff,
  not, arith,
}
use os161_kernel.Prelude.Bits.{
  all_below, all_below_sound, bit_and_split, bit_or_split, bit_and-zero, bit_or-zero, bit_or_self,
  bit_or-lt,
}

abbrev pub page_size : ℕ
page_size = 4096

-- PAGE_FRAME
abbrev pub page_frame : ℕ
page_frame = 0xfffff000

abbrev pub mips_kseg0 : ℕ
mips_kseg0 = 0x80000000

abbrev pub userspacetop : ℕ
userspacetop = mips_kseg0

abbrev pub is_swapped : ℕ → Bool
is_swapped x = not (bit_and x 0x80 == 0)

abbrev pub set_swapped : ℕ → ℕ
set_swapped x = bit_or x 0x80

abbrev pub set_dirty : ℕ → ℕ
set_dirty x = bit_or x 0x400

abbrev pub is_valid : ℕ → Bool
is_valid x = not (bit_and x 0x200 == 0)

abbrev pub set_valid : ℕ → ℕ
set_valid x = bit_or x 0x200

abbrev pub is_kernel : ℕ → Bool
is_kernel x = not (bit_and x 0x1 == 0)

abbrev pub set_kernel : ℕ → ℕ
set_kernel x = bit_or x 0x1

byte_table : all_below 256 (λ a. bit_and a 255 == a) ≡ true
unfolding all_below
byte_table = refl

nibble_table : all_below 16 (λ a. bit_and a 15 == a) ≡ true
unfolding all_below
nibble_table = refl

and_byte : (a : ℕ) → a < 256 → bit_and a 255 ≡ a
and_byte a h = (==_iff _ a).0 (all_below_sound 256 _ a byte_table h)

and_nibble : (a : ℕ) → a < 16 → bit_and a 15 ≡ a
and_nibble a h = (==_iff _ a).0 (all_below_sound 16 _ a nibble_table h)

and_page : (a : ℕ) → a < 4096 → bit_and a 0xfff ≡ a
and_page a h =
    let e : a ≡ a / 256 * 2 ^ 8 + a % 256 = omega arith in
    ap (λ x. bit_and x 0xfff) e
    ∙ bit_and_split 8 (a / 256) 15 (a % 256) 255 (omega arith) (omega arith)
    ∙ omega (arith, and_nibble (a / 256), and_byte (a % 256))

and_frame_number : (a : ℕ) → a < 2 ^ 20 → bit_and a 0xfffff ≡ a
and_frame_number a h =
    let e : a ≡ a / 256 * 2 ^ 8 + a % 256 = omega arith in
    ap (λ x. bit_and x 0xfffff) e
    ∙ bit_and_split 8 (a / 256) 0xfff (a % 256) 255 (omega arith) (omega arith)
    ∙ omega (arith, and_page (a / 256), and_byte (a % 256))

-- The frame of an address is the address rounded down to a page.
pub frame_of : (f c : ℕ) → f < 2 ^ 20 → c < 4096 → bit_and (f * 4096 + c) page_frame ≡ f * 4096
frame_of f c hf hc =
    bit_and_split 12 f 0xfffff c 0 hc (omega arith)
    ∙ omega (arith, and_frame_number f hf, bit_and-zero c)

-- A flag below the page size is looked up in, and added to, the low bits.
pub and_flag : (f c m : ℕ) → c < 4096 → m < 4096 → bit_and (f * 4096 + c) m ≡ bit_and c m
and_flag f c m hc hm =
    let z : m ≡ 0 * 2 ^ 12 + m = omega arith in
    ap (λ x. bit_and (f * 4096 + c) x) z
    ∙ bit_and_split 12 f 0 c m hc hm
    ∙ omega (arith, bit_and-zero f)

pub or_flag : (f c m : ℕ) → c < 4096 → m < 4096 → bit_or (f * 4096 + c) m ≡ f * 4096 + bit_or c m
or_flag f c m hc hm =
    let z : m ≡ 0 * 2 ^ 12 + m = omega arith in
    ap (λ x. bit_or (f * 4096 + c) x) z
    ∙ bit_or_split 12 f 0 c m hc hm
    ∙ omega (arith, bit_or-zero f)

pub or_same_frame :
    (f c d : ℕ) → c < 4096 → d < 4096 → bit_or (f * 4096 + c) (f * 4096 + d) ≡ f * 4096 + bit_or c d
or_same_frame f c d hc hd = bit_or_split 12 f f c d hc hd ∙ omega (arith, bit_or_self f)

-- The frame of an address, as a number.
pub frame_lem : (p : ℕ) → p < 2 ^ 32 → bit_and p page_frame ≡ p / 4096 * 4096
frame_lem p h =
    let e : p ≡ p / 4096 * 4096 + p % 4096 = omega arith in
    ap (λ x. bit_and x page_frame) e ∙ frame_of (p / 4096) (p % 4096) (omega arith) (omega arith)

pub flag_lem : (p m : ℕ) → m < 4096 → bit_and p m ≡ bit_and (p % 4096) m
flag_lem p m h =
    let e : p ≡ p / 4096 * 4096 + p % 4096 = omega arith in
    ap (λ x. bit_and x m) e ∙ and_flag (p / 4096) (p % 4096) m (omega arith) h

-- The flags of a new entry, on the address of a frame.
pub dirty_valid : (f : ℕ) → bit_or (set_valid (f * 4096)) (set_dirty (f * 4096)) ≡ f * 4096 + 0x600
dirty_valid f =
    let e : f * 4096 ≡ f * 4096 + 0 = omega arith in
    ap (λ x. bit_or (set_valid x) (set_dirty x)) e
    ∙ ap (λ x. bit_or x (set_dirty (f * 4096 + 0))) (or_flag f 0 0x200 (omega arith) (omega arith))
    ∙ ap (λ x. bit_or (f * 4096 + 0x200) x) (or_flag f 0 0x400 (omega arith) (omega arith))
    ∙ or_same_frame f 0x200 0x400 (omega arith) (omega arith)

pub dirty_valid_kernel :
    (f : ℕ)
    → bit_or (bit_or (set_valid (f * 4096)) (set_dirty (f * 4096))) (set_kernel (f * 4096))
      ≡ f * 4096 + 0x601
dirty_valid_kernel f =
    let e : f * 4096 ≡ f * 4096 + 0 = omega arith in
    ap (λ x. bit_or x (set_kernel (f * 4096))) (dirty_valid f)
    ∙ ap (λ x. bit_or (f * 4096 + 0x600) (set_kernel x)) e
    ∙ ap (λ x. bit_or (f * 4096 + 0x600) x) (or_flag f 0 0x1 (omega arith) (omega arith))
    ∙ or_same_frame f 0x600 0x1 (omega arith) (omega arith)

-- The frame of any address is a multiple of the page size.
pub frame_number : (p : ℕ) → bit_and p page_frame ≡ bit_and (p / 4096) 0xfffff * 4096
frame_number p =
    let e : p ≡ p / 4096 * 4096 + p % 4096 = omega arith in
    ap (λ x. bit_and x page_frame) e
    ∙ bit_and_split 12 (p / 4096) 0xfffff (p % 4096) 0 (omega arith) (omega arith)
    ∙ omega (arith, bit_and-zero (p % 4096))

-- An address of a frame with the flags of a new entry is valid.
pub new_entry_valid :
    (f : ℕ) → (is_valid (f * 4096 + 0x600) ≡ true) × (is_valid (f * 4096 + 0x601) ≡ true)
new_entry_valid f = (
  rw (and_flag f 0x600 0x200 (omega arith) (omega arith)),
  rw (and_flag f 0x601 0x200 (omega arith) (omega arith)),
)

-- Setting a flag keeps the frame.
pub set_flag-frame :
    (p m : ℕ)
    → p < 2 ^ 32
    → m < 4096
    → (bit_or p m < 2 ^ 32) × (bit_or p m / 4096 * 4096 ≡ p / 4096 * 4096)
set_flag-frame p m hp hm =
    let e : p ≡ p / 4096 * 4096 + p % 4096 = omega arith in
    let s : bit_or p m ≡ p / 4096 * 4096 + bit_or (p % 4096) m =
      ap (λ x. bit_or x m) e ∙ or_flag (p / 4096) (p % 4096) m (omega arith) hm in
    let l : bit_or (p % 4096) m < 2 ^ 12 = bit_or-lt 12 (p % 4096) m (omega arith) hm in
    (omega (arith, s, l), omega (arith, s, l))
