-- ===== src/Kmalloc/Bits.antt =====
-- The bits of a word of pagerefs_inuse (kern/vm/kmalloc.c).
use os161_kernel.Prelude.{
  ℕ, zero, suc, ◌+◌, ◌-◌, ◌/◌, ◌%◌, ◌^◌, ◌<◌, ◌≤◌, ◌≡◌, refl, sym, ◌∙◌, Bool, true, false, ◌==◌,
  if◌then◌else◌, arith,
}
use native.Mathlib.Nat.{pow-suc}
use os161_kernel.Kmalloc.{shift_right, bit_set}

abbrev low_bit : ℕ → Bool
low_bit w = w % 2 == 1

bit_set-suc : (w j : ℕ) → bit_set w (suc j) ≡ bit_set (w / 2) j
unfolding bit_set shift_right
bit_set-suc w j = refl

bit_set-zero : (w : ℕ) → bit_set w 0 ≡ low_bit w
unfolding bit_set shift_right
bit_set-zero w = refl

-- Adding a bit that is clear sets it, and no other.
pub bit_set-add :
    (j i w : ℕ)
    → bit_set w j ≡ false
    → bit_set (w + 2 ^ j) i ≡ (if j == i then true else bit_set w i)
bit_set-add zero zero w h = rw bit_set-zero (ground (arith, bit_set-zero w))
bit_set-add zero (suc i) w h =
    let e : (w + 2 ^ 0) / 2 ≡ w / 2 = ground (arith, bit_set-zero w) in
    rw (bit_set-suc (w + 2 ^ 0) i, e, bit_set-suc w i) (ground arith)
bit_set-add (suc j) zero w h =
    let e : (w + 2 ^ suc j) % 2 ≡ w % 2 = omega (arith, pow-suc 2 j) in
    rw (bit_set-zero (w + 2 ^ suc j), bit_set-zero w, e) (ground arith)
bit_set-add (suc j) (suc i) w h =
    let e : (w + 2 ^ suc j) / 2 ≡ w / 2 + 2 ^ j = omega (arith, pow-suc 2 j) in
    rw (bit_set-suc (w + 2 ^ suc j) i, e, bit_set-suc w i)
      (ground (arith, bit_set-add j i (w / 2), bit_set-suc w j))

pub bit_set-le : (j w : ℕ) → bit_set w j ≡ true → 2 ^ j ≤ w
bit_set-le zero w h = ground (arith, bit_set-zero w)
bit_set-le (suc j) w h =
    omega (arith, pow-suc 2 j, bit_set-le j (w / 2) (sym (bit_set-suc w j) ∙ h))

pub bit_set-sub :
    (j i w : ℕ)
    → bit_set w j ≡ true
    → bit_set (w - 2 ^ j) i ≡ (if j == i then false else bit_set w i)
bit_set-sub zero zero w h = rw bit_set-zero (ground (arith, bit_set-zero w))
bit_set-sub zero (suc i) w h =
    let e : (w - 2 ^ 0) / 2 ≡ w / 2 = ground (arith, bit_set-zero w) in
    rw (bit_set-suc (w - 2 ^ 0) i, e, bit_set-suc w i) (ground arith)
bit_set-sub (suc j) zero w h =
    let e : (w - 2 ^ suc j) % 2 ≡ w % 2 = omega (arith, pow-suc 2 j, bit_set-le (suc j) w h) in
    rw (bit_set-zero (w - 2 ^ suc j), bit_set-zero w, e) (ground arith)
bit_set-sub (suc j) (suc i) w h =
    let e : (w - 2 ^ suc j) / 2 ≡ w / 2 - 2 ^ j =
      omega (arith, pow-suc 2 j, bit_set-le (suc j) w h) in
    rw (bit_set-suc (w - 2 ^ suc j) i, e, bit_set-suc w i)
      (ground (arith, bit_set-sub j i (w / 2), bit_set-suc w j))

pub bit_set-add-lt : (n j w : ℕ) → w < 2 ^ n → j < n → bit_set w j ≡ false → w + 2 ^ j < 2 ^ n
bit_set-add-lt zero j w h l c = elim l [ ]
bit_set-add-lt (suc n) zero w h l c = ground (arith, pow-suc 2 n, bit_set-zero w)
bit_set-add-lt (suc n) (suc j) w h l c = omega (
  arith,
  pow-suc 2 n,
  pow-suc 2 j,
  bit_set-add-lt n j (w / 2) (omega (arith, pow-suc 2 n)) (omega arith) (sym (bit_set-suc w j) ∙ c),
)

-- A word whose bits are all set is the largest one.
pub all_bits : (n w : ℕ) → w < 2 ^ n → ((j : ℕ) → j < n → bit_set w j ≡ true) → w + 1 ≡ 2 ^ n
all_bits zero w h all = omega arith
all_bits (suc n) w h all =
    let half =
      all_bits n (w / 2) (omega (arith, pow-suc 2 n))
        (λ j p. sym (bit_set-suc w j) ∙ all (suc j) (omega arith)) in
    let odd : w % 2 ≡ 1 = ground (arith, bit_set-zero w, all 0) in
    omega (arith, half, odd, pow-suc 2 n)
