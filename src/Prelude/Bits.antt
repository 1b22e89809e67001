-- ===== src/Prelude/Bits.antt =====
-- Facts about bits: a check of all values over a byte, and the digit laws at variables.
use Prim.Native.Nat.{
  ℕ, zero, suc, ◌+◌, ◌*◌, ◌/◌, ◌%◌, ◌^◌, ◌≤◌, ◌<◌, min, max, bit_and, bit_or, digits, bitwise, ◌-◌,
  bit_and-bitwise, bit_or-bitwise,
}
use mathlib.Core.Path.{◌≡◌, refl, sym, ap, ◌∙◌, subst}
use mathlib.Core.Bool.{Bool, true, false}
use native.Mathlib.Omega.{arith}
use native.Mathlib.Decide.{ℕ_discrete}
use os161_kernel.Prelude.Tests.{if◌then◌else◌}
use native.Mathlib.Nat.{pow-suc, mul-one, add-zero}

-- A test of every number below a bound, by evaluation, and what its success says.
unfoldable pub all_below : ℕ → (ℕ → Bool) → Bool
all_below zero test = true
all_below (suc bound) test = if test bound then all_below bound test else false

pub all_below_sound :
    (bound : ℕ) (test : ℕ → Bool) (k : ℕ) → all_below bound test ≡ true → k < bound → test k ≡ true
unfolding all_below
all_below_sound zero test k all in_range = elim in_range [ ]
all_below_sound (suc bound) test k all in_range = elim (ℕ_discrete bound k) [
  | yes e ↦ ap test (sym e) ∙ ground arith
  | no ne ↦ all_below_sound bound test k (ground arith) (omega arith)
]

-- Induction that halves the number.
halving {ℓ} : (P : ℕ → Type ℓ) → P 0 → ((a : ℕ) → 0 < a → P (a / 2) → P a) → (n a : ℕ) → a ≤ n → P a
halving P base step zero a h = subst P (omega arith) base
halving P base step (suc n) a h = elim (ℕ_discrete 0 a) [
  | yes e ↦ subst P e base
  | no ne ↦ step a (omega arith) (halving P base step n (a / 2) (omega arith))
]

-- What the two operations have in common: the lowest digits are combined by `f`, and `z` is what is
-- left of the second number when the first has ended.
module _ (z : ℕ → ℕ) (f : ℕ → ℕ → ℕ) where
  one_more : (rounds a b : ℕ) → a ≤ rounds → digits z f (suc rounds) a b ≡ digits z f rounds a b
  one_more rounds zero b h = ended rounds
    where
      ended : (r : ℕ) → digits z f (suc r) 0 b ≡ digits z f r 0 b
      ended zero = refl
      ended (suc r) = refl
  one_more zero (suc a) b h = absurd (omega arith)
  one_more (suc rounds) (suc a) b h =
      let shorter = one_more rounds (suc a / 2) (b / 2) (omega arith) in
      ap (λ hi. hi * 2 + f (suc a % 2) (b % 2)) shorter

  many_more : (extra rounds a b : ℕ) → rounds ≡ extra + a → digits z f rounds a b ≡ bitwise z f a b
  many_more zero rounds a b e = ap (λ n. digits z f n a b) (omega arith)
  many_more (suc extra) zero a b e = absurd (omega arith)
  many_more (suc extra) (suc rounds) a b e =
      one_more rounds a b (omega arith) ∙ many_more extra rounds a b (omega arith)

  lowest_digit :
      (a b : ℕ) → 0 < a → bitwise z f a b ≡ bitwise z f (a / 2) (b / 2) * 2 + f (a % 2) (b % 2)
  lowest_digit zero b h = elim h [ ]
  lowest_digit (suc a) b h =
      ap (λ hi. hi * 2 + f (suc a % 2) (b % 2))
        (many_more (a - suc a / 2) a (suc a / 2) (b / 2) (omega arith))

and_ended : (b : ℕ) → bit_and 0 b ≡ 0
and_ended b = bit_and-bitwise 0 b

or_ended : (b : ℕ) → bit_or 0 b ≡ b
or_ended b = bit_or-bitwise 0 b

bit_and_step : (a b : ℕ) → bit_and a b ≡ bit_and (a / 2) (b / 2) * 2 + min (a % 2) (b % 2)
bit_and_step a b = elim (ℕ_discrete 0 a) [
  | yes e ↦
      subst (λ x. bit_and x b ≡ bit_and (x / 2) (b / 2) * 2 + min (x % 2) (b % 2)) e
        (omega (arith, and_ended b, and_ended (b / 2)))
  | no ne ↦ simp bit_and-bitwise (lowest_digit (λ y. 0) min a b (omega arith))
]

bit_or_step : (a b : ℕ) → bit_or a b ≡ bit_or (a / 2) (b / 2) * 2 + max (a % 2) (b % 2)
bit_or_step a b = elim (ℕ_discrete 0 a) [
  | yes e ↦
      subst (λ x. bit_or x b ≡ bit_or (x / 2) (b / 2) * 2 + max (x % 2) (b % 2)) e
        (omega (arith, or_ended b, or_ended (b / 2)))
  | no ne ↦ simp bit_or-bitwise (lowest_digit (λ y. y) max a b (omega arith))
]

pub bit_and-zero : (a : ℕ) → bit_and a 0 ≡ 0
bit_and-zero a =
    halving (λ x. bit_and x 0 ≡ 0) (and_ended 0) (λ x h ih. omega (arith, bit_and_step x 0)) a a
      (omega arith)

pub bit_or-zero : (a : ℕ) → bit_or a 0 ≡ a
bit_or-zero a =
    halving (λ x. bit_or x 0 ≡ x) (or_ended 0) (λ x h ih. omega (arith, bit_or_step x 0)) a a
      (omega arith)

halve : (x p c : ℕ) → (x * (p * 2) + c) / 2 ≡ x * p + c / 2
halve x p c = omega arith

parity : (x p c : ℕ) → (x * (p * 2) + c) % 2 ≡ c % 2
parity x p c = omega arith

below_one : (c : ℕ) → c < 1 → c ≡ 0
below_one c h = omega arith

-- The two parts of a number at bit `n` are combined separately.
pub bit_and_split :
    (n a b c d : ℕ)
    → c < 2 ^ n
    → d < 2 ^ n
    → bit_and (a * 2 ^ n + c) (b * 2 ^ n + d) ≡ bit_and a b * 2 ^ n + bit_and c d
bit_and_split zero a b c d p q = simp (below_one c p, below_one d q, mul-one, add-zero)
bit_and_split (suc n) a b c d p q =
    rw
      (
        pow-suc 2 n,
        bit_and_step (a * (2 ^ n * 2) + c) (b * (2 ^ n * 2) + d),
        halve a,
        halve b,
        parity a,
        parity b,
      )
      (omega (arith, bit_and_step c d, pow-suc 2 n, bit_and_split n a b (c / 2) (d / 2)))

pub bit_or_split :
    (n a b c d : ℕ)
    → c < 2 ^ n
    → d < 2 ^ n
    → bit_or (a * 2 ^ n + c) (b * 2 ^ n + d) ≡ bit_or a b * 2 ^ n + bit_or c d
bit_or_split zero a b c d p q = simp (below_one c p, below_one d q, mul-one, add-zero)
bit_or_split (suc n) a b c d p q =
    rw
      (
        pow-suc 2 n,
        bit_or_step (a * (2 ^ n * 2) + c) (b * (2 ^ n * 2) + d),
        halve a,
        halve b,
        parity a,
        parity b,
      )
      (omega (arith, bit_or_step c d, pow-suc 2 n, bit_or_split n a b (c / 2) (d / 2)))

pub bit_or_self : (a : ℕ) → bit_or a a ≡ a
bit_or_self a =
    halving (λ x. bit_or x x ≡ x) (or_ended 0) (λ x h ih. omega (arith, bit_or_step x x)) a a
      (omega arith)

pub bit_or-lt : (n a b : ℕ) → a < 2 ^ n → b < 2 ^ n → bit_or a b < 2 ^ n
bit_or-lt zero a b p q = rw (below_one a p, below_one b q) (omega arith)
bit_or-lt (suc n) a b p q = omega (arith, bit_or_step a b, pow-suc 2 n, bit_or-lt n (a / 2) (b / 2))
