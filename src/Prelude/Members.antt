-- ===== src/Prelude/Members.antt =====
-- Membership in a list of numbers as a Boolean, and lists without a repetition.
use Prim.Native.Nat.{ℕ}
use mathlib.Core.Path.{◌≡◌, refl, sym, ap, ◌∙◌}
use mathlib.Core.Logic.{◌≢◌, ◌⊎◌, inl, inr}
use mathlib.Core.Bool.{Bool, true, false, ◌||◌}
use mathlib.Core.List.{List, [], ◌∷◌, ◌++◌}
use native.Mathlib.Omega.{arith}
use native.Mathlib.Decide.{ℕ_discrete}
use os161_kernel.Prelude.Tests.{◌==◌, ==-true, ==-false}

abbrev pub has : ℕ → List ℕ → Bool
has a [] = false
has a (x ∷ xs) = (x == a) || has a xs

abbrev pub Distinct : List ℕ → Type 0
Distinct [] = Unit
Distinct (b ∷ bs) = (has b bs ≡ false) × Distinct bs

-- Whoever is on a list is its first element or on the rest.
pub has-cons : (a x : ℕ) (xs : List ℕ) → has a (x ∷ xs) ≡ true → (x ≡ a) ⊎ (has a xs ≡ true)
has-cons a x xs h = elim (ℕ_discrete x a) [ yes e ↦ inl e | no ne ↦ inr (ground arith) ]

pub has_head : (a : ℕ) (xs : List ℕ) → has a (a ∷ xs) ≡ true
has_head a xs = let self : (a == a) ≡ true = ==-true refl in ground arith

pub has_ne : (a x : ℕ) (xs : List ℕ) → x ≢ a → has a (x ∷ xs) ≡ has a xs
has_ne a x xs ne = ap (λ t. t || has a xs) (==-false ne)

pub has-append : (a : ℕ) (xs ys : List ℕ) → has a (xs ++ ys) ≡ (has a xs || has a ys)
has-append a [] ys = refl
has-append a (x ∷ xs) ys = ground (arith, has-append a xs ys)

-- An element of one list differs from whoever is not on it.
pub has-apart : (a b : ℕ) (xs : List ℕ) → has a xs ≡ true → has b xs ≡ false → a ≢ b
has-apart a b xs h g e = absurd (ground (arith, ap (λ x. has x xs) e))

pub Distinct-append :
    (xs ys : List ℕ)
    → Distinct (xs ++ ys)
    → Distinct xs × Distinct ys × ((b : ℕ) → has b xs ≡ true → has b ys ≡ false)
Distinct-append [] ys d = (tt, d, λ b h. cc)
Distinct-append (x ∷ xs) ys d =
    let (l, r, apart) = Distinct-append xs ys d.1 in
    (
      (ground (arith, has-append x xs ys), l),
      r,
      λ b h. elim (has-cons b x xs h) [
        | inl e ↦ ap (λ y. has y ys) (sym e) ∙ ground (arith, has-append x xs ys)
        | inr i ↦ apart b i
      ],
    )

pub append-Distinct :
    (xs ys : List ℕ)
    → Distinct xs
    → Distinct ys
    → ((b : ℕ) → has b xs ≡ true → has b ys ≡ false)
    → Distinct (xs ++ ys)
append-Distinct [] ys l r apart = r
append-Distinct (x ∷ xs) ys l r apart = (
  has-append x xs ys ∙ ground (arith, apart x (has_head x xs)),
  append-Distinct xs ys l.1 r (λ b h. apart b (ground arith)),
)
