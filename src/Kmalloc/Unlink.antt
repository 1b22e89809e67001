-- ===== src/Kmalloc/Unlink.antt =====
-- The loops of remove_lists (kern/vm/kmalloc.c): a list without one of its elements.
use os161_kernel.Prelude.{
  ℕ, suc, ◌≡◌, ◌≢◌, refl, sym, ap, ◌∙◌, true, false, List, [], ◌∷◌, ◌==◌, ==-true, ==-false, length,
  if◌then◌else◌, arith, ℕ_discrete, Bool-cases, inl, inr,
}
use os161_kernel.Kmalloc.{unlink}
use os161_kernel.Kmalloc.Chain.{has, has-cons, Distinct}

-- On whether x is the first element.
pub unlink-first : (p : ℕ) (xs : List ℕ) → unlink p (p ∷ xs) ≡ xs
unfolding unlink
unlink-first p xs = let self : (p == p) ≡ true = ==-true refl in rw self refl

pub has-unlink : (a p : ℕ) (xs : List ℕ) → has a (unlink p xs) ≡ true → has a xs ≡ true
unfolding unlink
has-unlink a p [] h = h
has-unlink a p (x ∷ xs) h = elim (Bool-cases (x == p)) [
  | inl t ↦ ground (arith, (ap (λ b. has a (if b then xs else x ∷ unlink p xs)) (sym t) ∙ h))
  | inr f ↦
      elim (has-cons a x (unlink p xs)
        (ap (λ b. has a (if b then xs else x ∷ unlink p xs)) (sym f) ∙ h)) [
          | inl e ↦ ground arith
          | inr r ↦ ground (arith, has-unlink a p xs r)
        ]
]

pub has-unlink_ne : (a p : ℕ) (xs : List ℕ) → p ≢ a → has a (unlink p xs) ≡ has a xs
unfolding unlink
has-unlink_ne a p [] ne = refl
has-unlink_ne a p (x ∷ xs) ne = elim (ℕ_discrete x p) [
  | yes e ↦ rw (==-true e, ==-false (λ q. ne (sym e ∙ q))) refl
  | no nx ↦ rw (==-false nx, has-unlink_ne a p xs ne) refl
]

pub length-unlink : (p : ℕ) (xs : List ℕ) → has p xs ≡ true → suc (length (unlink p xs)) ≡ length xs
unfolding unlink
length-unlink p [] h = cc
length-unlink p (x ∷ xs) h = elim (ℕ_discrete x p) [
  | yes e ↦ rw (==-true e) refl
  | no ne ↦ rw (==-false ne) (ap suc (length-unlink p xs (ground arith)))
]

pub unlink-gone : (p : ℕ) (xs : List ℕ) → Distinct xs → has p (unlink p xs) ≡ false
unfolding unlink
unlink-gone p [] d = refl
unlink-gone p (x ∷ xs) d = elim (ℕ_discrete x p) [
  | yes e ↦ rw (==-true e) (ap (λ y. has y xs) (sym e) ∙ d.0)
  | no ne ↦ rw (==-false ne, ==-false ne) (unlink-gone p xs d.1)
]

pub unlink-Distinct : (p : ℕ) (xs : List ℕ) → Distinct xs → Distinct (unlink p xs)
unfolding unlink
unlink-Distinct p [] d = d
unlink-Distinct p (x ∷ xs) d = elim (ℕ_discrete x p) [
  | yes e ↦ rw (==-true e) d.1
  | no ne ↦
      rw (==-false ne) (has-unlink_ne x p xs (λ e. ne (sym e)) ∙ d.0, unlink-Distinct p xs d.1)
]
