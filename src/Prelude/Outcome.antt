-- ===== src/Prelude/Outcome.antt =====
-- What a run of a kernel function comes to: it returns; the kernel stops (a failed KASSERT, a call
-- of panic, an access out of a block); it is still in a loop when the fuel is used up; or the thread
-- exits and so never returns.
use mathlib.Core.Path.{◌≡◌, refl}
use mathlib.Core.Logic.{◌⊎◌, inl, inr}
use mathlib.Core.Bool.{Bool, true, false}
use mathlib.Core.Option.{Option, none, some}

pub data Outcome {ℓ} (A : Type ℓ) : Type ℓ where
  done : A → Outcome A
  panic : Outcome A
  spin : Outcome A
  exited : Outcome A

infixl 5 ◌>>=◌ ◌>>◌
abbrev pub ◌>>=◌ {ℓ κ} : {A : Type ℓ} {B : Type κ} → Outcome A → (A → Outcome B) → Outcome B
done a >>= f = f a
panic >>= f = panic
spin >>= f = spin
exited >>= f = exited

abbrev pub ◌>>◌ {ℓ} : {B : Type ℓ} → Outcome (Unit {0}) → Outcome B → Outcome B
m >> k = m >>= λ _. k

-- KASSERT
abbrev pub kassert : Bool → Outcome (Unit {0})
kassert true = done tt
kassert false = panic

-- An access through a pointer or an index: none is one that must not be made.
abbrev pub access {ℓ} : {A : Type ℓ} → Option A → Outcome A
access none = panic
access (some a) = done a

-- To split on a computed outcome and keep the equation.
pub Outcome-cases {ℓ} :
    {A : Type ℓ} (o : Outcome A)
    → ((a : A) × (o ≡ done a)) ⊎ ((o ≡ panic) ⊎ ((o ≡ spin) ⊎ (o ≡ exited)))
Outcome-cases (done a) = inl (a, refl)
Outcome-cases panic = inr (inl refl)
Outcome-cases spin = inr (inr (inl refl))
Outcome-cases exited = inr (inr (inr refl))

pub done-injective {ℓ} : {A : Type ℓ} {a b : A} → done a ≡ done b → a ≡ b
done-injective h = cc
