-- ===== src/Lock/Queues.antt =====
-- The queues of the wait channels of a lock and a condition variable (kern/thread/synch.c), and its
-- owner, while threads change their places.
use os161_kernel.Prelude.{
  ℕ, ◌≡◌, refl, ◌≢◌, true, false, Option, none, some, List, [], ◌∷◌, ◌++◌, ◌==◌, update, arith, sym,
  ap, subst, ◌∙◌, ==-true, ==-false, ℕ_discrete,
}
use os161_kernel.Prelude.Members.{has, Distinct, has_head, has_ne, has-append, append-Distinct}
use os161_kernel.Lock.{Place, inside}

-- The threads at the place `p` are those of the queue, each of them once.
pub record IsQueue (p : Place) (place : ℕ → Place) (q : List ℕ) : Type 0 where
  pub sound : (t : ℕ) → has t q ≡ true → place t ≡ p
  pub complete : (t : ℕ) → place t ≡ p → has t q ≡ true
  pub once : Distinct q

-- The thread inside is the owner.
pub record Holds (place : ℕ → Place) (owner : Option ℕ) : Type 0 where
  pub owns : (t : ℕ) → place t ≡ inside → owner ≡ some t
  pub enters : (t : ℕ) → owner ≡ some t → place t ≡ inside

pub update_self : (place : ℕ → Place) (p : Place) (t : ℕ) → update place t p t ≡ p
update_self place p t = let self : (t == t) ≡ true = ==-true refl in rw self refl

pub update_ne : (place : ℕ → Place) (p : Place) (t u : ℕ) → t ≢ u → update place t p u ≡ place u
update_ne place p t u ne = rw (==-false ne) refl

module _ {place : ℕ → Place} (t : ℕ) (p' : Place) where
  -- The thread was not in the queue, and is not now.
  pub IsQueue-other :
      {p : Place} {q : List ℕ}
      → place t ≢ p
      → p' ≢ p
      → IsQueue p place q
      → IsQueue p (update place t p') q
  IsQueue-other {p} {q} from to i = record {
    sound = λ u h. elim (ℕ_discrete t u) [
      | yes e ↦ absurd (from (i.sound t (subst (λ v. has v q ≡ true) (sym e) h)))
      | no ne ↦ update_ne place p' t u ne ∙ i.sound u h
    ];
    complete = λ u h. elim (ℕ_discrete t u) [
      | yes e ↦ absurd (to (sym (update_self place p' t) ∙ ap (update place t p') e ∙ h))
      | no ne ↦ i.complete u (sym (update_ne place p' t u ne) ∙ h)
    ];
    once = i.once;
  }

  -- The first one of the queue is taken off.
  pub IsQueue-head :
      {p : Place} {q : List ℕ} → p' ≢ p → IsQueue p place (t ∷ q) → IsQueue p (update place t p') q
  IsQueue-head {p} {q} to i = record {
    sound = λ u h. elim (ℕ_discrete t u) [
      | yes e ↦ absurd (ground (arith, i.once.0, ap (λ v. has v q) e))
      | no ne ↦ update_ne place p' t u ne ∙ i.sound u (has_ne u t q ne ∙ h)
    ];
    complete = λ u h. elim (ℕ_discrete t u) [
      | yes e ↦ absurd (to (sym (update_self place p' t) ∙ ap (update place t p') e ∙ h))
      | no ne ↦ sym (has_ne u t q ne) ∙ i.complete u (sym (update_ne place p' t u ne) ∙ h)
    ];
    once = i.once.1;
  }

  pub Holds-other :
      {o : Option ℕ} → place t ≢ inside → p' ≢ inside → Holds place o → Holds (update place t p') o
  Holds-other {o} from to h = record {
    owns = λ u e. elim (ℕ_discrete t u) [
      | yes q ↦ absurd (to (sym (update_self place p' t) ∙ ap (update place t p') q ∙ e))
      | no ne ↦ h.owns u (sym (update_ne place p' t u ne) ∙ e)
    ];
    enters = λ u e. elim (ℕ_discrete t u) [
      | yes q ↦ absurd (from (ap place q ∙ h.enters u e))
      | no ne ↦ update_ne place p' t u ne ∙ h.enters u e
    ];
  }

  pub Holds-leave :
      {o : Option ℕ}
      → place t ≡ inside
      → p' ≢ inside
      → Holds place o
      → Holds (update place t p') none
  Holds-leave {o} from to h = record {
    owns = λ u e. elim (ℕ_discrete t u) [
      | yes q ↦ absurd (to (sym (update_self place p' t) ∙ ap (update place t p') q ∙ e))
      | no ne ↦
          absurd (ne (same (sym (h.owns t from) ∙ h.owns u (sym (update_ne place p' t u ne) ∙ e))))
    ];
    enters = λ u e. absurd cc;
  }
    where
      same : {a b : ℕ} → some a ≡ some b → a ≡ b
      same e = cc

-- A thread goes to the end of the queue.
pub IsQueue-append :
    {p : Place} {place : ℕ → Place} {q : List ℕ} (t : ℕ)
    → place t ≢ p
    → IsQueue p place q
    → IsQueue p (update place t p) (q ++ (t ∷ []))
IsQueue-append {p} {place} {q} t from i = record {
  sound = λ u h. elim (ℕ_discrete t u) [
    | yes e ↦ sym (ap (update place t p) e) ∙ update_self place p t
    | no ne ↦ update_ne place p t u ne ∙ i.sound u (ground (arith, has-append u q (t ∷ []), ne))
  ];
  complete = λ u h. elim (ℕ_discrete t u) [
    | yes e ↦
        subst (λ v. has v (q ++ (t ∷ [])) ≡ true) e
          (ground (arith, has-append t q (t ∷ []), has_head t []))
    | no ne ↦
        ground (arith, has-append u q (t ∷ []), i.complete u (sym (update_ne place p t u ne) ∙ h))
  ];
  once = append-Distinct q (t ∷ []) i.once (refl, tt) (λ b h. alone b h);
}
  where
    alone : (b : ℕ) → has b q ≡ true → has b (t ∷ []) ≡ false
    alone b h = elim (ℕ_discrete t b) [
      | yes e ↦ absurd (from (ap place e ∙ i.sound b h))
      | no ne ↦ ground arith
    ]

-- The lock is taken.
pub Holds-take :
    {place : ℕ → Place} (t : ℕ) → Holds place none → Holds (update place t inside) (some t)
Holds-take {place} t h = record {
  owns = λ u e. elim (ℕ_discrete t u) [
    | yes q ↦ ap (λ (v : ℕ). some v) q
    | no ne ↦ absurd (free (h.owns u (sym (update_ne place inside t u ne) ∙ e)))
  ];
  enters =
      λ u e. subst (λ v. update place t inside v ≡ inside) (same e) (update_self place inside t);
}
  where
    free : {a : ℕ} → none ≡ some a → ⊥
    free e = cc

    same : {a b : ℕ} → some a ≡ some b → a ≡ b
    same e = cc
