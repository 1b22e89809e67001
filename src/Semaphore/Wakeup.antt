-- ===== src/Semaphore/Wakeup.antt =====
-- P and V (kern/thread/synch.c) under any interleaving: no unit is handed out twice, and no wakeup
-- is lost.
use os161_kernel.Prelude.{
  ℕ, suc, ◌+◌, ◌-◌, ◌%◌, ◌^◌, ◌<◌, ◌≤◌, ◌≡◌, ◌≢◌, refl, ap, ◌⊎◌, inl, inr, true, List, [], ◌∷◌,
  ◌++◌, length, ltb, ==-true, ==-false, arith, ℕ_discrete, dec_lt, subst,
}
use os161_kernel.Prelude.Outcome.{done, done-injective}
use os161_kernel.Semaphore.{
  Semaphore, sem_create, p_section, wakeone, v_section, Step, call_p, first_try, next_try, call_v,
  Reachable, start, next,
}

-- The units are accounted for; and where a thread sleeps, the units left are at most as many as the
-- threads that were woken and have not run yet.
pub record Inv (initial : ℕ) (s : Semaphore) : Type 0 where
  pub small : s.count < 2 ^ 31
  pub balance : s.count + s.entered ≡ initial + s.released
  pub awake : (s.sleeping ≡ []) ⊎ (s.count ≤ length s.woken)

length-cut : (xs : List ℕ) (t : ℕ) (ys : List ℕ) → length (xs ++ t ∷ ys) ≡ suc (length (xs ++ ys))
length-cut [] t ys = refl
length-cut (x ∷ xs) t ys = ap suc (length-cut xs t ys)

-- A try of P, where at most one of the woken threads is the one that tries.
p_section-Inv :
    (initial t : ℕ) (s : Semaphore)
    → s.count < 2 ^ 31
    → s.count + s.entered ≡ initial + s.released
    → (s.sleeping ≡ []) ⊎ (s.count ≤ length s.woken + 1)
    → Inv initial (p_section t s)
unfolding p_section
p_section-Inv initial t s l b a = elim (ℕ_discrete s.count 0) [
  | yes z ↦ rw (==-true z) (record { small = l; balance = b; awake = inr (omega (arith, z)) })
  | no some_left ↦ rw (==-false some_left) (record {
    small = omega arith;
    balance = omega (arith, b);
    awake = elim a [ inl e ↦ inl e | inr h ↦ inr (omega arith) ];
  })
]

v_section-Inv :
    (initial : ℕ) (s s' : Semaphore) → v_section s ≡ done s' → Inv initial s → Inv initial s'
unfolding v_section
v_section-Inv initial s s' h v = elim (dec_lt (s.count + 1) (2 ^ 31)) [
  | no over ↦
      let wrap : (s.count + 1) % 2 ^ 32 ≡ 2 ^ 31 = omega (arith, v.small) in
      absurd (ground (arith, wrap))
  | yes fits ↦
      let same : (s.count + 1) % 2 ^ 32 ≡ s.count + 1 = omega arith in
      let l : ltb 0 (s.count + 1) ≡ true = ground arith in
      let u : ltb (s.count + 1) (2 ^ 31) ≡ true = ground arith in
      let t : Semaphore = record s { count = s.count + 1; released = s.released + 1 } in
      subst (Inv initial) (done-injective (rw (same, l, u) at h)) (
        wakes s.sleeping t fits (omega (arith, v.balance)) refl
          (elim v.awake [ inl e ↦ inl e | inr q ↦ inr (omega arith) ]))
]
  where
    wakes :
        (xs : List ℕ) (t : Semaphore)
        → t.count < 2 ^ 31
        → t.count + t.entered ≡ initial + t.released
        → t.sleeping ≡ xs
        → (xs ≡ []) ⊎ (t.count ≤ length t.woken + 1)
        → Inv initial (wakeone xs t)
    wakes [] t l b e a = record { small = l; balance = b; awake = inl e }
    wakes (x ∷ xs) t l b e (inl q) = absurd cc
    wakes (x ∷ xs) t l b e (inr q) = record { small = l; balance = b; awake = inr (omega arith) }

Step-Inv : (initial : ℕ) (s s' : Semaphore) → Step s s' → Inv initial s → Inv initial s'
Step-Inv initial s _ (call_p t) v = record { small = v.small; balance = v.balance; awake = v.awake }
Step-Inv initial s _ (first_try before t after e) v =
    p_section-Inv initial t (record s { called = before ++ after }) v.small v.balance
      (elim v.awake [ inl q ↦ inl q | inr h ↦ inr (omega arith) ])
Step-Inv initial s _ (next_try before t after e) v =
    p_section-Inv initial t (record s { woken = before ++ after }) v.small v.balance
      (elim v.awake [
        | inl q ↦ inl q
        | inr h ↦ inr (omega (arith, ap length e, length-cut before t after))
      ])
Step-Inv initial s s' (call_v _ h) v = v_section-Inv initial s s' h v

Reachable-Inv : (initial : ℕ) (s : Semaphore) → Reachable initial s → Inv initial s
unfolding sem_create
Reachable-Inv initial s (start _ h) = elim (dec_lt initial (2 ^ 31)) [
  | no big ↦ absurd (ground arith)
  | yes fits ↦
      let u : ltb initial (2 ^ 31) ≡ true = ground arith in
      subst (Inv initial) (done-injective (rw u at h))
        (record { small = fits; balance = refl; awake = inl refl })
]
Reachable-Inv initial s' (next s r t) = Step-Inv initial s s' t (Reachable-Inv initial s r)

-- In every reachable state the calls of P that returned are at most as many as the initial count and
-- the calls of V; the difference is sem_count.
pub semaphore-balance :
    (initial : ℕ) (s : Semaphore)
    → Reachable initial s
    → (s.entered ≤ initial + s.released) × (s.count ≡ initial + s.released - s.entered)
semaphore-balance initial s r =
    let v = Reachable-Inv initial s r in (omega (arith, v.balance), omega (arith, v.balance))

-- No wakeup is lost: in every reachable state where a thread sleeps and sem_count is not 0, at least
-- as many threads as there are units have been woken and not run yet.
pub semaphore-wakeup :
    (initial : ℕ) (s : Semaphore) → Reachable initial s → s.sleeping ≢ [] → s.count ≤ length s.woken
semaphore-wakeup initial s r ne = elim (Reachable-Inv initial s r).awake [
  | inl e ↦ absurd (ne e)
  | inr h ↦ h
]
