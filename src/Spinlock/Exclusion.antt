-- ===== src/Spinlock/Exclusion.antt =====
-- spinlock_acquire and spinlock_release (kern/thread/spinlock.c) on any number of processors.
use os161_kernel.Prelude.{
  ℕ, ◌≡◌, refl, sym, ap, ◌∙◌, ◌≢◌, Bool, true, false, none, some, Bool-cases, inl, inr, ==-true,
  ==-false, if◌then◌else◌, arith, ℕ_discrete, subst,
}
use os161_kernel.Spinlock.{
  spinlock_init, spinlock_do_i_hold, holds, Place, outside, reading, testing, owning, inside,
  leaving, System, move, goes, Step, enter, read_taken, read_free, test_taken, test_free,
  set_holder, reset_holder, reset_lock, Reachable, start, next,
}

-- The processor has the lock word; and it is in the critical section.
abbrev pub busy : Place → Bool
busy outside = false
busy reading = false
busy testing = false
busy owning = true
busy inside = true
busy leaving = true

abbrev pub is_inside : Place → Bool
is_inside outside = false
is_inside reading = false
is_inside testing = false
is_inside owning = false
is_inside inside = true
is_inside leaving = false

-- Nobody has the lock word, or one processor has, and lk_holder names it while it is inside.
data Inv (s : System) : Type 0 where
  free : s.lk.lock ≡ 0 → s.lk.holder ≡ none → ((c : ℕ) → busy (s.place c) ≡ false) → Inv s
  owned :
      (c : ℕ)
      → s.lk.lock ≡ 1
      → busy (s.place c) ≡ true
      → ((d : ℕ) → busy (s.place d) ≡ true → d ≡ c)
      → s.lk.holder ≡ (if is_inside (s.place c) then some c else none)
      → Inv s

move_self : (f : ℕ → Place) (c : ℕ) (p : Place) → move f c p c ≡ p
move_self f c p = ground arith

-- A move between two places that do not have the lock word.
idle_change :
    (s : System) (c : ℕ) (p : Place)
    → busy (s.place c) ≡ false
    → busy p ≡ false
    → Inv s
    → Inv (goes s c p)
idle_change s c p from to (free l h all) = free l h (λ d. ground (arith, all d))
idle_change s c p from to (owned x l b only h) =
    let ne : c ≢ x = λ e. ground (arith, ap (λ k. busy (s.place k)) e) in
    owned x l (rw (==-false ne) b)
      (λ d e. elim (ℕ_discrete c d) [
        | yes q ↦ absurd (ground arith)
        | no nd ↦ only d (ground arith)
      ])
      (rw (==-false ne) h)

-- A move of the processor that has the lock word, with the holder that belongs to its new place.
busy_change :
    (s : System) (c : ℕ) (p : Place)
    → busy (s.place c) ≡ true
    → busy p ≡ true
    → Inv s
    → Inv (record s {
      lk = record s.lk { holder = if is_inside p then some c else none };
      place = move s.place c p;
    })
busy_change s c p from to (free l h all) = absurd (ground (arith, all c))
busy_change s c p from to (owned x l b only h) =
    owned c l (ap busy (move_self s.place c p) ∙ to)
      (λ d e. elim (ℕ_discrete c d) [
        | yes q ↦ sym q
        | no nd ↦ only d (ground arith) ∙ sym (only c from)
      ])
      (rw (move_self s.place c p) refl)

take_lock :
    (s : System) (c : ℕ)
    → s.lk.lock ≡ 0
    → Inv s
    → Inv (record s { lk = record s.lk { lock = 1 }; place = move s.place c owning })
take_lock s c z (owned x l b only h) = absurd (omega arith)
take_lock s c z (free l h all) =
    owned c refl (ap busy (move_self s.place c owning))
      (λ d e. elim (ℕ_discrete c d) [ yes q ↦ sym q | no nd ↦ absurd (ground (arith, all d)) ])
      (h ∙ rw (move_self s.place c owning) refl)

give_lock :
    (s : System) (c : ℕ)
    → s.place c ≡ leaving
    → Inv s
    → Inv (record s { lk = record s.lk { lock = 0 }; place = move s.place c outside })
give_lock s c at (free l h all) = absurd (ground (arith, all c))
give_lock s c at (owned x l b only h) =
    let same : c ≡ x = only c (ap busy at) in
    free refl (h ∙ rw (sym same, at) refl) (λ d. elim (ℕ_discrete c d) [
      | yes q ↦ rw (==-true q) refl
      | no nd ↦ rw (==-false nd) (others d nd same)
    ])
  where
    others : (d : ℕ) → c ≢ d → c ≡ x → busy (s.place d) ≡ false
    others d nd same = elim (Bool-cases (busy (s.place d))) [
      | inl t ↦ absurd (nd (same ∙ sym (only d t)))
      | inr e ↦ e
    ]

still_taken :
    (s : System) → s.lk.lock ≢ 0 → Inv s → Inv (record s { lk = record s.lk { lock = 1 } })
still_taken s ne (free l h all) = absurd (ne l)
still_taken s ne (owned x l b only h) = owned x refl b only h

not_busy : (p : Place) → busy p ≡ false → is_inside p ≡ false
not_busy outside h = refl
not_busy reading h = refl
not_busy testing h = refl
not_busy owning h = refl
not_busy inside h = h
not_busy leaving h = refl

Step-Inv : (s s' : System) → Step s s' → Inv s → Inv s'
Step-Inv s _ (enter c at h) v = idle_change s c reading (ap busy at) refl v
Step-Inv s _ (read_taken c at h) v = v
Step-Inv s _ (read_free c at h) v = idle_change s c testing (ap busy at) refl v
Step-Inv s _ (test_taken c at h) v =
    idle_change (record s { lk = record s.lk { lock = 1 } }) c reading (ap busy at) refl
      (still_taken s h v)
Step-Inv s _ (test_free c at h) v = take_lock s c h v
Step-Inv s _ (set_holder c at) v = busy_change s c inside (ap busy at) refl v
Step-Inv s _ (reset_holder c at h) v = busy_change s c leaving (ap busy at) refl v
Step-Inv s _ (reset_lock c at) v = give_lock s c at v

Reachable-Inv : (s : System) → Reachable s → Inv s
unfolding spinlock_init
Reachable-Inv _ start = free refl refl (λ c. refl)
Reachable-Inv _ (next s {s'} r t) = Step-Inv s s' t (Reachable-Inv s r)

-- In every reachable state, two processors that have the lock word (that is, are between their
-- test-and-set and the reset of the word) are the same one.
pub spinlock-exclusion :
    (s : System)
    → Reachable s
    → (c d : ℕ) → busy (s.place c) ≡ true
    → busy (s.place d) ≡ true
    → c ≡ d
spinlock-exclusion s r c d hc hd = elim (Reachable-Inv s r) [
  | free l h all ↦ absurd (ground (arith, all c))
  | owned x l b only h ↦ only c hc ∙ sym (only d hd)
]

-- In every reachable state spinlock_do_i_hold answers true on exactly the processor that is in the
-- critical section. So the panic of spinlock_acquire does not come to a processor that is outside,
-- and the KASSERT of spinlock_release does not fail on one that is inside.
pub spinlock_do_i_hold-is_inside :
    (s : System) → Reachable s → (c : ℕ) → spinlock_do_i_hold s.lk c ≡ is_inside (s.place c)
spinlock_do_i_hold-is_inside s r c = elim (Reachable-Inv s r) [
  | free l h all ↦ rw (h, not_busy (s.place c) (all c)) refl
  | owned x l b only h ↦ elim (ℕ_discrete x c) [
    | yes e ↦
        subst (λ k. holds s.lk k ≡ is_inside (s.place k)) e
          (elim (Bool-cases (is_inside (s.place x))) [
            | inl i ↦ ground (arith, h, i)
            | inr o ↦ ground (arith, h, o)
          ])
    | no ne ↦ elim (Bool-cases (busy (s.place c))) [
      | inl t ↦ absurd (ne (sym (only c t)))
      | inr i ↦ rw (not_busy (s.place c) i) (elim (Bool-cases (is_inside (s.place x))) [
        | inl y ↦ ground (arith, h, y)
        | inr y ↦ ground (arith, h, y)
      ])
    ]
  ]
]
