-- ===== src/Lock/Exclusion.antt =====
-- Locks and condition variables (kern/thread/synch.c) under any interleaving of the threads.
use os161_kernel.Prelude.{
  ℕ, ◌≡◌, refl, ◌≢◌, ◌⊎◌, inl, inr, true, false, Option, none, some, List, [], ◌∷◌, ◌++◌, update,
  arith, sym, ap, subst, ◌∙◌, ==-true, ==-false, ℕ_discrete,
}
use os161_kernel.Prelude.Members.{has, has_head}
use os161_kernel.Prelude.Outcome.{done, done-injective}
use os161_kernel.Lock.{
  Place, outside, asleep, woken, inside, unlocked, waiting, signalled, Lock, owned_by, lock_create,
  lock_do_i_hold, try_section, acquire_section, wake_locker, release_section, wake_waiter,
  cv_signal, wake_waiters, cv_broadcast, Step, first_try, next_try, release, wait, sleep, reacquire,
  signal, broadcast, Reachable, start, next,
}
use os161_kernel.Lock.Queues.{
  IsQueue, Holds, IsQueue-other, IsQueue-head, IsQueue-append, Holds-other, Holds-leave, Holds-take,
  update_self, update_ne,
}

-- The thread inside is the owner, the two queues hold the threads that sleep, and when the lock is
-- free while a thread sleeps for it, another one has been woken and will try.
pub record Inv (s : Lock) : Type 0 where
  pub holds : Holds s.place s.owner
  pub lockers : IsQueue asleep s.place s.queue
  pub waiters : IsQueue waiting s.place s.cv_queue
  pub awake : s.owner ≡ none → (s.queue ≡ []) ⊎ ((t : ℕ) × (s.place t ≡ woken))

pub elsewhere : {x p q : Place} → x ≡ p → p ≢ q → x ≢ q
elsewhere e ne z = ne (sym e ∙ z)

-- A thread tries that is neither inside nor on a queue.
try_section-Inv :
    (t : ℕ) (s : Lock)
    → s.place t ≢ inside
    → s.place t ≢ asleep
    → s.place t ≢ waiting
    → Inv s
    → Inv (try_section t s)
unfolding try_section
try_section-Inv t s a b c v = go s.owner refl
  where
    go : (o : Option ℕ) → s.owner ≡ o → Inv (try_section t s)
    go none e = rw e (record {
      holds = Holds-take t (subst (Holds s.place) e v.holds);
      lockers = IsQueue-other t inside b (λ z. cc) v.lockers;
      waiters = IsQueue-other t inside c (λ z. cc) v.waiters;
      awake = λ z. absurd cc;
    })
    go (some u) e = rw e (record {
      holds = Holds-other t asleep a (λ z. cc) (subst (Holds s.place) e v.holds);
      lockers = IsQueue-append t b v.lockers;
      waiters = IsQueue-other t asleep c (λ z. cc) v.waiters;
      awake = λ z. absurd cc;
    })

-- wchan_wakeone on the lock's channel.
wake_locker-Inv :
    (q : List ℕ) (s : Lock)
    → s.queue ≡ q
    → Holds s.place s.owner
    → IsQueue asleep s.place q
    → IsQueue waiting s.place s.cv_queue
    → Inv (wake_locker q s)
unfolding wake_locker
wake_locker-Inv [] s e h l w = record {
  holds = h;
  lockers = subst (IsQueue asleep s.place) (sym e) l;
  waiters = w;
  awake = λ _. inl e;
}
wake_locker-Inv (t ∷ ts) s e h l w = record {
  holds = Holds-other t woken (elsewhere at (λ z. cc)) (λ z. cc) h;
  lockers = IsQueue-head t woken (λ z. cc) l;
  waiters = IsQueue-other t woken (elsewhere at (λ z. cc)) (λ z. cc) w;
  awake = λ _. inr (t, update_self s.place woken t);
}
  where
    at : s.place t ≡ asleep
    at = l.sound t (has_head t ts)

-- The thread inside leaves, for outside or for the sleep of cv_wait.
release_section-Inv :
    (t : ℕ) (p : Place) (s : Lock)
    → s.place t ≡ inside
    → p ≢ inside
    → p ≢ asleep
    → p ≢ waiting
    → Inv s
    → Inv (release_section t p s)
unfolding release_section
release_section-Inv t p s at a b c v =
    wake_locker-Inv s.queue _ refl (Holds-leave t p at a v.holds)
      (IsQueue-other t p (elsewhere at (λ z. cc)) b v.lockers)
      (IsQueue-other t p (elsewhere at (λ z. cc)) c v.waiters)

-- A free lock with a sleeper has its woken thread still, as long as that one does not move.
still_awake :
    (s : Lock) (t : ℕ) (p : Place)
    → s.place t ≢ woken
    → (s.queue ≡ []) ⊎ ((u : ℕ) × (s.place u ≡ woken))
    → (s.queue ≡ []) ⊎ ((u : ℕ) × (update s.place t p u ≡ woken))
still_awake s t p from (inl e) = inl e
still_awake s t p from (inr (u, e)) = elim (ℕ_discrete t u) [
  | yes q ↦ absurd (from (ap s.place q ∙ e))
  | no ne ↦ inr (u, update_ne s.place p t u ne ∙ e)
]

sleep-Inv :
    (t : ℕ) (s : Lock)
    → s.place t ≡ unlocked
    → Inv s
    → Inv (record s { cv_queue = s.cv_queue ++ (t ∷ []); place = update s.place t waiting })
sleep-Inv t s at v = record {
  holds = Holds-other t waiting (elsewhere at (λ z. cc)) (λ z. cc) v.holds;
  lockers = IsQueue-other t waiting (elsewhere at (λ z. cc)) (λ z. cc) v.lockers;
  waiters = IsQueue-append t (elsewhere at (λ z. cc)) v.waiters;
  awake = λ o. still_awake s t waiting (elsewhere at (λ z. cc)) (v.awake o);
}

-- A thread that sleeps in cv_wait is woken.
signalled-Inv :
    (t : ℕ) (ts : List ℕ) (s : Lock)
    → s.cv_queue ≡ t ∷ ts
    → Inv s
    → Inv (record s { cv_queue = ts; place = update s.place t signalled })
signalled-Inv t ts s e v =
    let w : IsQueue waiting s.place (t ∷ ts) = subst (IsQueue waiting s.place) e v.waiters in
    let at : s.place t ≡ waiting = w.sound t (has_head t ts) in
    record {
      holds = Holds-other t signalled (elsewhere at (λ z. cc)) (λ z. cc) v.holds;
      lockers = IsQueue-other t signalled (elsewhere at (λ z. cc)) (λ z. cc) v.lockers;
      waiters = IsQueue-head t signalled (λ z. cc) w;
      awake = λ o. still_awake s t signalled (elsewhere at (λ z. cc)) (v.awake o);
    }

wake_waiter-Inv : (q : List ℕ) (s : Lock) → s.cv_queue ≡ q → Inv s → Inv (wake_waiter q s)
unfolding wake_waiter
wake_waiter-Inv [] s e v = v
wake_waiter-Inv (t ∷ ts) s e v = signalled-Inv t ts s e v

wake_waiters-Inv :
    (q : List ℕ) (s : Lock) → Inv (record s { cv_queue = q }) → Inv (wake_waiters q s)
unfolding wake_waiters
wake_waiters-Inv [] s v = v
wake_waiters-Inv (t ∷ ts) s v =
    wake_waiters-Inv ts (record s { place = update s.place t signalled })
      (signalled-Inv t ts (record s { cv_queue = t ∷ ts }) refl v)

-- lock_do_i_hold is right about a thread that is not inside.
not_held : (t : ℕ) (s : Lock) → s.place t ≢ inside → Inv s → lock_do_i_hold t s ≡ false
unfolding lock_do_i_hold owned_by
not_held t s out v = go s.owner refl
  where
    go : (o : Option ℕ) → s.owner ≡ o → owned_by t o ≡ false
    go none e = refl
    go (some u) e = elim (ℕ_discrete u t) [
      | yes q ↦ absurd (out (v.holds.enters t (e ∙ ap (λ (x : ℕ). some x) q)))
      | no ne ↦ ==-false ne
    ]

held : (t : ℕ) (s : Lock) → s.place t ≡ inside → Inv s → lock_do_i_hold t s ≡ true
unfolding lock_do_i_hold owned_by
held t s in_it v = ap (owned_by t) (v.holds.owns t in_it) ∙ ==-true refl

acquire_section-done :
    (t : ℕ) (s : Lock) → s.place t ≢ inside → Inv s → acquire_section t s ≡ done (try_section t s)
unfolding acquire_section
acquire_section-done t s out v = rw (not_held t s out v) refl

cv_signal-done :
    (t : ℕ) (s : Lock)
    → s.place t ≡ inside
    → Inv s
    → cv_signal t s ≡ done (wake_waiter s.cv_queue s)
unfolding cv_signal
cv_signal-done t s in_it v = rw (held t s in_it v) refl

cv_broadcast-done :
    (t : ℕ) (s : Lock)
    → s.place t ≡ inside
    → Inv s
    → cv_broadcast t s ≡ done (wake_waiters s.cv_queue s)
unfolding cv_broadcast
cv_broadcast-done t s in_it v = rw (held t s in_it v) refl

Step-Inv : {s s' : Lock} → Step s s' → Inv s → Inv s'
Step-Inv {s} (first_try t at e) v =
    let out : s.place t ≢ inside = elsewhere at (λ z. cc) in
    subst Inv (done-injective (sym (acquire_section-done t s out v) ∙ e))
      (try_section-Inv t s out (elsewhere at (λ z. cc)) (elsewhere at (λ z. cc)) v)
Step-Inv {s} (next_try t at) v =
    try_section-Inv t s (elsewhere at (λ z. cc)) (elsewhere at (λ z. cc)) (elsewhere at (λ z. cc)) v
Step-Inv {s} (release t at) v = release_section-Inv t outside s at (λ z. cc) (λ z. cc) (λ z. cc) v
Step-Inv {s} (wait t at) v = release_section-Inv t unlocked s at (λ z. cc) (λ z. cc) (λ z. cc) v
Step-Inv {s} (sleep t at) v = sleep-Inv t s at v
Step-Inv {s} (reacquire t at e) v =
    let out : s.place t ≢ inside = elsewhere at (λ z. cc) in
    subst Inv (done-injective (sym (acquire_section-done t s out v) ∙ e))
      (try_section-Inv t s out (elsewhere at (λ z. cc)) (elsewhere at (λ z. cc)) v)
Step-Inv {s} (signal t at e) v =
    subst Inv (done-injective (sym (cv_signal-done t s at v) ∙ e))
      (wake_waiter-Inv s.cv_queue s refl v)
Step-Inv {s} (broadcast t at e) v =
    subst Inv (done-injective (sym (cv_broadcast-done t s at v) ∙ e))
      (wake_waiters-Inv s.cv_queue s v)

Reachable-Inv : {s : Lock} → Reachable s → Inv s
unfolding lock_create
Reachable-Inv start = record {
  holds = record { owns = λ t e. absurd cc; enters = λ t e. absurd cc };
  lockers = record { sound = λ t h. cc; complete = λ t e. absurd cc; once = tt };
  waiters = record { sound = λ t h. cc; complete = λ t e. absurd cc; once = tt };
  awake = λ o. inl refl;
}
Reachable-Inv (next s r step) = Step-Inv step (Reachable-Inv r)

-- In a reachable state two threads that have returned from lock_acquire are the same one, and
-- lock_do_i_hold answers true for it; for every other thread it answers false.
pub lock-exclusion :
    {s : Lock}
    → Reachable s
    → (t u : ℕ) → s.place t ≡ inside
    → (s.place u ≡ inside → t ≡ u)
      × (lock_do_i_hold t s ≡ true)
      × (s.place u ≢ inside → lock_do_i_hold u s ≡ false)
lock-exclusion {s} r t u at =
    let v = Reachable-Inv r in
    (
      λ e. some-injective (sym (v.holds.owns t at) ∙ v.holds.owns u e),
      held t s at v,
      λ out. not_held u s out v,
    )
  where
    some-injective : {a b : ℕ} → some a ≡ some b → a ≡ b
    some-injective e = cc

-- In a reachable state no KASSERT fails: lock_acquire of a thread outside, or back from the sleep of
-- cv_wait, goes on to its first try, and cv_signal and cv_broadcast of the thread inside return.
pub lock-asserts :
    {s : Lock}
    → Reachable s
    → (t : ℕ)
    → ((s.place t ≡ outside) ⊎ (s.place t ≡ signalled)
        → acquire_section t s ≡ done (try_section t s))
      × (s.place t ≡ inside
          → (cv_signal t s ≡ done (wake_waiter s.cv_queue s))
            × (cv_broadcast t s ≡ done (wake_waiters s.cv_queue s)))
lock-asserts {s} r t =
    let v = Reachable-Inv r in
    (
      λ h.
          acquire_section-done t s
            (elim h [ inl e ↦ elsewhere e (λ z. cc) | inr e ↦ elsewhere e (λ z. cc) ]) v,
      λ e. (cv_signal-done t s e v, cv_broadcast-done t s e v),
    )

-- In a reachable state in which a thread sleeps for the lock, a thread is inside, or one that was
-- woken takes the lock if it is the next to try.
pub lock-progress :
    {s : Lock}
    → Reachable s
    → (t : ℕ) → s.place t ≡ asleep
    → ((u : ℕ) × (s.place u ≡ inside))
      ⊎ ((u : ℕ) × (s.place u ≡ woken) × ((try_section u s).place u ≡ inside))
unfolding try_section
lock-progress {s} r t at = go s.owner refl
  where
    v : Inv s
    v = Reachable-Inv r

    go :
        (o : Option ℕ)
        → s.owner ≡ o
        → ((u : ℕ) × (s.place u ≡ inside))
          ⊎ ((u : ℕ) × (s.place u ≡ woken) × ((try_section u s).place u ≡ inside))
    go (some u) e = inl (u, v.holds.enters u e)
    go none e = elim (v.awake e) [
      | inl empty ↦ absurd (ground (arith, v.lockers.complete t at, ap (has t) empty))
      | inr (u, w) ↦ inr (u, w, rw e (update_self s.place inside u))
    ]
