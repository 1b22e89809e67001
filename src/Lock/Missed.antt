-- ===== src/Lock/Missed.antt =====
-- cv_wait (kern/thread/synch.c) gives the lock up before it locks the wait channel.
use os161_kernel.Prelude.{
  ℕ, ◌≡◌, refl, ◌≢◌, none, some, List, [], ◌∷◌, ◌++◌, update, sym, ap, subst, ◌∙◌, ==-true,
}
use os161_kernel.Prelude.Outcome.{done}
use os161_kernel.Lock.{
  Place, outside, inside, unlocked, waiting, Lock, owned_by, lock_do_i_hold, try_section,
  acquire_section, wake_locker, release_section, wake_waiter, cv_signal, Step, first_try, release,
  wait, sleep, Reachable, next,
}
use os161_kernel.Lock.Queues.{update_self, update_ne}

release_section-empty :
    (t : ℕ) (p : Place) (s : Lock)
    → s.queue ≡ []
    → release_section t p s ≡ record s { owner = none; place = update s.place t p }
unfolding release_section wake_locker
release_section-empty t p s e = go s.queue e
  where
    go :
        (q : List ℕ)
        → q ≡ []
        → wake_locker q (record s { owner = none; place = update s.place t p })
          ≡ record s { owner = none; place = update s.place t p }
    go [] e = refl
    go (x ∷ xs) e = absurd cc

wake_waiter-empty : (q : List ℕ) (s : Lock) → q ≡ [] → wake_waiter q s ≡ s
unfolding wake_waiter
wake_waiter-empty [] s e = refl
wake_waiter-empty (x ∷ xs) s e = absurd cc

-- In a reachable state in which nobody sleeps, let the thread `t` inside call cv_wait, and the thread
-- `u` be outside. Then a state is reachable in which `t` has released the lock, `u` holds it and
-- the cv_signal of `u` wakes nobody; and two steps later `t` sleeps, alone on the queue.
pub cv_wait-missed :
    {s : Lock}
    → Reachable s
    → (t u : ℕ) → s.place t ≡ inside
    → s.place u ≡ outside
    → s.queue ≡ []
    → s.cv_queue ≡ []
    → (s2 : Lock) × (s3 : Lock) × (s4 : Lock) × Reachable s2
      × (s2.place t ≡ unlocked)
      × (cv_signal u s2 ≡ done s2)
      × Step s2 s3
      × Step s3 s4
      × (s4.place t ≡ waiting)
      × (s4.cv_queue ≡ t ∷ [])
unfolding acquire_section lock_do_i_hold owned_by try_section cv_signal
cv_wait-missed {s} r t u at_t at_u e c = (
  s2,
  s3,
  s4,
  next s1 r1 (first_try u (update_ne s.place unlocked t u apart ∙ at_u) refl),
  going,
  rw (==-true (refl {a = u})) (ap done (wake_waiter-empty s.cv_queue s2 c)),
  subst (Step s2) (release_section-empty u outside s2 e)
      (release u (update_self s1.place inside u)),
  sleep t (update_ne s2.place outside u t back ∙ going),
  update_self s3.place waiting t,
  ap (λ q. q ++ (t ∷ [])) c,
)
  where
    apart : t ≢ u
    apart q = clash (sym at_t ∙ ap s.place q ∙ at_u)
      where
        clash : inside ≡ outside → ⊥
        clash z = cc

    back : u ≢ t
    back q = apart (sym q)

    s1 : Lock
    s1 = record s { owner = none; place = update s.place t unlocked }

    r1 : Reachable s1
    r1 = subst Reachable (release_section-empty t unlocked s e) (next s r (wait t at_t))

    s2 : Lock
    s2 = record s1 { owner = some u; place = update s1.place u inside }

    s3 : Lock
    s3 = record s2 { owner = none; place = update s2.place u outside }

    s4 : Lock
    s4 = record s3 { cv_queue = s3.cv_queue ++ (t ∷ []); place = update s3.place t waiting }

    going : s2.place t ≡ unlocked
    going = update_ne s1.place inside u t back ∙ update_self s.place unlocked t
