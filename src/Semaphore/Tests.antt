-- ===== src/Semaphore/Tests.antt =====
-- A semaphore of no units: thread 4 sleeps in P, and a V wakes it.
use os161_kernel.Prelude.{◌≤◌, ◌≢◌, refl, [], ◌∷◌, length}
use os161_kernel.Semaphore.{
  Semaphore, sem_create, p_section, v_section, call_p, first_try, call_v, Reachable, start, next,
}
use os161_kernel.Semaphore.Wakeup.{semaphore-wakeup}

abbrev created : Semaphore
created = record { count = 0; sleeping = []; called = []; woken = []; entered = 0; released = 0 }

abbrev asleep : Semaphore
asleep = record created { sleeping = 4 ∷ 5 ∷ [] }

abbrev awake : Semaphore
awake = record created { count = 1; sleeping = 5 ∷ []; woken = 4 ∷ []; released = 1 }

awake-Reachable : Reachable 0 awake
unfolding sem_create p_section v_section
awake-Reachable =
    next asleep
      (next (record created { sleeping = 4 ∷ []; called = 5 ∷ [] })
        (next (record created { sleeping = 4 ∷ [] })
          (next (record created { called = 4 ∷ [] }) (next created (start created refl) (call_p 4))
            (first_try [] 4 [] refl))
          (call_p 5))
        (first_try [] 5 [] refl))
      (call_v awake refl)

some_sleeps : awake.sleeping ≢ []
some_sleeps e = cc

semaphore-wakeup_example : awake.count ≤ length awake.woken
semaphore-wakeup_example = semaphore-wakeup 0 awake awake-Reachable some_sleeps
