-- ===== src/Lock/Tests.antt =====
-- A lock of kern/thread/synch.c that thread 1 has taken and for which thread 2 sleeps.
use os161_kernel.Prelude.{ℕ, ◌≡◌, refl, ◌≢◌, ◌⊎◌, true, false, [], ◌∷◌}
use os161_kernel.Prelude.Outcome.{done}
use os161_kernel.Lock.{
  inside, woken, unlocked, waiting, Lock, lock_create, owned_by, lock_do_i_hold, try_section,
  acquire_section, cv_signal, Step, first_try, Reachable, start, next,
}
use os161_kernel.Lock.Exclusion.{lock-exclusion, lock-progress}
use os161_kernel.Lock.Missed.{cv_wait-missed}

abbrev taken : Lock
taken = try_section 1 lock_create

abbrev contended : Lock
contended = try_section 2 taken

taken-Reachable : Reachable taken
unfolding acquire_section lock_do_i_hold owned_by lock_create
taken-Reachable = next lock_create start (first_try 1 refl refl)

contended-Reachable : Reachable contended
unfolding acquire_section lock_do_i_hold owned_by lock_create try_section
contended-Reachable = next taken taken-Reachable (first_try 2 refl refl)

lock-exclusion_example :
    (contended.place 2 ≡ inside → ◌≡◌ {A = ℕ} 1 2)
    × (lock_do_i_hold 1 contended ≡ true)
    × (contended.place 2 ≢ inside → lock_do_i_hold 2 contended ≡ false)
unfolding lock_create try_section
lock-exclusion_example = lock-exclusion contended-Reachable 1 2 refl

lock-progress_example :
    ((u : ℕ) × (contended.place u ≡ inside))
    ⊎ ((u : ℕ) × (contended.place u ≡ woken) × ((try_section u contended).place u ≡ inside))
unfolding lock_create try_section
lock-progress_example = lock-progress contended-Reachable 2 refl

cv_wait-missed_example :
    (s2 : Lock) × (s3 : Lock) × (s4 : Lock) × Reachable s2
    × (s2.place 1 ≡ unlocked)
    × (cv_signal 2 s2 ≡ done s2)
    × Step s2 s3
    × Step s3 s4
    × (s4.place 1 ≡ waiting)
    × (s4.cv_queue ≡ 1 ∷ [])
unfolding lock_create try_section
cv_wait-missed_example = cv_wait-missed taken-Reachable 1 2 refl refl refl refl
