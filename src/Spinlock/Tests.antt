-- ===== src/Spinlock/Tests.antt =====
-- A thread with interrupts on; and a lock that processor 3 takes.
use os161_kernel.Prelude.{ℕ, ◌≡◌, refl, true, none, some, arith}
use os161_kernel.Spinlock.{
  Thread, System, spinlock_init, outside, reading, testing, owning, inside, goes, move, enter,
  read_free, test_free, set_holder, Reachable, start, next,
}
use os161_kernel.Spinlock.Level.{IsValid}
use os161_kernel.Spinlock.Exclusion.{spinlock-exclusion}

abbrev thread : Thread
thread = record { curspl = 0; iplhigh_count = 0; irq_on = true }

thread-IsValid : IsValid thread
thread-IsValid = record { level = omega arith; counted = omega arith; irq = refl }

abbrev idle : System
idle = record { lk = record { lock = 0; holder = none }; place = λ c. outside }

abbrev entered : System
entered = goes idle 3 reading

abbrev about : System
about = goes entered 3 testing

abbrev taken : System
taken = record about { lk = record { lock = 1; holder = none }; place = move about.place 3 owning }

abbrev held : System
held = record taken { lk = record { lock = 1; holder = some 3 }; place = move taken.place 3 inside }

held-Reachable : Reachable held
unfolding spinlock_init
held-Reachable =
    next taken
      (next about (next entered (next idle start (enter 3 refl refl)) (read_free 3 refl refl))
        (test_free 3 refl refl))
      (set_holder 3 refl)

spinlock-exclusion_example : ◌≡◌ {A = ℕ} 3 3
spinlock-exclusion_example = spinlock-exclusion held held-Reachable 3 3 refl refl
