-- ===== src/Spinlock.antt =====
-- kern/thread/spl.c and kern/thread/spinlock.c: the interrupt level of a thread, and the lock that
-- processors spin on. CURCPU_EXISTS() is taken as true: the system is past the start of the first
-- processor.
pub mod Level
pub mod Exclusion
mod Tests
use os161_kernel.Prelude.{
  ℕ, ◌+◌, ◌-◌, ◌%◌, ◌^◌, ◌≡◌, ◌≢◌, Bool, true, false, Option, none, some, ltb, ◌==◌, if◌then◌else◌,
}
use os161_kernel.Prelude.Outcome.{Outcome, done, panic, ◌>>=◌, ◌>>◌, kassert}

-- What the interrupt level concerns of struct thread, and whether the processor takes interrupts.
-- IPL_NONE is 0 and IPL_HIGH is 1.
pub record Thread : Type 0 where
  pub curspl : ℕ
  pub iplhigh_count : ℕ
  pub irq_on : Bool

pub splraise : ℕ → ℕ → Thread → Outcome Thread
splraise oldspl newspl t = do
  kassert (oldspl == 0)
  kassert (newspl == 1)
  done (record t {
    irq_on = if t.iplhigh_count == 0 then false else t.irq_on;
    iplhigh_count = (t.iplhigh_count + 1) % 2 ^ 32;
  })

pub spllower : ℕ → ℕ → Thread → Outcome Thread
spllower oldspl newspl t = do
  kassert (oldspl == 1)
  kassert (newspl == 0)
  let count = (t.iplhigh_count + 2 ^ 32 - 1) % 2 ^ 32
  done (record t { irq_on = if count == 0 then true else t.irq_on; iplhigh_count = count })

-- The old level, which splx returns, and the thread after it.
pub splx : ℕ → Thread → Outcome (ℕ × Thread)
splx spl t =
    if ltb t.curspl spl
    then (splraise t.curspl spl t >>= λ u. done (t.curspl, record u { curspl = spl }))
    else if ltb spl t.curspl
    then (spllower t.curspl spl (record t { curspl = spl }) >>= λ u. done (t.curspl, u))
    else done (spl, t)

-- struct spinlock; a processor is a number.
pub record Spinlock : Type 0 where
  pub lock : ℕ
  pub holder : Option ℕ

pub spinlock_init : Spinlock
spinlock_init = record { lock = 0; holder = none }

abbrev pub holds : Spinlock → ℕ → Bool
holds lk cpu = elim lk.holder [ none ↦ false | some c ↦ c == cpu ]

abbrev pub spinlock_do_i_hold : Spinlock → ℕ → Bool
spinlock_do_i_hold lk cpu = holds lk cpu

unfoldable pub spinlock_cleanup : Spinlock → Outcome (Unit {0})
spinlock_cleanup lk = do
  kassert (elim lk.holder [ none ↦ true | some c ↦ false ])
  kassert (lk.lock == 0)
  done tt

-- Where a processor is in the code: outside; after the test for a deadlock, about to read the lock
-- word; about to test and set it; about to write lk_holder; in the critical section; and in
-- spinlock_release, after lk_holder has been reset.
pub data Place : Type 0 where
  outside reading testing owning inside leaving : Place

-- All processors, and the lock that they share.
pub record System : Type 0 where
  pub lk : Spinlock
  pub place : ℕ → Place

abbrev pub move : (ℕ → Place) → ℕ → Place → ℕ → Place
move f c p d = if c == d then p else f d

abbrev pub goes : System → ℕ → Place → System
goes s c p = record s { place = move s.place c p }

-- One step of processor `c` in spinlock_acquire or spinlock_release, one access to the lock each.
-- The guards on lk_holder are those of the panic in spinlock_acquire and the KASSERT in
-- spinlock_release: where one fails the kernel stops and there is no step.
pub data Step (s : System) : System → Type 0 where
  enter : (c : ℕ) → s.place c ≡ outside → holds s.lk c ≡ false → Step s (goes s c reading)
  read_taken : (c : ℕ) → s.place c ≡ reading → s.lk.lock ≢ 0 → Step s s
  read_free : (c : ℕ) → s.place c ≡ reading → s.lk.lock ≡ 0 → Step s (goes s c testing)
  test_taken :
      (c : ℕ)
      → s.place c ≡ testing
      → s.lk.lock ≢ 0
      → Step s (record s { lk = record s.lk { lock = 1 }; place = move s.place c reading })
  test_free :
      (c : ℕ)
      → s.place c ≡ testing
      → s.lk.lock ≡ 0
      → Step s (record s { lk = record s.lk { lock = 1 }; place = move s.place c owning })
  set_holder :
      (c : ℕ)
      → s.place c ≡ owning
      → Step s (record s { lk = record s.lk { holder = some c }; place = move s.place c inside })
  reset_holder :
      (c : ℕ)
      → s.place c ≡ inside
      → holds s.lk c ≡ true
      → Step s (record s { lk = record s.lk { holder = none }; place = move s.place c leaving })
  reset_lock :
      (c : ℕ)
      → s.place c ≡ leaving
      → Step s (record s { lk = record s.lk { lock = 0 }; place = move s.place c outside })

pub data Reachable : System → Type 0 where
  start : Reachable (record { lk = spinlock_init; place = λ c. outside })
  next : (s : System) {s' : System} → Reachable s → Step s s' → Reachable s'
