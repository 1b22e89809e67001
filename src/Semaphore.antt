-- ===== src/Semaphore.antt =====
-- The semaphores of kern/thread/synch.c, with wchan_sleep and wchan_wakeone of kern/thread/thread.c.
-- A section between spinlock_acquire and spinlock_release of sem_lock is one step. A thread that goes
-- to sleep locks the wait channel before it releases sem_lock, and V locks the channel inside its
-- section, so no V comes between the test of sem_count and the sleep: they are one step too.
pub mod Wakeup
mod Tests
use os161_kernel.Prelude.{
  ℕ, ◌+◌, ◌-◌, ◌%◌, ◌^◌, ◌<◌, ◌≡◌, Bool, true, false, List, [], ◌∷◌, ◌++◌, ltb, leb, ◌==◌,
  if◌then◌else◌,
}
use os161_kernel.Prelude.Outcome.{Outcome, done, panic, ◌>>=◌, ◌>>◌, kassert}

-- struct semaphore. `sleeping` is the queue of its wait channel; of the threads in P that wait for
-- sem_lock, `called` are those that have not had it yet and `woken` those that have slept.
-- `entered` and `released` count the calls of P that returned and those of V.
pub record Semaphore : Type 0 where
  pub count : ℕ
  pub sleeping : List ℕ
  pub called : List ℕ
  pub woken : List ℕ
  pub entered : ℕ
  pub released : ℕ

pub sem_create : ℕ → Outcome Semaphore
sem_create initial_count = do
  kassert (ltb initial_count (2 ^ 31))
  done (record {
    count = initial_count;
    sleeping = [];
    called = [];
    woken = [];
    entered = 0;
    released = 0;
  })

-- P, from the acquisition of sem_lock on: the thread takes a unit, or goes to sleep.
pub p_section : ℕ → Semaphore → Semaphore
p_section t s =
    if s.count == 0
    then record s { sleeping = s.sleeping ++ (t ∷ []) }
    else record s { count = s.count - 1; entered = s.entered + 1 }

-- wchan_wakeone: the first thread of the queue is made runnable.
abbrev pub wakeone : List ℕ → Semaphore → Semaphore
wakeone [] s = s
wakeone (t ∷ ts) s = record s { sleeping = ts; woken = t ∷ s.woken }

-- V; sem_count is an int, and its overflow fails the KASSERT.
pub v_section : Semaphore → Outcome Semaphore
v_section s = do
  let count = (s.count + 1) % 2 ^ 32
  kassert (ltb 0 count)
  kassert (ltb count (2 ^ 31))
  done (wakeone s.sleeping (record s { count = count; released = s.released + 1 }))

pub data Step (s : Semaphore) : Semaphore → Type 0 where
  call_p : (t : ℕ) → Step s (record s { called = t ∷ s.called })
  first_try :
      (before : List ℕ) (t : ℕ) (after : List ℕ)
      → s.called ≡ before ++ t ∷ after
      → Step s (p_section t (record s { called = before ++ after }))
  next_try :
      (before : List ℕ) (t : ℕ) (after : List ℕ)
      → s.woken ≡ before ++ t ∷ after
      → Step s (p_section t (record s { woken = before ++ after }))
  call_v : (s' : Semaphore) → v_section s ≡ done s' → Step s s'

pub data Reachable (initial : ℕ) : Semaphore → Type 0 where
  start : (s : Semaphore) → sem_create initial ≡ done s → Reachable initial s
  next : (s : Semaphore) {s' : Semaphore} → Reachable initial s → Step s s' → Reachable initial s'
