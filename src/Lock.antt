-- ===== src/Lock.antt =====
-- The locks and condition variables of kern/thread/synch.c, one of each, with wchan_sleep,
-- wchan_wakeone and wchan_wakeall of kern/thread/thread.c. A section between spinlock_acquire and
-- spinlock_release of lk_lock is one step; so are its test and the sleep that follows, since the
-- wait channel is locked before lk_lock is released.
pub mod Queues
pub mod Exclusion
pub mod Missed
mod Tests
use os161_kernel.Prelude.{
  ℕ, ◌≡◌, Bool, true, false, Option, none, some, List, [], ◌∷◌, ◌++◌, ◌==◌, not, update,
}
use os161_kernel.Prelude.Outcome.{Outcome, done, panic, ◌>>=◌, ◌>>◌, kassert}

-- Where a thread is: it has not called; it sleeps in lock_acquire, or has been woken there and has to
-- try again; it has returned from lock_acquire; in cv_wait it has released the lock and goes to
-- sleep, or sleeps, or has been woken and is to call lock_acquire.
pub data Place : Type 0 where
  outside asleep woken inside unlocked waiting signalled : Place

-- struct lock, struct cv and the threads. `queue` and `cv_queue` are the queues of the wait channels.
pub record Lock : Type 0 where
  pub owner : Option ℕ
  pub queue : List ℕ
  pub cv_queue : List ℕ
  pub place : ℕ → Place

pub lock_create : Lock
lock_create = record { owner = none; queue = []; cv_queue = []; place = λ t. outside }

-- Is the lock's owner the thread `t`?
pub owned_by : ℕ → Option ℕ → Bool
owned_by t none = false
owned_by t (some u) = u == t

pub lock_do_i_hold : ℕ → Lock → Bool
lock_do_i_hold t s = owned_by t s.owner

-- A round of the loop of lock_acquire: the thread takes the lock, or goes to sleep.
pub try_section : ℕ → Lock → Lock
try_section t s = elim s.owner [
  | none ↦ record s { owner = some t; place = update s.place t inside }
  | some u ↦ record s { queue = s.queue ++ (t ∷ []); place = update s.place t asleep }
]

-- lock_acquire up to the first sleep.
pub acquire_section : ℕ → Lock → Outcome Lock
acquire_section t s = kassert (not (lock_do_i_hold t s)) >> done (try_section t s)

-- wchan_wakeone on lk_wchan.
pub wake_locker : List ℕ → Lock → Lock
wake_locker [] s = s
wake_locker (t ∷ ts) s = record s { queue = ts; place = update s.place t woken }

-- lock_release; the thread is at `next` then.
pub release_section : ℕ → Place → Lock → Lock
release_section t next s =
    wake_locker s.queue (record s { owner = none; place = update s.place t next })

-- cv_signal
pub wake_waiter : List ℕ → Lock → Lock
wake_waiter [] s = s
wake_waiter (t ∷ ts) s = record s { cv_queue = ts; place = update s.place t signalled }

pub cv_signal : ℕ → Lock → Outcome Lock
cv_signal t s = kassert (lock_do_i_hold t s) >> done (wake_waiter s.cv_queue s)

-- wchan_wakeall on cv_wchan, and cv_broadcast.
pub wake_waiters : List ℕ → Lock → Lock
wake_waiters [] s = record s { cv_queue = [] }
wake_waiters (t ∷ ts) s = wake_waiters ts (record s { place = update s.place t signalled })

pub cv_broadcast : ℕ → Lock → Outcome Lock
cv_broadcast t s = kassert (lock_do_i_hold t s) >> done (wake_waiters s.cv_queue s)

-- The steps of threads of which only the one inside releases, waits and signals.
pub data Step (s : Lock) : Lock → Type 0 where
  first_try : (t : ℕ) {s' : Lock} → s.place t ≡ outside → acquire_section t s ≡ done s' → Step s s'
  next_try : (t : ℕ) → s.place t ≡ woken → Step s (try_section t s)
  release : (t : ℕ) → s.place t ≡ inside → Step s (release_section t outside s)
  wait : (t : ℕ) → s.place t ≡ inside → Step s (release_section t unlocked s)
  sleep :
      (t : ℕ)
      → s.place t ≡ unlocked
      → Step s (record s { cv_queue = s.cv_queue ++ (t ∷ []); place = update s.place t waiting })
  reacquire :
      (t : ℕ) {s' : Lock} → s.place t ≡ signalled → acquire_section t s ≡ done s' → Step s s'
  signal : (t : ℕ) {s' : Lock} → s.place t ≡ inside → cv_signal t s ≡ done s' → Step s s'
  broadcast : (t : ℕ) {s' : Lock} → s.place t ≡ inside → cv_broadcast t s ≡ done s' → Step s s'

pub data Reachable : Lock → Type 0 where
  start : Reachable lock_create
  next : (s : Lock) {s' : Lock} → Reachable s → Step s s' → Reachable s'
