-- ===== src/Rwlock.antt =====
-- The readers' and writers' lock of kern/thread/synch.c. What a thread does between taking rw_lock and
-- giving it back, or going to sleep, is one step; a writer that goes on keeps rw_lock. The source gives
-- rw_lock back before wchan_sleep has put the thread into its list, with the channel locked: other
-- threads may run in between, which the steps here leave out.
pub mod Overlap
mod Tests
use os161_kernel.Prelude.{
  ℕ, ◌+◌, ◌-◌, ◌%◌, ◌^◌, ◌≡◌, Option, none, some, List, [], ◌∷◌, ◌++◌, ltb, ◌==◌, if◌then◌else◌,
  update, length,
}

-- Where a thread is: it has not called; it sleeps as a reader or as a writer, or has been woken; it has
-- returned from rw_acquire.
pub data Stage : Type 0 where
  away reader_asleep reader_woken reading writer_asleep writer_woken writing : Stage

-- struct rwlock, and the threads. `holder` has rw_lock.
pub record Rwlock : Type 0 where
  pub count : ℕ
  pub rd_queue : List ℕ
  pub wr_queue : List ℕ
  pub holder : Option ℕ
  pub stage : ℕ → Stage

pub rw_create : Rwlock
rw_create = record { count = 0; rd_queue = []; wr_queue = []; holder = none; stage = λ t. away }

-- rw_acquire for reading, from "rw->count++" on.
pub start_reading : ℕ → Rwlock → Rwlock
start_reading t s = record s { count = s.count + 1; stage = update s.stage t reading }

-- rw_acquire for reading, up to the sleep if there is one.
pub acquire_read : ℕ → Rwlock → Rwlock
acquire_read t s =
    if ltb (length s.rd_queue) (length s.wr_queue)
    then record s { rd_queue = s.rd_queue ++ (t ∷ []); stage = update s.stage t reader_asleep }
    else start_reading t s

-- The writer goes on, and keeps rw_lock.
pub start_writing : ℕ → Rwlock → Rwlock
start_writing t s = record s { holder = some t; stage = update s.stage t writing }

pub acquire_write : ℕ → Rwlock → Rwlock
acquire_write t s =
    if s.count == 0
    then start_writing t s
    else record s { wr_queue = s.wr_queue ++ (t ∷ []); stage = update s.stage t writer_asleep }

-- wchan_wakeone on wr_wchan.
pub wake_writer : List ℕ → Rwlock → Rwlock
wake_writer [] s = s
wake_writer (t ∷ ts) s = record s { wr_queue = ts; stage = update s.stage t writer_woken }

-- wchan_wakeall on rd_wchan.
pub wake_readers : List ℕ → Rwlock → Rwlock
wake_readers [] s = record s { rd_queue = [] }
wake_readers (t ∷ ts) s = wake_readers ts (record s { stage = update s.stage t reader_woken })

-- rw_release of a reader, which has counted itself.
pub release_read : ℕ → Rwlock → Rwlock
release_read t s =
    let s1 = record s { count = s.count - 1; stage = update s.stage t away } in
    if s1.count == 0 then wake_writer s1.wr_queue s1 else s1

pub release_write : ℕ → Rwlock → Rwlock
release_write t s =
    let s1 = record s { holder = none; stage = update s.stage t away } in
    if ltb (length s1.wr_queue) (length s1.rd_queue)
    then wake_readers s1.rd_queue s1
    else wake_writer s1.wr_queue s1

-- Every step but the release of a writer begins with lock_acquire of rw_lock, which must be free.
pub data Step (s : Rwlock) : Rwlock → Type 0 where
  call_read : (t : ℕ) → s.holder ≡ none → s.stage t ≡ away → Step s (acquire_read t s)
  resume_read : (t : ℕ) → s.holder ≡ none → s.stage t ≡ reader_woken → Step s (start_reading t s)
  call_write : (t : ℕ) → s.holder ≡ none → s.stage t ≡ away → Step s (acquire_write t s)
  resume_write : (t : ℕ) → s.holder ≡ none → s.stage t ≡ writer_woken → Step s (start_writing t s)
  done_reading : (t : ℕ) → s.holder ≡ none → s.stage t ≡ reading → Step s (release_read t s)
  done_writing : (t : ℕ) → s.stage t ≡ writing → Step s (release_write t s)

pub data Reachable : Rwlock → Type 0 where
  start : Reachable rw_create
  next : (s : Rwlock) {s' : Rwlock} → Reachable s → Step s s' → Reachable s'
