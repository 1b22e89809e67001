-- ===== src/Schedule.antt =====
-- schedule (kern/thread/thread.c), on the run queue of a processor: a list of threadlist.c.
pub mod Choice
pub mod Turn
mod Tests
use os161_kernel.Prelude.{ℕ, zero, suc, ◌+◌, ◌%◌, Bool, ltb, ◌==◌, if◌then◌else◌}
use os161_kernel.Prelude.Outcome.{Outcome, done, panic, spin, ◌>>=◌}
use os161_kernel.Threadlist.{
  Store, tl_head, threadlist_isempty, threadlist_addhead, threadlist_remove,
}

-- `priority` gives the field of that name of a thread; no priority is negative. An access through
-- NULL is `panic`.
module _ (t_listnode priority : ℕ → ℕ) where
  -- The thread behind a thread: t->t_listnode.tln_next->tln_self.
  abbrev pub next_thread : ℕ → Store → ℕ
  next_thread t s = s.self (s.next (t_listnode t))

  -- The loop that goes `ran` threads on.
  pub go_on : ℕ → ℕ → Store → Outcome ℕ
  go_on zero t s = done t
  go_on (suc n) t s = if t == 0 then panic else go_on n (next_thread t s) s

  -- The loop that looks for the lowest priority, on fuel: `i` threads were seen of `count`.
  pub lowest_loop : ℕ → ℕ → ℕ → ℕ → ℕ → Store → Outcome ℕ
  lowest_loop zero count i t best s = spin
  lowest_loop (suc n) count i t best s =
      let best' = if ltb (priority t) (priority best) then t else best in
      let rest = lowest_loop n count (i + 1) (next_thread t s) best' s in
      if t == 0
      then panic
      else (if s.next (t_listnode t) == 0
          then done best
          else (if i + 1 == count then done best' else rest))

  abbrev pub to_front : ℕ → ℕ → Store → Store
  to_front rq t s = threadlist_addhead t_listnode rq t (threadlist_remove t_listnode rq t s)

  -- switch_fl and the store; `random` is the number that random() gives, `rq` the address of
  -- curcpu->c_runqueue.
  pub schedule : ℕ → ℕ → ℕ → Store → Outcome (ℕ × Store)
  unfolding go_on lowest_loop
  schedule random rq switch_fl s =
      let first = s.self (s.next (tl_head rq)) in
      if threadlist_isempty rq s
      then done (switch_fl, s)
      else (if switch_fl == 0
          then (go_on (random % s.count rq) first s >>= λ t. done (1, to_front rq t s))
          else (lowest_loop (s.count rq) (s.count rq) 0 first first s >>= λ t.
              done (0, to_front rq t s)))
