-- ===== src/Rwlock/Overlap.antt =====
-- Readers and writers (kern/thread/synch.c) under any interleaving of the threads.
use os161_kernel.Prelude.{
  ℕ, ◌-◌, ◌≡◌, refl, ◌≢◌, true, false, Option, none, some, List, [], ◌∷◌, ◌==◌, ltb, length, update,
  arith, sym, ap, subst, ◌∙◌, ==-true, ==-false, ℕ_discrete, Bool-cases, inl, inr, if◌then◌else◌,
}
use os161_kernel.Rwlock.{
  Stage, away, reader_asleep, reader_woken, reading, writer_asleep, writer_woken, writing, Rwlock,
  rw_create, start_reading, acquire_read, start_writing, acquire_write, wake_writer, wake_readers,
  release_read, release_write, Step, call_read, resume_read, call_write, resume_write, done_reading,
  done_writing, Reachable, start, next,
}

-- A writer has rw_lock.
abbrev Writers : (ℕ → Stage) → Option ℕ → Type 0
Writers stage holder = (t : ℕ) → stage t ≡ writing → holder ≡ some t

-- A thread that does not become a writer.
moved :
    {stage : ℕ → Stage} {h : Option ℕ} (t : ℕ) (p : Stage)
    → p ≢ writing
    → Writers stage h
    → Writers (update stage t p) h
moved {stage} t p to w u e = elim (ℕ_discrete t u) [
  | yes q ↦ absurd (to (sym (ap (λ b. if b then p else stage u) (==-true q)) ∙ e))
  | no ne ↦ w u (sym (ap (λ b. if b then p else stage u) (==-false ne)) ∙ e)
]

wake_writer-Writers :
    (q : List ℕ) (s : Rwlock)
    → Writers s.stage s.holder
    → Writers (wake_writer q s).stage (wake_writer q s).holder
unfolding wake_writer
wake_writer-Writers [] s w = w
wake_writer-Writers (t ∷ ts) s w = moved t writer_woken (λ z. cc) w

wake_readers-Writers :
    (q : List ℕ) (s : Rwlock)
    → Writers s.stage s.holder
    → Writers (wake_readers q s).stage (wake_readers q s).holder
unfolding wake_readers
wake_readers-Writers [] s w = w
wake_readers-Writers (t ∷ ts) s w =
    wake_readers-Writers ts (record s { stage = update s.stage t reader_woken })
      (moved t reader_woken (λ z. cc) w)

-- When rw_lock is free nobody writes, so that a thread can go on to write.
starts :
    (t : ℕ) (s : Rwlock)
    → s.holder ≡ none
    → Writers s.stage s.holder
    → Writers (start_writing t s).stage (start_writing t s).holder
unfolding start_writing
starts t s free w u e = elim (ℕ_discrete t u) [
  | yes q ↦ ap (λ (x : ℕ). some x) q
  | no ne ↦
      absurd (
        clash (sym free ∙ w u (sym (ap (λ b. if b then writing else s.stage u) (==-false ne)) ∙ e)))
]
  where
    clash : {a : ℕ} → none ≡ some a → ⊥
    clash q = cc

-- A writer that is done leaves nobody behind who writes.
leaves :
    {stage : ℕ → Stage} {h : Option ℕ} (t : ℕ)
    → stage t ≡ writing
    → Writers stage h
    → Writers (update stage t away) none
leaves {stage} {h} t at w u e = elim (ℕ_discrete t u) [
  | yes q ↦ absurd (gone (sym (ap (λ b. if b then away else stage u) (==-true q)) ∙ e))
  | no ne ↦ absurd (
      ne
        (same (sym (w t at) ∙ w u (sym (ap (λ b. if b then away else stage u) (==-false ne)) ∙ e))))
]
  where
    gone : away ≡ writing → ⊥
    gone q = cc

    same : {a b : ℕ} → some a ≡ some b → a ≡ b
    same q = cc

Step-Writers : {s s' : Rwlock} → Step s s' → Writers s.stage s.holder → Writers s'.stage s'.holder
unfolding acquire_read acquire_write start_reading release_read release_write
Step-Writers {s} (call_read t free at) w =
    elim (Bool-cases (ltb (length s.rd_queue) (length s.wr_queue))) [
      | inl e ↦ rw e (moved t reader_asleep (λ z. cc) w)
      | inr e ↦ rw e (moved t reading (λ z. cc) w)
    ]
Step-Writers {s} (resume_read t free at) w = moved t reading (λ z. cc) w
Step-Writers {s} (call_write t free at) w = elim (Bool-cases (s.count == 0)) [
  | inl e ↦ rw e (starts t s free w)
  | inr e ↦ rw e (moved t writer_asleep (λ z. cc) w)
]
Step-Writers {s} (resume_write t free at) w = starts t s free w
Step-Writers {s} (done_reading t free at) w = elim (Bool-cases (s.count - 1 == 0)) [
  | inl e ↦ rw e (wake_writer-Writers s.wr_queue _ (moved t away (λ z. cc) w))
  | inr e ↦ rw e (moved t away (λ z. cc) w)
]
Step-Writers {s} (done_writing t at) w =
    elim (Bool-cases (ltb (length s.wr_queue) (length s.rd_queue))) [
      | inl e ↦ rw e (wake_readers-Writers s.rd_queue _ (leaves t at w))
      | inr e ↦ rw e (wake_writer-Writers s.wr_queue _ (leaves t at w))
    ]

Reachable-Writers : {s : Rwlock} → Reachable s → Writers s.stage s.holder
unfolding rw_create
Reachable-Writers start = λ t e. absurd cc
Reachable-Writers (next s r step) = Step-Writers step (Reachable-Writers r)

-- In a reachable state two threads that have returned from rw_acquire for writing are the same one.
pub writers-exclusion :
    {s : Rwlock} → Reachable s → (t u : ℕ) → s.stage t ≡ writing → s.stage u ≡ writing → t ≡ u
writers-exclusion r t u a b = same (sym (Reachable-Writers r t a) ∙ Reachable-Writers r u b)
  where
    same : {a b : ℕ} → some a ≡ some b → a ≡ b
    same q = cc

-- In a reachable state with one reader `r` inside, rw_lock free and nobody asleep, let `w` and `q` be two
-- threads that have not called. Then a state is reachable in which `w` writes while `q` reads.
pub rw_acquire-overlap :
    {s : Rwlock}
    → Reachable s
    → (r w q : ℕ) → w ≢ q
    → s.holder ≡ none
    → s.count ≡ 1
    → s.rd_queue ≡ []
    → s.wr_queue ≡ []
    → s.stage r ≡ reading
    → s.stage w ≡ away
    → s.stage q ≡ away
    → (s' : Rwlock) × Reachable s' × (s'.stage w ≡ writing) × (s'.stage q ≡ reading)
unfolding acquire_read acquire_write start_reading start_writing release_read wake_writer
rw_acquire-overlap {s} reach r w q apart free one no_readers no_writers at_r at_w at_q = (
  start_writing w s3,
  next s3 r3 (resume_write w free (rw (q_w, w_w) refl)),
  ground (arith, ==-true (refl {a = w})),
  ground (arith, apart, ==-true (refl {a = q})),
)
  where
    clash : reading ≡ away → ⊥
    clash z = cc

    w_w : (w == w) ≡ true
    w_w = ==-true refl

    w_r : (w == r) ≡ false
    w_r = ==-false (λ e. clash (sym at_r ∙ ap s.stage (sym e) ∙ at_w))

    r_q : (r == q) ≡ false
    r_q = ==-false (λ e. clash (sym at_r ∙ ap s.stage e ∙ at_q))

    w_q : (w == q) ≡ false
    w_q = ==-false apart

    q_w : (q == w) ≡ false
    q_w = ==-false (λ e. apart (sym e))

    s1 : Rwlock
    s1 = record s { wr_queue = w ∷ []; stage = update s.stage w writer_asleep }

    r1 : Reachable s1
    r1 = subst Reachable (ground (arith, one, no_writers)) (next s reach (call_write w free at_w))

    s2 : Rwlock
    s2 = record s1 {
      count = 0;
      wr_queue = [];
      stage = update (update s1.stage r away) w writer_woken;
    }

    r2 : Reachable s2
    r2 = subst Reachable (ground (arith, one)) (next s1 r1 (done_reading r free (rw w_r at_r)))

    s3 : Rwlock
    s3 = record s2 { count = 1; stage = update s2.stage q reading }

    r3 : Reachable s3
    r3 =
        subst Reachable (ground (arith, no_readers))
          (next s2 r2 (call_read q free (rw (w_q, r_q) at_q)))
