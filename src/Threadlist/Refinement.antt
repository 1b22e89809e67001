-- ===== src/Threadlist/Refinement.antt =====
-- The lists of kern/thread/threadlist.c implement sequences of threads.
use os161_kernel.Prelude.{ℕ, ◌≡◌, refl, sym, ap, subst, List, [], ◌∷◌, ◌++◌, Option, none, some}
use os161_kernel.Threadlist.{
  Store, threadlist_addhead, threadlist_addtail, threadlist_remhead, threadlist_remtail,
  threadlist_insertafter, threadlist_insertbefore, threadlist_remove,
}
use os161_kernel.Threadlist.Contents.{IsList, IsFresh}
use os161_kernel.Threadlist.Ends.{
  threadlist_addhead-IsList, threadlist_addtail-IsList, threadlist_remhead-empty,
  threadlist_remhead-cons, threadlist_remtail-empty, threadlist_remtail-append,
  threadlist_insertafter-IsList, threadlist_insertbefore-IsList, threadlist_remove-IsList,
}

-- The calls on one list.
pub data Call : Type 0 where
  addhead : ℕ → Call
  addtail : ℕ → Call
  insertafter : ℕ → ℕ → Call
  insertbefore : ℕ → ℕ → Call
  remove : ℕ → Call
  remhead : Call
  remtail : Call

-- What a call returns, NULL for none, and the sequence that it makes of a sequence.
pub data Makes : Call → List ℕ → ℕ → List ℕ → Type 0 where
  add_first : (t : ℕ) (ts : List ℕ) → Makes (addhead t) ts 0 (t ∷ ts)
  add_last : (t : ℕ) (ts : List ℕ) → Makes (addtail t) ts 0 (ts ++ (t ∷ []))
  add_behind :
      (o t : ℕ) (us vs : List ℕ) → Makes (insertafter o t) (us ++ o ∷ vs) 0 (us ++ o ∷ t ∷ vs)
  add_before :
      (t o : ℕ) (us vs : List ℕ) → Makes (insertbefore t o) (us ++ o ∷ vs) 0 (us ++ t ∷ o ∷ vs)
  take_out : (t : ℕ) (us vs : List ℕ) → Makes (remove t) (us ++ t ∷ vs) 0 (us ++ vs)
  no_first : Makes remhead [] 0 []
  take_first : (t : ℕ) (ts : List ℕ) → Makes remhead (t ∷ ts) t ts
  no_last : Makes remtail [] 0 []
  take_last : (t : ℕ) (ts : List ℕ) → Makes remtail (ts ++ (t ∷ [])) t ts

-- The thread that a call puts on the list.
abbrev pub added : Call → Option ℕ
added (addhead t) = some t
added (addtail t) = some t
added (insertafter o t) = some t
added (insertbefore t o) = some t
added (remove t) = none
added remhead = none
added remtail = none

module _ (t_listnode : ℕ → ℕ) where
  abbrev pub run : Call → ℕ → Store → ℕ × Store
  run (addhead t) tl s = (0, threadlist_addhead t_listnode tl t s)
  run (addtail t) tl s = (0, threadlist_addtail t_listnode tl t s)
  run (insertafter o t) tl s = (0, threadlist_insertafter t_listnode tl o t s)
  run (insertbefore t o) tl s = (0, threadlist_insertbefore t_listnode tl t o s)
  run (remove t) tl s = (0, threadlist_remove t_listnode tl t s)
  run remhead tl s = threadlist_remhead tl s
  run remtail tl s = threadlist_remtail tl s

  implements :
      {tl t : ℕ} {ts : List ℕ} {r : ℕ × Store}
      → ((s' : Store) × (r ≡ (t, s')) × IsList t_listnode s' tl ts × IsFresh t_listnode s' tl ts t)
      → (r.0 ≡ t) × IsList t_listnode r.1 tl ts
  implements {tl = tl} {ts = ts} (s', e, v, f) =
      (ap (λ x. x.0) e, subst (λ x. IsList t_listnode x.1 tl ts) (sym e) v)

  -- On a list that holds the sequence `ts`, each call returns and leaves what it should in terms of
  -- sequences, if the thread that it adds, if any, is on no list.
  pub run-IsList :
      (c : Call) (s : Store) (tl r : ℕ) (ts ts' : List ℕ)
      → Makes c ts r ts'
      → ((t : ℕ) → added c ≡ some t → IsFresh t_listnode s tl ts t)
      → IsList t_listnode s tl ts
      → ((run c tl s).0 ≡ r) × IsList t_listnode (run c tl s).1 tl ts'
  run-IsList _ s tl _ _ _ (add_first t ts) f v =
      (refl, threadlist_addhead-IsList t_listnode s tl t ts v (f t refl))
  run-IsList _ s tl _ _ _ (add_last t ts) f v =
      (refl, threadlist_addtail-IsList t_listnode s tl t ts v (f t refl))
  run-IsList _ s tl _ _ _ (add_behind o t us vs) f v =
      (refl, threadlist_insertafter-IsList t_listnode s tl o t us vs v (f t refl))
  run-IsList _ s tl _ _ _ (add_before t o us vs) f v =
      (refl, threadlist_insertbefore-IsList t_listnode s tl t o us vs v (f t refl))
  run-IsList _ s tl _ _ _ (take_out t us vs) f v =
      (refl, (threadlist_remove-IsList t_listnode s tl t us vs v).0)
  run-IsList _ s tl _ _ _ no_first f v =
      let e = threadlist_remhead-empty t_listnode s tl v in
      (ap (λ x. x.0) e, subst (λ x. IsList t_listnode x.1 tl []) (sym e) v)
  run-IsList _ s tl _ _ _ (take_first t ts) f v =
      implements (threadlist_remhead-cons t_listnode s tl t ts v)
  run-IsList _ s tl _ _ _ no_last f v =
      let e = threadlist_remtail-empty t_listnode s tl v in
      (ap (λ x. x.0) e, subst (λ x. IsList t_listnode x.1 tl []) (sym e) v)
  run-IsList _ s tl _ _ _ (take_last t ts) f v =
      implements (threadlist_remtail-append t_listnode s tl t ts v)
