-- ===== src/Schedule/Turn.antt =====
-- A call of schedule (kern/thread/thread.c).
use os161_kernel.Prelude.{
  ℕ, ◌%◌, ◌≤◌, ◌≡◌, ◌≢◌, refl, ap, ◌∙◌, subst, true, false, List, [], ◌∷◌, ◌++◌, ◌==◌, ==-true,
  ==-false, arith, ℕ_discrete, length, get_or, ◌⊎◌, inl, inr,
}
use os161_kernel.Prelude.Members.{has, has_head, has-cons}
use os161_kernel.Prelude.Outcome.{done}
use os161_kernel.Threadlist.{Store}
use os161_kernel.Threadlist.Contents.{IsList}
use os161_kernel.Threadlist.Ends.{threadlist_addhead-IsList, threadlist_remove-IsList}
use os161_kernel.Schedule.{to_front, schedule}
use os161_kernel.Schedule.Choice.{
  lowest, lowest-minimal, lowest-has, place_of, place_at, go_on-get_or, lowest_loop-lowest,
}

module _ (t_listnode priority : ℕ → ℕ) where
  -- The run queue `us`, `t`, `vs` with `t` in front.
  to_front-IsList :
      (s : Store) (rq t : ℕ) (us vs : List ℕ)
      → IsList t_listnode s rq (us ++ t ∷ vs)
      → IsList t_listnode (to_front t_listnode priority rq t s) rq (t ∷ us ++ vs)
  to_front-IsList s rq t us vs v =
      let (r, f) = threadlist_remove-IsList t_listnode s rq t us vs v in
      threadlist_addhead-IsList t_listnode _ rq t (us ++ vs) r f

  -- A call of schedule on a run queue never reads through NULL. On an empty queue it changes nothing.
  -- Otherwise one thread goes to the front, and the others keep their order: when switch_fl is 0, the
  -- thread at the random place, and else one whose priority is the lowest number of all; and
  -- switch_fl is 1 and 0 then.
  pub schedule-IsList :
      (random rq switch_fl : ℕ) (s : Store) (ts : List ℕ)
      → IsList t_listnode s rq ts
      → ((ts ≡ []) × (schedule t_listnode priority random rq switch_fl s ≡ done (switch_fl, s)))
        ⊎ ((us : List ℕ) × (t : ℕ) × (vs : List ℕ) × (fl : ℕ) × (s' : Store) × (ts ≡ us ++ t ∷ vs)
            × (schedule t_listnode priority random rq switch_fl s ≡ done (fl, s'))
            × IsList t_listnode s' rq (t ∷ us ++ vs)
            × (((switch_fl ≡ 0) × (fl ≡ 1) × (length us ≡ random % length ts))
                ⊎ ((switch_fl ≢ 0)
                    × (fl ≡ 0)
                    × ((u : ℕ) → has u ts ≡ true → priority t ≤ priority u))))
  unfolding schedule
  schedule-IsList random rq switch_fl s [] v = inl (refl, rw (v.count) refl)
  schedule-IsList random rq switch_fl s (x ∷ xs) v =
      let some_thread : (s.count rq == 0) ≡ false = ground (arith, v.count) in
      let first : s.self (s.next rq) ≡ x = ap s.self v.links.0 ∙ (v.selves x (has_head x xs)).0 in
      elim (ℕ_discrete switch_fl 0) [
        | yes e ↦
            let n = random % length (x ∷ xs) in
            let (us, vs, q, l) = place_at n (x ∷ xs) (omega arith) in
            let t = get_or (x ∷ xs) n 0 in
            let count : s.count rq ≡ length (x ∷ xs) = v.count in
            let go = go_on-get_or t_listnode priority s n x xs _ v.links.2 v.selves (omega arith) in
            inr (
              us,
              t,
              vs,
              1,
              to_front t_listnode priority rq t s,
              q,
              rw (some_thread, ==-true e, first, count, go) refl,
              to_front-IsList s rq t us vs (subst (λ l. IsList t_listnode s rq l) q v),
              inl (e, refl, l),
            )
        | no ne ↦
            let t = lowest priority x (x ∷ xs) in
            let (us, vs, q) = place_of t (x ∷ xs) (chosen x xs) in
            let go =
              lowest_loop-lowest t_listnode priority s (s.count rq) (s.count rq) 0 x x xs _
                v.links.2 v.selves (ground (arith, v.real)) (omega (arith, v.count))
                (omega (arith, v.count)) in
            inr (
              us,
              t,
              vs,
              0,
              to_front t_listnode priority rq t s,
              q,
              rw (some_thread, ==-false ne, first, go) refl,
              to_front-IsList s rq t us vs (subst (λ l. IsList t_listnode s rq l) q v),
              inr (ne, refl, λ u h. lowest-minimal priority x (x ∷ xs) u h),
            )
      ]
    where
      chosen : (x : ℕ) (xs : List ℕ) → has (lowest priority x (x ∷ xs)) (x ∷ xs) ≡ true
      chosen x xs =
          elim (has-cons (lowest priority x (x ∷ xs)) x (x ∷ xs) (lowest-has priority x (x ∷ xs))) [
            | inl e ↦ ground (arith, e)
            | inr i ↦ i
          ]
