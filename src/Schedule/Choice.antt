-- ===== src/Schedule/Choice.antt =====
-- The thread that schedule (kern/thread/thread.c) chooses.
use os161_kernel.Prelude.{
  ℕ, zero, suc, ◌+◌, ◌<◌, ◌≤◌, ◌≡◌, ◌≢◌, refl, sym, ap, ◌∙◌, subst, true, false, List, [], ◌∷◌,
  ◌++◌, map, ltb, ◌==◌, ==-false, if◌then◌else◌, arith, Bool-cases, length, get_or, ◌⊎◌, inl, inr,
}
use os161_kernel.Prelude.Members.{has, has_head, has-cons}
use os161_kernel.Prelude.Outcome.{done}
use os161_kernel.Threadlist.{Store}
use os161_kernel.Threadlist.Links.{Linked}
use os161_kernel.Schedule.{next_thread, go_on, lowest_loop}

-- The first thread of lowest priority, `b` or one of `ts`.
abbrev pub lowest : (ℕ → ℕ) → ℕ → List ℕ → ℕ
lowest priority b [] = b
lowest priority b (t ∷ ts) = lowest priority (if ltb (priority t) (priority b) then t else b) ts

module _ (priority : ℕ → ℕ) where
  -- One step of the choice.
  abbrev lower : ℕ → ℕ → ℕ
  lower t b = if ltb (priority t) (priority b) then t else b

  lower_le : (t b : ℕ) → (priority (lower t b) ≤ priority t) × (priority (lower t b) ≤ priority b)
  lower_le t b = elim (Bool-cases (ltb (priority t) (priority b))) [
    | inl h ↦ (rw h (omega arith), rw h (ground arith))
    | inr h ↦ (rw h (ground arith), rw h (omega arith))
  ]

  lower_cases : (t b : ℕ) → (lower t b ≡ t) ⊎ (lower t b ≡ b)
  lower_cases t b = elim (Bool-cases (ltb (priority t) (priority b))) [
    | inl h ↦ inl (rw h refl)
    | inr h ↦ inr (rw h refl)
  ]

  lowest-le : (b : ℕ) (ts : List ℕ) → priority (lowest priority b ts) ≤ priority b
  lowest-le b [] = omega arith
  lowest-le b (t ∷ ts) = omega (arith, lowest-le (lower t b) ts, (lower_le t b).1)

  pub lowest-minimal :
      (b : ℕ) (ts : List ℕ) (u : ℕ) → has u ts ≡ true → priority (lowest priority b ts) ≤ priority u
  lowest-minimal b [] u h = absurd (ground arith)
  lowest-minimal b (t ∷ ts) u h = elim (has-cons u t ts h) [
    | inl e ↦
        subst (λ u. priority (lowest priority b (t ∷ ts)) ≤ priority u) e
          (omega (arith, lowest-le (lower t b) ts, (lower_le t b).0))
    | inr i ↦ lowest-minimal (lower t b) ts u i
  ]

  pub lowest-has : (b : ℕ) (ts : List ℕ) → has (lowest priority b ts) (b ∷ ts) ≡ true
  lowest-has b [] = has_head b []
  lowest-has b (t ∷ ts) =
      let r = lowest priority (lower t b) ts in
      elim (has-cons r (lower t b) ts (lowest-has (lower t b) ts)) [
        | inl e ↦ elim (lower_cases t b) [
          | inl q ↦ let h : t ≡ r = sym q ∙ e in ground (arith, h)
          | inr q ↦ let h : b ≡ r = sym q ∙ e in ground (arith, h)
        ]
        | inr i ↦ ground (arith, i)
      ]

-- An element stands somewhere in the list.
pub place_of : (t : ℕ) (ts : List ℕ) → has t ts ≡ true → (us vs : List ℕ) × (ts ≡ us ++ t ∷ vs)
place_of t [] h = absurd (ground arith)
place_of t (x ∷ xs) h = elim (has-cons t x xs h) [
  | inl e ↦ ([], xs, ap (λ y. y ∷ xs) e)
  | inr i ↦ let (us, vs, q) = place_of t xs i in (x ∷ us, vs, ap (λ l. x ∷ l) q)
]

pub place_at :
    (n : ℕ) (ts : List ℕ)
    → n < length ts
    → (us vs : List ℕ) × (ts ≡ us ++ get_or ts n 0 ∷ vs) × (length us ≡ n)
place_at n [] h = absurd (omega arith)
place_at zero (x ∷ xs) h = ([], xs, refl, refl)
place_at (suc n) (x ∷ xs) h =
    let (us, vs, q, l) = place_at n xs (omega arith) in (x ∷ us, vs, ap (λ l. x ∷ l) q, ap suc l)

module _ (t_listnode priority : ℕ → ℕ) (s : Store) where
  -- The loops follow the threads `ts` behind `t`.
  pub go_on-get_or :
      (n t : ℕ) (ts : List ℕ) (z : ℕ)
      → Linked s (t_listnode t) (map t_listnode ts) z
      → ((u : ℕ) → has u (t ∷ ts) ≡ true → (s.self (t_listnode u) ≡ u) × (u ≢ 0))
      → n ≤ length ts
      → go_on t_listnode priority n t s ≡ done (get_or (t ∷ ts) n 0)
  unfolding go_on
  go_on-get_or zero t ts z l own h = refl
  go_on-get_or (suc n) t [] z l own h = absurd (omega arith)
  go_on-get_or (suc n) t (u ∷ ts) z l own h =
      let behind : next_thread t_listnode priority t s ≡ u =
        ap s.self l.0 ∙ (own u (ground (arith, has_head u ts))).0 in
      rw (==-false (own t (has_head t (u ∷ ts))).1, behind)
        (go_on-get_or n u ts z l.2 (λ w i. own w (ground (arith, i))) (omega arith))

  pub lowest_loop-lowest :
      (n count i t b : ℕ) (ts : List ℕ) (z : ℕ)
      → Linked s (t_listnode t) (map t_listnode ts) z
      → ((u : ℕ) → has u (t ∷ ts) ≡ true → (s.self (t_listnode u) ≡ u) × (u ≢ 0))
      → has 0 (z ∷ map t_listnode ts) ≡ false
      → i + length (t ∷ ts) ≡ count
      → length (t ∷ ts) ≤ n
      → lowest_loop t_listnode priority n count i t b s ≡ done (lowest priority b (t ∷ ts))
  unfolding lowest_loop
  lowest_loop-lowest zero count i t b ts z l own real e h = absurd (omega arith)
  lowest_loop-lowest (suc n) count i t b [] z l own real e h =
      let last : (i + 1 == count) ≡ true = ground arith in
      let behind : (s.next (t_listnode t) == 0) ≡ false = ground (arith, l.0) in
      rw (==-false (own t (has_head t [])).1, behind, last) refl
  lowest_loop-lowest (suc n) count i t b (u ∷ ts) z l own real e h =
      let more : (i + 1 == count) ≡ false = ground arith in
      let next : next_thread t_listnode priority t s ≡ u =
        ap s.self l.0 ∙ (own u (ground (arith, has_head u ts))).0 in
      let behind : (s.next (t_listnode t) == 0) ≡ false = ground (arith, l.0) in
      rw (==-false (own t (has_head t (u ∷ ts))).1, behind, more, next)
        (lowest_loop-lowest n count (i + 1) u (if ltb (priority t) (priority b) then t else b) ts z
          l.2 (λ w j. own w (ground (arith, j))) (ground (arith, real)) (omega arith) (omega arith))
