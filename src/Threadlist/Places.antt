-- ===== src/Threadlist/Places.antt =====
-- An insertion and a removal at any place of a list of nodes (kern/thread/threadlist.c).
use os161_kernel.Prelude.{
  ℕ, ◌≡◌, refl, sym, ap, ◌∙◌, subst, true, false, List, [], ◌∷◌, ◌++◌, arith, ◌⊎◌, inl, inr,
}
use os161_kernel.Prelude.Members.{has, has_head, Distinct}
use os161_kernel.Threadlist.{Store}
use os161_kernel.Threadlist.Links.{
  Linked, Linked-split, spliced, unspliced, insert_first, insert_middle, remove_first,
  remove_middle,
}

-- The node before a place, and the one behind it.
abbrev pub last_node : ℕ → List ℕ → ℕ
last_node a [] = a
last_node a (x ∷ xs) = last_node x xs

abbrev pub first_node : List ℕ → ℕ → ℕ
first_node [] z = z
first_node (y ∷ ys) z = y

pub neighbours :
    (s : Store) (a : ℕ) (xs ys : List ℕ) (z : ℕ)
    → Linked s a (xs ++ ys) z
    → (s.next (last_node a xs) ≡ first_node ys z) × (s.prev (first_node ys z) ≡ last_node a xs)
neighbours s a [] [] z l = l
neighbours s a [] (y ∷ ys) z l = (l.0, l.1)
neighbours s a (x ∷ xs) ys z l = neighbours s x xs ys z l.2

pub last_node-has : (a : ℕ) (xs : List ℕ) → has (last_node a xs) (a ∷ xs) ≡ true
last_node-has a [] = has_head a []
last_node-has a (x ∷ xs) = ground (arith, last_node-has x xs)

pub first_node-has : (ys : List ℕ) (z : ℕ) → has (first_node ys z) (z ∷ ys) ≡ true
first_node-has [] z = has_head z []
first_node-has (y ∷ ys) z = ground (arith, has_head y ys)

pub append_one : (xs : List ℕ) (x : ℕ) (ys : List ℕ) → (xs ++ (x ∷ [])) ++ ys ≡ xs ++ x ∷ ys
append_one [] x ys = refl
append_one (w ∷ xs) x ys = ap (λ l. w ∷ l) (append_one xs x ys)

pub last_node-append : (a : ℕ) (xs : List ℕ) (x : ℕ) → last_node a (xs ++ (x ∷ [])) ≡ x
last_node-append a [] x = refl
last_node-append a (w ∷ xs) x = last_node-append w xs x

-- A list is empty or has a last element.
last_cases : (xs : List ℕ) → (xs ≡ []) ⊎ ((ws : List ℕ) × (x : ℕ) × (xs ≡ ws ++ (x ∷ [])))
last_cases [] = inl refl
last_cases (x ∷ xs) = elim (last_cases xs) [
  | inl e ↦ inr ([], x, ap (λ l. x ∷ l) e)
  | inr (ws, y, e) ↦ inr (x ∷ ws, y, ap (λ l. x ∷ l) e)
]

module _ (s : Store) (n a : ℕ) (xs ys : List ℕ) (z : ℕ) where
  pub insert_at :
      Distinct (a ∷ z ∷ xs ++ ys)
      → has n (a ∷ z ∷ xs ++ ys) ≡ false
      → Linked s a (xs ++ ys) z
      → Linked (spliced (last_node a xs) n (first_node ys z) s) a (xs ++ n ∷ ys) z
  insert_at d fresh l =
      let (next, prev) = neighbours s a xs ys z l in
      subst (λ y. Linked (spliced (last_node a xs) n y s) a (xs ++ n ∷ ys) z) next
        (elim (last_cases xs) [
          | inl e ↦
              subst
                (λ xs.
                  Distinct (a ∷ z ∷ xs ++ ys)
                  → has n (a ∷ z ∷ xs ++ ys) ≡ false
                  → Linked s a (xs ++ ys) z
                  → Linked (spliced (last_node a xs) n (s.next (last_node a xs)) s) a (xs ++ n ∷ ys)
                      z)
                (sym e) (insert_first s n a ys z) d fresh l
          | inr (ws, x, e) ↦
              let split : xs ++ ys ≡ ws ++ x ∷ ys = ap (λ l. l ++ ys) e ∙ append_one ws x ys in
              let goal : xs ++ n ∷ ys ≡ ws ++ x ∷ n ∷ ys =
                ap (λ l. l ++ n ∷ ys) e ∙ append_one ws x (n ∷ ys) in
              let last : last_node a xs ≡ x = ap (last_node a) e ∙ last_node-append a ws x in
              rw (last, goal)
                (insert_middle s n a ws x ys z (subst (λ l. Distinct (a ∷ z ∷ l)) split d)
                  (subst (λ l. has n (a ∷ z ∷ l) ≡ false) split fresh)
                  (subst (λ l'. Linked s a l' z) split l))
        ])

  pub remove_at :
      Distinct (a ∷ z ∷ xs ++ n ∷ ys)
      → Linked s a (xs ++ n ∷ ys) z
      → Linked (unspliced (last_node a xs) n (first_node ys z) s) a (xs ++ ys) z
  remove_at d l =
      let next : s.next n ≡ first_node ys z =
        (neighbours s n [] ys z (Linked-split s a xs n ys z l).1).0 in
      subst (λ y. Linked (unspliced (last_node a xs) n y s) a (xs ++ ys) z) next
        (elim (last_cases xs) [
          | inl e ↦
              subst
                (λ xs.
                  Distinct (a ∷ z ∷ xs ++ n ∷ ys)
                  → Linked s a (xs ++ n ∷ ys) z
                  → Linked (unspliced (last_node a xs) n (s.next n) s) a (xs ++ ys) z)
                (sym e) (remove_first s n a ys z) d l
          | inr (ws, x, e) ↦
              let split : xs ++ n ∷ ys ≡ ws ++ x ∷ n ∷ ys =
                ap (λ l. l ++ n ∷ ys) e ∙ append_one ws x (n ∷ ys) in
              let goal : xs ++ ys ≡ ws ++ x ∷ ys = ap (λ l. l ++ ys) e ∙ append_one ws x ys in
              let last : last_node a xs ≡ x = ap (last_node a) e ∙ last_node-append a ws x in
              rw (last, goal)
                (remove_middle s n a ws x ys z (subst (λ l. Distinct (a ∷ z ∷ l)) split d)
                  (subst (λ l'. Linked s a l' z) split l))
        ])
