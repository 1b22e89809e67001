-- ===== src/Threadlist/Links.antt =====
-- The links of kern/thread/threadlist.c between two nodes, and what an insertion and a removal do to
-- them.
use os161_kernel.Prelude.{
  ℕ, ◌≡◌, ◌≢◌, refl, sym, ap, ◌∙◌, subst, true, false, ◌||◌, List, [], ◌∷◌, ◌++◌, ◌==◌, ==-true,
  ==-false, arith, update, inl, inr,
}
use os161_kernel.Prelude.Members.{
  has, has-cons, has_head, has-apart, has-append, Distinct, Distinct-append,
}
use os161_kernel.Threadlist.{
  Store, threadlist_insertafternode, threadlist_insertbeforenode, threadlist_removenode,
}

-- From `a` the next nodes are `ns` and then `z`, and back.
abbrev pub Linked : Store → ℕ → List ℕ → ℕ → Type 0
Linked s a [] z = (s.next a ≡ z) × (s.prev z ≡ a)
Linked s a (n ∷ ns) z = (s.next a ≡ n) × (s.prev n ≡ a) × Linked s n ns z

pub Linked-append :
    (s : Store) (a : ℕ) (xs : List ℕ) (n : ℕ) (ys : List ℕ) (z : ℕ)
    → Linked s a xs n
    → Linked s n ys z
    → Linked s a (xs ++ n ∷ ys) z
Linked-append s a [] n ys z l r = (l.0, l.1, r)
Linked-append s a (x ∷ xs) n ys z l r = (l.0, l.1, Linked-append s x xs n ys z l.2 r)

pub Linked-split :
    (s : Store) (a : ℕ) (xs : List ℕ) (n : ℕ) (ys : List ℕ) (z : ℕ)
    → Linked s a (xs ++ n ∷ ys) z
    → Linked s a xs n × Linked s n ys z
Linked-split s a [] n ys z l = ((l.0, l.1), l.2)
Linked-split s a (x ∷ xs) n ys z l =
    let (f, g) = Linked-split s x xs n ys z l.2 in ((l.0, l.1, f), g)

-- The nodes whose next one is read, and those whose previous one is read.
pub Linked-frame :
    (s s' : Store) (a : ℕ) (ns : List ℕ) (z : ℕ)
    → ((b : ℕ) → has b (a ∷ ns) ≡ true → s'.next b ≡ s.next b)
    → ((b : ℕ) → has b (z ∷ ns) ≡ true → s'.prev b ≡ s.prev b)
    → Linked s a ns z
    → Linked s' a ns z
Linked-frame s s' a [] z f g l = (f a (has_head a []) ∙ l.0, g z (has_head z []) ∙ l.1)
Linked-frame s s' a (n ∷ ns) z f g l = (
  f a (has_head a (n ∷ ns)) ∙ l.0,
  g n (ground (arith, has_head n ns)) ∙ l.1,
  Linked-frame s s' n ns z (λ b h. f b (ground arith)) (λ b h. g b (later b h)) l.2,
)
  where
    later : (b : ℕ) → has b (z ∷ ns) ≡ true → has b (z ∷ n ∷ ns) ≡ true
    later b h = ground arith

-- What an insertion of `n` between `x` and `y` makes of the store, and a removal.
abbrev pub spliced : ℕ → ℕ → ℕ → Store → Store
spliced x n y s = record s {
  next = update (update s.next n y) x n;
  prev = update (update s.prev n x) y n;
}

abbrev pub unspliced : ℕ → ℕ → ℕ → Store → Store
unspliced x n y s = record s {
  next = update (update s.next x y) n 0;
  prev = update (update s.prev y x) n 0;
}

update_self : (f : ℕ → ℕ) (a v : ℕ) → update f a v a ≡ v
update_self f a v = let self : (a == a) ≡ true = ==-true refl in rw self refl

update_ne : (f : ℕ → ℕ) (a v b : ℕ) → a ≢ b → update f a v b ≡ f b
update_ne f a v b ne = rw (==-false ne) refl

pub insertafternode-spliced :
    (s : Store) (x n y : ℕ)
    → n ≢ x
    → s.next x ≡ y
    → threadlist_insertafternode x n s ≡ spliced x n y s
insertafternode-spliced s x n y ne e =
    let self : (n == n) ≡ true = ==-true refl in
    let other : (x == n) ≡ false = ==-false (λ q. ne (sym q)) in rw (self, other, e) refl

pub insertbeforenode-spliced :
    (s : Store) (x n y : ℕ)
    → n ≢ x
    → s.prev y ≡ x
    → threadlist_insertbeforenode n y s ≡ spliced x n y s
insertbeforenode-spliced s x n y ne e =
    let self : (n == n) ≡ true = ==-true refl in
    let other : (x == n) ≡ false = ==-false (λ q. ne (sym q)) in rw (e, self, other) refl

pub removenode-unspliced :
    (s : Store) (x n y : ℕ)
    → n ≢ x
    → s.prev n ≡ x
    → s.next n ≡ y
    → threadlist_removenode n s ≡ unspliced x n y s
removenode-unspliced s x n y ne p e =
    let other : (x == n) ≡ false = ==-false (λ q. ne (sym q)) in rw (p, e, other) refl

next-has :
    (s : Store) (a : ℕ) (ns : List ℕ) (z : ℕ) → Linked s a ns z → has (s.next a) (z ∷ ns) ≡ true
next-has s a [] z l = ap (λ b. has b (z ∷ [])) l.0 ∙ has_head z []
next-has s a (n ∷ ns) z l = ap (λ b. has b (z ∷ n ∷ ns)) l.0 ∙ ground (arith, has_head n ns)

-- The nodes up to `x` are none of those behind it.
spare :
    (a : ℕ) (xs : List ℕ) (x : ℕ) (ys : List ℕ) (z : ℕ)
    → Distinct (a ∷ z ∷ xs ++ x ∷ ys)
    → ((b : ℕ) → has b (a ∷ xs) ≡ true → has b (x ∷ ys) ≡ false)
      × ((b : ℕ) → has b (x ∷ xs) ≡ true → has b (z ∷ ys) ≡ false)
      × Distinct (x ∷ z ∷ ys)
spare a xs x ys z d =
    let (left, right, apart) = Distinct-append xs (x ∷ ys) d.1.1 in
    let parts : (b : ℕ) → has b (xs ++ x ∷ ys) ≡ (has b xs || has b (x ∷ ys)) =
      λ b. has-append b xs (x ∷ ys) in
    let d' : Distinct (x ∷ z ∷ ys) = (
      ground (arith, parts x, parts z, has_head x ys, right.0),
      (ground (arith, parts z), right.1),
    ) in
    (
      (λ b h. elim (has-cons b a xs h) [
        | inl e ↦ ap (λ c. has c (x ∷ ys)) (sym e) ∙ ground (arith, parts a, d.0)
        | inr i ↦ apart b i
      ]),
      (λ b h. elim (has-cons b x xs h) [
        | inl e ↦ ap (λ c. has c (z ∷ ys)) (sym e) ∙ ground (arith, d'.0)
        | inr i ↦
            let zb : z ≢ b = λ q. has-apart b z xs i (ground (arith, parts z)) (sym q) in
            ground (arith, apart b i)
      ]),
      d',
    )

module _ (s : Store) (n : ℕ) where
  -- A new node behind the first one.
  pub insert_first :
      (a : ℕ) (ns : List ℕ) (z : ℕ)
      → Distinct (a ∷ z ∷ ns)
      → has n (a ∷ z ∷ ns) ≡ false
      → Linked s a ns z
      → Linked (spliced a n (s.next a) s) a (n ∷ ns) z
  insert_first a [] z d fresh l =
      let e = l.0 in
      let na : n ≢ a = ground arith in
      let nz : n ≢ z = ground arith in
      subst (λ y. Linked (spliced a n y s) a (n ∷ []) z) (sym e)
        (ground arith, ground arith, (ground arith, ground arith))
  insert_first a (m ∷ ms) z d fresh l =
      let e = l.0 in
      let na : n ≢ a = ground arith in
      let nm : n ≢ m = ground arith in
      subst (λ y. Linked (spliced a n y s) a (n ∷ m ∷ ms) z) (sym e)
        (
          ground arith,
          ground arith,
          (
            ground arith,
            ground arith,
            Linked-frame s (spliced a n m s) m ms z (λ b h. ground (arith, spare_next b h))
                (λ b h. ground (arith, spare_prev b h)) l.2,
          ),
        )
    where
      spare_next : (b : ℕ) → has b (m ∷ ms) ≡ true → (a ≢ b) × (n ≢ b)
      spare_next b h = (
        λ q. absurd (ground (arith, ap (λ x. has x (m ∷ ms)) q)),
        λ q. absurd (ground (arith, ap (λ x. has x (m ∷ ms)) q)),
      )

      spare_prev : (b : ℕ) → has b (z ∷ ms) ≡ true → (m ≢ b) × (n ≢ b)
      spare_prev b h = (
        λ q. absurd (ground (arith, ap (λ x. has x (z ∷ ms)) q)),
        λ q. absurd (ground (arith, ap (λ x. has x (z ∷ ms)) q)),
      )

  -- And behind one in the middle.
  pub insert_middle :
      (a : ℕ) (xs : List ℕ) (x : ℕ) (ys : List ℕ) (z : ℕ)
      → Distinct (a ∷ z ∷ xs ++ x ∷ ys)
      → has n (a ∷ z ∷ xs ++ x ∷ ys) ≡ false
      → Linked s a (xs ++ x ∷ ys) z
      → Linked (spliced x n (s.next x) s) a (xs ++ x ∷ n ∷ ys) z
  insert_middle a xs x ys z d fresh l =
      let (before, after) = Linked-split s a xs x ys z l in
      let (spare_next, spare_prev, d') = spare a xs x ys z d in
      let parts : (b : ℕ) → has b (xs ++ x ∷ ys) ≡ (has b xs || has b (x ∷ ys)) =
        λ b. has-append b xs (x ∷ ys) in
      let other : (b : ℕ) → has b (a ∷ z ∷ xs ++ x ∷ ys) ≡ true → n ≢ b =
        λ b h q. has-apart b n (a ∷ z ∷ xs ++ x ∷ ys) h fresh (sym q) in
      Linked-append (spliced x n (s.next x) s) a xs x (n ∷ ys) z
        (Linked-frame s (spliced x n (s.next x) s) a xs x
          (λ b h. ground (arith, spare_next b h, other b (ground (arith, parts b))))
          (λ b h.
            let yb = has-apart (s.next x) b (z ∷ ys) (next-has s x ys z after) (spare_prev b h) in
            ground (arith, yb, other b (ground (arith, parts b))))
          before)
        (insert_first x ys z d' (ground (arith, parts n)) after)

  -- The first node is taken out.
  pub remove_first :
      (a : ℕ) (ys : List ℕ) (z : ℕ)
      → Distinct (a ∷ z ∷ n ∷ ys)
      → Linked s a (n ∷ ys) z
      → Linked (unspliced a n (s.next n) s) a ys z
  remove_first a [] z d l =
      subst (λ y. Linked (unspliced a n y s) a [] z) (sym l.2.0) (ground arith, ground arith)
  remove_first a (m ∷ ms) z d l =
      subst (λ y. Linked (unspliced a n y s) a (m ∷ ms) z) (sym l.2.0)
        (
          ground arith,
          ground arith,
          Linked-frame s (unspliced a n m s) m ms z (λ b h. ground (arith, spare_next b h))
              (λ b h. ground (arith, spare_prev b h)) l.2.2,
        )
    where
      spare_next : (b : ℕ) → has b (m ∷ ms) ≡ true → (a ≢ b) × (n ≢ b)
      spare_next b h = (
        λ q. absurd (ground (arith, ap (λ x. has x (m ∷ ms)) q)),
        λ q. absurd (ground (arith, ap (λ x. has x (m ∷ ms)) q)),
      )

      spare_prev : (b : ℕ) → has b (z ∷ ms) ≡ true → (m ≢ b) × (n ≢ b)
      spare_prev b h = (
        λ q. absurd (ground (arith, ap (λ x. has x (z ∷ ms)) q)),
        λ q. absurd (ground (arith, ap (λ x. has x (z ∷ ms)) q)),
      )

  -- A node in the middle is taken out.
  pub remove_middle :
      (a : ℕ) (xs : List ℕ) (x : ℕ) (ys : List ℕ) (z : ℕ)
      → Distinct (a ∷ z ∷ xs ++ x ∷ n ∷ ys)
      → Linked s a (xs ++ x ∷ n ∷ ys) z
      → Linked (unspliced x n (s.next n) s) a (xs ++ x ∷ ys) z
  remove_middle a xs x ys z d l =
      let (before, after) = Linked-split s a xs x (n ∷ ys) z l in
      let (spare_next, spare_prev, d') = spare a xs x (n ∷ ys) z d in
      Linked-append (unspliced x n (s.next n) s) a xs x ys z
        (Linked-frame s (unspliced x n (s.next n) s) a xs x (λ b h. ground (arith, spare_next b h))
          (λ b h.
            let yb =
              has-apart (s.next n) b (z ∷ ys) (next-has s n ys z after.2)
                (ground (arith, spare_prev b h)) in
            ground (arith, yb, spare_prev b h))
          before)
        (remove_first x ys z d' after)
