-- ===== src/Threadlist/Contents.antt =====
-- The lists of kern/thread/threadlist.c as sequences of threads, and what each operation makes of
-- the sequence.
use os161_kernel.Prelude.{
  ℕ, ◌+◌, ◌^◌, ◌<◌, ◌≡◌, ◌≢◌, refl, sym, ap, subst, true, false, ◌||◌, List, [], ◌∷◌, ◌++◌, map,
  arith, ℕ_discrete, length, length-append,
}
use os161_kernel.Prelude.Members.{has, has_head, has-append, has-apart, Distinct, Distinct-append}
use os161_kernel.Threadlist.{
  Store, tl_tail, threadlist_insertafternode, threadlist_insertbeforenode, threadlist_removenode,
  count_up, count_down,
}
use os161_kernel.Threadlist.Links.{
  Linked, Linked-split, spliced, unspliced, insertafternode-spliced, insertbeforenode-spliced,
  removenode-unspliced,
}
use os161_kernel.Threadlist.Places.{
  last_node, first_node, neighbours, last_node-has, first_node-has, insert_at, remove_at,
}

pub map-append : (f : ℕ → ℕ) (us vs : List ℕ) → map f (us ++ vs) ≡ map f us ++ map f vs
map-append f [] vs = refl
map-append f (u ∷ us) vs = ap (λ l. f u ∷ l) (map-append f us vs)

has-middle :
    (b x : ℕ) (xs ys : List ℕ) → has b (xs ++ x ∷ ys) ≡ (has b (x ∷ []) || has b (xs ++ ys))
has-middle b x xs ys = ground (arith, has-append b xs (x ∷ ys), has-append b xs ys)

insert-Distinct :
    (n : ℕ) (xs ys : List ℕ)
    → Distinct (xs ++ ys)
    → has n (xs ++ ys) ≡ false
    → Distinct (xs ++ n ∷ ys)
insert-Distinct n [] ys d h = (h, d)
insert-Distinct n (x ∷ xs) ys d h =
    (ground (arith, has-middle x n xs ys, d.0), insert-Distinct n xs ys d.1 (ground arith))

remove-Distinct :
    (n : ℕ) (xs ys : List ℕ)
    → Distinct (xs ++ n ∷ ys)
    → Distinct (xs ++ ys) × (has n (xs ++ ys) ≡ false)
remove-Distinct n [] ys d = (d.1, d.0)
remove-Distinct n (x ∷ xs) ys d =
    let (rest, off) = remove-Distinct n xs ys d.1 in
    ((ground (arith, has-middle x n xs ys, d.0), rest), ground (arith, has-middle x n xs ys, d.0))

module _ (t_listnode : ℕ → ℕ) where
  abbrev nodes : List ℕ → List ℕ
  nodes ts = map t_listnode ts

  -- The list at `tl` holds the threads `ts`.
  pub record IsList (s : Store) (tl : ℕ) (ts : List ℕ) : Type 0 where
    pub links : Linked s tl (nodes ts) (tl_tail tl)
    pub front : s.prev tl ≡ 0
    pub back : s.next (tl_tail tl) ≡ 0
    pub count : s.count tl ≡ length ts
    pub short : length ts < 2 ^ 32
    pub apart : Distinct (tl ∷ tl_tail tl ∷ nodes ts)
    pub real : has 0 (tl ∷ tl_tail tl ∷ nodes ts) ≡ false
    pub selves : (t : ℕ) → has t ts ≡ true → (s.self (t_listnode t) ≡ t) × (t ≢ 0)

  -- A thread that can be put on it.
  pub record IsFresh (s : Store) (tl : ℕ) (ts : List ℕ) (t : ℕ) : Type 0 where
    pub off : has (t_listnode t) (tl ∷ tl_tail tl ∷ nodes ts) ≡ false
    pub node : t_listnode t ≢ 0
    pub self : s.self (t_listnode t) ≡ t
    pub thread : t ≢ 0
    pub room : length ts + 1 < 2 ^ 32

  module _ (s : Store) (tl : ℕ) (us vs : List ℕ) (t : ℕ) where
    -- A list with `t` between `us` and `vs`.
    pub insert-IsList :
        IsList s tl (us ++ vs)
        → IsFresh s tl (us ++ vs) t
        → IsList
            (count_up tl (
              spliced
                (last_node tl (nodes us))
                (t_listnode t)
                (first_node (nodes vs) (tl_tail tl))
                s))
            tl
            (us ++ t ∷ vs)
    insert-IsList v f =
        let n = t_listnode t in
        let x = last_node tl (nodes us) in
        let y = first_node (nodes vs) (tl_tail tl) in
        let old : nodes (us ++ vs) ≡ nodes us ++ nodes vs = map-append t_listnode us vs in
        let new : nodes (us ++ t ∷ vs) ≡ nodes us ++ n ∷ nodes vs =
          map-append t_listnode us (t ∷ vs) in
        let apart = subst (λ l. Distinct (tl ∷ tl_tail tl ∷ l)) old v.apart in
        let fresh = subst (λ l. has n (tl ∷ tl_tail tl ∷ l) ≡ false) old f.off in
        let links =
          insert_at s n tl (nodes us) (nodes vs) (tl_tail tl) apart fresh
            (subst (λ l. Linked s tl l (tl_tail tl)) old v.links) in
        let (left, right, split) = Distinct-append (nodes us) (nodes vs) apart.1.1 in
        let both : (b : ℕ) → has b (nodes us ++ nodes vs) ≡ (has b (nodes us) || has b (nodes vs)) =
          λ b. has-append b (nodes us) (nodes vs) in
        let middle : (b : ℕ)
            → has b (nodes us ++ n ∷ nodes vs) ≡ (has b (n ∷ []) || has b (nodes us ++ nodes vs)) =
          λ b. has-middle b n (nodes us) (nodes vs) in
        let y_tl : y ≢ tl =
          has-apart y tl (tl_tail tl ∷ nodes vs) (first_node-has (nodes vs) (tl_tail tl))
            (ground (arith, apart.0, both tl)) in
        let x_tail : x ≢ tl_tail tl =
          has-apart x (tl_tail tl) (tl ∷ nodes us) (last_node-has tl (nodes us))
            (ground (arith, apart.0, apart.1.0, both (tl_tail tl))) in
        record {
          links = subst (λ l. Linked (spliced x n y s) tl l (tl_tail tl)) (sym new) links;
          front = ground (arith, v.front, y_tl, fresh);
          back = ground (arith, v.back, x_tail, fresh);
          count = ground (arith, v.count, f.room, length-append us vs, length-append us (t ∷ vs));
          short = omega (arith, f.room, length-append us vs, length-append us (t ∷ vs));
          apart =
              subst (λ l. Distinct (tl ∷ tl_tail tl ∷ l)) (sym new)
                (
                  ground (arith, middle tl, fresh, apart.0),
                  (
                    ground (arith, middle (tl_tail tl), fresh, apart.1.0),
                    insert-Distinct n (nodes us) (nodes vs) apart.1.1 (ground (arith, fresh)),
                  ),
                );
          real =
              subst (λ l. has 0 (tl ∷ tl_tail tl ∷ l) ≡ false) (sym new)
                (ground (
                  arith,
                  middle 0,
                  f.node,
                  subst (λ l. has 0 (tl ∷ tl_tail tl ∷ l) ≡ false) old v.real,
                ));
          selves = λ u h. elim (ℕ_discrete t u) [
            | yes e ↦ subst (λ w. (s.self (t_listnode w) ≡ w) × (w ≢ 0)) e (f.self, f.thread)
            | no ne ↦ v.selves u (ground (arith, has-middle u t us vs))
          ];
        }

    -- A list without the `t` between `us` and `vs`; the thread is fresh again.
    pub remove-IsList :
        IsList s tl (us ++ t ∷ vs)
        → IsList
            (count_down tl (
              unspliced
                (last_node tl (nodes us))
                (t_listnode t)
                (first_node (nodes vs) (tl_tail tl))
                s))
            tl
            (us ++ vs)
          × IsFresh
              (count_down tl (
                unspliced
                  (last_node tl (nodes us))
                  (t_listnode t)
                  (first_node (nodes vs) (tl_tail tl))
                  s))
              tl
              (us ++ vs)
              t
    remove-IsList v =
        let n = t_listnode t in
        let x = last_node tl (nodes us) in
        let y = first_node (nodes vs) (tl_tail tl) in
        let new : nodes (us ++ vs) ≡ nodes us ++ nodes vs = map-append t_listnode us vs in
        let old : nodes (us ++ t ∷ vs) ≡ nodes us ++ n ∷ nodes vs =
          map-append t_listnode us (t ∷ vs) in
        let apart = subst (λ l. Distinct (tl ∷ tl_tail tl ∷ l)) old v.apart in
        let links =
          remove_at s n tl (nodes us) (nodes vs) (tl_tail tl) apart
            (subst (λ l. Linked s tl l (tl_tail tl)) old v.links) in
        let (rest, off) = remove-Distinct n (nodes us) (nodes vs) apart.1.1 in
        let both : (b : ℕ) → has b (nodes us ++ nodes vs) ≡ (has b (nodes us) || has b (nodes vs)) =
          λ b. has-append b (nodes us) (nodes vs) in
        let middle : (b : ℕ)
            → has b (nodes us ++ n ∷ nodes vs) ≡ (has b (n ∷ []) || has b (nodes us ++ nodes vs)) =
          λ b. has-middle b n (nodes us) (nodes vs) in
        let y_tl : y ≢ tl =
          has-apart y tl (tl_tail tl ∷ nodes vs) (first_node-has (nodes vs) (tl_tail tl))
            (ground (arith, apart.0, middle tl, both tl)) in
        let x_tail : x ≢ tl_tail tl =
          has-apart x (tl_tail tl) (tl ∷ nodes us) (last_node-has tl (nodes us))
            (ground (arith, apart.0, apart.1.0, middle (tl_tail tl), both (tl_tail tl))) in
        let real = subst (λ l. has 0 (tl ∷ tl_tail tl ∷ l) ≡ false) old v.real in
        (
          record {
            links = subst (λ l. Linked (unspliced x n y s) tl l (tl_tail tl)) (sym new) links;
            front = ground (arith, v.front, y_tl);
            back = ground (arith, v.back, x_tail);
            count =
                ground (arith, v.count, v.short, length-append us vs, length-append us (t ∷ vs));
            short = omega (arith, v.short, length-append us vs, length-append us (t ∷ vs));
            apart =
                subst (λ l. Distinct (tl ∷ tl_tail tl ∷ l)) (sym new)
                  (
                    ground (arith, middle tl, apart.0),
                    (ground (arith, middle (tl_tail tl), apart.1.0), rest),
                  );
            real =
                subst (λ l. has 0 (tl ∷ tl_tail tl ∷ l) ≡ false) (sym new)
                  (ground (arith, middle 0, real));
            selves = λ u h. v.selves u (ground (arith, has-middle u t us vs));
          },
          record {
            off =
                subst (λ l. has n (tl ∷ tl_tail tl ∷ l) ≡ false) (sym new)
                  (ground (arith, off, middle tl, middle (tl_tail tl), apart.0, apart.1.0));
            node = ground (arith, middle 0, real);
            self = (v.selves t (ground (arith, has-middle t t us vs))).0;
            thread = (v.selves t (ground (arith, has-middle t t us vs))).1;
            room = omega (arith, v.short, length-append us vs, length-append us (t ∷ vs));
          },
        )

    -- The node of an element differs from the one before it.
    before_ne : IsList s tl (us ++ t ∷ vs) → t_listnode t ≢ last_node tl (nodes us)
    before_ne v q =
        let n = t_listnode t in
        let old : nodes (us ++ t ∷ vs) ≡ nodes us ++ n ∷ nodes vs =
          map-append t_listnode us (t ∷ vs) in
        let apart = subst (λ l. Distinct (tl ∷ tl_tail tl ∷ l)) old v.apart in
        let (left, right, split) = Distinct-append (nodes us) (n ∷ nodes vs) apart.1.1 in
        let out : has n (tl ∷ nodes us) ≡ false =
          ground (
            arith,
            apart.0,
            has-middle tl n (nodes us) (nodes vs),
            split n,
            has_head n (nodes vs),
          ) in
        absurd (
          has-apart (last_node tl (nodes us)) n (tl ∷ nodes us) (last_node-has tl (nodes us)) out
            (sym q))

    pub removenode-IsList :
        IsList s tl (us ++ t ∷ vs)
        → IsList (count_down tl (threadlist_removenode (t_listnode t) s)) tl (us ++ vs)
          × IsFresh (count_down tl (threadlist_removenode (t_listnode t) s)) tl (us ++ vs) t
    removenode-IsList v =
        let n = t_listnode t in
        let old : nodes (us ++ t ∷ vs) ≡ nodes us ++ n ∷ nodes vs =
          map-append t_listnode us (t ∷ vs) in
        let l = subst (λ l. Linked s tl l (tl_tail tl)) old v.links in
        let prev = (neighbours s tl (nodes us) (n ∷ nodes vs) (tl_tail tl) l).1 in
        let next =
          (neighbours s n [] (nodes vs) (tl_tail tl)
            (Linked-split s tl (nodes us) n (nodes vs) (tl_tail tl) l).1).0 in
        subst
          (λ s'.
            IsList (count_down tl s') tl (us ++ vs) × IsFresh (count_down tl s') tl (us ++ vs) t)
          (sym (
            removenode-unspliced s (last_node tl (nodes us)) n (first_node (nodes vs) (tl_tail tl))
              (before_ne v) prev next))
          (remove-IsList v)

    fresh_ne : IsFresh s tl (us ++ vs) t → t_listnode t ≢ last_node tl (nodes us)
    fresh_ne f q =
        let off =
          subst (λ l. has (t_listnode t) (tl ∷ tl_tail tl ∷ l) ≡ false)
            (map-append t_listnode us vs) f.off in
        let out : has (t_listnode t) (tl ∷ nodes us) ≡ false =
          ground (arith, off, has-append (t_listnode t) (nodes us) (nodes vs)) in
        absurd (
          has-apart (last_node tl (nodes us)) (t_listnode t) (tl ∷ nodes us)
            (last_node-has tl (nodes us)) out (sym q))

    -- Insertion through the node before the place, and through the one behind it.
    pub insertafternode-IsList :
        IsList s tl (us ++ vs)
        → IsFresh s tl (us ++ vs) t
        → IsList
            (count_up tl (threadlist_insertafternode (last_node tl (nodes us)) (t_listnode t) s))
            tl
            (us ++ t ∷ vs)
    insertafternode-IsList v f =
        let l = subst (λ l. Linked s tl l (tl_tail tl)) (map-append t_listnode us vs) v.links in
        let next = (neighbours s tl (nodes us) (nodes vs) (tl_tail tl) l).0 in
        subst (λ s'. IsList (count_up tl s') tl (us ++ t ∷ vs))
          (sym (
            insertafternode-spliced s (last_node tl (nodes us)) (t_listnode t)
              (first_node (nodes vs) (tl_tail tl)) (fresh_ne f) next))
          (insert-IsList v f)

    pub insertbeforenode-IsList :
        IsList s tl (us ++ vs)
        → IsFresh s tl (us ++ vs) t
        → IsList
            (count_up tl
              (threadlist_insertbeforenode (t_listnode t) (first_node (nodes vs) (tl_tail tl)) s))
            tl
            (us ++ t ∷ vs)
    insertbeforenode-IsList v f =
        let l = subst (λ l. Linked s tl l (tl_tail tl)) (map-append t_listnode us vs) v.links in
        let prev = (neighbours s tl (nodes us) (nodes vs) (tl_tail tl) l).1 in
        subst (λ s'. IsList (count_up tl s') tl (us ++ t ∷ vs))
          (sym (
            insertbeforenode-spliced s (last_node tl (nodes us)) (t_listnode t)
              (first_node (nodes vs) (tl_tail tl)) (fresh_ne f) prev))
          (insert-IsList v f)
