-- ===== src/Threadlist/Ends.antt =====
-- The operations of kern/thread/threadlist.c on the sequence of the threads of a list.
use os161_kernel.Prelude.{
  ℕ, ◌≡◌, ◌≢◌, refl, sym, ap, ◌∙◌, subst, false, List, [], ◌∷◌, ◌++◌, map, ==-false, arith,
}
use os161_kernel.Prelude.Members.{has, has_head, has-append, has-apart}
use os161_kernel.Threadlist.{
  Store, tl_tail, threadlist_init, threadlist_insertafternode, threadlist_removenode, count_up,
  count_down, threadlist_addhead, threadlist_addtail, threadlist_remhead, threadlist_remtail,
  threadlist_insertafter, threadlist_insertbefore, threadlist_remove,
}
use os161_kernel.Threadlist.Places.{
  last_node, last_node-append, append_one, neighbours, first_node, first_node-has, last_node-has,
}
use os161_kernel.Threadlist.Links.{Linked, Linked-split}
use os161_kernel.Threadlist.Contents.{
  IsList, IsFresh, map-append, insertafternode-IsList, insertbeforenode-IsList, removenode-IsList,
}

module _ (t_listnode : ℕ → ℕ) where
  -- threadlist_init makes an empty list.
  pub threadlist_init-IsList :
      (tl : ℕ) (s : Store) → tl ≢ 0 → IsList t_listnode (threadlist_init tl s) tl []
  unfolding threadlist_init
  threadlist_init-IsList tl s ne = record {
    links = (ground arith, ground arith);
    front = ground arith;
    back = ground arith;
    count = ground arith;
    short = omega arith;
    apart = (ground arith, (refl, tt));
    real = ground arith;
    selves = λ t h. cc;
  }

  -- threadlist_addhead puts the thread in front.
  pub threadlist_addhead-IsList :
      (s : Store) (tl t : ℕ) (ts : List ℕ)
      → IsList t_listnode s tl ts
      → IsFresh t_listnode s tl ts t
      → IsList t_listnode (threadlist_addhead t_listnode tl t s) tl (t ∷ ts)
  unfolding threadlist_addhead
  threadlist_addhead-IsList s tl t ts v f = insertafternode-IsList t_listnode s tl [] ts t v f

  -- threadlist_insertbefore puts the thread before one that is on the list.
  pub threadlist_insertbefore-IsList :
      (s : Store) (tl t o : ℕ) (us vs : List ℕ)
      → IsList t_listnode s tl (us ++ o ∷ vs)
      → IsFresh t_listnode s tl (us ++ o ∷ vs) t
      → IsList t_listnode (threadlist_insertbefore t_listnode tl t o s) tl (us ++ t ∷ o ∷ vs)
  unfolding threadlist_insertbefore
  threadlist_insertbefore-IsList s tl t o us vs v f =
      insertbeforenode-IsList t_listnode s tl us (o ∷ vs) t v f

  -- threadlist_remove takes a thread off, wherever it is, and leaves its node unlinked.
  pub threadlist_remove-IsList :
      (s : Store) (tl t : ℕ) (us vs : List ℕ)
      → IsList t_listnode s tl (us ++ t ∷ vs)
      → IsList t_listnode (threadlist_remove t_listnode tl t s) tl (us ++ vs)
        × IsFresh t_listnode (threadlist_remove t_listnode tl t s) tl (us ++ vs) t
  unfolding threadlist_remove
  threadlist_remove-IsList s tl t us vs v = removenode-IsList t_listnode s tl us vs t v

  -- threadlist_insertafter puts the thread behind one that is on the list.
  pub threadlist_insertafter-IsList :
      (s : Store) (tl o t : ℕ) (us vs : List ℕ)
      → IsList t_listnode s tl (us ++ o ∷ vs)
      → IsFresh t_listnode s tl (us ++ o ∷ vs) t
      → IsList t_listnode (threadlist_insertafter t_listnode tl o t s) tl (us ++ o ∷ t ∷ vs)
  unfolding threadlist_insertafter
  threadlist_insertafter-IsList s tl o t us vs v f =
      let split = append_one us o vs in
      let at : last_node tl (map t_listnode (us ++ (o ∷ []))) ≡ t_listnode o =
        ap (last_node tl) (map-append t_listnode us (o ∷ []))
        ∙ last_node-append tl (map t_listnode us) (t_listnode o) in
      let v' = subst (λ l. IsList t_listnode s tl l) (sym split) v in
      let f' = subst (λ l. IsFresh t_listnode s tl l t) (sym split) f in
      let r = insertafternode-IsList t_listnode s tl (us ++ (o ∷ [])) vs t v' f' in
      subst
        (λ l.
          IsList t_listnode
            (count_up tl (threadlist_insertafternode (t_listnode o) (t_listnode t) s)) tl l)
        (append_one us o (t ∷ vs))
        (subst
          (λ x.
            IsList t_listnode (count_up tl (threadlist_insertafternode x (t_listnode t) s)) tl
              ((us ++ (o ∷ [])) ++ t ∷ vs))
          at r)

  append_nil : (ts : List ℕ) → ts ++ [] ≡ ts
  append_nil [] = refl
  append_nil (t ∷ ts) = ap (λ l. t ∷ l) (append_nil ts)

  -- threadlist_addtail puts the thread behind the last one.
  pub threadlist_addtail-IsList :
      (s : Store) (tl t : ℕ) (ts : List ℕ)
      → IsList t_listnode s tl ts
      → IsFresh t_listnode s tl ts t
      → IsList t_listnode (threadlist_addtail t_listnode tl t s) tl (ts ++ (t ∷ []))
  unfolding threadlist_addtail
  threadlist_addtail-IsList s tl t ts v f =
      insertbeforenode-IsList t_listnode s tl ts [] t
        (subst (λ l. IsList t_listnode s tl l) (sym (append_nil ts)) v)
        (subst (λ l. IsFresh t_listnode s tl l t) (sym (append_nil ts)) f)

  -- threadlist_remhead of an empty list is NULL and changes nothing.
  pub threadlist_remhead-empty :
      (s : Store) (tl : ℕ) → IsList t_listnode s tl [] → threadlist_remhead tl s ≡ (0, s)
  unfolding threadlist_remhead
  threadlist_remhead-empty s tl v = rw (v.links.0, v.back) refl

  -- Otherwise it is the first thread, which it takes off.
  pub threadlist_remhead-cons :
      (s : Store) (tl t : ℕ) (ts : List ℕ)
      → IsList t_listnode s tl (t ∷ ts)
      → (s' : Store) × (threadlist_remhead tl s ≡ (t, s'))
        × IsList t_listnode s' tl ts
        × IsFresh t_listnode s' tl ts t
  unfolding threadlist_remhead
  threadlist_remhead-cons s tl t ts v =
      let (r, f) = removenode-IsList t_listnode s tl [] ts t v in
      let ns = map t_listnode ts in
      let real : has 0 (tl_tail tl ∷ ns) ≡ false = ground (arith, v.real) in
      let behind : s.next (t_listnode t) ≢ 0 =
        subst (λ x. x ≢ 0) (sym (neighbours s (t_listnode t) [] ns (tl_tail tl) v.links.2).0)
          (has-apart (first_node ns (tl_tail tl)) 0 (tl_tail tl ∷ ns)
            (first_node-has ns (tl_tail tl)) real) in
      (_, rw (v.links.0, ==-false behind, (v.selves t (has_head t ts)).0) refl, r, f)

  -- threadlist_remtail of an empty list is NULL and changes nothing.
  pub threadlist_remtail-empty :
      (s : Store) (tl : ℕ) → IsList t_listnode s tl [] → threadlist_remtail tl s ≡ (0, s)
  unfolding threadlist_remtail
  threadlist_remtail-empty s tl v = rw (v.links.1, v.front) refl

  -- Otherwise it is the last thread, which it takes off.
  pub threadlist_remtail-append :
      (s : Store) (tl t : ℕ) (ts : List ℕ)
      → IsList t_listnode s tl (ts ++ (t ∷ []))
      → (s' : Store) × (threadlist_remtail tl s ≡ (t, s'))
        × IsList t_listnode s' tl ts
        × IsFresh t_listnode s' tl ts t
  unfolding threadlist_remtail
  threadlist_remtail-append s tl t ts v =
      let (r, f) = removenode-IsList t_listnode s tl ts [] t v in
      let n = t_listnode t in
      let ns = map t_listnode ts in
      let old : map t_listnode (ts ++ (t ∷ [])) ≡ ns ++ (n ∷ []) =
        map-append t_listnode ts (t ∷ []) in
      let links = subst (λ l. Linked s tl l (tl_tail tl)) old v.links in
      let real = subst (λ l. has 0 (tl ∷ tl_tail tl ∷ l) ≡ false) old v.real in
      let last : s.prev (tl_tail tl) ≡ n = (Linked-split s tl ns n [] (tl_tail tl) links).1.1 in
      let before : s.prev n ≢ 0 =
        subst (λ x. x ≢ 0) (sym (neighbours s tl ns (n ∷ []) (tl_tail tl) links).1)
          (has-apart (last_node tl ns) 0 (tl ∷ ns) (last_node-has tl ns)
            (ground (arith, real, has-append 0 ns (n ∷ [])))) in
      let self = (v.selves t (ground (arith, has-append t ts (t ∷ []), has_head t []))).0 in
      let s' = count_down tl (threadlist_removenode n s) in
      (
        s',
        rw (last, ==-false before, self) refl,
        subst (λ l. IsList t_listnode s' tl l) (append_nil ts) r,
        subst (λ l. IsFresh t_listnode s' tl l t) (append_nil ts) f,
      )
