-- ===== src/Kmalloc/Delist.antt =====
-- remove_lists and freepageref (kern/vm/kmalloc.c): the entry of a page that is given back.
use os161_kernel.Prelude.{
  ℕ, ◌^◌, ◌<◌, ◌≡◌, ◌≢◌, refl, sym, ap, ◌∙◌, true, false, List, ◌==◌, ==-true, ==-false, ltb,
  length, if◌then◌else◌, arith, ℕ_discrete, Bool-cases, update, get_or, inl, inr,
}
use os161_kernel.Prelude.Outcome.{done, ◌>>=◌}
use os161_kernel.Kmalloc.{blktype_of, Heap, in_use, unlink, remove_lists, freepageref, freed_page}
use os161_kernel.Kmalloc.Chain.{has}
use os161_kernel.Kmalloc.Pages.{Represents}
use os161_kernel.Kmalloc.Entries.{freepageref-in_use}
use os161_kernel.Kmalloc.Unlink.{has-unlink, has-unlink_ne, unlink-gone, unlink-Distinct}

abbrev delisted : ℕ → List ℕ → Heap → Heap
delisted p us h = record h {
  sizebases =
      update h.sizebases (blktype_of (h.refs p)) (unlink p (h.sizebases (blktype_of (h.refs p))));
  allbase = unlink p h.allbase;
  inuse = us;
}

module _ {h : Heap} {free used : ℕ → List ℕ} (v : Represents h free used) (p : ℕ) (us : List ℕ)
    (words : length us ≡ 8) (small : (k : ℕ) → get_or us k 0 < 2 ^ 32)
    (others : (q : ℕ) → in_use us q ≡ (if p == q then false else in_use h.inuse q)) where
  gone : (q : ℕ) → has q (unlink p h.allbase) ≡ true → p ≢ q
  gone q i e =
      absurd
        (ground (arith, unlink-gone p h.allbase v.once, ap (λ x. has x (unlink p h.allbase)) e))

  delisted-sized :
      (k q : ℕ)
      → has q ((delisted p us h).sizebases k) ≡ true
      → (has q (unlink p h.allbase) ≡ true) × (blktype_of (h.refs q) ≡ k)
  delisted-sized k q i = elim (ℕ_discrete (blktype_of (h.refs p)) k) [
    | yes e ↦
        let l = h.sizebases (blktype_of (h.refs p)) in
        let i' : has q (unlink p l) ≡ true =
          ap (λ x. has q (if x then unlink p l else h.sizebases k)) (sym (==-true e)) ∙ i in
        let ne : p ≢ q = λ s. absurd (
          ground (
            arith,
            unlink-gone p l (v.sized_once (blktype_of (h.refs p))),
            ap (λ x. has x (unlink p l)) s,
          )) in
        let s = v.sized (blktype_of (h.refs p)) q (has-unlink q p l i') in
        (has-unlink_ne q p h.allbase ne ∙ s.0, s.1 ∙ e)
    | no ne ↦
        let l = h.sizebases (blktype_of (h.refs p)) in
        let i' : has q (h.sizebases k) ≡ true =
          ap (λ x. has q (if x then unlink p l else h.sizebases k)) (sym (==-false ne)) ∙ i in
        let s = v.sized k q i' in
        (has-unlink_ne q p h.allbase (λ e. ne (ap (λ x. blktype_of (h.refs x)) e ∙ s.1)) ∙ s.0, s.1)
  ]

  delisted-Represents : Represents (delisted p us h) free used
  delisted-Represents = record {
    pages = λ q i. v.pages q (has-unlink q p h.allbase i);
    apart = λ q q' i j e. v.apart q q' (has-unlink q p h.allbase i) (has-unlink q' p h.allbase j) e;
    sized = delisted-sized;
    listed = λ q i.
        let l = v.listed q (has-unlink q p h.allbase i) in
        (
          l.0,
          others q ∙ ap (λ x. if x then false else in_use h.inuse q) (==-false (gone q i)) ∙ l.1,
        );
    once = unlink-Distinct p h.allbase v.once;
    sized_once = λ k. elim (Bool-cases (blktype_of (h.refs p) == k)) [
      | inl t ↦ rw t (
          unlink-Distinct p (h.sizebases (blktype_of (h.refs p)))
            (v.sized_once (blktype_of (h.refs p))))
      | inr f ↦ rw f (v.sized_once k)
    ];
    words = words;
    small = small;
  }

-- remove_lists and freepageref take the entry of a page out of the lists and give it up.
pub delist :
    (h : Heap) (free used : ℕ → List ℕ) (p page k : ℕ)
    → Represents h free used
    → has p h.allbase ≡ true
    → k ≡ blktype_of (h.refs p)
    → (h' : Heap) × ((remove_lists p k h >>= λ h2.
          freepageref p h2.inuse >>= λ inuse. done (freed_page page (record h2 { inuse = inuse })))
        ≡ done (freed_page page h'))
      × (has p h'.allbase ≡ false)
      × (in_use h'.inuse p ≡ false)
      × Represents h' free used
unfolding remove_lists
delist h free used p page k v at same =
    let (us, e, words, small, others) =
      freepageref-in_use p h.inuse v.words (v.listed p at).0 v.small (v.listed p at).1 in
    let kind : ltb (blktype_of (h.refs p)) 8 ≡ true = ground (arith, (v.pages p at).kind) in
    (
      delisted p us h,
      rw (same, kind, e) refl,
      unlink-gone p h.allbase v.once,
      others p ∙ ap (λ x. if x then false else in_use h.inuse p) (==-true refl),
      delisted-Represents v p us words small others,
    )
