-- ===== src/Kmalloc/Sections.antt =====
-- The two sections of subpage_kmalloc (kern/vm/kmalloc.c): a block of a page that is there, or of a
-- new one.
use os161_kernel.Prelude.{
  ℕ, suc, ◌+◌, ◌-◌, ◌*◌, ◌/◌, ◌%◌, ◌^◌, ◌<◌, ◌≤◌, ◌≡◌, ◌≢◌, refl, sym, ap, ◌∙◌, subst, true, false,
  none, some, List, [], ◌∷◌, ◌==◌, ==-true, ==-false, ltb, length, arith, ℕ_discrete, Bool-cases,
  update, get_or, ◌⊎◌, inl, inr,
}
use mathlib.Core.Path.{fun_ext}
use os161_kernel.Prelude.Outcome.{done}
use os161_kernel.Kmalloc.{
  Pageref, page_of, blktype_of, size_of, Heap, in_use, find_page, first_section, second_section,
}
use os161_kernel.Kmalloc.Chain.{has, has-cons, size-Fits, blocks_down}
use os161_kernel.Kmalloc.Pages.{Represents, take_block-Represents}
use os161_kernel.Kmalloc.Fresh.{with_page-Represents}
use os161_kernel.Kmalloc.Entries.{alloc_inuse_lem}

find_page_lem :
    (refs : ℕ → Pageref) (k : ℕ) (ps : List ℕ)
    → ((p : ℕ) → has p ps ≡ true → blktype_of (refs p) ≡ k)
    → ((p : ℕ) × (find_page refs k ps ≡ done (some p)) × (has p ps ≡ true) × (0 < (refs p).nfree))
      ⊎ ((find_page refs k ps ≡ done none) × ((p : ℕ) → has p ps ≡ true → (refs p).nfree ≡ 0))
unfolding find_page
find_page_lem refs k [] kind = inr (refl, λ p h. cc)
find_page_lem refs k (p ∷ ps) kind =
    let here : (blktype_of (refs p) == k) ≡ true = ==-true (kind p (ground arith)) in
    elim (Bool-cases (ltb 0 (refs p).nfree)) [
      | inl t ↦ inl (p, rw (here, t) refl, ground arith, ground arith)
      | inr f ↦ elim (find_page_lem refs k ps (λ q h. kind q (ground arith))) [
        | inl (q, e, i, l) ↦ inl (q, rw (here, f) e, ground arith, l)
        | inr (e, all) ↦ inr (
          rw (here, f) e,
          λ q h. elim (has-cons q p ps h) [
            | inl s ↦ subst (λ x. (refs x).nfree ≡ 0) s (ground arith)
            | inr r ↦ all q r
          ],
        )
      ]
    ]

nonempty : (bs : List ℕ) → 0 < length bs → (b : ℕ) × (cs : List ℕ) × (bs ≡ b ∷ cs)
nonempty [] h = absurd (omega arith)
nonempty (b ∷ cs) h = (b, cs, refl)

no_elements : (bs : List ℕ) → length bs ≡ 0 → bs ≡ []
no_elements [] h = refl
no_elements (b ∷ bs) h = absurd (omega arith)

-- On a heap that represents `free` and `used`, the search for a block of class `k` does not panic. It
-- hands out the first free block `b` of a page of the class, which moves from the free blocks of that
-- page to its used ones; or it finds none, and then every page of the class is full.
pub first_section-block :
    (h : Heap) (free used : ℕ → List ℕ) (k : ℕ)
    → Represents h free used
    → ((p : ℕ) × (b : ℕ) × (bs : List ℕ) × (h' : Heap) × (first_section k h ≡ done (some (b, h')))
        × (has p (h.sizebases k) ≡ true)
        × (has p (h'.sizebases k) ≡ true)
        × (free p ≡ b ∷ bs)
        × Represents h' (update free p bs) (update used p (b ∷ used p)))
      ⊎ ((first_section k h ≡ done none) × ((p : ℕ) → has p (h.sizebases k) ≡ true → free p ≡ []))
unfolding first_section
first_section-block h free used k v =
    elim (find_page_lem h.refs k (h.sizebases k) (λ p i. (v.sized k p i).1)) [
      | inl (p, e, i, l) ↦
          let at = (v.sized k p i).0 in
          let (b, bs, s) = nonempty (free p) (omega (arith, (v.pages p at).count)) in
          let (h', t, same, r) = take_block-Represents v p at b bs s in
          inl (p, b, bs, h', rw (e, t) refl, i, ap (λ x. has p (x k)) same ∙ i, s, r)
      | inr (e, all) ↦ inr (
        rw e refl,
        λ p i. no_elements (free p) (sym (v.pages p (v.sized k p i).0).count ∙ all p i),
      )
    ]

update-update :
    {A : Type 0} (f : ℕ → A) (p : ℕ) (a b : A) → update (update f p a) p b ≡ update f p b
update-update f p a b =
    fun_ext
      (λ q. elim (ℕ_discrete p q) [ yes e ↦ rw (==-true e) refl | no ne ↦ rw (==-false ne) refl ])

listed_first : (f : ℕ → List ℕ) (k p : ℕ) → has p (update f k (p ∷ f k) k) ≡ true
listed_first f k p = let self : (k == k) ≡ true = ==-true refl in rw self (ground arith)

settled :
    (free used : ℕ → List ℕ) (p : ℕ) (bs cs : List ℕ) (b : ℕ) (h' : Heap)
    → Represents h'
        (update (update free p bs) p cs)
        (update (update used p []) p (b ∷ update used p [] p))
    → Represents h' (update free p cs) (update used p (b ∷ []))
settled free used p bs cs b h' r =
    let none_used : update used p [] p ≡ [] =
      let self : (p == p) ≡ true = ==-true refl in rw self refl in
    subst (λ f. Represents h' f (update used p (b ∷ []))) (update-update free p bs cs)
      (subst (λ f. Represents h' (update (update free p bs) p cs) f)
        (update-update used p [] (b ∷ []))
        (subst
          (λ x.
            Represents h' (update (update free p bs) p cs) (update (update used p []) p (b ∷ x)))
          none_used r))

-- On a heap that represents `free` and `used`, with a new page at a page address that no entry has,
-- the second part does not panic. It hands out the last block of the page, whose other blocks become
-- the free ones of an entry that was not in use; or no entry is left, and then all are in use.
pub second_section-block :
    (h : Heap) (free used : ℕ → List ℕ) (k page : ℕ)
    → Represents h free used
    → k < 8
    → 0 < page
    → page % 4096 ≡ 0
    → page + 4096 ≤ 2 ^ 32
    → ((q : ℕ) → has q h.allbase ≡ true → page_of (h.refs q) ≢ page)
    → ((p : ℕ) × (h' : Heap) × (second_section k page h
          ≡ done (some (page + (4096 / size_of k - 1) * size_of k, h')))
        × (in_use h.inuse p ≡ false)
        × (has p (h'.sizebases k) ≡ true)
        × Represents h'
            (update free p (blocks_down (4096 / size_of k - 1) (size_of k) page))
            (update used p ((page + (4096 / size_of k - 1) * size_of k) ∷ [])))
      ⊎ ((second_section k page h ≡ done none)
          × ((i : ℕ) → i < 8 → get_or h.inuse i 0 ≡ 0xffffffff))
unfolding second_section
second_section-block h free used k page v l pos whole high new =
    elim (alloc_inuse_lem h.inuse v.small) [
      | inr (e, all) ↦ inr (rw e refl, λ i j. all i (omega (arith, v.words)))
      | inl (p, us, e, entry) ↦
          let (fill, big, many) = size-Fits k l in
          let m = 4096 / size_of k - 1 in
          let n_suc : 4096 / size_of k ≡ suc m = omega arith in
          let w = with_page-Represents v k page p us l pos whole high new entry in
          let at : has p (p ∷ h.allbase) ≡ true = ground arith in
          let fresh : update free p (blocks_down (4096 / size_of k) (size_of k) page) p
              ≡ (page + m * size_of k) ∷ blocks_down m (size_of k) page =
            let self : (p == p) ≡ true = ==-true refl in
            rw self (ap (λ x. blocks_down x (size_of k) page) n_suc) in
          let (h', t, same, r) =
            take_block-Represents w p at (page + m * size_of k) (blocks_down m (size_of k) page)
              fresh in
          let placed : (page + m * size_of k - page == m * size_of k) ≡ true = ground arith in
          inl (
            p,
            h',
            rw (e, placed, t) refl,
            entry.was_free,
            ap (λ x. has p (x k)) same ∙ listed_first h.sizebases k p,
            settled free used p _ _ (page + m * size_of k) h' r,
          )
    ]
