-- ===== src/Kmalloc/Fresh.antt =====
-- The new page of subpage_kmalloc (kern/vm/kmalloc.c): its linked blocks and its entry.
use os161_kernel.Prelude.{
  ℕ, suc, ◌+◌, ◌-◌, ◌*◌, ◌/◌, ◌%◌, ◌^◌, ◌<◌, ◌≤◌, ◌≡◌, ◌≢◌, refl, sym, ap, ◌∙◌, subst, true, false,
  List, [], ◌∷◌, ◌==◌, ==-true, ==-false, if◌then◌else◌, arith, ℕ_discrete, Bool-cases, update, ◌⊎◌,
  inl, inr,
}
use native.Mathlib.Nat.{suc-mul}
use os161_kernel.Kmalloc.{page_of, blktype_of, size_of, Heap, in_use}
use os161_kernel.Kmalloc.Chain.{
  has, has-cons, size-Fits, Chain-frame, blocks_down, link_blocks-outside,
}
use os161_kernel.Kmalloc.Pages.{IsPage, Represents, head_of}
use os161_kernel.Kmalloc.Entries.{Entered}
use os161_kernel.Kmalloc.Linked.{new_ref, linked, new_ref-IsPage}

-- The heap with the new page.
abbrev pub with_page : ℕ → ℕ → ℕ → List ℕ → Heap → Heap
with_page k page p inuse h = record {
  refs = update h.refs p (new_ref page k);
  inuse = inuse;
  sizebases = update h.sizebases k (p ∷ h.sizebases k);
  allbase = p ∷ h.allbase;
  word = linked page k h.word;
}

module _ {h : Heap} {free used : ℕ → List ℕ} (v : Represents h free used) (k page p : ℕ)
    (us : List ℕ) (l : k < 8) (pos : 0 < page) (whole : page % 4096 ≡ 0)
    (high : page + 4096 ≤ 2 ^ 32)
    (new : (q : ℕ) → has q h.allbase ≡ true → page_of (h.refs q) ≢ page)
    (entry : Entered h.inuse p us) where
  not_listed : has p h.allbase ≡ false
  not_listed = elim (Bool-cases (has p h.allbase)) [
    | inl t ↦ absurd (ground (arith, (v.listed p t).1, entry.was_free))
    | inr f ↦ f
  ]

  -- The links stay in the new page, which holds no block of another one.
  linked-other :
      (q b : ℕ) → has q h.allbase ≡ true → has b (free q) ≡ true → linked page k h.word b ≡ h.word b
  linked-other q b i j =
      let (fill, big, many) = size-Fits k l in
      let block = (v.pages q i).free_blocks b j in
      let away : (b < page) ⊎ (page + 4096 ≤ b) =
        omega (arith, block.low, block.high, new q i, whole) in
      let n = 4096 / size_of k in
      let m = n - 1 in
      let n_suc : n ≡ suc m = omega arith in
      let room : suc m * size_of k ≡ 4096 = ap (λ x. x * size_of k) (sym n_suc) ∙ fill in
      link_blocks-outside (size_of k) page (omega arith) (4096 / size_of k - 1) 1 b
        (update h.word page 0) (omega (arith, away, suc-mul m (size_of k), room))
      ∙ ground (arith, away)

  old_page :
      (q : ℕ) → has q h.allbase ≡ true → IsPage (linked page k h.word) (h.refs q) (free q) (used q)
  old_page q i =
      let w = v.pages q i in
      record {
        low = w.low;
        high = w.high;
        kind = w.kind;
        chain =
            Chain-frame h.word (linked page k h.word) (head_of (h.refs q)) (free q)
              (λ b j. linked-other q b i j) w.chain;
        count = w.count;
        full = w.full;
        free_blocks = w.free_blocks;
        used_blocks = w.used_blocks;
        apart = w.apart;
        once = w.once;
      }

  new_addr : page_of (new_ref page k) ≡ page
  new_addr = omega arith

  new_kind : blktype_of (new_ref page k) ≡ k
  new_kind = omega arith

  h1 : Heap
  h1 = with_page k page p us h

  ref_new : h1.refs p ≡ new_ref page k
  unfolding h1
  ref_new = let self : (p == p) ≡ true = ==-true refl in rw self refl

  ref_old : (q : ℕ) → p ≢ q → h1.refs q ≡ h.refs q
  unfolding h1
  ref_old q ne = rw (==-false ne) refl

  -- An entry on the new list of all pages is the new one or was there.
  either : (q : ℕ) → has q (p ∷ h.allbase) ≡ true → (p ≡ q) ⊎ ((p ≢ q) × (has q h.allbase ≡ true))
  either q i = elim (ℕ_discrete p q) [ yes e ↦ inl e | no ne ↦ inr (ne, ground arith) ]

  pub with_page-Represents :
      Represents
        (with_page k page p us h)
        (update free p (blocks_down (4096 / size_of k) (size_of k) page))
        (update used p [])
  unfolding h1
  with_page-Represents = record {
    pages = λ q i. elim (either q i) [
      | inl e ↦
          subst
            (λ x.
              IsPage h1.word (h1.refs x)
                (update free p (blocks_down (4096 / size_of k) (size_of k) page) x)
                (update used p [] x))
            e
            (let self : (p == p) ≡ true = ==-true refl in
              rw self (new_ref-IsPage page k h.word l pos whole high))
      | inr (ne, j) ↦ rw (==-false ne) (old_page q j)
    ];
    apart = λ q q' i j e. elim (either q i) [
      | inl a ↦ elim (either q' j) [
        | inl b ↦ sym a ∙ b
        | inr (ne, j') ↦ absurd (
            new q' j' (
              ap page_of (sym (ref_old q' ne))
              ∙ sym e
              ∙ ap (λ x. page_of (h1.refs x)) (sym a)
              ∙ ap page_of ref_new
              ∙ new_addr))
      ]
      | inr (ne, i') ↦ elim (either q' j) [
        | inl b ↦ absurd (
            new q i' (
              ap page_of (sym (ref_old q ne))
              ∙ e
              ∙ ap (λ x. page_of (h1.refs x)) (sym b)
              ∙ ap page_of ref_new
              ∙ new_addr))
        | inr (ne', j') ↦
            v.apart q q' i' j' (ap page_of (sym (ref_old q ne)) ∙ e ∙ ap page_of (ref_old q' ne'))
      ]
    ];
    sized = λ k' q i. elim (ℕ_discrete k k') [
      | yes e ↦
          elim (has-cons q p (h.sizebases k) (
            ap (λ x. has q (if x then p ∷ h.sizebases k else h.sizebases k')) (sym (==-true e))
            ∙ i)) [
              | inl s ↦ (
                ground arith,
                ap (λ x. blktype_of (h1.refs x)) (sym s) ∙ ap blktype_of ref_new ∙ new_kind ∙ e,
              )
              | inr r ↦ old_sized k' q (subst (λ x. has q (h.sizebases x) ≡ true) e r)
            ]
      | no ne ↦ old_sized k' q (
          ap (λ x. has q (if x then p ∷ h.sizebases k else h.sizebases k')) (sym (==-false ne)) ∙ i)
    ];
    listed = λ q i. elim (either q i) [
      | inl e ↦ (
        subst (λ x. x < 256) e (omega (arith, entry.within, v.words)),
        subst (λ x. in_use us x ≡ true) e (ground (arith, entry.others p)),
      )
      | inr (ne, j) ↦ (
        (v.listed q j).0,
        entry.others q
            ∙ ap (λ x. if x then true else in_use h.inuse q) (==-false ne)
            ∙ (v.listed q j).1,
      )
    ];
    once = (not_listed, v.once);
    sized_once = λ k'. elim (ℕ_discrete k k') [
      | yes e ↦ rw (==-true e) (
        elim (Bool-cases (has p (h.sizebases k))) [
          | inl t ↦ absurd (ground (arith, (v.sized k p t).0, not_listed))
          | inr f ↦ f
        ],
        v.sized_once k,
      )
      | no ne ↦ rw (==-false ne) (v.sized_once k')
    ];
    words = entry.words ∙ v.words;
    small = entry.small;
  }
    where
      old_sized :
          (k' q : ℕ)
          → has q (h.sizebases k') ≡ true
          → (has q (p ∷ h.allbase) ≡ true) × (blktype_of ((with_page k page p us h).refs q) ≡ k')
      old_sized k' q i =
          let s = v.sized k' q i in
          (
            ground (arith, s.0),
            elim (ℕ_discrete p q) [
              | yes e ↦ absurd (ground (arith, s.0, not_listed))
              | no ne ↦ rw (==-false ne) s.1
            ],
          )
