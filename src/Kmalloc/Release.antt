-- ===== src/Kmalloc/Release.antt =====
-- subpage_kfree (kern/vm/kmalloc.c): a block that was handed out goes back to its page.
use os161_kernel.Prelude.{
  ℕ, ◌+◌, ◌-◌, ◌*◌, ◌/◌, ◌%◌, ◌^◌, ◌<◌, ◌≤◌, ◌≡◌, ◌≢◌, refl, sym, ap, ◌∙◌, subst, true, false, none,
  some, List, [], ◌∷◌, ◌==◌, ==-true, ==-false, ltb, leb, ◌&&◌, length, if◌then◌else◌, arith,
  ℕ_discrete, Bool-cases, update, ◌⊎◌, inl, inr,
}
use os161_kernel.Prelude.Outcome.{done, ◌>>=◌}
use os161_kernel.Kmalloc.{
  Pageref, page_of, blktype_of, size_of, Heap, in_use, unlink, remove_lists, freepageref,
  find_owner, release_block, subpage_kfree, not_ours, freed, freed_page,
}
use os161_kernel.Kmalloc.Chain.{has, has-cons, IsBlock-within, blocks_apart}
use os161_kernel.Kmalloc.Pages.{Represents}
use os161_kernel.Kmalloc.Delist.{delist}
use os161_kernel.Kmalloc.Unlink.{length-unlink}
use os161_kernel.Kmalloc.PutBack.{put_back, put_back-Represents}

-- How often the end of a page wraps around.
abbrev wrapped : ℕ → ℕ
wrapped page = (page + 4096) / 2 ^ 32

find_owner_lem :
    (refs : ℕ → Pageref) (ptr : ℕ) (ps : List ℕ)
    → ((p : ℕ) → has p ps ≡ true → blktype_of (refs p) < 8)
    → ((p : ℕ) × (find_owner refs ptr ps ≡ done (some p))
        × (has p ps ≡ true)
        × (page_of (refs p) ≤ ptr)
        × (ptr < page_of (refs p) + 4096))
      ⊎ ((find_owner refs ptr ps ≡ done none)
          × ((p : ℕ)
              → has p ps ≡ true
              → (ptr < page_of (refs p))
                ⊎ (page_of (refs p) + 4096 ≤ ptr + 2 ^ 32 * wrapped (page_of (refs p)))))
unfolding find_owner
find_owner_lem refs ptr [] kind = inr (refl, λ p h. cc)
find_owner_lem refs ptr (p ∷ ps) kind =
    let here : ltb (blktype_of (refs p)) 8 ≡ true = ground (arith, kind p (ground arith)) in
    elim (Bool-cases (leb (page_of (refs p)) ptr && ltb ptr ((page_of (refs p) + 4096) % 2 ^ 32))) [
      | inl t ↦ inl (p, rw (here, t) refl, ground arith, ground arith, ground arith)
      | inr f ↦ elim (find_owner_lem refs ptr ps (λ q h. kind q (ground arith))) [
        | inl (q, e, i, l, g) ↦ inl (q, rw (here, f) e, ground arith, l, g)
        | inr (e, all) ↦ inr (
          rw (here, f) e,
          λ q h. elim (has-cons q p ps h) [
            | inl s ↦
                subst
                  (λ x.
                    (ptr < page_of (refs x))
                    ⊎ (page_of (refs x) + 4096 ≤ ptr + 2 ^ 32 * wrapped (page_of (refs x))))
                  s (ground arith)
            | inr r ↦ all q r
          ],
        )
      ]
    ]

-- The conditions of release_block hold for a block that was handed out.
release_block-checks :
    {h : Heap} {free used : ℕ → List ℕ} (v : Represents h free used) (p ptr : ℕ)
    (at : has p h.allbase ≡ true) (i : has ptr (used p) ≡ true)
    → release_block p ptr h ≡ (
        if (h.refs p).nfree + 1 == 4096 / size_of (blktype_of (h.refs p))
        then (remove_lists p (blktype_of (h.refs p)) (put_back v p ptr at i) >>= λ h2.
            freepageref p h2.inuse >>= λ inuse.
            done (freed_page (page_of (h.refs p)) (record h2 { inuse = inuse })))
        else done (freed (put_back v p ptr at i)))
unfolding release_block
release_block-checks {h = h} {used = used} v p ptr at i =
    let page = v.pages p at in
    let block = page.used_blocks ptr i in
    let inside : leb 4096 (ptr - page_of (h.refs p)) ≡ false =
      ground (arith, block.low, block.high) in
    let placed : ((ptr - page_of (h.refs p)) % size_of (blktype_of (h.refs p)) == 0) ≡ true =
      ==-true block.aligned in
    let room : leb ((h.refs p).nfree + 1) (4096 / size_of (blktype_of (h.refs p))) ≡ true =
      ground (arith, page.full, page.count, length-unlink ptr (used p) i) in
    rw (inside, placed, room) refl

release_block-used :
    {h : Heap} {free used : ℕ → List ℕ} (v : Represents h free used) (p ptr : ℕ)
    (at : has p h.allbase ≡ true) (i : has ptr (used p) ≡ true)
    → (h' : Heap) × (((release_block p ptr h ≡ done (freed h'))
          × (has p h'.allbase ≡ true)
          × (0 < length (unlink ptr (used p))))
        ⊎ ((release_block p ptr h ≡ done (freed_page (page_of (h.refs p)) h'))
            × (has p h'.allbase ≡ false)
            × (in_use h'.inuse p ≡ false)
            × (length (unlink ptr (used p)) ≡ 0)))
      × Represents h' (update free p (ptr ∷ free p)) (update used p (unlink ptr (used p)))
release_block-used {h = h} {free = free} {used = used} v p ptr at i =
    let page = v.pages p at in
    let r = put_back-Represents v p ptr at i in
    let left = length-unlink ptr (used p) i in
    elim (ℕ_discrete ((h.refs p).nfree + 1) (4096 / size_of (blktype_of (h.refs p)))) [
      | yes e ↦
          let (h', d, out, idle, w) =
            delist (put_back v p ptr at i) (update free p (ptr ∷ free p))
              (update used p (unlink ptr (used p))) p (page_of (h.refs p)) (blktype_of (h.refs p)) r
              at (let self : (p == p) ≡ true = ==-true refl in rw self refl) in
          (
            h',
            inr (
              release_block-checks v p ptr at i ∙ (rw (==-true e) d),
              out,
              idle,
              omega (arith, page.full, page.count, left, e),
            ),
            w,
          )
      | no ne ↦ (
        put_back v p ptr at i,
        inl (
          rw (release_block-checks v p ptr at i, ==-false ne) refl,
          at,
          omega (arith, page.full, page.count, left, ne),
        ),
        r,
      )
    ]

-- The search over all pages comes to the page of the block.
owner_found :
    (h : Heap) (free used : ℕ → List ℕ) (p ptr : ℕ)
    → Represents h free used
    → has p h.allbase ≡ true
    → has ptr (used p) ≡ true
    → ptr < 0xfffff000
    → subpage_kfree ptr h ≡ release_block p ptr h
unfolding subpage_kfree
owner_found h free used p ptr v at i low_enough =
    let block = (v.pages p at).used_blocks ptr i in
    elim (find_owner_lem h.refs ptr h.allbase (λ q j. (v.pages q j).kind)) [
      | inl (q, e, j, low, high) ↦
          let same : q ≡ p = v.apart q p j at (omega (arith, block.low, block.high)) in
          rw e (ap (λ x. release_block x ptr h) same)
      | inr (e, all) ↦ absurd (omega (arith, all p at, block.low, block.high, (v.pages p at).high))
    ]

-- On a well-formed heap, a block that was handed out and lies below the last page of the address
-- space is freed without a panic: it moves to the front of the free blocks of
-- its page. When it was the last used one of the page, the page's entry leaves the lists and is given
-- up, and the page is to be freed; otherwise the entry stays.
pub subpage_kfree-used :
    (h : Heap) (free used : ℕ → List ℕ) (p ptr : ℕ)
    → Represents h free used
    → has p h.allbase ≡ true
    → has ptr (used p) ≡ true
    → ptr < 0xfffff000
    → (h' : Heap) × (((subpage_kfree ptr h ≡ done (freed h'))
          × (has p h'.allbase ≡ true)
          × (0 < length (unlink ptr (used p))))
        ⊎ ((subpage_kfree ptr h ≡ done (freed_page (page_of (h.refs p)) h'))
            × (has p h'.allbase ≡ false)
            × (in_use h'.inuse p ≡ false)
            × (length (unlink ptr (used p)) ≡ 0)))
      × Represents h' (update free p (ptr ∷ free p)) (update used p (unlink ptr (used p)))
subpage_kfree-used h free used p ptr v at i low_enough =
    let found = owner_found h free used p ptr v at i low_enough in
    let (h', result, r) = release_block-used v p ptr at i in
    (
      h',
      elim result [
        | inl (e, at', more) ↦ inl (found ∙ e, at', more)
        | inr (e, out, idle, last) ↦ inr (found ∙ e, out, idle, last)
      ],
      r,
    )

-- An address that lies in none of the pages is left alone: subpage_kfree reports that it is not its
-- own (-1), which kfree takes for whole pages.
pub subpage_kfree-not_ours :
    (h : Heap) (free used : ℕ → List ℕ) (ptr : ℕ)
    → Represents h free used
    → ((p : ℕ)
        → has p h.allbase ≡ true
        → (ptr < page_of (h.refs p)) ⊎ (page_of (h.refs p) + 4096 ≤ ptr))
    → subpage_kfree ptr h ≡ done not_ours
unfolding subpage_kfree
subpage_kfree-not_ours h free used ptr v away =
    elim (find_owner_lem h.refs ptr h.allbase (λ q j. (v.pages q j).kind)) [
      | inl (q, e, j, low, high) ↦ absurd (omega (arith, away q j))
      | inr (e, all) ↦ rw e refl
    ]

-- Two blocks that are handed out, of the same page or of two, do not overlap.
pub used_apart :
    (h : Heap) (free used : ℕ → List ℕ) (p q b c : ℕ)
    → Represents h free used
    → has p h.allbase ≡ true
    → has q h.allbase ≡ true
    → has b (used p) ≡ true
    → has c (used q) ≡ true
    → b ≢ c
    → (b + size_of (blktype_of (h.refs p)) ≤ c) ⊎ (c + size_of (blktype_of (h.refs q)) ≤ b)
used_apart h free used p q b c v at at' i j ne = elim (ℕ_discrete p q) [
  | yes e ↦
      let j' = subst (λ x. has c (used x) ≡ true) (sym e) j in
      let w = v.pages p at in
      subst
        (λ x. (b + size_of (blktype_of (h.refs p)) ≤ c) ⊎ (c + size_of (blktype_of (h.refs x)) ≤ b))
        e
        (blocks_apart (page_of (h.refs p)) (blktype_of (h.refs p)) b c w.kind (w.used_blocks b i)
          (w.used_blocks c j') ne)
  | no np ↦
      let x = v.pages p at in
      let y = v.pages q at' in
      let bx = x.used_blocks b i in
      let by = y.used_blocks c j in
      let pages_apart : page_of (h.refs p) ≢ page_of (h.refs q) = λ e. np (v.apart p q at at' e) in
      omega (
        arith,
        pages_apart,
        bx.low,
        by.low,
        IsBlock-within (page_of (h.refs p)) (blktype_of (h.refs p)) b x.kind bx,
        IsBlock-within (page_of (h.refs q)) (blktype_of (h.refs q)) c y.kind by,
      )
]
