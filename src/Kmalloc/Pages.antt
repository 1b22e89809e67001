-- ===== src/Kmalloc/Pages.antt =====
-- The invariant of the heap of kern/vm/kmalloc.c, and the block that subpage_kmalloc takes.
use os161_kernel.Prelude.{
  ℕ, ◌+◌, ◌-◌, ◌*◌, ◌/◌, ◌%◌, ◌^◌, ◌<◌, ◌≤◌, ◌≡◌, ◌≢◌, refl, sym, ap, ◌∙◌, subst, true, false, List,
  [], ◌∷◌, ◌==◌, ==-true, ==-false, ltb, length, if◌then◌else◌, arith, ℕ_discrete, update, get_or,
  inl, inr,
}
use os161_kernel.Prelude.Outcome.{done}
use os161_kernel.Kmalloc.{
  Pageref, page_of, blktype_of, size_of, invalid_offset, Heap, in_use, take_block,
}
use os161_kernel.Kmalloc.Chain.{has, has-cons, Chain, Distinct, IsBlock}

-- The address of the first free block, or NULL.
abbrev pub head_of : Pageref → ℕ
head_of r = if r.offset == invalid_offset then 0 else page_of r + r.offset

-- The blocks of a page are those on its free list and those that were handed out.
pub record IsPage (word : ℕ → ℕ) (r : Pageref) (free used : List ℕ) : Type 0 where
  pub low : 0 < page_of r
  pub high : page_of r + 4096 ≤ 2 ^ 32
  pub kind : blktype_of r < 8
  pub chain : Chain word (head_of r) free
  pub count : r.nfree ≡ length free
  pub full : length free + length used ≡ 4096 / size_of (blktype_of r)
  pub free_blocks : (b : ℕ) → has b free ≡ true → IsBlock (page_of r) (size_of (blktype_of r)) b
  pub used_blocks : (b : ℕ) → has b used ≡ true → IsBlock (page_of r) (size_of (blktype_of r)) b
  pub apart : (b : ℕ) → has b free ≡ true → has b used ≡ false
  pub once : Distinct used

-- The heap holds the free blocks and the handed out blocks of each page.
pub record Represents (h : Heap) (free used : ℕ → List ℕ) : Type 0 where
  pub pages : (p : ℕ) → has p h.allbase ≡ true → IsPage h.word (h.refs p) (free p) (used p)
  pub apart :
      (p q : ℕ)
      → has p h.allbase ≡ true
      → has q h.allbase ≡ true
      → page_of (h.refs p) ≡ page_of (h.refs q)
      → p ≡ q
  pub sized :
      (k p : ℕ)
      → has p (h.sizebases k) ≡ true
      → (has p h.allbase ≡ true) × (blktype_of (h.refs p) ≡ k)
  pub listed : (p : ℕ) → has p h.allbase ≡ true → (p < 256) × (in_use h.inuse p ≡ true)
  pub once : Distinct h.allbase
  pub sized_once : (k : ℕ) → Distinct (h.sizebases k)
  pub words : length h.inuse ≡ 8
  pub small : (i : ℕ) → get_or h.inuse i 0 < 2 ^ 32

-- The page without its first free block.
abbrev pub taken : Pageref → List ℕ → Pageref
taken r [] = record r { nfree = r.nfree - 1; offset = invalid_offset }
taken r (c ∷ cs) = record r { nfree = r.nfree - 1; offset = c - page_of r }

pub taken-IsPage :
    (word : ℕ → ℕ) (r : Pageref) (b : ℕ) (bs used : List ℕ)
    → IsPage word r (b ∷ bs) used
    → IsPage word (taken r bs) bs (b ∷ used)
taken-IsPage word r b bs used v = go bs v
  where
    same_blocks :
        (cs : List ℕ)
        → IsPage word r (b ∷ cs) used
        → (a : ℕ) → has a (b ∷ used) ≡ true
        → IsBlock (page_of r) (size_of (blktype_of r)) a
    same_blocks cs w a h = elim (has-cons a b used h) [
      | inl e ↦
          subst (IsBlock (page_of r) (size_of (blktype_of r))) e (w.free_blocks b (ground arith))
      | inr q ↦ w.used_blocks a q
    ]

    go : (cs : List ℕ) → IsPage word r (b ∷ cs) used → IsPage word (taken r cs) cs (b ∷ used)
    go [] w = record {
      low = w.low;
      high = w.high;
      kind = w.kind;
      chain = refl;
      count = omega (arith, w.count);
      full = omega (arith, w.full);
      free_blocks = λ a h. cc;
      used_blocks = same_blocks [] w;
      apart = λ a h. cc;
      once = (w.apart b (ground arith), w.once);
    }
    go (c ∷ cs) w =
        let in_page = w.free_blocks c (ground arith) in
        let next = w.chain.3 in
        let lo = in_page.low in
        let hi = in_page.high in
        let head : head_of (taken r (c ∷ cs)) ≡ c = ground arith in
        record {
          low = w.low;
          high = w.high;
          kind = w.kind;
          chain = (head, next.1, next.2, next.3);
          count = omega (arith, w.count);
          full = omega (arith, w.full);
          free_blocks = λ a h. w.free_blocks a (ground arith);
          used_blocks = same_blocks (c ∷ cs) w;
          apart = λ a h. ground (arith, w.apart a, ap (λ x. has x (c ∷ cs)));
          once = (w.apart b (ground arith), w.once);
        }

take_block-taken :
    (p b : ℕ) (bs used : List ℕ) (h : Heap)
    → IsPage h.word (h.refs p) (b ∷ bs) used
    → take_block p h ≡ done (b, record h { refs = update h.refs p (taken (h.refs p) bs) })
unfolding take_block
take_block-taken p b [] used h v =
    let block = v.free_blocks b (ground arith) in
    ground (arith, block.low, block.high, v.chain, v.count, v.low)
take_block-taken p b (c ∷ cs) used h v =
    let pr = h.refs p in
    let block = v.free_blocks b (ground arith) in
    let block' = v.free_blocks c (ground arith) in
    let fla : page_of pr + pr.offset ≡ b = ground (arith, v.chain) in
    let next : h.word b ≡ c = v.chain.3.0 in
    let within : ltb pr.offset 4096 ≡ true = ground (arith, block.high) in
    let more : (c == 0) ≡ false = ==-false v.chain.3.1 in
    let some_left : ltb 0 (pr.nfree - 1) ≡ true = ground (arith, v.count) in
    let offset : (c + 2 ^ 32 - page_of pr) % 2 ^ 32 ≡ c - page_of pr =
      omega (arith, block'.low, block'.high, v.high) in
    let inside : ltb (c - page_of pr) 4096 ≡ true = ground (arith, block'.high, block'.low) in
    rw (within, fla, next, more, some_left, offset, inside) refl

module _ {h : Heap} {free used : ℕ → List ℕ} (v : Represents h free used) (p : ℕ)
    (at : has p h.allbase ≡ true) where
  -- The heap with another entry for a page, of the same address and kind, and with other blocks.
  pub Represents-update :
      (r : Pageref) (word : ℕ → ℕ) (bs us : List ℕ)
      → r.pab ≡ (h.refs p).pab
      → IsPage word r bs us
      → ((q : ℕ) → has q h.allbase ≡ true → p ≢ q → IsPage word (h.refs q) (free q) (used q))
      → Represents
          (record h { refs = update h.refs p r; word = word })
          (update free p bs)
          (update used p us)
  Represents-update r word bs us same page others = record {
    pages = λ q i. elim (ℕ_discrete p q) [
      | yes e ↦
          subst (λ x. IsPage word (update h.refs p r x) (update free p bs x) (update used p us x)) e
            (let self : (p == p) ≡ true = ==-true refl in rw self page)
      | no ne ↦ rw (==-false ne) (others q i ne)
    ];
    apart = λ q q' i j e. v.apart q q' i j (sym (page-same q) ∙ e ∙ page-same q');
    sized = λ k q i. ((v.sized k q i).0, kind-same q ∙ (v.sized k q i).1);
    listed = v.listed;
    once = v.once;
    sized_once = v.sized_once;
    words = v.words;
    small = v.small;
  }
    where
      pab-same : (q : ℕ) → (update h.refs p r q).pab ≡ (h.refs q).pab
      pab-same q = elim (ℕ_discrete p q) [
        | yes e ↦ rw (==-true e) (same ∙ ap (λ x. (h.refs x).pab) e)
        | no ne ↦ rw (==-false ne) refl
      ]

      page-same : (q : ℕ) → page_of (update h.refs p r q) ≡ page_of (h.refs q)
      page-same q = ap (λ x. x / 4096 * 4096) (pab-same q)

      kind-same : (q : ℕ) → blktype_of (update h.refs p r q) ≡ blktype_of (h.refs q)
      kind-same q = ap (λ x. x % 4096) (pab-same q)

  -- The first free block of a page is taken off.
  pub take_block-Represents :
      (b : ℕ) (bs : List ℕ)
      → free p ≡ b ∷ bs
      → (h' : Heap) × (take_block p h ≡ done (b, h'))
        × (h'.sizebases ≡ h.sizebases)
        × Represents h' (update free p bs) (update used p (b ∷ used p))
  take_block-Represents b bs e =
      let page = subst (λ l. IsPage h.word (h.refs p) l (used p)) e (v.pages p at) in
      (
        record h { refs = update h.refs p (taken (h.refs p) bs) },
        take_block-taken p b bs (used p) h page,
        refl,
        Represents-update (taken (h.refs p) bs) h.word bs (b ∷ used p) (taken-pab bs)
            (taken-IsPage h.word (h.refs p) b bs (used p) page) (λ q i ne. v.pages q i),
      )
    where
      taken-pab : (cs : List ℕ) → (taken (h.refs p) cs).pab ≡ (h.refs p).pab
      taken-pab [] = refl
      taken-pab (c ∷ cs) = refl
