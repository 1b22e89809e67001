-- ===== src/Kmalloc/PutBack.antt =====
-- A block that goes back to the free list of its page, in subpage_kfree (kern/vm/kmalloc.c).
use os161_kernel.Prelude.{
  ℕ, ◌+◌, ◌-◌, ◌<◌, ◌≤◌, ◌≡◌, ◌≢◌, refl, sym, ap, ◌∙◌, subst, true, false, List, ◌∷◌, ◌==◌, ==-true,
  ==-false, arith, ℕ_discrete, Bool-cases, update, ◌⊎◌, inl, inr,
}
use os161_kernel.Kmalloc.{Pageref, page_of, blktype_of, size_of, Heap, fill_deadbeef, unlink}
use os161_kernel.Kmalloc.Chain.{
  has, has-cons, Chain, Chain-frame, IsBlock, IsBlock-within, fill_deadbeef-other,
}
use os161_kernel.Kmalloc.Pages.{IsPage, Represents, head_of, Represents-update}
use os161_kernel.Kmalloc.Unlink.{
  has-unlink, has-unlink_ne, length-unlink, unlink-gone, unlink-Distinct,
}

-- The page and the words after a block at `ptr` was put in front of the free ones.
abbrev released : ℕ → Pageref → Pageref
released ptr r = record r { offset = ptr - page_of r; nfree = r.nfree + 1 }

abbrev words_after : ℕ → Pageref → (ℕ → ℕ) → ℕ → ℕ
words_after ptr r word = update (fill_deadbeef ptr (size_of (blktype_of r)) word) ptr (head_of r)

released-IsPage :
    (word : ℕ → ℕ) (r : Pageref) (ptr : ℕ) (free used : List ℕ)
    → IsPage word r free used
    → has ptr used ≡ true
    → IsPage (words_after ptr r word) (released ptr r) (ptr ∷ free) (unlink ptr used)
released-IsPage word r ptr free used v i =
    let block = v.used_blocks ptr i in
    let not_free : has ptr free ≡ false = elim (Bool-cases (has ptr free)) [
      | inl t ↦ absurd (ground (arith, v.apart ptr t))
      | inr f ↦ f
    ] in
    let head : head_of (released ptr r) ≡ ptr = ground (arith, block.low, block.high) in
    let next : words_after ptr r word ptr ≡ head_of r =
      let self : (ptr == ptr) ≡ true = ==-true refl in rw self refl in
    let spared : (b : ℕ) → has b free ≡ true → words_after ptr r word b ≡ word b = λ b j.
      let ne : ptr ≢ b = λ e. absurd (ground (arith, ap (λ x. has x free) e)) in
      rw (==-false ne) (
        fill_deadbeef-other (page_of r) (blktype_of r) word ptr b v.kind block (v.free_blocks b j)
          (λ e. ne (sym e))) in
    record {
      low = v.low;
      high = v.high;
      kind = v.kind;
      chain = (
        head,
        omega (arith, v.low, block.low),
        not_free,
        subst (λ x. Chain (words_after ptr r word) x free) (sym next)
            (Chain-frame word (words_after ptr r word) (head_of r) free spared v.chain),
      );
      count = omega (arith, v.count);
      full = omega (arith, v.full, length-unlink ptr used i);
      free_blocks = λ b j. elim (has-cons b ptr free j) [
        | inl e ↦ subst (IsBlock (page_of r) (size_of (blktype_of r))) e block
        | inr k ↦ v.free_blocks b k
      ];
      used_blocks = λ b j. v.used_blocks b (has-unlink b ptr used j);
      apart = λ b j. elim (ℕ_discrete ptr b) [
        | yes e ↦ subst (λ x. has x (unlink ptr used) ≡ false) e (unlink-gone ptr used v.once)
        | no ne ↦ has-unlink_ne b ptr used ne ∙ v.apart b (ground arith)
      ];
      once = unlink-Distinct ptr used v.once;
    }

-- Only words of its own page change.
words_after-outside :
    (word : ℕ → ℕ) (r : Pageref) (ptr b : ℕ)
    → blktype_of r < 8
    → IsBlock (page_of r) (size_of (blktype_of r)) ptr
    → (b < page_of r) ⊎ (page_of r + 4096 ≤ b)
    → words_after ptr r word b ≡ word b
words_after-outside word r ptr b k block away =
    ground
      (arith, block.low, block.high, away, IsBlock-within (page_of r) (blktype_of r) ptr k block)

module _ {h : Heap} {free used : ℕ → List ℕ} (v : Represents h free used) (p ptr : ℕ)
    (at : has p h.allbase ≡ true) (i : has ptr (used p) ≡ true) where
  block : IsBlock (page_of (h.refs p)) (size_of (blktype_of (h.refs p))) ptr
  block = (v.pages p at).used_blocks ptr i

  -- The heap in which the block is free, before the page is looked at.
  abbrev pub put_back : Heap
  put_back = record h {
    word = words_after ptr (h.refs p) h.word;
    refs = update h.refs p (released ptr (h.refs p));
  }

  other-IsPage :
      (q : ℕ)
      → has q h.allbase ≡ true
      → p ≢ q
      → IsPage (words_after ptr (h.refs p) h.word) (h.refs q) (free q) (used q)
  other-IsPage q j ne =
      let w = v.pages q j in
      let apart : page_of (h.refs p) ≢ page_of (h.refs q) = λ e. ne (v.apart p q at j e) in
      record {
        low = w.low;
        high = w.high;
        kind = w.kind;
        chain =
            Chain-frame h.word (words_after ptr (h.refs p) h.word) (head_of (h.refs q)) (free q)
              (λ b f.
                let c = w.free_blocks b f in
                words_after-outside h.word (h.refs p) ptr b (v.pages p at).kind block
                  (omega (arith, apart, c.low, c.high)))
              w.chain;
        count = w.count;
        full = w.full;
        free_blocks = w.free_blocks;
        used_blocks = w.used_blocks;
        apart = w.apart;
        once = w.once;
      }

  pub put_back-Represents :
      Represents put_back (update free p (ptr ∷ free p)) (update used p (unlink ptr (used p)))
  put_back-Represents =
      Represents-update v p at (released ptr (h.refs p)) (words_after ptr (h.refs p) h.word)
        (ptr ∷ free p) (unlink ptr (used p)) refl
        (released-IsPage h.word (h.refs p) ptr (free p) (used p) (v.pages p at) i) other-IsPage
