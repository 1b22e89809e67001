-- ===== src/Kmalloc/Linked.antt =====
-- The blocks of a new page, linked by subpage_kmalloc (kern/vm/kmalloc.c).
use os161_kernel.Prelude.{
  ℕ, suc, ◌+◌, ◌-◌, ◌*◌, ◌/◌, ◌%◌, ◌^◌, ◌<◌, ◌≤◌, ◌≡◌, refl, sym, ap, ◌∙◌, subst, true, [], ◌==◌,
  ==-true, arith, update,
}
use native.Mathlib.Nat.{suc-mul}
use os161_kernel.Kmalloc.{Pageref, mkpab, size_of, link_blocks}
use os161_kernel.Kmalloc.Chain.{
  has, length-blocks_down, size-Fits, blocks_down-range, blocks_down-aligned, Chain, IsBlock,
  blocks_down, link_blocks-Chain,
}
use os161_kernel.Kmalloc.Pages.{IsPage, head_of}

-- The entry of a new page.
abbrev pub new_ref : ℕ → ℕ → Pageref
new_ref page k = record {
  pab = mkpab page k;
  nfree = 4096 / size_of k;
  offset = (4096 / size_of k - 1) * size_of k;
}

abbrev pub linked : ℕ → ℕ → (ℕ → ℕ) → ℕ → ℕ
linked page k word = link_blocks (4096 / size_of k - 1) 1 (size_of k) page (update word page 0)

linked-Chain :
    (page k m : ℕ) (word : ℕ → ℕ)
    → 0 < page
    → 0 < size_of k
    → 4096 / size_of k ≡ suc m
    → Chain (linked page k word) (page + m * size_of k) (blocks_down (suc m) (size_of k) page)
linked-Chain page k m word pos s e =
    let first : page + 0 * size_of k ≡ page = omega arith in
    let ended : update word page 0 page ≡ 0 =
      let self : (page == page) ≡ true = ==-true refl in rw self refl in
    let rounds : 4096 / size_of k - 1 ≡ m = omega arith in
    subst
      (λ n.
        Chain (link_blocks n 1 (size_of k) page (update word page 0)) (page + m * size_of k)
          (blocks_down (suc m) (size_of k) page))
      (sym rounds)
      (link_blocks-Chain (size_of k) page s m 0 m (update word page 0) (omega arith) pos
        (refl, omega arith, refl, subst (λ a. update word page 0 a ≡ 0) (sym first) ended))

pub new_ref-IsPage :
    (page k : ℕ) (word : ℕ → ℕ)
    → k < 8
    → 0 < page
    → page % 4096 ≡ 0
    → page + 4096 ≤ 2 ^ 32
    → IsPage
        (linked page k word)
        (new_ref page k)
        (blocks_down (4096 / size_of k) (size_of k) page)
        []
new_ref-IsPage page k word l pos whole high =
    let (fill, big, many) = size-Fits k l in
    let n = 4096 / size_of k in
    let m = n - 1 in
    let n_suc : n ≡ suc m = omega arith in
    let addr : mkpab page k / 4096 * 4096 ≡ page = omega arith in
    let kind : mkpab page k % 4096 ≡ k = omega arith in
    let room : suc m * size_of k ≡ 4096 = ap (λ x. x * size_of k) (sym n_suc) ∙ fill in
    let low_offset : m * size_of k < 4096 = omega (arith, suc-mul m (size_of k), room) in
    let head : head_of (new_ref page k) ≡ page + m * size_of k = ground (arith, addr) in
    record {
      low = subst (λ x. 0 < x) (sym addr) pos;
      high = subst (λ x. x + 4096 ≤ 2 ^ 32) (sym addr) high;
      kind = subst (λ x. x < 8) (sym kind) l;
      chain =
          subst (λ x. Chain (linked page k word) x (blocks_down n (size_of k) page)) (sym head)
            (subst
              (λ x.
                Chain (linked page k word) (page + m * size_of k) (blocks_down x (size_of k) page))
              (sym n_suc) (linked-Chain page k m word pos (omega arith) n_suc));
      count = sym (length-blocks_down n (size_of k) page);
      full = rw (kind, length-blocks_down n (size_of k) page) (omega arith);
      free_blocks = λ b h. rw (addr, kind) (blocks_down-IsBlock b h);
      used_blocks = λ b h. cc;
      apart = λ b h. refl;
      once = tt;
    }
  where
    blocks_down-IsBlock :
        (b : ℕ)
        → has b (blocks_down (4096 / size_of k) (size_of k) page) ≡ true
        → IsBlock page (size_of k) b
    blocks_down-IsBlock b h =
        let (fill, big, many) = size-Fits k l in
        let r = blocks_down-range (size_of k) page (omega arith) (4096 / size_of k) b h in
        record {
          low = r.0;
          high = omega (arith, r.1, fill);
          aligned = blocks_down-aligned (size_of k) page (omega arith) (4096 / size_of k) b h;
        }
