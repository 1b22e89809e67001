-- ===== src/Kmalloc/Requests.antt =====
-- kmalloc and kfree (kern/vm/kmalloc.c): a request of less than 2048 bytes, and giving it back.
use os161_kernel.Prelude.{
  ℕ, ◌+◌, ◌%◌, ◌^◌, ◌<◌, ◌≤◌, ◌≡◌, ◌≢◌, refl, true, false, List, [], ◌∷◌, ◌==◌, arith, update, ◌⊎◌,
  inl, inr,
}
use os161_kernel.Prelude.Outcome.{Outcome, done}
use os161_kernel.Kmalloc.{page_of, blktype_of, size_of, Heap, Kernel, unlink, kfree}
use os161_kernel.Kmalloc.Chain.{has}
use os161_kernel.Kmalloc.Pages.{Represents}
use os161_kernel.Kmalloc.Release.{subpage_kfree-used}

-- `b` is a block of at least `sz` bytes of the page of entry `p`, and the only one of `h'` that is
-- used in addition to `used`.
pub record Handed (sz b : ℕ) (h h' : Heap) (free used : ℕ → List ℕ) : Type 0 where
  pub p : ℕ
  pub bs : List ℕ
  pub us : List ℕ
  pub origin :
      ((has p h.allbase ≡ true) × (free p ≡ b ∷ bs) × (us ≡ used p))
      ⊎ ((has p h.allbase ≡ false) × (us ≡ []))
  pub at : has p h'.allbase ≡ true
  pub holds : sz ≤ size_of (blktype_of (h'.refs p))
  pub valid : Represents h' (update free p bs) (update used p (b ∷ us))

module _ {S : Type 0} (alloc_kpages : ℕ → S → Outcome (ℕ × S))
    (free_kpages : ℕ → S → Outcome S) where
  -- What a call of alloc_kpages for one page comes to: no page, or a whole page below 2 ^ 32 that no
  -- entry has, which can be given back.
  pub record OnePage (k : Kernel S) : Type 0 where
    pub page : ℕ
    pub after : S
    pub call : alloc_kpages 1 k.pages ≡ done (page, after)
    pub good :
        (page ≡ 0)
        ⊎ ((0 < page)
            × (page % 4096 ≡ 0)
            × (page + 4096 ≤ 2 ^ 32)
            × ((q : ℕ) → has q k.heap.allbase ≡ true → page_of (k.heap.refs q) ≢ page)
            × ((undone : S) × (free_kpages page after ≡ done undone)))

  -- kfree of a block that is handed out gives it back to its page, and that page, when it has no
  -- other, to free_kpages.
  pub kfree-Represents :
      (p ptr : ℕ) (k : Kernel S) (free used : ℕ → List ℕ)
      → Represents k.heap free used
      → has p k.heap.allbase ≡ true
      → has ptr (used p) ≡ true
      → ptr < 0xfffff000
      → ((s : S) × (free_kpages (page_of (k.heap.refs p)) k.pages ≡ done s))
      → (k' : Kernel S) × (kfree alloc_kpages free_kpages ptr k ≡ done k')
        × Represents k'.heap (update free p (ptr ∷ free p)) (update used p (unlink ptr (used p)))
  unfolding kfree
  kfree-Represents p ptr k free used v at i low_enough (s, given) =
      let w = v.pages p at in
      let some_block : (ptr == 0) ≡ false = ground (arith, w.low, (w.used_blocks ptr i).low) in
      let (h', result, r) = subpage_kfree-used k.heap free used p ptr v at i low_enough in
      elim result [
        | inl (e, stays, more) ↦ (record k { heap = h' }, rw (some_block, e) refl, r)
        | inr (e, out, idle, last) ↦
            (record { heap = h'; pages = s }, rw (some_block, e, given) refl, r)
      ]
