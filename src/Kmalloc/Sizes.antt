-- ===== src/Kmalloc/Sizes.antt =====
-- blocktype (kern/vm/kmalloc.c): the class of the smallest blocks that hold a request.
use os161_kernel.Prelude.{
  ℕ, zero, suc, ◌+◌, ◌<◌, ◌≤◌, ◌≡◌, ap, ◌∙◌, false, List, [], ◌∷◌, leb, length, arith, Bool-cases,
  get_or, inl, inr,
}
use os161_kernel.Prelude.Outcome.{done}
use os161_kernel.Kmalloc.{size_of, sizes, blocktype, blocktype_loop}

-- The class `k` of `ss` holds `sz`, and no class before it does.
record Smallest (sz k : ℕ) (ss : List ℕ) : Type 0 where
  within : k < length ss
  holds : sz ≤ get_or ss k 16
  first : (j : ℕ) → j < k → get_or ss j 16 < sz

blocktype_loop-Smallest :
    (sz i j : ℕ) (ss : List ℕ)
    → j < length ss
    → sz ≤ get_or ss j 16
    → (k : ℕ) × (blocktype_loop sz i ss ≡ done (i + k)) × Smallest sz k ss
unfolding blocktype_loop
blocktype_loop-Smallest sz i j [] l f = absurd (omega arith)
blocktype_loop-Smallest sz i j (s ∷ ss) l f = elim (Bool-cases (leb sz s)) [
  | inl t ↦ (
    0,
    rw t (ap done (omega arith)),
    record { within = omega arith; holds = ground arith; first = λ m p. absurd (omega arith) },
  )
  | inr no_fit ↦ later (λ m. blocktype_loop-Smallest sz (i + 1) m ss) j l f no_fit
]
  where
    later :
        ((m : ℕ)
          → m < length ss
          → sz ≤ get_or ss m 16
          → (k : ℕ) × (blocktype_loop sz (i + 1) ss ≡ done (i + 1 + k)) × Smallest sz k ss)
        → (j : ℕ) → j < length (s ∷ ss)
        → sz ≤ get_or (s ∷ ss) j 16
        → leb sz s ≡ false
        → (k : ℕ) × (blocktype_loop sz i (s ∷ ss) ≡ done (i + k)) × Smallest sz k (s ∷ ss)
    later rest zero l f no_fit = absurd (ground arith)
    later rest (suc j) l f no_fit =
        let (k, e, w) = rest j (omega arith) f in
        (
          suc k,
          rw no_fit (e ∙ ap done (omega arith)),
          record { within = omega (arith, w.within); holds = w.holds; first = earlier k w no_fit },
        )
      where
        earlier :
            (k : ℕ)
            → Smallest sz k ss
            → leb sz s ≡ false
            → (m : ℕ) → m < suc k
            → get_or (s ∷ ss) m 16 < sz
        earlier k w no_fit zero p = ground arith
        earlier k w no_fit (suc m) p = w.first m (omega arith)

-- A request of at most 2048 bytes gets the class of the smallest blocks that hold it.
pub blocktype_lem :
    (sz : ℕ)
    → sz ≤ 2048
    → (k : ℕ) × (blocktype sz ≡ done k)
      × (k < 8)
      × (sz ≤ size_of k)
      × ((j : ℕ) → j < k → size_of j < sz)
blocktype_lem sz l =
    let (k, e, w) = blocktype_loop-Smallest sz 0 7 sizes (omega arith) l in
    (k, e ∙ ap done (omega arith), w.within, w.holds, w.first)
