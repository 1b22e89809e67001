-- ===== src/Kmalloc/Entries.antt =====
-- allocpageref and freepageref (kern/vm/kmalloc.c): the bits of pagerefs_inuse.
use os161_kernel.Prelude.{
  ℕ, zero, suc, ◌+◌, ◌-◌, ◌*◌, ◌/◌, ◌%◌, ◌^◌, ◌<◌, ◌≤◌, ◌≡◌, refl, sym, ap, ◌∙◌, subst, true, false,
  none, some, List, [], ◌∷◌, ◌==◌, ==-true, ==-false, ltb, length, if◌then◌else◌, arith, ℕ_discrete,
  dec_lt, Bool-cases, get_or, get_or-set_self, get_or-set_ne, get_elem?, get_elem?-eq-get_or,
  length-set, set, ◌⊎◌, inl, inr,
}
use os161_kernel.Prelude.Outcome.{done}
use os161_kernel.Kmalloc.{bit_set, clear_bit, alloc_inuse, in_use, freepageref}
use os161_kernel.Kmalloc.Bits.{bit_set-add, bit_set-sub, bit_set-add-lt, all_bits}

clear_bit_lem :
    (n j w : ℕ)
    → ((k : ℕ) × (clear_bit n j w ≡ some k) × (j ≤ k) × (k < j + n) × (bit_set w k ≡ false))
      ⊎ ((k : ℕ) → j ≤ k → k < j + n → bit_set w k ≡ true)
unfolding clear_bit
clear_bit_lem zero j w = inr (λ k p q. absurd (omega arith))
clear_bit_lem (suc n) j w = elim (Bool-cases (bit_set w j)) [
  | inl t ↦ elim (clear_bit_lem n (j + 1) w) [
    | inl (k, e, p, q, c) ↦ inl (k, rw t e, omega arith, omega arith, c)
    | inr all ↦ inr (λ k p q. elim (ℕ_discrete j k) [
      | yes e ↦ subst (λ x. bit_set w x ≡ true) e t
      | no ne ↦ all k (omega arith) (omega arith)
    ])
  ]
  | inr f ↦ inl (j, rw f refl, omega arith, omega arith, f)
]

-- A word with a clear bit has a first one.
clear_bit-found :
    (w : ℕ)
    → w < 2 ^ 32
    → (w == 0xffffffff) ≡ false
    → (k : ℕ) × (clear_bit 32 0 w ≡ some k) × (k < 32) × (bit_set w k ≡ false)
clear_bit-found w h ne = elim (clear_bit_lem 32 0 w) [
  | inl (k, e, p, q, c) ↦ (k, e, omega arith, c)
  | inr all ↦ absurd (ground (arith, all_bits 32 w h (λ j p. all j (omega arith) (omega arith))))
]

-- The index `j` was free, and in `us` it is the only one that is new.
pub record Entered (ws : List ℕ) (j : ℕ) (us : List ℕ) : Type 0 where
  pub within : j < 32 * length ws
  pub was_free : in_use ws j ≡ false
  pub words : length us ≡ length ws
  pub small : (i : ℕ) → get_or us i 0 < 2 ^ 32
  pub others : (q : ℕ) → in_use us q ≡ (if j == q then true else in_use ws q)

in_use-low : (w : ℕ) (ws : List ℕ) (q : ℕ) → q < 32 → in_use (w ∷ ws) q ≡ bit_set w q
in_use-low w ws q h =
    let a : q / 32 ≡ 0 = omega arith in let b : q % 32 ≡ q = omega arith in rw (a, b) refl

in_use-high : (w : ℕ) (ws : List ℕ) (q : ℕ) → in_use (w ∷ ws) (32 + q) ≡ in_use ws q
in_use-high w ws q =
    let a : (32 + q) / 32 ≡ suc (q / 32) = omega arith in
    let b : (32 + q) % 32 ≡ q % 32 = omega arith in rw (a, b) refl

pub here-Entered :
    (w : ℕ) (ws : List ℕ) (k : ℕ)
    → ((i : ℕ) → get_or (w ∷ ws) i 0 < 2 ^ 32)
    → k < 32
    → bit_set w k ≡ false
    → Entered (w ∷ ws) k ((w + 2 ^ k) ∷ ws)
here-Entered w ws k small p clear = record {
  within = omega arith;
  was_free = in_use-low w ws k p ∙ clear;
  words = refl;
  small = small_here;
  others = λ q. elim (dec_lt q 32) [
    | yes l ↦
        in_use-low (w + 2 ^ k) ws q l
        ∙ bit_set-add k q w clear
        ∙ ap (λ x. if k == q then true else x) (sym (in_use-low w ws q l))
    | no nl ↦ far q (omega arith)
  ];
}
  where
    small_here : (i : ℕ) → get_or ((w + 2 ^ k) ∷ ws) i 0 < 2 ^ 32
    small_here zero = bit_set-add-lt 32 k w (small 0) p clear
    small_here (suc i) = small (suc i)

    far :
        (q : ℕ)
        → 32 ≤ q
        → in_use ((w + 2 ^ k) ∷ ws) q ≡ (if k == q then true else in_use (w ∷ ws) q)
    far q l =
        let e : q ≡ 32 + (q - 32) = omega arith in
        let ne : (k == q) ≡ false = ground arith in
        let a : q / 32 ≡ suc ((q - 32) / 32) = omega arith in rw (ne, a) refl

after-Entered :
    (w : ℕ) (ws us : List ℕ) (j : ℕ)
    → w < 2 ^ 32
    → Entered ws j us
    → Entered (w ∷ ws) (32 + j) (w ∷ us)
after-Entered w ws us j small v = record {
  within = omega (arith, v.within);
  was_free = in_use-high w ws j ∙ v.was_free;
  words = ap suc v.words;
  small = small_after;
  others = λ q. elim (dec_lt q 32) [
    | yes l ↦
        let ne : ((32 + j) == q) ≡ false = ground arith in
        rw ne (in_use-low w us q l ∙ sym (in_use-low w ws q l))
    | no nl ↦ far q (omega arith)
  ];
}
  where
    small_after : (i : ℕ) → get_or (w ∷ us) i 0 < 2 ^ 32
    small_after zero = small
    small_after (suc i) = v.small i

    far : (q : ℕ) → 32 ≤ q → in_use (w ∷ us) q ≡ (if 32 + j == q then true else in_use (w ∷ ws) q)
    far q l =
        let e : q ≡ 32 + (q - 32) = omega arith in
        let same : ((32 + j) == q) ≡ (j == (q - 32)) = ground arith in
        rw same (
          subst (λ x. in_use (w ∷ us) x ≡ (if j == (q - 32) then true else in_use (w ∷ ws) x))
            (sym e)
            (in_use-high w us (q - 32)
              ∙ v.others (q - 32)
              ∙ ap (λ x. if j == (q - 32) then true else x) (sym (in_use-high w ws (q - 32)))))

full_after :
    (w : ℕ) (ws : List ℕ)
    → w ≡ 0xffffffff
    → ((k : ℕ) → k < length ws → get_or ws k 0 ≡ 0xffffffff)
    → (k : ℕ) → k < length (w ∷ ws)
    → get_or (w ∷ ws) k 0 ≡ 0xffffffff
full_after w ws e all zero l = e
full_after w ws e all (suc k) l = all k (omega arith)

alloc_inuse-from :
    (ws : List ℕ) (i : ℕ)
    → ((k : ℕ) → get_or ws k 0 < 2 ^ 32)
    → ((j : ℕ) × (us : List ℕ) × (alloc_inuse ws i ≡ done (some (i * 32 + j, us)))
        × Entered ws j us)
      ⊎ ((alloc_inuse ws i ≡ done none) × ((k : ℕ) → k < length ws → get_or ws k 0 ≡ 0xffffffff))
unfolding alloc_inuse
alloc_inuse-from [] i small = inr (refl, λ k l. absurd (omega arith))
alloc_inuse-from (w ∷ ws) i small = elim (ℕ_discrete w 0xffffffff) [
  | yes e ↦ elim (alloc_inuse-from ws (i + 1) (λ k. small (suc k))) [
    | inl (j, us, e', v) ↦
        let shift : (i + 1) * 32 + j ≡ i * 32 + (32 + j) = omega arith in
        inl (32 + j, w ∷ us, rw (==-true e, e', shift) refl, after-Entered w ws us j (small 0) v)
    | inr (e', all) ↦ inr (rw (==-true e, e') refl, full_after w ws e all)
  ]
  | no ne ↦
      let (k, e, l, clear) = clear_bit-found w (small 0) (==-false ne) in
      inl (k, (w + 2 ^ k) ∷ ws, rw (==-false ne, e) refl, here-Entered w ws k small l clear)
]

-- allocpageref never comes to its KASSERT(0): it gives an index that was free and enters it alone,
-- or all eight words are full and there is none.
pub alloc_inuse_lem :
    (ws : List ℕ)
    → ((k : ℕ) → get_or ws k 0 < 2 ^ 32)
    → ((j : ℕ) × (us : List ℕ) × (alloc_inuse ws 0 ≡ done (some (j, us))) × Entered ws j us)
      ⊎ ((alloc_inuse ws 0 ≡ done none) × ((k : ℕ) → k < length ws → get_or ws k 0 ≡ 0xffffffff))
alloc_inuse_lem ws small = elim (alloc_inuse-from ws 0 small) [
  | inl (j, us, e, v) ↦
      let zero_base : 0 * 32 + j ≡ j = omega arith in
      inl (j, us, subst (λ x. alloc_inuse ws 0 ≡ done (some (x, us))) zero_base e, v)
  | inr r ↦ inr r
]

-- freepageref of an index in use gives it up, and no other.
pub freepageref-in_use :
    (p : ℕ) (ws : List ℕ)
    → length ws ≡ 8
    → p < 256
    → ((k : ℕ) → get_or ws k 0 < 2 ^ 32)
    → in_use ws p ≡ true
    → (us : List ℕ) × (freepageref p ws ≡ done us)
      × (length us ≡ 8)
      × ((k : ℕ) → get_or us k 0 < 2 ^ 32)
      × ((q : ℕ) → in_use us q ≡ (if p == q then false else in_use ws q))
unfolding freepageref
freepageref-in_use p ws n l small used =
    let i = p / 32 in
    let w = get_or ws i 0 in
    let at : i < length ws = omega arith in
    let found : get_elem? ws i ≡ some w = get_elem?-eq-get_or ws i 0 at in
    let inside : ltb p 256 ≡ true = ground arith in
    (
      set ws i (w - 2 ^ (p % 32)),
      rw (inside, found, used) refl,
      length-set ws i (w - 2 ^ (p % 32)) ∙ n,
      (λ k. elim (ℕ_discrete i k) [
        | yes e ↦
            subst (λ x. get_or (set ws i (w - 2 ^ (p % 32))) x 0 < 2 ^ 32) e
              (rw (get_or-set_self ws i (w - 2 ^ (p % 32)) 0 at) (omega (arith, small i)))
        | no ne ↦ rw (get_or-set_ne ws i k (w - 2 ^ (p % 32)) 0 ne) (small k)
      ]),
      λ q. elim (ℕ_discrete i (q / 32)) [
        | yes e ↦
            let v = w - 2 ^ (p % 32) in
            let got : get_or (set ws i v) (q / 32) 0 ≡ v =
              subst (λ x. get_or (set ws i v) x 0 ≡ v) e (get_or-set_self ws i v 0 at) in
            let word_of_q : get_or ws (q / 32) 0 ≡ w = ap (λ x. get_or ws x 0) (sym e) in
            let same : (p == q) ≡ ((p % 32) == (q % 32)) = ground (arith, e) in
            rw (got, same, word_of_q) (bit_set-sub (p % 32) (q % 32) w used)
        | no ne ↦
            let v = w - 2 ^ (p % 32) in
            let differ : (p == q) ≡ false = ==-false (λ e. ne (ap (λ x. x / 32) e)) in
            rw (get_or-set_ne ws i (q / 32) v 0 ne, differ) refl
      ],
    )
