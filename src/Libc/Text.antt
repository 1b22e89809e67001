-- ===== src/Libc/Text.antt =====
-- The string functions (common/libc/string) on the texts that they stand for.
use os161_kernel.Prelude.{
  ℕ, zero, suc, ◌+◌, ◌%◌, ◌<◌, ◌≤◌, ◌≡◌, ◌≢◌, refl, sym, ap, ◌∙◌, subst, Bool, true, false, ltb,
  ◌==◌, ==-true, ==-false, if◌then◌else◌, arith, ℕ_discrete, Bool-cases, ◌↔◌, ◌⊎◌, inl, inr, List,
  [], ◌∷◌, ◌++◌, length, length-append, Option, none, some,
}
use os161_kernel.Prelude.Memory.{Mem, write}
use os161_kernel.Prelude.Outcome.{done}
use os161_kernel.Libc.{
  strlen_loop, strlen, strcpy_loop, strcat, strcmp_loop, strcmp, strchr_loop, strchr, strrchr_loop,
  strrchr,
}

-- At `p` stand the characters `cs`, none of them 0, and a 0.
abbrev pub IsText : Mem → ℕ → List ℕ → Type 0
IsText m p [] = m p ≡ 0
IsText m p (c ∷ cs) = (m p ≡ c) × (c ≢ 0) × IsText m (p + 1) cs

IsText-at : (m : Mem) (p q : ℕ) (cs : List ℕ) → p ≡ q → IsText m p cs → IsText m q cs
IsText-at m p q cs e t = subst (λ x. IsText m x cs) e t

IsText-frame :
    (m m' : Mem) (p : ℕ) (cs : List ℕ)
    → ((a : ℕ) → p ≤ a → a ≤ p + length cs → m' a ≡ m a)
    → IsText m p cs
    → IsText m' p cs
IsText-frame m m' p [] same t = same p (omega arith) (omega arith) ∙ t
IsText-frame m m' p (c ∷ cs) same t = (
  same p (omega arith) (omega arith) ∙ t.0,
  t.1,
  IsText-frame m m' (p + 1) cs (λ a l h. same a (omega arith) (omega arith)) t.2,
)

strlen_loop-text :
    (n ret str : ℕ) (m : Mem) (cs : List ℕ)
    → IsText m (str + ret) cs
    → length cs < n
    → strlen_loop n ret str m ≡ done (ret + length cs)
unfolding strlen_loop
strlen_loop-text zero ret str m cs t h = absurd (omega arith)
strlen_loop-text (suc n) ret str m [] t h = rw (==-true t) (ap done (omega arith))
strlen_loop-text (suc n) ret str m (c ∷ cs) t h =
    let more : (m (str + ret) == 0) ≡ false = ground (arith, t.0, t.1) in
    rw more (
      strlen_loop-text n (ret + 1) str m cs (IsText-at m _ _ cs (omega arith) t.2) (omega arith)
      ∙ ap done (omega arith))

-- The order of two texts: 0 for equal ones, 1 when the first is greater, and -1.
abbrev pub order : List ℕ → List ℕ → ℕ
order [] [] = 0
order [] (y ∷ ys) = 0xffffffff
order (x ∷ xs) [] = 1
order (x ∷ xs) (y ∷ ys) = if x == y then order xs ys else (if ltb y x then 1 else 0xffffffff)

strcmp_loop-order :
    (n i a b : ℕ) (m : Mem) (xs ys : List ℕ)
    → IsText m (a + i) xs
    → IsText m (b + i) ys
    → length xs < n
    → strcmp_loop n i a b m ≡ done (order xs ys)
unfolding strcmp_loop
strcmp_loop-order zero i a b m xs ys s t h = absurd (omega arith)
strcmp_loop-order (suc n) i a b m [] [] s t h = ground (arith, s, t)
strcmp_loop-order (suc n) i a b m [] (y ∷ ys) s t h = ground (arith, s, t.0, t.1)
strcmp_loop-order (suc n) i a b m (x ∷ xs) [] s t h = ground (arith, s.0, s.1, t)
strcmp_loop-order (suc n) i a b m (x ∷ xs) (y ∷ ys) s t h =
    let rest =
      strcmp_loop-order n (i + 1) a b m xs ys (IsText-at m _ _ xs (omega arith) s.2)
        (IsText-at m _ _ ys (omega arith) t.2) (omega arith) in
    elim (ℕ_discrete x y) [
      | yes e ↦
          let same : (m (a + i) == m (b + i)) ≡ true = ground (arith, s.0, t.0, e) in
          let more : (m (a + i) == 0) ≡ false = ground (arith, s.0, s.1) in
          rw (more, same, ==-true e) rest
      | no ne ↦
          let differ : (m (a + i) == m (b + i)) ≡ false = ground (arith, s.0, t.0, ne) in
          rw (differ, ==-false ne, s.0, t.0, ==-false s.1)
            (elim (Bool-cases (ltb y x)) [ inl q ↦ rw q refl | inr q ↦ rw q refl ])
    ]

order_zero : (xs ys : List ℕ) → order xs ys ≡ 0 → xs ≡ ys
order_zero [] [] e = refl
order_zero [] (y ∷ ys) e = absurd (ground (arith, e))
order_zero (x ∷ xs) [] e = absurd (ground (arith, e))
order_zero (x ∷ xs) (y ∷ ys) e = elim (ℕ_discrete x y) [
  | yes q ↦
      let rest = order_zero xs ys (
        ap (λ b. if b then order xs ys else (if ltb y x then 1 else 0xffffffff)) (sym (==-true q))
        ∙ e) in
      ap (λ h. h ∷ xs) q ∙ ap (λ t. y ∷ t) rest
  | no ne ↦ absurd (
      nonzero (ltb y x) (
        ap (λ b. if b then order xs ys else (if ltb y x then 1 else 0xffffffff)) (sym (==-false ne))
        ∙ e))
]
  where
    nonzero : (b : Bool) → ◌≡◌ {A = ℕ} (if b then 1 else 0xffffffff) 0 → ⊥
    nonzero true q = ground (arith, q)
    nonzero false q = ground (arith, q)

order_self : (xs : List ℕ) → order xs xs ≡ 0
order_self [] = refl
order_self (x ∷ xs) = rw (==-true refl) (order_self xs)

-- strcmp of two texts, with fuel for the characters of the first, is their order, which is 0 just for
-- equal texts.
pub strcmp-order :
    (fuel a b : ℕ) (m : Mem) (xs ys : List ℕ)
    → IsText m a xs
    → IsText m b ys
    → length xs < fuel
    → (strcmp fuel a b m ≡ done (order xs ys)) × ((order xs ys ≡ 0) ↔ (xs ≡ ys))
strcmp-order fuel a b m xs ys s t h = (
  strcmp_loop-order fuel 0 a b m xs ys (IsText-at m _ _ xs (omega arith) s)
      (IsText-at m _ _ ys (omega arith) t) h,
  (order_zero xs ys, λ e. ap (order xs) (sym e) ∙ order_self xs),
)

strcpy_loop-IsText :
    (n i dest src : ℕ) (m : Mem) (ys : List ℕ)
    → IsText m (src + i) ys
    → (dest + length ys < src) ⊎ (src + length ys < dest)
    → length ys < n
    → (m' : Mem) × (strcpy_loop n i dest src m ≡ done m')
      × IsText m' (dest + i) ys
      × ((a : ℕ) → (a < dest + i) ⊎ (dest + i + length ys < a) → m' a ≡ m a)
unfolding strcpy_loop
strcpy_loop-IsText zero i dest src m ys t apart h = absurd (omega arith)
strcpy_loop-IsText (suc n) i dest src m [] t apart h =
    (write m (dest + i) 0, rw (==-true t) refl, ground arith, λ a o. ground (arith, o))
strcpy_loop-IsText (suc n) i dest src m (y ∷ ys) t apart h =
    let m1 = write m (dest + i) (m (src + i)) in
    let more : (m (src + i) == 0) ≡ false = ground (arith, t.0, t.1) in
    let source =
      IsText-at m1 (src + i + 1) (src + (i + 1)) ys (omega arith)
        (IsText-frame m m1 (src + i + 1) ys (λ a l g. ground (arith, apart)) t.2) in
    let (m', e, copied, kept) =
      strcpy_loop-IsText n (i + 1) dest src m1 ys source (omega (arith, apart)) (omega arith) in
    let first : m' (dest + i) ≡ y = kept (dest + i) (omega arith) ∙ ground (arith, t.0) in
    (
      m',
      rw more e,
      (first, t.1, IsText-at m' _ _ ys (omega arith) copied),
      λ a o. kept a (omega (arith, o)) ∙ ground (arith, o),
    )

-- A text up to its terminator, and another one in its place.
IsText-join :
    (m m0 : Mem) (q : ℕ) (xs ys : List ℕ)
    → IsText m0 q xs
    → ((a : ℕ) → q ≤ a → a < q + length xs → m a ≡ m0 a)
    → IsText m (q + length xs) ys
    → IsText m q (xs ++ ys)
IsText-join m m0 q [] ys s same u = IsText-at m _ _ ys (omega arith) u
IsText-join m m0 q (x ∷ xs) ys s same u = (
  same q (omega arith) (omega arith) ∙ s.0,
  s.1,
  IsText-join m m0 (q + 1) xs ys s.2 (λ a l h. same a (omega arith) (omega arith))
      (IsText-at m _ _ ys (omega arith) u),
)

-- strcat, with fuel for both texts and their terminators, of a text `ys` that does not overlap the
-- place of the result: at `dest` stands the one text and then the other, and no byte before it or
-- behind it has changed.
pub strcat-append :
    (fuel dest src : ℕ) (m : Mem) (xs ys : List ℕ)
    → IsText m dest xs
    → IsText m src ys
    → (dest + length xs + length ys < src) ⊎ (src + length ys < dest + length xs)
    → length xs < fuel
    → length ys < fuel
    → (m' : Mem) × (strcat fuel dest src m ≡ done m')
      × IsText m' dest (xs ++ ys)
      × ((a : ℕ) → (a < dest) ⊎ (dest + length (xs ++ ys) < a) → m' a ≡ m a)
unfolding strcat
strcat-append fuel dest src m xs ys s t apart h g =
    let len : strlen fuel dest m ≡ done (length xs) =
      strlen_loop-text fuel 0 dest m xs (IsText-at m _ _ xs (omega arith) s) h
      ∙ ap done (omega arith) in
    let (m', e, copied, kept) =
      strcpy_loop-IsText fuel 0 (dest + length xs) src m ys (IsText-at m _ _ ys (omega arith) t)
        apart g in
    (
      m',
      rw len e,
      IsText-join m' m dest xs ys s (λ a l u. kept a (omega arith))
          (IsText-at m' _ _ ys (omega arith) copied),
      λ a o. kept a (omega (arith, o, length-append xs ys)),
    )

-- The first place of a character in a text at `p`; the terminator counts.
abbrev pub first_place : ℕ → ℕ → List ℕ → Option ℕ
first_place ch p [] = if ch == 0 then some p else none
first_place ch p (c ∷ cs) = if c == ch then some p else first_place ch (p + 1) cs

strchr_loop-first_place :
    (n p ch : ℕ) (m : Mem) (cs : List ℕ)
    → IsText m p cs
    → length cs < n
    → strchr_loop n p ch m ≡ done (first_place ch p cs)
unfolding strchr_loop
strchr_loop-first_place zero p ch m cs t h = absurd (omega arith)
strchr_loop-first_place (suc n) p ch m [] t h = ground (arith, t)
strchr_loop-first_place (suc n) p ch m (c ∷ cs) t h =
    rw (t.0, ==-false t.1, strchr_loop-first_place n (p + 1) ch m cs t.2 (omega arith))
      (elim (Bool-cases (c == ch)) [ inl q ↦ rw q refl | inr q ↦ rw q refl ])

strrchr_loop-last :
    (i s ch : ℕ) (m : Mem)
    → ((strrchr_loop i s ch m ≡ none) × ((j : ℕ) → j < i → m (s + j) ≢ ch))
      ⊎ ((k : ℕ) × (strrchr_loop i s ch m ≡ some (s + k))
          × (k < i)
          × (m (s + k) ≡ ch)
          × ((j : ℕ) → k < j → j < i → m (s + j) ≢ ch))
unfolding strrchr_loop
strrchr_loop-last zero s ch m = inl (refl, λ j h. absurd (omega arith))
strrchr_loop-last (suc i) s ch m = elim (ℕ_discrete (m (s + i)) ch) [
  | yes e ↦ inr (i, rw (==-true e) refl, omega arith, e, λ j l h. absurd (omega arith))
  | no ne ↦ elim (strrchr_loop-last i s ch m) [
    | inl (e, all) ↦ inl (rw (==-false ne) e, λ j h. below i j (all j) ne (omega arith))
    | inr (k, e, l, at, after) ↦
        inr
          (k, rw (==-false ne) e, omega arith, at, λ j g h. below i j (after j g) ne (omega arith))
  ]
]
  where
    below : (i j : ℕ) → (j < i → m (s + j) ≢ ch) → m (s + i) ≢ ch → j ≤ i → m (s + j) ≢ ch
    below i j f ne h = elim (ℕ_discrete j i) [
      | yes e ↦ subst (λ x. m (s + x) ≢ ch) (sym e) ne
      | no nj ↦ f (omega arith)
    ]

-- On a text at `p`, with fuel for it and its terminator, strchr gives the first place of the
-- character, and strrchr the last one: one that holds the character, with none behind it. The
-- terminator counts; both give NULL when the character is not there.
pub strchr-strrchr_places :
    (fuel p ch : ℕ) (m : Mem) (cs : List ℕ)
    → IsText m p cs
    → length cs < fuel
    → (strchr fuel p ch m ≡ done (first_place (ch % 256) p cs))
      × (((strrchr fuel p ch m ≡ done none) × ((j : ℕ) → j ≤ length cs → m (p + j) ≢ ch % 256))
          ⊎ ((k : ℕ) × (strrchr fuel p ch m ≡ done (some (p + k)))
              × (k ≤ length cs)
              × (m (p + k) ≡ ch % 256)
              × ((j : ℕ) → k < j → j ≤ length cs → m (p + j) ≢ ch % 256)))
unfolding strrchr
strchr-strrchr_places fuel p ch m cs t h =
    let len : strlen fuel p m ≡ done (length cs) =
      strlen_loop-text fuel 0 p m cs (IsText-at m _ _ cs (omega arith) t) h
      ∙ ap done (omega arith) in
    (
      strchr_loop-first_place fuel p (ch % 256) m cs t h,
      elim (strrchr_loop-last (length cs + 1) p (ch % 256) m) [
        | inl (e, all) ↦ inl (rw (len, e) refl, λ j l. all j (omega arith))
        | inr (k, e, l, at, after) ↦
            inr (k, rw (len, e) refl, omega arith, at, λ j g l. after j g (omega arith))
      ],
    )
