-- ===== src/Copyinout/Block.antt =====
-- copyin and copyout (kern/vm/copyinout.c): what they copy, and when they fail.
use os161_kernel.Prelude.{
  ℕ, zero, suc, ◌+◌, ◌-◌, ◌^◌, ◌≤◌, ◌<◌, ◌≡◌, refl, ◌⊎◌, inl, inr, Bool, false, none, some, arith,
  ℕ_discrete, subst, ap,
}
use mathlib.Core.Path.{fun_ext}
use os161_kernel.Prelude.Memory.{Mem, write, within, memmove}
use os161_kernel.Prelude.Errno.{efault}
use os161_kernel.Copyinout.Check.{copycheck_lem, copycheck-empty}
use os161_kernel.Copyinout.{
  Machine, Copied, finished, faulted, userspacetop, faults, copy_bytes, copyin, copyout,
}

-- A block copy that does not overlap its source can be made byte by byte.
pub memmove-suc :
    (n dst src : ℕ) (m : Mem)
    → (src + suc n ≤ dst) ⊎ (dst + suc n ≤ src)
    → memmove (dst + 1) (src + 1) n (write m dst (m src)) ≡ memmove dst src (suc n) m
memmove-suc n dst src m apart = fun_ext λ a. elim (ℕ_discrete dst a) [
  | yes e ↦
      subst
        (λ b. memmove (dst + 1) (src + 1) n (write m dst (m src)) b ≡ memmove dst src (suc n) m b) e
        (ground (arith, ap m start))
  | no ne ↦ ground (arith, λ (p : dst < a). ap m (step a p))
]
  where
    start : src + (dst - dst) ≡ src
    start = omega arith

    step : (a : ℕ) → dst < a → src + 1 + (a - (dst + 1)) ≡ src + (a - dst)
    step a p = omega arith

pub memmove-zero : (dst src : ℕ) (m : Mem) → memmove dst src 0 m ≡ m
memmove-zero dst src m = fun_ext λ a. ground arith

module _ (bad : ℕ → Bool) where
  -- No address of the block faults.
  abbrev pub Mapped : ℕ → ℕ → Type 0
  Mapped p n = (a : ℕ) → p ≤ a → a < p + n → faults bad a ≡ false

  -- memcpy of a block that is mapped at both ends is memmove, where the blocks do not overlap.
  copy_bytes-Mapped :
      (n dst src : ℕ) (m : Mem)
      → Mapped dst n
      → Mapped src n
      → (src + n ≤ dst) ⊎ (dst + n ≤ src)
      → copy_bytes bad n dst src m ≡ finished tt (memmove dst src n m)
  unfolding copy_bytes
  copy_bytes-Mapped zero dst src m hd hs apart = ap (finished tt) (fun_ext λ a. ground arith)
  copy_bytes-Mapped (suc n) dst src m hd hs apart = ground (
    arith,
    hd dst (omega arith) (omega arith),
    hs src (omega arith) (omega arith),
    copy_bytes-Mapped n (dst + 1) (src + 1) (write m dst (m src))
        (λ a p q. hd a (omega arith) (omega arith)) (λ a p q. hs a (omega arith) (omega arith))
        (omega arith),
    memmove-suc n dst src m apart,
  )

  -- Whatever faults, nothing outside the destination is written.
  copy_bytes-frame :
      (n dst src : ℕ) (m : Mem) (a : ℕ)
      → within dst n a ≡ false
      → (elim (copy_bytes bad n dst src m) [ finished _ m' ↦ m' a | faulted m' ↦ m' a ]) ≡ m a
  unfolding copy_bytes
  copy_bytes-frame zero dst src m a h = refl
  copy_bytes-frame (suc n) dst src m a h =
      ground (arith, copy_bytes-frame n (dst + 1) (src + 1) (write m dst (m src)) a)

  -- A block that is copied to its end was mapped.
  copy_bytes-finished :
      (n dst src : ℕ) (m m' : Mem)
      → copy_bytes bad n dst src m ≡ finished tt m'
      → Mapped src n × Mapped dst n
  unfolding copy_bytes
  copy_bytes-finished zero dst src m m' e =
      ((λ a p q. absurd (omega arith)), λ a p q. absurd (omega arith))
  copy_bytes-finished (suc n) dst src m m' e =
      let rest =
        copy_bytes-finished n (dst + 1) (src + 1) (write m dst (m src)) m' (ground arith) in
      let here : (faults bad src ≡ false) × (faults bad dst ≡ false) = ground arith in
      (extend src here.0 rest.0, extend dst here.1 rest.1)
    where
      extend : (p : ℕ) → faults bad p ≡ false → Mapped (p + 1) n → Mapped p (suc n)
      extend p free rest a lo hi = elim (ℕ_discrete p a) [
        | yes e ↦ subst (λ b. faults bad b ≡ false) e free
        | no ne ↦ rest a (omega arith) (omega arith)
      ]

  pub kernel-Mapped : (p n : ℕ) → userspacetop ≤ p → Mapped p n
  kernel-Mapped p n h a lo hi = ground arith

  -- The region is in user space, is not empty, and can be accessed.
  pub record Readable (p n : ℕ) : Type 0 where
    pub some_bytes : 0 < n
    pub below_top : p + n ≤ userspacetop
    pub mapped : Mapped p n

  module _ (user kernel len : ℕ) (m : Machine) (lk : userspacetop ≤ kernel) where
    -- A copy between a region of user space that can be accessed and kernel memory succeeds: it is
    -- a memmove, and leaves tm_badfaultfunc NULL.
    pub copyin_lem :
        Readable user len
        → (copyin bad user kernel len m
            ≡ (none, record { mem = memmove kernel user len m.mem; badfaultfunc = false }))
          × (copyout bad kernel user len m
              ≡ (none, record { mem = memmove user kernel len m.mem; badfaultfunc = false }))
    unfolding copyin copyout
    copyin_lem r = ground (
      arith,
      copycheck_lem user len,
      copy_bytes-Mapped len kernel user m.mem (kernel-Mapped kernel len lk) r.mapped (omega arith),
      copy_bytes-Mapped len user kernel m.mem r.mapped (kernel-Mapped kernel len lk) (omega arith),
    )

  Copied-cases :
      (c : Copied (Unit {0}))
      → ((m' : Mem) × (c ≡ finished tt m')) ⊎ ((m' : Mem) × (c ≡ faulted m'))
  Copied-cases (finished tt m') = inl (m', refl)
  Copied-cases (faulted m') = inr (m', refl)

  module _ (user kernel len : ℕ) (m : Machine) (hu : user < 2 ^ 32) (hl : len < 2 ^ 32) where
    -- When copyin returns 0, the region was in user space, not empty and could be accessed.
    pub copyin-Readable : (copyin bad user kernel len m).0 ≡ none → Readable user len
    unfolding copyin
    copyin-Readable h = elim (Copied-cases (copy_bytes bad len kernel user m.mem)) [
      | inl (m', e) ↦ record {
        some_bytes = ground (arith, copycheck_lem user len hu hl, copycheck-empty user hu);
        below_top = ground (arith, copycheck_lem user len hu hl, copycheck-empty user hu);
        mapped = (copy_bytes-finished len kernel user m.mem m' e).0;
      }
      | inr (m', e) ↦ absurd (ground (arith, copycheck_lem user len hu hl))
    ]

    -- Whatever copyin returns, it changes no byte outside the destination, and tm_badfaultfunc is
    -- NULL after it if it was before.
    pub copyin-frame :
        (a : ℕ)
        → within kernel len a ≡ false
        → m.badfaultfunc ≡ false
        → ((copyin bad user kernel len m).1.mem a ≡ m.mem a)
          × ((copyin bad user kernel len m).1.badfaultfunc ≡ false)
    unfolding copyin
    copyin-frame a h b = ground (arith, copy_bytes-frame len kernel user m.mem a h)

  -- A copy of no bytes is refused, wherever it goes.
  pub copyin-zero :
      (user kernel : ℕ) (m : Machine)
      → user < 2 ^ 32
      → (copyin bad user kernel 0 m ≡ (some efault, m))
        × (copyout bad kernel user 0 m ≡ (some efault, m))
  unfolding copyin copyout
  copyin-zero user kernel m hu = ground (arith, copycheck-empty user hu)
