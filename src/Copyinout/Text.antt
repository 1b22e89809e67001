-- ===== src/Copyinout/Text.antt =====
-- copystr, copyinstr and copyoutstr (kern/vm/copyinout.c).
use os161_kernel.Prelude.{
  ℕ, zero, suc, ◌+◌, ◌-◌, ◌^◌, ◌≤◌, ◌<◌, ◌≡◌, refl, ◌≢◌, ◌⊎◌, Bool, false, none, some, min, ltb,
  ◌==◌, if◌then◌else◌, ◌||◌, arith, sym, ap, ◌∙◌,
}
use os161_kernel.Prelude.Memory.{Mem, write, memmove}
use os161_kernel.Prelude.Errno.{efault, enametoolong, ok, err}
use os161_kernel.Copyinout.Check.{copycheck_lem}
use os161_kernel.Copyinout.Block.{Mapped, memmove-suc, memmove-zero, kernel-Mapped}
use os161_kernel.Copyinout.{
  Machine, finished, faulted, userspacetop, faults, copystr_loop, copystr, copyinstr, copyoutstr,
}

-- The bytes from `p` on hold a string of `k` bytes and its terminator.
pub record IsText (m : Mem) (p k : ℕ) : Type 0 where
  pub body : (j : ℕ) → j < k → m (p + j) ≢ 0
  pub terminator : m (p + k) ≡ 0

module _ (bad : ℕ → Bool) where
  copystr_loop-suc :
      (n dst src i : ℕ) (m : Mem)
      → copystr_loop bad (suc n) dst src i m ≡ (
          if faults bad (src + i) || faults bad (dst + i)
          then faulted m
          else if m (src + i) == 0
          then finished (some (i + 1)) (write m (dst + i) (m (src + i)))
          else copystr_loop bad n dst src (i + 1) (write m (dst + i) (m (src + i))))
  unfolding copystr_loop
  copystr_loop-suc n dst src i m = refl

  -- The loop at the addresses `d` and `s` of the next bytes copies a text to its terminator.
  copystr_loop-IsText :
      (n k dst src i d s : ℕ) (m : Mem)
      → dst + i ≡ d
      → src + i ≡ s
      → k < n
      → Mapped bad d (k + 1)
      → Mapped bad s (k + 1)
      → (s + k < d) ⊎ (d + k < s)
      → IsText m s k
      → copystr_loop bad n dst src i m ≡ finished (some (i + k + 1)) (memmove d s (k + 1) m)
  copystr_loop-IsText zero k dst src i d s m ed es h hd hs apart t = absurd (omega arith)
  copystr_loop-IsText (suc n) zero dst src i d s m ed es h hd hs apart t =
      let z : s + 0 ≡ s = omega arith in
      let one : write m d (m s) ≡ memmove d s 1 m =
        sym (memmove-zero (d + 1) (s + 1) (write m d (m s))) ∙ memmove-suc 0 d s m (omega arith) in
      rw (copystr_loop-suc n dst src i m, ed, es)
        (ground (
          arith,
          hd d (omega arith) (omega arith),
          hs s (omega arith) (omega arith),
          ap m z,
          t.terminator,
        ))
  copystr_loop-IsText (suc n) (suc k) dst src i d s m ed es h hd hs apart t =
      rw (copystr_loop-suc n dst src i m, ed, es)
        (ground (
          arith,
          hd d (omega arith) (omega arith),
          hs s (omega arith) (omega arith),
          ap m z,
          t.body 0 (omega arith),
          copystr_loop-IsText n k dst src (i + 1) (d + 1) (s + 1) (write m d (m s)) (omega arith)
              (omega arith) (omega arith) (λ a p q. hd a (omega arith) (omega arith))
              (λ a p q. hs a (omega arith) (omega arith)) (omega arith) rest,
          memmove-suc (k + 1) d s m (omega arith),
          some_eq,
        ))
    where
      z : s + 0 ≡ s
      z = omega arith

      some_eq : suc (k + 1) ≡ suc k + 1
      some_eq = omega arith

      shift : (j : ℕ) → s + 1 + j ≡ s + suc j
      shift j = omega arith

      rest : IsText (write m d (m s)) (s + 1) k
      rest = record {
        body = λ j p. ground (arith, ap m (shift j), t.body (suc j) (omega arith));
        terminator = ground (arith, ap m (shift k), t.terminator);
      }

  -- With no terminator in `n` bytes the loop copies them all.
  copystr_loop-none :
      (n dst src i d s : ℕ) (m : Mem)
      → dst + i ≡ d
      → src + i ≡ s
      → Mapped bad d n
      → Mapped bad s n
      → (s + n ≤ d) ⊎ (d + n ≤ s)
      → ((j : ℕ) → j < n → m (s + j) ≢ 0)
      → copystr_loop bad n dst src i m ≡ finished none (memmove d s n m)
  unfolding copystr_loop
  copystr_loop-none zero dst src i d s m ed es hd hs apart t =
      ap (finished none) (sym (memmove-zero d s m))
  copystr_loop-none (suc n) dst src i d s m ed es hd hs apart t =
      rw (copystr_loop-suc n dst src i m, ed, es)
        (ground (
          arith,
          hd d (omega arith) (omega arith),
          hs s (omega arith) (omega arith),
          ap m z,
          t 0 (omega arith),
          copystr_loop-none n dst src (i + 1) (d + 1) (s + 1) (write m d (m s)) (omega arith)
              (omega arith) (λ a p q. hd a (omega arith) (omega arith))
              (λ a p q. hs a (omega arith) (omega arith)) (omega arith) rest,
          memmove-suc n d s m apart,
        ))
    where
      z : s + 0 ≡ s
      z = omega arith

      shift : (j : ℕ) → s + 1 + j ≡ s + suc j
      shift j = omega arith

      rest : (j : ℕ) → j < n → write m d (m s) (s + 1 + j) ≢ 0
      rest j p = ground (arith, ap m (shift j), t (suc j) (omega arith))

  module _ (user kernel len : ℕ) (m : Machine) (lk : userspacetop ≤ kernel)
      (room : user + len ≤ 2 ^ 32) (small : len < 2 ^ 32) where
    -- Where the kernel's address is not below USERSPACETOP, `len` is less than 2 ^ 32 and the user's
    -- address + `len` does not pass 2 ^ 32: a text of user space that ends below USERSPACETOP and within
    -- `len` bytes, and can be accessed, is copied by copyinstr with its terminator and nothing
    -- else, and its length with the terminator is the answer. copyoutstr of a text of the kernel to
    -- such a place of user space does the same.
    pub copyinstr_lem :
        (k : ℕ)
        → k < len
        → user + k < userspacetop
        → Mapped bad user (k + 1)
        → (IsText m.mem user k
            → copyinstr bad user kernel len m ≡ (
              ok (k + 1),
              record { mem = memmove kernel user (k + 1) m.mem; badfaultfunc = false },
            ))
          × (IsText m.mem kernel k
              → copyoutstr bad kernel user len m ≡ (
                ok (k + 1),
                record { mem = memmove user kernel (k + 1) m.mem; badfaultfunc = false },
              ))
    unfolding copyinstr copyoutstr copystr
    copyinstr_lem k h below mapped = (
      (λ t. ground (
        arith,
        copycheck_lem user len,
        copystr_loop-IsText (min len stop) k kernel user 0 kernel user m.mem (omega arith)
            (omega arith) (omega arith) (kernel-Mapped bad kernel (k + 1) lk) mapped (omega arith)
            t,
      )),
      λ t. ground (
        arith,
        copycheck_lem user len,
        copystr_loop-IsText (min len stop) k user kernel 0 user kernel m.mem (omega arith)
            (omega arith) (omega arith) mapped (kernel-Mapped bad kernel (k + 1) lk) (omega arith)
            t,
      ),
    )
      where
        stop : ℕ
        stop = min len (userspacetop - user)

    -- With no terminator in the bytes that may be read, copyinstr fails: with EFAULT if user space
    -- ended first, and with ENAMETOOLONG if `len` did.
    pub copyinstr-unterminated :
        0 < len
        → user < userspacetop
        → Mapped bad user (min len (userspacetop - user))
        → ((j : ℕ) → j < min len (userspacetop - user) → m.mem (user + j) ≢ 0)
        → (copyinstr bad user kernel len m).0
          ≡ err (if ltb userspacetop (user + len) then efault else enametoolong)
    unfolding copyinstr copystr
    copyinstr-unterminated pos below mapped t = ground (
      arith,
      copycheck_lem user len,
      copystr_loop-none (min len stop) kernel user 0 kernel user m.mem (omega arith) (omega arith)
          (kernel-Mapped bad kernel (min len stop) lk)
          (λ a p q. mapped a (omega arith) (omega arith)) (omega arith) (λ j p. t j (omega arith)),
    )
      where
        stop : ℕ
        stop = min len (userspacetop - user)
