-- ===== src/Sfs/Device.antt =====
-- sfs_rwblock (kern/fs/sfs/sfs_io.c): the retries of an I/O. `d_io` is what the device answers to each
-- attempt: 0, or an error of kern/include/kern/errno.h.
use os161_kernel.Prelude.{
  ℕ, zero, suc, ◌+◌, ◌<◌, ◌≡◌, refl, ◌≢◌, ltb, ◌==◌, if◌then◌else◌, arith, dec_lt, ℕ_discrete,
  subst,
}
use os161_kernel.Prelude.Outcome.{Outcome, done, panic, spin}

abbrev pub einval : ℕ
einval = 8

abbrev pub eio : ℕ
eio = 32

module _ (d_io : ℕ → ℕ) where
  -- From the label `retry` on, for the rounds left.
  unfoldable pub retry : ℕ → ℕ → Outcome ℕ
  retry zero tries = spin
  retry (suc n) tries =
      let again = retry n (tries + 1) in
      let result = d_io tries in
      if result == einval
      then panic
      else (if result == eio
          then (if tries == 0 then again else (if ltb tries 10 then again else done result))
          else done result)

  -- There are at most eleven rounds.
  unfoldable pub sfs_rwblock : Outcome ℕ
  sfs_rwblock = retry 11 0

-- What comes of an attempt that is not repeated.
abbrev pub settle : ℕ → Outcome ℕ
settle result = if result == einval then panic else done result

-- The first answer that is not EIO settles it, within eleven attempts; after eleven it is EIO.
pub data Retried (d_io : ℕ → ℕ) : Outcome ℕ → Type 0 where
  settled :
      (k : ℕ)
      → k < 11
      → ((j : ℕ) → j < k → d_io j ≡ eio)
      → d_io k ≢ eio
      → Retried d_io (settle (d_io k))
  gave_up : ((j : ℕ) → j < 11 → d_io j ≡ eio) → Retried d_io (done eio)

module _ (d_io : ℕ → ℕ) where
  all_before :
      (tries : ℕ)
      → ((j : ℕ) → j < tries → d_io j ≡ eio)
      → d_io tries ≡ eio
      → (j : ℕ) → j < tries + 1
      → d_io j ≡ eio
  all_before tries before now j h = elim (ℕ_discrete tries j) [
    | yes e ↦ subst (λ k. d_io k ≡ eio) e now
    | no ne ↦ before j (omega arith)
  ]

  retry-Retried :
      (n tries : ℕ)
      → tries + n ≡ 11
      → tries < 11
      → ((j : ℕ) → j < tries → d_io j ≡ eio)
      → Retried d_io (retry d_io n tries)
  unfolding retry
  retry-Retried zero tries e low before = absurd (omega arith)
  retry-Retried (suc n) tries e low before = elim (ℕ_discrete (d_io tries) eio) [
    | no other ↦
        subst (λ o. Retried d_io o) (ground arith) (settled tries (omega arith) before other)
    | yes again ↦ elim (dec_lt tries 10) [
      | no last ↦
          subst (λ o. Retried d_io o) (ground arith)
            (gave_up (λ j h. all_before tries before again j (omega arith)))
      | yes more ↦
          subst (λ o. Retried d_io o) (ground arith)
            (retry-Retried n (tries + 1) (omega arith) (omega arith)
              (all_before tries before again))
    ]
  ]

  -- sfs_rwblock ends within eleven attempts: the first answer of the device other than EIO is its result,
  -- or stops the kernel if it is EINVAL; after eleven answers EIO the result is EIO.
  pub sfs_rwblock-Retried : Retried d_io (sfs_rwblock d_io)
  unfolding sfs_rwblock
  sfs_rwblock-Retried = retry-Retried 11 0 refl (omega arith) (λ j h. ground arith)
