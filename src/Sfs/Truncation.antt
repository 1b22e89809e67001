-- ===== src/Sfs/Truncation.antt =====
-- sfs_truncate (kern/fs/sfs/sfs_vnode.c): its two loops.
use os161_kernel.Prelude.{
  ℕ, zero, suc, ◌+◌, ◌≤◌, ◌<◌, ◌≡◌, refl, ◌≢◌, Bool, true, false, ltb, leb, ◌==◌, ◌&&◌, ◌||◌, not,
  update, arith, ap, if◌then◌else◌, ◌∙◌, subst, Bool-cases, dec_lt, ℕ_discrete, inl, inr,
}
use os161_kernel.Prelude.Outcome.{done}
use os161_kernel.Sfs.{
  Fs, File, Scan, sfs_ndirect, sfs_dbperidb, sfs_bfree, free_one, free_direct, scan_one,
  free_indirect,
}
use os161_kernel.Sfs.Owned.{Owns}
use os161_kernel.Sfs.Freed.{Freed, Freed-one, Freed-none}

-- The blocks past the new end as the loops test for them: a block of the indirect block has to be
-- past the one with the number `blocklen`.
abbrev pub dropped : ℕ → ℕ → Bool
dropped blocklen i = if ltb i sfs_ndirect then leb blocklen i else ltb blocklen i

-- What is left when the loops have come to block `k`.
abbrev pub kept : ℕ → ℕ → ℕ → Bool
kept blocklen k i = not (ltb i k && dropped blocklen i)

module _ {view : ℕ → ℕ} {index : ℕ} {fs : Fs} (o : Owns fs view index) (blocklen : ℕ) where
  -- The state of the first loop at block `k`.
  pub record Direct (k : ℕ) (sv : File) (fs1 : Fs) (sv1 : File) : Type 0 where
    pub freed : Freed (kept blocklen k) view fs fs1
    pub direct :
        (j : ℕ) → j < sfs_ndirect → sv1.direct j ≡ (if kept blocklen k j then view j else 0)
    pub same : sv1.indirect ≡ sv.indirect

  free_one_lem :
      {i : ℕ} {fs1 : Fs} {sv sv1 : File}
      → i < sfs_ndirect
      → Direct i sv fs1 sv1
      → (fs2 : Fs) × (sv2 : File) × (free_one i blocklen fs1 sv1 ≡ done (fs2, sv2))
        × Direct (i + 1) sv fs2 sv2
  unfolding free_one
  free_one_lem {i} {fs1} {sv} {sv1} h d = elim (dec_lt i blocklen) [
    | yes early ↦ (
      fs1,
      sv1,
      ground arith,
      record {
        freed = Freed-none o d.freed (kept blocklen (i + 1)) (λ j nz. ground arith);
        direct = λ j q. ground (arith, d.direct j q);
        same = d.same;
      },
    )
    | no late ↦ elim (ℕ_discrete (view i) 0) [
      | yes z ↦ (
        fs1,
        sv1,
        ground (arith, d.direct i h),
        record {
          freed = Freed-none o d.freed (kept blocklen (i + 1)) (λ j nz. ground (arith, ap view));
          direct = λ j q. ground (arith, d.direct j q, ap view);
          same = d.same;
        },
      )
      | no nz ↦
          let (fs2, e, f) =
            Freed-one o d.freed (kept blocklen (i + 1)) (λ j. ground arith) (ground arith) nz in
          (
            fs2,
            record sv1 { direct = update sv1.direct i 0; dirty = true },
            run (omega arith) nz e,
            record { freed = f; direct = λ j q. ground (arith, d.direct j q); same = d.same },
          )
    ]
  ]
    where
      at : sv1.direct i ≡ view i
      at = ground (arith, d.direct i h)

      run :
          {fs2 : Fs}
          → blocklen ≤ i
          → view i ≢ 0
          → sfs_bfree (view i) fs1 ≡ done fs2
          → free_one i blocklen fs1 sv1
            ≡ done (fs2, record sv1 { direct = update sv1.direct i 0; dirty = true })
      run late nz e = rw at (ground (arith, e))

  pub free_direct_lem :
      (n : ℕ) {i : ℕ} {fs1 : Fs} {sv sv1 : File}
      → i + n ≡ sfs_ndirect
      → Direct i sv fs1 sv1
      → (fs2 : Fs) × (sv2 : File) × (free_direct n i blocklen fs1 sv1 ≡ done (fs2, sv2))
        × Direct sfs_ndirect sv fs2 sv2
  unfolding free_direct
  free_direct_lem zero {i} {fs1} {sv} {sv1} e d =
      (fs1, sv1, refl, subst (λ k. Direct k sv fs1 sv1) (omega arith) d)
  free_direct_lem (suc n) {i} {fs1} {sv} {sv1} e d =
      let (fs2, sv2, run, d2) = free_one_lem (omega arith) d in
      let (fs3, sv3, rest, d3) = free_direct_lem n (omega arith) d2 in (fs3, sv3, rw run rest, d3)

  -- The state of the second loop at entry `k` of the buffer that was read.
  pub record Behind (k : ℕ) (fs1 : Fs) (c : Scan) : Type 0 where
    pub freed : Freed (kept blocklen (sfs_ndirect + k)) view fs fs1
    pub entries :
        (j : ℕ)
        → j < sfs_dbperidb
        → c.idbuf j ≡ (
            if kept blocklen (sfs_ndirect + k) (sfs_ndirect + j) then view (sfs_ndirect + j) else 0)
    pub nonzero : c.hasnonzero ≡ true → (j : ℕ) × (j < k) × (c.idbuf j ≢ 0)
    pub zeros : c.hasnonzero ≡ false → (j : ℕ) → j < k → c.idbuf j ≡ 0
    pub clean : c.iddirty ≡ false → (j : ℕ) → j < sfs_dbperidb → c.idbuf j ≡ view (sfs_ndirect + j)

  -- An entry that stays, because it is 0 or before the new end.
  abbrev seen : ℕ → Scan → Scan
  seen j c = record c { hasnonzero = c.hasnonzero || not (c.idbuf j == 0) }

  scan_seen :
      {j : ℕ} {fs1 : Fs} {c : Scan}
      → j < sfs_dbperidb
      → Behind j fs1 c
      → ((i : ℕ)
          → view i ≢ 0
          → kept blocklen (sfs_ndirect + (j + 1)) i ≡ kept blocklen (sfs_ndirect + j) i)
      → Behind (j + 1) fs1 (seen j c)
  scan_seen {j} {fs1} {c} h d now = record {
    freed = Freed-none o d.freed _ now;
    entries = λ i q. ground (arith, d.entries i q, now (sfs_ndirect + i));
    nonzero = λ t. elim (Bool-cases c.hasnonzero) [
      | inl u ↦ let (i, lt, ne) = d.nonzero u in (i, omega arith, ne)
      | inr u ↦ (j, omega arith, ground arith)
    ];
    zeros = λ t i q. elim (ℕ_discrete j i) [
      | yes e ↦ subst (λ i. c.idbuf i ≡ 0) e (ground arith)
      | no ne ↦ d.zeros (ground arith) i (omega arith)
    ];
    clean = d.clean;
  }

  scan_one_lem :
      {j : ℕ} {fs1 : Fs} {c : Scan}
      → j < sfs_dbperidb
      → Behind j fs1 c
      → (fs2 : Fs) × (c2 : Scan) × (scan_one j blocklen fs1 c ≡ done (fs2, c2))
        × Behind (j + 1) fs2 c2
  unfolding scan_one
  scan_one_lem {j} {fs1} {c} h d = elim (ℕ_discrete (view (sfs_ndirect + j)) 0) [
    | yes z ↦
        (fs1, seen j c, rw (at, z) (ground arith), scan_seen h d (λ i nz. ground (arith, ap view)))
    | no nz ↦ elim (dec_lt blocklen (sfs_ndirect + j)) [
      | yes late ↦
          let (fs2, e, f) =
            Freed-one o d.freed (kept blocklen (sfs_ndirect + (j + 1))) (λ i. ground arith)
              (ground arith) nz in
          (
            fs2,
            record c { idbuf = update c.idbuf j 0; iddirty = true },
            run late nz e,
            record {
              freed = f;
              entries = λ i q. ground (arith, d.entries i q);
              nonzero = λ t. let (i, lt, ne) = d.nonzero t in (i, omega arith, ground arith);
              zeros = λ t i q. ground (arith, d.zeros t i);
              clean = λ t. cc;
            },
          )
      | no early ↦ (fs1, seen j c, ground arith, scan_seen h d (λ i nz. ground arith))
    ]
  ]
    where
      at : c.idbuf j ≡ view (sfs_ndirect + j)
      at = d.entries j h ∙ ground arith

      run :
          {fs2 : Fs}
          → blocklen < sfs_ndirect + j
          → view (sfs_ndirect + j) ≢ 0
          → sfs_bfree (view (sfs_ndirect + j)) fs1 ≡ done fs2
          → scan_one j blocklen fs1 c
            ≡ done (fs2, record c { idbuf = update c.idbuf j 0; iddirty = true })
      run late nz e = rw at (ground (arith, e))

  pub free_indirect_lem :
      (n : ℕ) {j : ℕ} {fs1 : Fs} {c : Scan}
      → j + n ≡ sfs_dbperidb
      → Behind j fs1 c
      → (fs2 : Fs) × (c2 : Scan) × (free_indirect n j blocklen fs1 c ≡ done (fs2, c2))
        × Behind sfs_dbperidb fs2 c2
  unfolding free_indirect
  free_indirect_lem zero {j} {fs1} {c} e d =
      (fs1, c, refl, subst (λ k. Behind k fs1 c) (omega arith) d)
  free_indirect_lem (suc n) {j} {fs1} {c} e d =
      let (fs2, c2, run, d2) = scan_one_lem (omega arith) d in
      let (fs3, c3, rest, d3) = free_indirect_lem n (omega arith) d2 in (fs3, c3, rw run rest, d3)
