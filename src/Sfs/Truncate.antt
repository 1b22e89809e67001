-- ===== src/Sfs/Truncate.antt =====
-- The two parts of sfs_truncate (kern/fs/sfs/sfs_vnode.c), and what they leave of a file.
use os161_kernel.Prelude.{
  ℕ, ◌+◌, ◌-◌, ◌≤◌, ◌<◌, ◌≡◌, refl, ◌≢◌, Bool, true, false, none, leb, ◌==◌, ◌||◌, update, arith,
  ap, if◌then◌else◌, sym, ◌∙◌, subst, Bool-cases, ==-true, dec_lt, inl, inr,
}
use os161_kernel.Prelude.Outcome.{done}
use os161_kernel.Sfs.{
  Fs, File, Scan, sfs_ndirect, sfs_dbperidb, sfs_rblock, sfs_wblock, write_back, free_behind,
}
use os161_kernel.Sfs.Owned.{max_blocks, block_of, IsFile, block_of_at, block_of_in}
use os161_kernel.Sfs.Freed.{Freed-none}
use os161_kernel.Sfs.Truncation.{dropped, kept, Direct, Behind, free_indirect_lem}
use os161_kernel.Sfs.Truncated.{
  Truncated, none_at, none_if_no_index, none_behind, index_kept, index_gone,
}

module _ {fs : Fs} {sv : File} (f : IsFile fs sv) (blocklen : ℕ) where
  -- The state before the first loop.
  pub Direct-start : Direct f.owns blocklen 0 sv fs sv
  Direct-start = record {
    freed = record {
      map = f.map;
      size = refl;
      disk = refl;
      gone = λ i k. ground arith;
      stay = λ b u apart. u;
      less = λ b u. u;
    };
    direct = λ j h. sym (block_of_at fs sv j h) ∙ ground arith;
    same = refl;
  }

  module _ {fs1 : Fs} {sv1 : File} (d : Direct f.owns blocklen sfs_ndirect sv fs1 sv1) where
    -- The blocks in the inode after the first loop.
    direct_view :
        (fs3 : Fs) (sv3 : File)
        → ((j : ℕ) → sv3.direct j ≡ sv1.direct j)
        → (i : ℕ) → i < sfs_ndirect
        → block_of fs3 sv3 i ≡ (if kept blocklen max_blocks i then block_of fs sv i else 0)
    direct_view fs3 sv3 e i h = block_of_at fs3 sv3 i h ∙ e i ∙ d.direct i h ∙ ground arith

    -- The indirect block need not be looked at.
    not_entered :
        (read_error write_error : ℕ → Bool)
        → (leb (sfs_ndirect + sfs_dbperidb - 1) blocklen || (sv.indirect == 0)) ≡ true
        → (free_behind read_error write_error blocklen fs1 sv1 ≡ done (none, fs1, sv1))
          × Truncated blocklen fs sv fs1 sv1
    unfolding free_behind block_of
    not_entered read_error write_error h = (
      ground (arith, d.same),
      index_kept f blocklen
          (Freed-none f.owns d.freed (kept blocklen max_blocks) (λ j nz. ground arith)) sv1 fs1.disk
          d.same
          (λ i. elim (dec_lt i sfs_ndirect) [
            | yes lt ↦ direct_view fs1 sv1 (λ j. refl) i lt
            | no ge ↦ rw (d.same, d.freed.disk) (ground arith)
          ]),
    )

    module _ (nz : sv.indirect ≢ 0) where
      listed : (j : ℕ) → j < sfs_dbperidb → fs.disk sv.indirect j ≡ block_of fs sv (sfs_ndirect + j)
      listed j h = sym (
          block_of_in fs sv (sfs_ndirect + j) (omega arith) (omega arith) nz
          ∙ ap (fs.disk sv.indirect) (omega arith))

      pub scan_start :
          Behind f.owns blocklen 0 fs1
            (record { idbuf = fs1.disk sv1.indirect; hasnonzero = false; iddirty = false })
      scan_start = record {
        freed = d.freed;
        entries = λ j h. read j h ∙ ground arith;
        nonzero = λ t. cc;
        zeros = λ t i q. ground arith;
        clean = λ t. read;
      }
        where
          read :
              (j : ℕ)
              → j < sfs_dbperidb
              → fs1.disk sv1.indirect j ≡ block_of fs sv (sfs_ndirect + j)
          read j h = rw (d.same, d.freed.disk) (listed j h)

      module _ {fs2 : Fs} {c : Scan} (b : Behind f.owns blocklen sfs_dbperidb fs2 c) where
        entry :
            (i : ℕ)
            → sfs_ndirect ≤ i
            → i < max_blocks
            → c.idbuf (i - sfs_ndirect)
              ≡ (if kept blocklen max_blocks i then block_of fs sv i else 0)
        entry i lo hi =
            b.entries (i - sfs_ndirect) (omega arith)
            ∙ ap (λ j. if kept blocklen max_blocks j then block_of fs sv j else 0)
                {x = sfs_ndirect + (i - sfs_ndirect)} {y = i} (omega arith)

        listed_view :
            (disk : ℕ → ℕ → ℕ)
            → ((j : ℕ) → j < sfs_dbperidb → disk sv.indirect j ≡ c.idbuf j)
            → (i : ℕ)
            → block_of (record fs2 { disk = disk }) sv1 i
              ≡ (if kept blocklen max_blocks i then block_of fs sv i else 0)
        listed_view disk e i = elim (dec_lt i sfs_ndirect) [
          | yes lt ↦ direct_view (record fs2 { disk = disk }) sv1 (λ j. refl) i lt
          | no ge ↦ elim (dec_lt i max_blocks) [
            | yes hi ↦
                block_of_in (record fs2 { disk = disk }) sv1 i (omega arith) hi
                  (subst (λ n. n ≢ 0) (sym d.same) nz)
                ∙ ap (λ n. disk n (i - sfs_ndirect)) d.same
                ∙ e (i - sfs_ndirect) (omega arith)
                ∙ entry i (omega arith) hi
            | no out ↦
                none_at (record fs2 { disk = disk }) sv1 i (omega arith)
                ∙ ground (arith, none_at fs sv i (omega arith))
          ]
        ]

        -- What write_back makes of the scan.
        written :
            (read_error write_error : ℕ → Bool)
            → write_error sv.indirect ≡ false
            → (fs3 : Fs) × (sv3 : File) × (write_back read_error write_error sv1.indirect fs2 c sv1
                ≡ done (none, fs3, sv3))
              × Truncated blocklen fs sv fs3 sv3
        unfolding write_back sfs_wblock
        written read_error write_error good = elim (Bool-cases c.hasnonzero) [
          | inl some_left ↦ elim (Bool-cases c.iddirty) [
            | inl changed ↦ (
              record fs2 { disk = update fs2.disk sv.indirect c.idbuf },
              sv1,
              rw d.same (ground arith),
              index_kept f blocklen b.freed sv1 (update fs2.disk sv.indirect c.idbuf) d.same (
                  listed_view _ (λ j h.
                    let self : (sv.indirect == sv.indirect) ≡ true = ==-true refl in rw self refl)),
            )
            | inr clean ↦ (
              fs2,
              sv1,
              ground arith,
              index_kept f blocklen b.freed sv1 fs2.disk d.same (
                  listed_view fs2.disk (λ j h.
                    ap (λ m. m sv.indirect j) b.freed.disk ∙ listed j h ∙ sym (b.clean clean j h))),
            )
          ]
          | inr empty ↦
              let (fs3, run, t) =
                index_gone f blocklen b.freed (record sv1 { indirect = 0; dirty = true }) nz refl
                  (emptied empty) in
              (fs3, _, rw d.same (ground (arith, run)), t)
        ]
          where
            emptied :
                c.hasnonzero ≡ false
                → (fs3 : Fs) (i : ℕ)
                → block_of fs3 (record sv1 { indirect = 0; dirty = true }) i
                  ≡ (if kept blocklen max_blocks i then block_of fs sv i else 0)
            emptied empty fs3 i = elim (dec_lt i sfs_ndirect) [
              | yes lt ↦ direct_view fs3 _ (λ j. refl) i lt
              | no ge ↦ none_if_no_index fs3 _ refl i (omega arith) ∙ elim (dec_lt i max_blocks) [
                | yes hi ↦
                    sym (b.zeros empty (i - sfs_ndirect) (omega arith)) ∙ entry i (omega arith) hi
                | no out ↦ ground (arith, none_at fs sv i (omega arith))
              ]
            ]

  -- A file that differs in its size and in the flag only.
  pub resized :
      {fs' : Fs} {sv' : File} (n : ℕ)
      → Truncated blocklen fs sv fs' sv'
      → Truncated blocklen fs sv fs' (record sv' { size = n; dirty = true })
  unfolding block_of
  resized n t = record {
    file = record { map = t.file.map; owns = t.file.owns };
    blocks = t.blocks;
    gone = t.gone;
    stay = t.stay;
    less = t.less;
    index = t.index;
  }

  pub free_behind_lem :
      (read_error write_error : ℕ → Bool)
      → read_error sv.indirect ≡ false
      → write_error sv.indirect ≡ false
      → {fs1 : Fs} {sv1 : File} → Direct f.owns blocklen sfs_ndirect sv fs1 sv1
      → (fs3 : Fs) × (sv3 : File) × (free_behind read_error write_error blocklen fs1 sv1
          ≡ done (none, fs3, sv3))
        × Truncated blocklen fs sv fs3 sv3
  unfolding free_behind sfs_rblock
  free_behind_lem read_error write_error readable writable {fs1} {sv1} d =
      elim (Bool-cases (leb (sfs_ndirect + sfs_dbperidb - 1) blocklen || (sv.indirect == 0))) [
        | inl out ↦ let (run, t) = not_entered d read_error write_error out in (fs1, sv1, run, t)
        | inr in_it ↦
            let nz : sv.indirect ≢ 0 = ground arith in
            let (fs2, c, scan, b) =
              free_indirect_lem f.owns blocklen sfs_dbperidb refl (scan_start d nz) in
            let (fs3, sv3, run, t) = written d nz b read_error write_error writable in
            (fs3, sv3, ground (arith, scan, run, d.same), t)
      ]

  -- The loop over the indirect block when a block in it is dropped and another one is not.
  module _ {fs2 : Fs} {c : Scan} (i k : ℕ) (d : Behind f.owns blocklen sfs_dbperidb fs2 c) where
    pub scan_dirty :
        sfs_ndirect ≤ i → dropped blocklen i ≡ true → block_of fs sv i ≢ 0 → c.iddirty ≡ true
    scan_dirty lo out there = elim (Bool-cases c.iddirty) [
      | inl t ↦ t
      | inr t ↦ absurd (
          there
            (here (d.clean t (i - sfs_ndirect) (omega (arith, none_behind f blocklen i there)))))
    ]
      where
        at : sfs_ndirect + (i - sfs_ndirect) ≡ i
        at = omega arith

        here :
            c.idbuf (i - sfs_ndirect) ≡ block_of fs sv (sfs_ndirect + (i - sfs_ndirect))
            → block_of fs sv i ≡ 0
        here e = ground (
          arith,
          e,
          d.entries (i - sfs_ndirect),
          ap (block_of fs sv) at,
          none_behind f blocklen i there,
        )

    pub scan_nonzero :
        sfs_ndirect ≤ k → dropped blocklen k ≡ false → block_of fs sv k ≢ 0 → c.hasnonzero ≡ true
    scan_nonzero lo out there = elim (Bool-cases c.hasnonzero) [
      | inl t ↦ t
      | inr t ↦ absurd (
          there (
            ground (
              arith,
              d.zeros t (k - sfs_ndirect),
              d.entries (k - sfs_ndirect),
              ap (block_of fs sv) at,
              none_behind f blocklen k there,
            )))
    ]
      where
        at : sfs_ndirect + (k - sfs_ndirect) ≡ k
        at = omega arith
