-- ===== src/Sfs/Answers.antt =====
-- What sfs_bmap (kern/fs/sfs/sfs_vnode.c) answers and leaves behind when it may allocate.
use os161_kernel.Prelude.{
  ℕ, ◌≤◌, ◌<◌, ◌≡◌, refl, ◌≢◌, ◌⊎◌, Bool, true, ◌==◌, arith, ap, if◌then◌else◌, sym, ◌∙◌, subst,
  ==-true, ℕ_discrete,
}
use os161_kernel.Prelude.Errno
use os161_kernel.Prelude.Errno.{eio, efbig, Reply, ok, err}
use os161_kernel.Prelude.Outcome.{Outcome, done}
use os161_kernel.Sfs.{Fs, File, hand_back}
use os161_kernel.Sfs.Blocks.{used, IsMap, Keeps, IsFresh, sfs_bused_lem}
use os161_kernel.Sfs.Owned.{
  max_blocks, block_of, Owns, IsFile, Owns-grow, Owns-attach, block_of-same,
}

-- What sfs_bmap answers when it may allocate: the block that is there, a fresh one, or an error.
pub data Answer (read_error write_error : ℕ → Bool) (i : ℕ) (fs : Fs) (sv : File) (fs' : Fs)
    (sv' : File) : Reply ℕ → Type 0 where
  existing :
      block_of fs sv i ≢ 0
      → block_of fs' sv' i ≡ block_of fs sv i
      → Answer read_error write_error i fs sv fs' sv' (ok (block_of fs sv i))
  fresh :
      (b : ℕ)
      → block_of fs sv i ≡ 0
      → block_of fs' sv' i ≡ b
      → IsFresh b fs fs'
      → Answer read_error write_error i fs sv fs' sv' (ok b)
  too_big : max_blocks ≤ i → Answer read_error write_error i fs sv fs' sv' (err efbig)
  no_space :
      ((b : ℕ) → b < fs.nblocks → used fs' b ≡ true)
      → block_of fs' sv' i ≡ block_of fs sv i
      → Answer read_error write_error i fs sv fs' sv' (err Errno.enospc)
  failed :
      (b : ℕ)
      → (read_error b ≡ true) ⊎ (write_error b ≡ true)
      → block_of fs' sv' i ≡ block_of fs sv i
      → Answer read_error write_error i fs sv fs' sv' (err eio)

pub record Mapped (read_error write_error : ℕ → Bool) (i : ℕ) (fs : Fs) (sv : File) (fs' : Fs)
    (sv' : File) (r : Reply ℕ) : Type 0 where
  pub file : IsFile fs' sv'
  pub keeps : Keeps sv.indirect fs fs'
  pub others : (j : ℕ) → j ≢ i → block_of fs' sv' j ≡ block_of fs sv j
  pub answer : Answer read_error write_error i fs sv fs' sv' r

abbrev pub Maps : (ℕ → Bool) → (ℕ → Bool) → ℕ → Fs → File → Outcome (Reply ℕ × Fs × File) → Type 0
Maps read_error write_error i fs sv o =
    (r : Reply ℕ) × (fs' : Fs) × (sv' : File) × (o ≡ done (r, fs', sv'))
    × Mapped read_error write_error i fs sv fs' sv' r

-- The block of a file can be handed back.
pub hand_back_lem :
    {fs : Fs} {sv : File}
    → IsFile fs sv
    → (i b : ℕ) → block_of fs sv i ≡ b
    → hand_back b fs sv ≡ done (ok b, fs, sv)
unfolding hand_back
hand_back_lem {fs} {sv} f i b e = elim (ℕ_discrete b 0) [
  | yes z ↦ ground (arith, ap (λ (x : ℕ). ok x) z)
  | no nz ↦ ground (
    arith,
    sfs_bused_lem f.map b (ground (arith, f.owns.low i))
        (subst (λ x. used fs x ≡ true) e (f.owns.taken i (λ z. nz (sym e ∙ z)))),
  )
]

-- Nothing but the map of the disk has changed.
pub grown :
    {read_error write_error : ℕ → Bool} {i : ℕ} {fs fs' : Fs} {sv : File} {r : Reply ℕ}
    {o : Outcome (Reply ℕ × Fs × File)}
    → IsFile fs sv
    → IsMap fs'
    → ((b : ℕ) → Keeps b fs fs')
    → o ≡ done (r, fs', sv)
    → ((block_of fs' sv i ≡ block_of fs sv i) → Answer read_error write_error i fs sv fs' sv r)
    → Maps read_error write_error i fs sv o
grown {read_error} {write_error} {i} {fs} {fs'} {sv} {r} f m keeps e answer = (
  r,
  fs',
  sv,
  e,
  record {
    file = record { map = m; owns = Owns-grow (keeps 0).size (keeps 0).marks f.owns same };
    keeps = keeps sv.indirect;
    others = λ j ne. same j;
    answer = answer (same i);
  },
)
  where
    same : (j : ℕ) → block_of fs' sv j ≡ block_of fs sv j
    same =
        block_of-same fs fs' sv sv (λ h. (keeps 0).words sv.indirect (f.owns.index_taken h) h)
          (λ j. refl) refl

-- A fresh block has become block `i`.
pub attached :
    {read_error write_error : ℕ → Bool} {i b : ℕ} {fs fs2 : Fs} {sv : File} (sv2 : File)
    {o : Outcome (Reply ℕ × Fs × File)}
    → IsFile fs sv
    → block_of fs sv i ≡ 0
    → IsMap fs2
    → Keeps sv.indirect fs fs2
    → IsFresh b fs fs2
    → sv2.indirect ≡ sv.indirect
    → ((j : ℕ) → block_of fs2 sv2 j ≡ (if i == j then b else block_of fs sv j))
    → o ≡ hand_back b fs2 sv2
    → Maps read_error write_error i fs sv o
attached {read_error} {write_error} {i} {b} {fs} {fs2} {sv} sv2 f z m k x e now run = (
  ok b,
  fs2,
  sv2,
  run ∙ hand_back_lem file i b here,
  record {
    file = file;
    keeps = k;
    others = λ j ne. ground (arith, now j);
    answer = fresh b z here x;
  },
)
  where
    here : block_of fs2 sv2 i ≡ b
    here = let self : (i == i) ≡ true = ==-true refl in ground (arith, now i)

    file : IsFile fs2 sv2
    file = record {
      map = m;
      owns =
          subst (λ n. Owns fs2 (block_of fs2 sv2) n) (sym e)
            (Owns-attach k.size k.marks f.owns i b x now);
    }
