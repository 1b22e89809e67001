-- ===== src/Sfs/Truncated.antt =====
-- What sfs_truncate (kern/fs/sfs/sfs_vnode.c) leaves of a file.
use os161_kernel.Prelude.{
  ℕ, ◌≤◌, ◌<◌, ◌≡◌, refl, ◌≢◌, ◌⊎◌, true, false, ◌==◌, arith, if◌then◌else◌, sym, ◌∙◌, subst,
  ==-true, inl, inr,
}
use os161_kernel.Prelude.Outcome.{done}
use os161_kernel.Sfs.{Fs, File, sfs_ndirect, sfs_bfree}
use os161_kernel.Sfs.Blocks.{used}
use os161_kernel.Sfs.Owned.{max_blocks, block_of, Owns, Owns-grow, IsFile}
use os161_kernel.Sfs.Freed.{Freed, Freed-Owns, sfs_bfree_lem}
use os161_kernel.Sfs.Truncation.{dropped, kept}

-- The file is cut off at block `blocklen`, and its blocks past the end, as `dropped` has it, are free.
pub record Truncated (blocklen : ℕ) (fs : Fs) (sv : File) (fs' : Fs) (sv' : File) : Type 0 where
  pub file : IsFile fs' sv'
  pub blocks : (i : ℕ) → block_of fs' sv' i ≡ (if dropped blocklen i then 0 else block_of fs sv i)
  pub gone :
      (i : ℕ)
      → dropped blocklen i ≡ true
      → block_of fs sv i ≢ 0
      → used fs' (block_of fs sv i) ≡ false
  pub stay :
      (b : ℕ)
      → used fs b ≡ true
      → b ≢ sv.indirect
      → ((i : ℕ) → dropped blocklen i ≡ true → block_of fs sv i ≢ 0 → block_of fs sv i ≢ b)
      → used fs' b ≡ true
  pub less : (b : ℕ) → used fs b ≡ false → used fs' b ≡ false
  pub index : (sv'.indirect ≡ sv.indirect) ⊎ ((sv'.indirect ≡ 0) × (used fs' sv.indirect ≡ false))

-- Past the blocks that a file can have there are none.
pub none_at : (fs : Fs) (sv : File) (i : ℕ) → max_blocks ≤ i → block_of fs sv i ≡ 0
unfolding block_of
none_at fs sv i h = ground arith

pub none_if_no_index :
    (fs : Fs) (sv : File) → sv.indirect ≡ 0 → (i : ℕ) → sfs_ndirect ≤ i → block_of fs sv i ≡ 0
unfolding block_of
none_if_no_index fs sv e i h = ground arith

module _ {fs : Fs} {sv : File} (f : IsFile fs sv) (blocklen : ℕ) where
  pub none_behind : (i : ℕ) → block_of fs sv i ≢ 0 → i < max_blocks
  none_behind i h = ground (arith, none_at fs sv i)

  module _ {fs2 : Fs} (d : Freed (kept blocklen max_blocks) (block_of fs sv) fs fs2)
      (sv3 : File) where
    gone :
        (i : ℕ)
        → dropped blocklen i ≡ true
        → block_of fs sv i ≢ 0
        → used fs2 (block_of fs sv i) ≡ false
    gone i h nz = d.gone i (ground (arith, none_behind i nz)) nz

    stay :
        (b : ℕ)
        → used fs b ≡ true
        → ((i : ℕ) → dropped blocklen i ≡ true → block_of fs sv i ≢ 0 → block_of fs sv i ≢ b)
        → used fs2 b ≡ true
    stay b u apart = d.stay b u (λ i k nz. apart i (ground arith) nz)

    -- The indirect block is as it was, or written back.
    pub index_kept :
        (disk : ℕ → ℕ → ℕ)
        → sv3.indirect ≡ sv.indirect
        → ((i : ℕ)
            → block_of (record fs2 { disk = disk }) sv3 i
              ≡ (if kept blocklen max_blocks i then block_of fs sv i else 0))
        → Truncated blocklen fs sv (record fs2 { disk = disk }) sv3
    index_kept disk e view = record {
      file = record {
        map = record {
          valid = d.map.valid;
          inside = d.map.inside;
          reserved = d.map.reserved;
          past = d.map.past;
        };
        owns =
            subst
              (λ n. Owns (record fs2 { disk = disk }) (block_of (record fs2 { disk = disk }) sv3) n)
              (sym e) (Owns-grow refl (λ i u. u) (Freed-Owns f.owns d) view);
      };
      blocks = λ i. view i ∙ ground (arith, none_behind i);
      gone = gone;
      stay = λ b u ne. stay b u;
      less = d.less;
      index = inl e;
    }

    -- The indirect block lists nothing any more, and is freed as well.
    pub index_gone :
        sv.indirect ≢ 0
        → sv3.indirect ≡ 0
        → ((fs3 : Fs) (i : ℕ)
            → block_of fs3 sv3 i ≡ (if kept blocklen max_blocks i then block_of fs sv i else 0))
        → (fs3 : Fs) × (sfs_bfree sv.indirect fs2 ≡ done fs3) × Truncated blocklen fs sv fs3 sv3
    index_gone nz e view =
        let (fs3, run, m, size, disk, bits) =
          sfs_bfree_lem sv.indirect d.map nz (omega (arith, d.size, f.owns.index_low nz))
            index_used in
        (
          fs3,
          run,
          record {
            file = record { map = m; owns = owned size bits };
            blocks = λ i. view fs3 i ∙ ground (arith, none_behind i);
            gone = λ i k h. bits (block_of fs sv i) ∙ ground (arith, gone i k h);
            stay = λ b u ne apart. bits b ∙ ground (arith, stay b u apart);
            less = λ b u. bits b ∙ ground (arith, d.less b u);
            index = inr (e, bits sv.indirect ∙ itself);
          },
        )
      where
        index_used : used fs2 sv.indirect ≡ true
        index_used = (Freed-Owns f.owns d).index_taken nz

        itself : (if sv.indirect == sv.indirect then false else used fs2 sv.indirect) ≡ false
        itself = let self : (sv.indirect == sv.indirect) ≡ true = ==-true refl in ground arith

        owned :
            {fs3 : Fs}
            → fs3.nblocks ≡ fs2.nblocks
            → ((j : ℕ) → used fs3 j ≡ (if sv.indirect == j then false else used fs2 j))
            → Owns fs3 (block_of fs3 sv3) sv3.indirect
        owned {fs3} size bits = record {
          low = λ i h. ground (arith, view fs3 i, d.size, size, f.owns.low i);
          taken = λ i h.
              subst (λ b. used fs3 b ≡ true) (sym (view fs3 i))
                (bits _
                  ∙ ground
                      (arith, f.owns.index_apart nz i, view fs3 i, (Freed-Owns f.owns d).taken i));
          apart = λ i j h q.
              (Freed-Owns f.owns d).apart i j (λ z. h (view fs3 i ∙ z))
                (sym (view fs3 i) ∙ q ∙ view fs3 j);
          index_low = λ h. absurd (h e);
          index_taken = λ h. absurd (h e);
          index_apart = λ h. absurd (h e);
        }
