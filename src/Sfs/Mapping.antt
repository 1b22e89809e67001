-- ===== src/Sfs/Mapping.antt =====
-- sfs_bmap (kern/fs/sfs/sfs_vnode.c): which block of the disk holds a block of a file.
use os161_kernel.Prelude.{
  ℕ, ◌-◌, ◌<◌, ◌≡◌, refl, inr, Bool, true, false, leb, ◌==◌, not, ◌&&◌, arith, ap, if◌then◌else◌,
  sym, ◌∙◌, subst, dec_lt, ℕ_discrete,
}
use os161_kernel.Prelude.Errno.{eio, efbig, Reply, ok, err}
use os161_kernel.Prelude.Outcome.{done}
use os161_kernel.Sfs.{
  Fs, File, sfs_ndirect, sfs_rblock, bmap_direct, bmap_entry, bmap_indirect, sfs_bmap,
}
use os161_kernel.Sfs.Blocks.{Keeps-refl, nothing, unclear, handed, sfs_balloc_lem}
use os161_kernel.Sfs.Owned.{
  max_blocks, block_of, IsFile, block_of-same, block_of-direct, block_of_at,
}
use os161_kernel.Sfs.Answers.{
  Answer, existing, too_big, no_space, failed, Maps, hand_back_lem, grown, attached,
}
use os161_kernel.Sfs.Indirect.{bmap_indirect_lem}

module _ (read_error write_error : ℕ → Bool) where
  bmap_direct_lem :
      {fs : Fs} {sv : File}
      → IsFile fs sv
      → (i : ℕ) → i < sfs_ndirect
      → Maps read_error write_error i fs sv (bmap_direct read_error write_error i true fs sv)
  unfolding bmap_direct
  bmap_direct_lem {fs} {sv} f i h = elim (ℕ_discrete (sv.direct i) 0) [
    | no nz ↦
        grown f f.map (λ b. Keeps-refl b fs) (ground (arith, hand_back_lem f i (sv.direct i) at))
          (λ e.
            subst (λ x. Answer read_error write_error i fs sv fs sv (ok x)) at
              (existing (λ z. nz (sym at ∙ z)) e))
    | yes z ↦ elim (sfs_balloc_lem read_error write_error f.map) [
      | nothing e all ↦ grown f f.map (λ b. Keeps-refl b fs) (ground arith) (no_space all)
      | unclear b fs' e bad m k ↦ grown f m k (ground arith) (failed b (inr bad))
      | handed b fs' e m k x ↦
          attached _ f (at ∙ z) m (k sv.indirect) x refl
            (λ j.
              block_of-direct fs' sv i b h j
              ∙ ap (λ (v : ℕ). if i == j then b else v)
                  (block_of-same fs fs' sv sv
                    (λ n. (k 0).words sv.indirect (f.owns.index_taken n) n) (λ q. refl) refl j))
            (ground arith)
    ]
  ]
    where
      at : block_of fs sv i ≡ sv.direct i
      at = block_of_at fs sv i h

  -- On a file whose blocks are in use, on the disk and all different, sfs_bmap with `doalloc` returns, for
  -- every block number, and leaves such a file whose other blocks are as before; blocks in use
  -- stay in use and, but for the indirect block, keep their words. The answer is the block that is
  -- there; or a block that was free, holds zeros and is now the one of that number; or EFBIG from
  -- block 143 on; or ENOSPC, and then no block is free; or EIO, and then the device fails on a block.
  pub sfs_bmap_lem :
      {fs : Fs} {sv : File}
      → IsFile fs sv
      → (i : ℕ) → Maps read_error write_error i fs sv (sfs_bmap read_error write_error i true fs sv)
  unfolding sfs_bmap bmap_indirect
  sfs_bmap_lem {fs} {sv} f i = elim (dec_lt i sfs_ndirect) [
    | yes h ↦
        subst (λ o. Maps read_error write_error i fs sv o) (ground arith) (bmap_direct_lem f i h)
    | no h ↦ elim (dec_lt i max_blocks) [
      | yes p ↦
          subst (λ o. Maps read_error write_error i fs sv o) (ground arith)
            (bmap_indirect_lem read_error write_error i (omega arith) p f)
      | no p ↦ grown f f.map (λ b. Keeps-refl b fs) (ground arith) (λ e. too_big (omega arith))
    ]
  ]

  -- The answer of sfs_bmap when it may not allocate.
  pub read_answer : ℕ → Fs → File → Reply ℕ
  read_answer i fs sv =
      if leb max_blocks i
      then err efbig
      else (if leb sfs_ndirect i && not (sv.indirect == 0) && read_error sv.indirect
          then err eio
          else ok (block_of fs sv i))

  -- On such a file sfs_bmap without `doalloc` changes nothing and answers EFBIG from block 143 on, EIO
  -- where there is an indirect block that cannot be read, and else the block of that number or 0.
  pub sfs_bmap-read :
      {fs : Fs} {sv : File}
      → IsFile fs sv
      → (i : ℕ) → sfs_bmap read_error write_error i false fs sv ≡ done (read_answer i fs sv, fs, sv)
  unfolding sfs_bmap bmap_indirect bmap_direct bmap_entry sfs_rblock read_answer block_of
  sfs_bmap-read {fs} {sv} f i = elim (dec_lt i sfs_ndirect) [
    | yes h ↦ ground (arith, hand_back_lem f i (sv.direct i) (ground arith))
    | no h ↦ elim (dec_lt i max_blocks) [
      | yes p ↦ ground (arith, hand_back_lem f i (fs.disk sv.indirect (i - sfs_ndirect)))
      | no p ↦ ground arith
    ]
  ]
