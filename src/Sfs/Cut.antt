-- ===== src/Sfs/Cut.antt =====
-- sfs_truncate (kern/fs/sfs/sfs_vnode.c): its result, and what a failing device leaves.
use os161_kernel.Prelude.{
  ℕ, ◌+◌, ◌-◌, ◌/◌, ◌%◌, ◌^◌, ◌≤◌, ◌<◌, ◌≡◌, refl, ◌≢◌, Bool, true, false, none, some, arith, ap,
  sym, ◌∙◌, subst,
}
use os161_kernel.Prelude.Errno.{eio}
use os161_kernel.Prelude.Outcome.{done}
use os161_kernel.Sfs.{
  Fs, File, sfs_ndirect, sfs_dbperidb, sfs_rblock, sfs_wblock, write_back, free_behind,
  sfs_truncate,
}
use os161_kernel.Sfs.Blocks.{used}
use os161_kernel.Sfs.Owned.{max_blocks, block_of, IsFile, block_of_in}
use os161_kernel.Sfs.Truncation.{dropped, Direct, free_direct_lem, free_indirect_lem}
use os161_kernel.Sfs.Truncated.{Truncated, none_behind, none_if_no_index}
use os161_kernel.Sfs.Truncate.{
  Direct-start, free_behind_lem, resized, scan_start, scan_dirty, scan_nonzero,
}

-- The number of blocks of a file of `len` bytes.
abbrev pub blocks_for : ℕ → ℕ
blocks_for len = (len + 511) / 512

module _ (read_error write_error : ℕ → Bool) {fs : Fs} {sv : File} (f : IsFile fs sv) (len : ℕ)
    (small : len < 2 ^ 32) where
  blocklen_exact : (len + 512 - 1) / 512 % 2 ^ 32 ≡ blocks_for len
  blocklen_exact = omega arith

  -- On a file whose blocks are in use, on the disk and all different, with an indirect block that
  -- can be read and written, and for a length below 2 ^ 32, sfs_truncate succeeds: the size is the
  -- length, the direct blocks from the new number of blocks on are gone and free, as are the
  -- blocks in the indirect block with a number above it, all other blocks are kept and in use,
  -- nothing that was free is taken, the indirect block is kept or freed, and the file is as
  -- well-formed as before.
  pub sfs_truncate_lem :
      read_error sv.indirect ≡ false
      → write_error sv.indirect ≡ false
      → (fs' : Fs) × (sv' : File) × (sfs_truncate read_error write_error len fs sv
          ≡ done (none, fs', sv'))
        × (sv'.size ≡ len)
        × Truncated (blocks_for len) fs sv fs' sv'
  unfolding sfs_truncate
  sfs_truncate_lem readable writable =
      let (fs1, sv1, first, d) =
        free_direct_lem f.owns (blocks_for len) sfs_ndirect refl
          (Direct-start f (blocks_for len)) in
      let (fs3, sv3, run, t) =
        free_behind_lem f (blocks_for len) read_error write_error readable writable d in
      (
        fs3,
        record sv3 { size = len % 2 ^ 32; dirty = true },
        rw (blocklen_exact, first, run) refl,
        omega arith,
        resized f (blocks_for len) _ t,
      )

  -- Blocks before and past the new end are listed in the indirect block.
  module _ (i k : ℕ) (lo_i : sfs_ndirect ≤ i) (out : dropped (blocks_for len) i ≡ true)
      (there : block_of fs sv i ≢ 0) (lo_k : sfs_ndirect ≤ k)
      (before : dropped (blocks_for len) k ≡ false) (there_k : block_of fs sv k ≢ 0) where
    index_there : sv.indirect ≢ 0
    index_there z = there (none_if_no_index fs sv z i lo_i)

    inside : i < max_blocks
    inside = none_behind f (blocks_for len) i there

    behind_write_error :
        read_error sv.indirect ≡ false
        → write_error sv.indirect ≡ true
        → {fs1 : Fs} {sv1 : File} → Direct f.owns (blocks_for len) sfs_ndirect sv fs1 sv1
        → (fs2 : Fs) × (free_behind read_error write_error (blocks_for len) fs1 sv1
            ≡ done (some eio, fs2, sv1))
          × (block_of fs2 sv1 i ≡ block_of fs sv i)
          × (used fs2 (block_of fs sv i) ≡ false)
    unfolding free_behind sfs_rblock write_back sfs_wblock
    behind_write_error readable bad {fs1} {sv1} d =
        let (fs2, c, scan, b) =
          free_indirect_lem f.owns (blocks_for len) sfs_dbperidb refl
            (scan_start f (blocks_for len) d index_there) in
        let dirty : c.iddirty ≡ true = scan_dirty f (blocks_for len) i k b lo_i out there in
        let nonzero : c.hasnonzero ≡ true =
          scan_nonzero f (blocks_for len) i k b lo_k before there_k in
        (
          fs2,
          ground (arith, scan, d.same, dirty, nonzero, inside, index_there),
          block_of_in fs2 sv1 i lo_i inside (subst (λ n. n ≢ 0) (sym d.same) index_there)
              ∙ ap (λ n. fs2.disk n (i - sfs_ndirect)) d.same
              ∙ ap (λ m. m sv.indirect (i - sfs_ndirect)) b.freed.disk
              ∙ sym (block_of_in fs sv i lo_i inside index_there),
          b.freed.gone i (ground (arith, inside)) there,
        )

    -- When the indirect block can be read but not written, lists block `i` past the new end, and
    -- lists block `k` before it, sfs_truncate answers EIO and leaves block `i` in the file though
    -- its bit says that it is free.
    pub truncate-write_error :
        read_error sv.indirect ≡ false
        → write_error sv.indirect ≡ true
        → (fs' : Fs) × (sv' : File) × (sfs_truncate read_error write_error len fs sv
            ≡ done (some eio, fs', sv'))
          × (block_of fs' sv' i ≡ block_of fs sv i)
          × (used fs' (block_of fs sv i) ≡ false)
    unfolding sfs_truncate
    truncate-write_error readable bad =
        let (fs1, sv1, first, d) =
          free_direct_lem f.owns (blocks_for len) sfs_ndirect refl
            (Direct-start f (blocks_for len)) in
        let (fs2, run, same, free) = behind_write_error readable bad d in
        (fs2, sv1, rw (blocklen_exact, first, run) refl, same, free)
