-- ===== src/Sfs.antt =====
-- The blocks of a file of the file system SFS (kern/fs/sfs/sfs_vnode.c): their allocation, the map from
-- the blocks of a file to those of the disk, and truncation. A block is 128 words; `read_error` and
-- `write_error` say of which blocks the device fails, all retries included.
pub mod Device
pub mod Blocks
pub mod Owned
pub mod Answers
pub mod Indirect
pub mod Mapping
pub mod Freed
pub mod Truncation
pub mod Truncated
pub mod Truncate
pub mod Cut
mod Tests
use os161_kernel.Prelude.{
  ℕ, zero, suc, ◌+◌, ◌-◌, ◌/◌, ◌%◌, ◌^◌, Bool, true, false, Option, none, some, ltb, leb, ◌==◌, not,
  ◌&&◌, ◌||◌, if◌then◌else◌, update,
}
use os161_kernel.Prelude.Errno
use os161_kernel.Prelude.Errno.{eio, efbig, Reply, ok, err}
use os161_kernel.Prelude.Outcome.{Outcome, done, panic, ◌>>=◌, ◌>>◌, kassert}
use os161_kernel.Bitmap.{Bitmap, allocated, enospc, bitmap_alloc, bitmap_unmark, bitmap_isset}

-- Of struct sfs_fs: the map of the blocks in use, sp_nblocks, and the disk by block and word.
pub record Fs : Type 0 where
  pub freemap : Bitmap
  pub freemapdirty : Bool
  pub nblocks : ℕ
  pub disk : ℕ → ℕ → ℕ

-- Of struct sfs_vnode and the inode in it.
pub record File : Type 0 where
  pub ino : ℕ
  pub size : ℕ
  pub direct : ℕ → ℕ
  pub indirect : ℕ
  pub dirty : Bool

abbrev pub sfs_ndirect : ℕ
sfs_ndirect = 15

abbrev pub sfs_dbperidb : ℕ
sfs_dbperidb = 128

pub sfs_bfree : ℕ → Fs → Outcome Fs
sfs_bfree diskblock fs = bitmap_unmark fs.freemap diskblock >>= λ map.
    done (record fs { freemap = map; freemapdirty = true })

pub sfs_bused : ℕ → Fs → Outcome Bool
sfs_bused diskblock fs =
    if ltb diskblock fs.nblocks
    then (bitmap_isset fs.freemap diskblock >>= λ r. done (not (r == 0)))
    else panic

-- "Hand back the block": a block that is marked free stops the kernel.
pub hand_back : ℕ → Fs → File → Outcome (Reply ℕ × Fs × File)
hand_back block fs sv =
    if block == 0
    then done (ok 0, fs, sv)
    else (sfs_bused block fs >>= λ used. if used then done (ok block, fs, sv) else panic)

module _ (read_error write_error : ℕ → Bool) where
  pub sfs_rblock : ℕ → Fs → Reply (ℕ → ℕ)
  sfs_rblock block fs = if read_error block then err eio else ok (fs.disk block)

  -- none is 0.
  pub sfs_wblock : (ℕ → ℕ) → ℕ → Fs → Option Errno.Errno × Fs
  sfs_wblock words block fs =
      if write_error block
      then (some eio, fs)
      else (none, record fs { disk = update fs.disk block words })

  abbrev pub sfs_clearblock : ℕ → Fs → Option Errno.Errno × Fs
  sfs_clearblock block fs = sfs_wblock (λ i. 0) block fs

  pub sfs_balloc : Fs → Outcome (Reply ℕ × Fs)
  sfs_balloc fs = bitmap_alloc fs.freemap >>= λ a. elim a [
    | enospc ↦ done (err Errno.enospc, fs)
    | allocated diskblock map ↦
        let fs1 = record fs { freemap = map; freemapdirty = true } in
        kassert (ltb diskblock fs.nblocks)
        >> (let (result, fs2) = sfs_clearblock diskblock fs1 in
            done (elim result [ none ↦ ok diskblock | some e ↦ err e ], fs2))
  ]

  -- sfs_bmap for one of the direct blocks.
  pub bmap_direct : ℕ → Bool → Fs → File → Outcome (Reply ℕ × Fs × File)
  bmap_direct fileblock doalloc fs sv =
      if (sv.direct fileblock == 0) && doalloc
      then (sfs_balloc fs >>= λ r. elim r.0 [
        | err e ↦ done (err e, r.1, sv)
        | ok block ↦
            hand_back block r.1
              (record sv { direct = update sv.direct fileblock block; dirty = true })
      ])
      else hand_back (sv.direct fileblock) fs sv

  -- sfs_bmap from "Get the block out of the indirect block buffer" on.
  pub bmap_entry : ℕ → ℕ → (ℕ → ℕ) → Bool → Fs → File → Outcome (Reply ℕ × Fs × File)
  bmap_entry idoff idblock idbuf doalloc fs sv =
      if (idbuf idoff == 0) && doalloc
      then (sfs_balloc fs >>= λ r. elim r.0 [
        | err e ↦ done (err e, r.1, sv)
        | ok block ↦
            let (result, fs2) = sfs_wblock (update idbuf idoff block) idblock r.1 in
            elim result [ some e ↦ done (err e, fs2, sv) | none ↦ hand_back block fs2 sv ]
      ])
      else hand_back (idbuf idoff) fs sv

  -- sfs_bmap for a block behind the direct ones, `fileblock` blocks behind them.
  pub bmap_indirect : ℕ → Bool → Fs → File → Outcome (Reply ℕ × Fs × File)
  bmap_indirect fileblock doalloc fs sv =
      let idnum = fileblock / sfs_dbperidb in
      let idoff = fileblock % sfs_dbperidb in
      if ltb 0 idnum
      then done (err efbig, fs, sv)
      else (if sv.indirect == 0
          then (if doalloc
              then (sfs_balloc fs >>= λ r. elim r.0 [
                | err e ↦ done (err e, r.1, sv)
                | ok idblock ↦
                    bmap_entry idoff idblock (λ i. 0) doalloc r.1
                      (record sv { indirect = idblock; dirty = true })
              ])
              else done (ok 0, fs, sv))
          else elim (sfs_rblock sv.indirect fs) [
            | err e ↦ done (err e, fs, sv)
            | ok idbuf ↦ bmap_entry idoff sv.indirect idbuf doalloc fs sv
          ])

  pub sfs_bmap : ℕ → Bool → Fs → File → Outcome (Reply ℕ × Fs × File)
  sfs_bmap fileblock doalloc fs sv =
      if ltb fileblock sfs_ndirect
      then bmap_direct fileblock doalloc fs sv
      else bmap_indirect (fileblock - sfs_ndirect) doalloc fs sv

-- One round of the loop of sfs_truncate over the direct blocks, and the loop from `i` on over the
-- rounds left.
pub free_one : ℕ → ℕ → Fs → File → Outcome (Fs × File)
free_one i blocklen fs sv =
    let block = sv.direct i in
    if leb blocklen i && not (block == 0)
    then (sfs_bfree block fs >>= λ fs1.
        done (fs1, record sv { direct = update sv.direct i 0; dirty = true }))
    else done (fs, sv)

pub free_direct : ℕ → ℕ → ℕ → Fs → File → Outcome (Fs × File)
free_direct zero i blocklen fs sv = done (fs, sv)
free_direct (suc n) i blocklen fs sv =
    free_one i blocklen fs sv >>= λ r. free_direct n (i + 1) blocklen r.0 r.1

-- What its loop over the indirect block carries: the buffer, hasnonzero and iddirty.
pub record Scan : Type 0 where
  pub idbuf : ℕ → ℕ
  pub hasnonzero : Bool
  pub iddirty : Bool

pub scan_one : ℕ → ℕ → Fs → Scan → Outcome (Fs × Scan)
scan_one j blocklen fs c =
    let block = c.idbuf j in
    if ltb blocklen (sfs_ndirect + j) && not (block == 0)
    then (sfs_bfree block fs >>= λ fs1.
        done (fs1, record c { idbuf = update c.idbuf j 0; iddirty = true }))
    else done (fs, record c { hasnonzero = c.hasnonzero || not (block == 0) })

pub free_indirect : ℕ → ℕ → ℕ → Fs → Scan → Outcome (Fs × Scan)
free_indirect zero j blocklen fs c = done (fs, c)
free_indirect (suc n) j blocklen fs c =
    scan_one j blocklen fs c >>= λ r. free_indirect n (j + 1) blocklen r.0 r.1

module _ (read_error write_error : ℕ → Bool) where
  -- sfs_truncate after the loop over the indirect block.
  pub write_back : ℕ → Fs → Scan → File → Outcome (Option Errno.Errno × Fs × File)
  write_back idblock fs c sv =
      if c.hasnonzero
      then (if c.iddirty
          then (let (result, fs1) = sfs_wblock read_error write_error c.idbuf idblock fs in
              done (result, fs1, sv))
          else done (none, fs, sv))
      else (sfs_bfree idblock fs >>= λ fs1.
          done (none, fs1, record sv { indirect = 0; dirty = true }))

  -- sfs_truncate from "Indirect block number" on to the end of the if.
  pub free_behind : ℕ → Fs → File → Outcome (Option Errno.Errno × Fs × File)
  free_behind blocklen fs sv =
      let idblock = sv.indirect in
      let highblock = sfs_ndirect + sfs_dbperidb - 1 in
      if ltb blocklen highblock && not (idblock == 0)
      then elim (sfs_rblock read_error write_error idblock fs) [
        | err e ↦ done (some e, fs, sv)
        | ok idbuf ↦
            free_indirect sfs_dbperidb 0 blocklen fs
              (record { idbuf = idbuf; hasnonzero = false; iddirty = false })
            >>= λ r. write_back idblock r.0 r.1 sv
      ]
      else done (none, fs, sv)

  -- `len` is not negative; DIVROUNDUP is a sum of off_t, kept in 32 bits.
  pub sfs_truncate : ℕ → Fs → File → Outcome (Option Errno.Errno × Fs × File)
  sfs_truncate len fs sv =
      let blocklen = (len + 512 - 1) / 512 % 2 ^ 32 in
      free_direct sfs_ndirect 0 blocklen fs sv >>= λ r. free_behind blocklen r.0 r.1 >>= λ r.
      elim r.0 [
        | some e ↦ done (some e, r.1, r.2)
        | none ↦ done (none, r.1, record r.2 { size = len % 2 ^ 32; dirty = true })
      ]
