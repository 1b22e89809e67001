-- ===== src/Sfs/Blocks.antt =====
-- The blocks of the disk in use, and the block that sfs_balloc (kern/fs/sfs/sfs_vnode.c) takes.
use os161_kernel.Prelude.{
  ℕ, ◌/◌, ◌≤◌, ◌<◌, ◌≡◌, refl, ◌≢◌, Bool, true, false, ◌==◌, update, arith, ap, if◌then◌else◌, inl,
  inr, ◌∙◌, Bool-cases, ==-true,
}
use os161_kernel.Prelude.Errno
use os161_kernel.Prelude.Errno.{eio, Reply, ok, err}
use os161_kernel.Prelude.Outcome.{done}
use os161_kernel.Bitmap.{Bitmap, bitmap_mark}
use os161_kernel.Bitmap.Marks.{
  test, IsValid, bitmap_mark_accepts, test-set-or, word_in, bitmap_isset_lem,
}
use os161_kernel.Bitmap.Search.{Allocates, bitmap_alloc_lem, full, found}
use os161_kernel.Sfs.{Fs, sfs_balloc, sfs_wblock, sfs_bused}

-- The block is marked as in use.
abbrev pub used : Fs → ℕ → Bool
used fs block = test fs.freemap.v block

-- The map is valid, the first block is in use, and so are the bits past the end of the disk.
pub record IsMap (fs : Fs) : Type 0 where
  pub valid : IsValid fs.freemap
  pub inside : fs.nblocks ≤ fs.freemap.nbits
  pub reserved : used fs 0 ≡ true
  pub past : (i : ℕ) → fs.nblocks ≤ i → used fs i ≡ true

-- What an operation that only takes blocks leaves alone: the blocks in use stay so, and keep their
-- words, but for those of `open_block`.
pub record Keeps (open_block : ℕ) (fs fs' : Fs) : Type 0 where
  pub size : fs'.nblocks ≡ fs.nblocks
  pub marks : (i : ℕ) → used fs i ≡ true → used fs' i ≡ true
  pub words : (i : ℕ) → used fs i ≡ true → i ≢ open_block → fs'.disk i ≡ fs.disk i

-- A block that was free, is in use now and full of zeros.
pub record IsFresh (block : ℕ) (fs fs' : Fs) : Type 0 where
  pub nonzero : block ≢ 0
  pub low : block < fs.nblocks
  pub free : used fs block ≡ false
  pub taken : used fs' block ≡ true
  pub zeros : fs'.disk block ≡ (λ i. 0)

pub Keeps-refl : (b : ℕ) (fs : Fs) → Keeps b fs fs
Keeps-refl b fs = record { size = refl; marks = λ i h. h; words = λ i h ne. refl }

-- A block in use is not 0 and on the disk: sfs_bused answers.
pub sfs_bused_lem :
    {fs : Fs} → IsMap fs → (b : ℕ) → b < fs.nblocks → used fs b ≡ true → sfs_bused b fs ≡ done true
unfolding sfs_bused
sfs_bused_lem m b low u =
    let (r, e, (_, back)) = bitmap_isset_lem m.valid b (omega (arith, m.inside)) in
    ground (arith, e, back u)

-- What marking a block does to the bits of the map.
pub after_mark :
    {b c : Bitmap} {i : ℕ}
    → IsValid b
    → i < b.nbits
    → bitmap_mark b i ≡ done c
    → (c.nbits ≡ b.nbits) × ((j : ℕ) → test c.v j ≡ (if i == j then true else test b.v j))
after_mark {b} {c} {i} v h e =
    let (_, clear, same) = bitmap_mark_accepts v i e in
    (
      ap (λ (x : Bitmap). x.nbits) same,
      λ j.
          ap (λ (x : Bitmap). test x.v j) same
          ∙ test-set-or b.v i (word_in v i h) (v.words (i / 8)) j,
    )

module _ (read_error write_error : ℕ → Bool) where
  -- What sfs_balloc comes to: nothing is free, the block it took could not be cleared, or it is
  -- handed out.
  pub data Allocated (fs : Fs) : Type 0 where
    nothing :
        sfs_balloc read_error write_error fs ≡ done (err Errno.enospc, fs)
        → ((i : ℕ) → i < fs.nblocks → used fs i ≡ true)
        → Allocated fs
    unclear :
        (block : ℕ) (fs' : Fs)
        → sfs_balloc read_error write_error fs ≡ done (err eio, fs')
        → write_error block ≡ true
        → IsMap fs'
        → ((b : ℕ) → Keeps b fs fs')
        → Allocated fs
    handed :
        (block : ℕ) (fs' : Fs)
        → sfs_balloc read_error write_error fs ≡ done (ok block, fs')
        → IsMap fs'
        → ((b : ℕ) → Keeps b fs fs')
        → IsFresh block fs fs'
        → Allocated fs

  module _ {fs : Fs} (m : IsMap fs) where
    -- The map after a free block was marked.
    marked-IsMap :
        (b : ℕ) (c : Bitmap) (disk : ℕ → ℕ → ℕ) (e : c.nbits ≡ fs.freemap.nbits)
        → IsValid c
        → ((j : ℕ) → test c.v j ≡ (if b == j then true else used fs j))
        → IsMap (record fs { freemap = c; freemapdirty = true; disk = disk })
    marked-IsMap b c disk e v all = record {
      valid = v;
      inside = omega (arith, e, m.inside);
      reserved = ground (arith, all 0, m.reserved);
      past = λ i h. ground (arith, all i, m.past i h);
    }

    low_if_free : (b : ℕ) → used fs b ≡ false → b < fs.nblocks
    low_if_free b h = ground (arith, m.past b)

    nonzero_if_free : (b : ℕ) → used fs b ≡ false → b ≢ 0
    nonzero_if_free b h e = ground (arith, ap (used fs) e, m.reserved)

    -- sfs_balloc on a valid map: it stops nothing, and hands out a block that was free.
    pub sfs_balloc_lem : Allocated fs
    unfolding sfs_balloc sfs_wblock
    sfs_balloc_lem = go (bitmap_alloc_lem m.valid)
      where
        go : Allocates fs.freemap → Allocated fs
        go (full e all) = nothing (ground arith) (λ i h. all i (omega (arith, m.inside)))
        go (found b c e inside clear first mark v) = elim (Bool-cases (write_error b)) [
          | inl bad ↦
              unclear b (marked c fs.disk) (ground (arith, low)) bad (map fs.disk)
                (λ o. keeps fs.disk (λ i ne. refl))
          | inr good ↦
              handed b (marked c zeroed) (ground (arith, low)) (map zeroed)
                (λ o. keeps zeroed (λ i ne. ground arith))
                (record {
                  nonzero = nonzero_if_free b clear;
                  low = low;
                  free = clear;
                  taken = ground (arith, bits b, self);
                  zeros = ground (arith, self);
                })
        ]
          where
            self : (b == b) ≡ true
            self = ==-true refl

            low : b < fs.nblocks
            low = low_if_free b clear

            marked : Bitmap → (ℕ → ℕ → ℕ) → Fs
            marked c disk = record fs { freemap = c; freemapdirty = true; disk = disk }

            zeroed : ℕ → ℕ → ℕ
            zeroed = update fs.disk b (λ i. 0)

            bits : (j : ℕ) → test c.v j ≡ (if b == j then true else used fs j)
            bits j = (after_mark m.valid inside mark).1 j

            map : (disk : ℕ → ℕ → ℕ) → IsMap (marked c disk)
            map disk = marked-IsMap b c disk (after_mark m.valid inside mark).0 v bits

            keeps :
                {o : ℕ} (disk : ℕ → ℕ → ℕ)
                → ((i : ℕ) → b ≢ i → disk i ≡ fs.disk i)
                → Keeps o fs (marked c disk)
            keeps disk same = record {
              size = refl;
              marks = λ i h. ground (arith, bits i);
              words = λ i h ne. same i (λ q. ground (arith, ap (used fs) q));
            }
