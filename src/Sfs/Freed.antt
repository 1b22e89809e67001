-- ===== src/Sfs/Freed.antt =====
-- The blocks that sfs_truncate (kern/fs/sfs/sfs_vnode.c) frees one after the other.
use os161_kernel.Prelude.{
  ℕ, ◌/◌, ◌<◌, ◌≡◌, refl, ◌≢◌, Bool, true, false, ◌==◌, arith, ap, if◌then◌else◌, inl, inr, sym,
  ◌∙◌, subst, Bool-cases, ==-true,
}
use os161_kernel.Prelude.Outcome.{done}
use os161_kernel.Bitmap.Marks.{
  test, bitmap_unmark-done, clear_bit, clear_bit-IsValid, test-set-and, word_in,
}
use os161_kernel.Sfs.{Fs, sfs_bfree}
use os161_kernel.Sfs.Blocks.{used, IsMap}
use os161_kernel.Sfs.Owned.{Owns}

-- A block in use other than the first one can be freed: its bit is cleared, and no other.
pub sfs_bfree_lem :
    {fs : Fs} (b : ℕ)
    → IsMap fs
    → b ≢ 0
    → b < fs.nblocks
    → used fs b ≡ true
    → (fs' : Fs) × (sfs_bfree b fs ≡ done fs')
      × IsMap fs'
      × (fs'.nblocks ≡ fs.nblocks)
      × (fs'.disk ≡ fs.disk)
      × ((j : ℕ) → used fs' j ≡ (if b == j then false else used fs j))
unfolding sfs_bfree
sfs_bfree_lem {fs} b m nz low u = (
  record fs { freemap = record fs.freemap { v = clear_bit fs.freemap.v b }; freemapdirty = true },
  ground (arith, bitmap_unmark-done m.valid b inside u),
  record {
    valid = clear_bit-IsValid m.valid b inside;
    inside = m.inside;
    reserved = bits 0 ∙ ground (arith, m.reserved);
    past = λ i h. bits i ∙ ground (arith, m.past i h);
  },
  refl,
  refl,
  bits,
)
  where
    inside : b < fs.freemap.nbits
    inside = omega (arith, m.inside)

    bits : (j : ℕ) → test (clear_bit fs.freemap.v b) j ≡ (if b == j then false else used fs j)
    bits = test-set-and fs.freemap.v b (word_in m.valid b inside) (m.valid.words (b / 8))

-- From `fs` to `fs'` the blocks of `view` that are not kept have been freed, and nothing else.
pub record Freed (keep : ℕ → Bool) (view : ℕ → ℕ) (fs fs' : Fs) : Type 0 where
  pub map : IsMap fs'
  pub size : fs'.nblocks ≡ fs.nblocks
  pub disk : fs'.disk ≡ fs.disk
  pub gone : (i : ℕ) → keep i ≡ false → view i ≢ 0 → used fs' (view i) ≡ false
  pub stay :
      (b : ℕ)
      → used fs b ≡ true
      → ((i : ℕ) → keep i ≡ false → view i ≢ 0 → view i ≢ b)
      → used fs' b ≡ true
  pub less : (b : ℕ) → used fs b ≡ false → used fs' b ≡ false

module _ {keep : ℕ → Bool} {view : ℕ → ℕ} {index : ℕ} {fs fs1 : Fs} (o : Owns fs view index)
    (f : Freed keep view fs fs1) where
  -- What is kept is still owned.
  pub Freed-Owns : Owns fs1 (λ i. if keep i then view i else 0) index
  Freed-Owns = record {
    low = λ i h. ground (arith, f.size, o.low i);
    taken = λ i h. elim (Bool-cases (keep i)) [
      | inl k ↦
          subst (λ b. used fs1 b ≡ true) (ground arith)
            (f.stay (view i) (o.taken i (λ e. h (ground arith)))
              (λ j d nz e. ground (arith, o.apart j i nz e, ap keep (o.apart j i nz e))))
      | inr d ↦ ground arith
    ];
    apart = λ i j h e. o.apart i j (λ q. h (ground arith)) (ground arith);
    index_low = λ h. omega (arith, f.size, o.index_low h);
    index_taken = λ h. f.stay index (o.index_taken h) (λ i d nz. o.index_apart h i);
    index_apart = λ h i e. ground (arith, o.index_apart h i);
  }

  -- One more block that is there is freed.
  pub Freed-one :
      {i : ℕ} (keep' : ℕ → Bool)
      → ((j : ℕ) → keep' j ≡ (if i == j then false else keep j))
      → keep i ≡ true
      → view i ≢ 0
      → (fs2 : Fs) × (sfs_bfree (view i) fs1 ≡ done fs2) × Freed keep' view fs fs2
  Freed-one {i} keep' now k nz =
      let (fs2, e, m, size, disk, bits) =
        sfs_bfree_lem (view i) f.map nz (omega (arith, o.low i nz, f.size)) mine in
      (
        fs2,
        e,
        record {
          map = m;
          size = size ∙ f.size;
          disk = disk ∙ f.disk;
          gone = λ j d h. bits (view j) ∙ ground (arith, f.gone j, now j, ap view);
          stay = λ b u apart.
              bits b
              ∙ ground (
                arith,
                apart i (now i ∙ at_i),
                f.stay b u (λ j d. apart j (now j ∙ ground arith)),
              );
          less = λ b u. bits b ∙ ground (arith, f.less b u);
        },
      )
    where
      at_i : (if i == i then false else keep i) ≡ false
      at_i = let self : (i == i) ≡ true = ==-true refl in ground arith

      mine : used fs1 (view i) ≡ true
      mine = f.stay (view i) (o.taken i nz) (λ j d h e. ground (arith, ap keep (o.apart j i h e)))

  -- A block that is not there need not be freed.
  pub Freed-none :
      (keep' : ℕ → Bool) → ((j : ℕ) → view j ≢ 0 → keep' j ≡ keep j) → Freed keep' view fs fs1
  Freed-none keep' now = record {
    map = f.map;
    size = f.size;
    disk = f.disk;
    gone = λ j d h. f.gone j (sym (now j h) ∙ d) h;
    stay = λ b u apart. f.stay b u (λ j d h. apart j (now j h ∙ d) h);
    less = f.less;
  }
