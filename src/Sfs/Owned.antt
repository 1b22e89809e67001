-- ===== src/Sfs/Owned.antt =====
-- The blocks of the disk that a file of SFS holds (struct sfs_inode, kern/fs/sfs/sfs_vnode.c).
use os161_kernel.Prelude.{
  ℕ, ◌-◌, ◌≤◌, ◌<◌, ◌≡◌, refl, ◌≢◌, true, ltb, ◌==◌, not, ◌&&◌, update, arith, ap, if◌then◌else◌,
  sym, ◌∙◌, subst, ==-true, ℕ_discrete,
}
use os161_kernel.Sfs.{Fs, File, sfs_ndirect}
use os161_kernel.Sfs.Blocks.{used, IsMap, IsFresh}

-- The number of blocks that a file can have.
abbrev pub max_blocks : ℕ
max_blocks = 143

-- Block `i` of the file, 0 where there is none.
unfoldable pub block_of : Fs → File → ℕ → ℕ
block_of fs sv i =
    if ltb i sfs_ndirect
    then sv.direct i
    else (if ltb i max_blocks && not (sv.indirect == 0)
        then fs.disk sv.indirect (i - sfs_ndirect)
        else 0)

-- The blocks `view` and the block `index` are in use, on the disk, and no two are the same.
pub record Owns (fs : Fs) (view : ℕ → ℕ) (index : ℕ) : Type 0 where
  pub low : (i : ℕ) → view i ≢ 0 → view i < fs.nblocks
  pub taken : (i : ℕ) → view i ≢ 0 → used fs (view i) ≡ true
  pub apart : (i j : ℕ) → view i ≢ 0 → view i ≡ view j → i ≡ j
  pub index_low : index ≢ 0 → index < fs.nblocks
  pub index_taken : index ≢ 0 → used fs index ≡ true
  pub index_apart : index ≢ 0 → (i : ℕ) → view i ≢ index

pub record IsFile (fs : Fs) (sv : File) : Type 0 where
  pub map : IsMap fs
  pub owns : Owns fs (block_of fs sv) sv.indirect

module _ {fs fs' : Fs} {view view' : ℕ → ℕ} {index : ℕ} (size : fs'.nblocks ≡ fs.nblocks)
    (marks : (i : ℕ) → used fs i ≡ true → used fs' i ≡ true) (o : Owns fs view index) where
  pub Owns-grow : ((i : ℕ) → view' i ≡ view i) → Owns fs' view' index
  Owns-grow same = record {
    low = λ i h. ground (arith, same i, size, o.low i);
    taken = λ i h.
        subst (λ b. used fs' b ≡ true) (sym (same i))
          (marks (view i) (o.taken i (λ e. h (same i ∙ e))));
    apart = λ i j h e. o.apart i j (λ q. h (same i ∙ q)) (sym (same i) ∙ e ∙ same j);
    index_low = λ h. omega (arith, o.index_low h, size);
    index_taken = λ h. marks index (o.index_taken h);
    index_apart = λ h i e. o.index_apart h i (sym (same i) ∙ e);
  }

  -- A fresh block becomes block `i` of the file.
  pub Owns-attach :
      (i b : ℕ)
      → IsFresh b fs fs'
      → ((j : ℕ) → view' j ≡ (if i == j then b else view j))
      → Owns fs' view' index
  Owns-attach i b f now = record {
    low = λ j h. elim (ℕ_discrete i j) [
      | yes e ↦ ground (arith, now j, size, f.low)
      | no ne ↦ ground (arith, now j, size, o.low j)
    ];
    taken = λ j h. elim (ℕ_discrete i j) [
      | yes e ↦ subst (λ x. used fs' x ≡ true) (sym (here j e)) f.taken
      | no ne ↦
          subst (λ x. used fs' x ≡ true) (sym (there j ne))
            (marks (view j) (o.taken j (λ q. h (there j ne ∙ q))))
    ];
    apart = λ j k h e. elim (ℕ_discrete i j) [
      | yes p ↦ elim (ℕ_discrete i k) [
        | yes q ↦ sym p ∙ q
        | no nq ↦ absurd (new k (sym (there k nq) ∙ sym e ∙ here j p))
      ]
      | no np ↦ elim (ℕ_discrete i k) [
        | yes q ↦ absurd (new j (sym (there j np) ∙ e ∙ here k q))
        | no nq ↦ o.apart j k (λ z. h (there j np ∙ z)) (sym (there j np) ∙ e ∙ there k nq)
      ]
    ];
    index_low = λ h. omega (arith, o.index_low h, size);
    index_taken = λ h. marks index (o.index_taken h);
    index_apart = λ h j e. elim (ℕ_discrete i j) [
      | yes p ↦ clash (o.index_taken h) (sym (here j p) ∙ e)
      | no np ↦ o.index_apart h j (sym (there j np) ∙ e)
    ];
  }
    where
      here : (j : ℕ) → i ≡ j → view' j ≡ b
      here j e = ground (arith, now j)

      there : (j : ℕ) → i ≢ j → view' j ≡ view j
      there j e = ground (arith, now j)

      clash : {c : ℕ} → used fs c ≡ true → b ≢ c
      clash u e = ground (arith, f.free, ap (used fs) e)

      new : (j : ℕ) → view j ≢ b
      new j e = clash (o.taken j (λ z. f.nonzero (sym e ∙ z))) (sym e)

-- A fresh block becomes the indirect block.
pub Owns-attach_index :
    {fs fs' : Fs} {view view' : ℕ → ℕ} {index b : ℕ}
    → fs'.nblocks ≡ fs.nblocks
    → ((i : ℕ) → used fs i ≡ true → used fs' i ≡ true)
    → Owns fs view index
    → IsFresh b fs fs'
    → ((j : ℕ) → view' j ≡ view j)
    → Owns fs' view' b
Owns-attach_index {fs} {fs'} {view} {view'} {index} {b} size marks o f same =
    let g : Owns fs' view' index = Owns-grow size marks o same in
    record {
      low = g.low;
      taken = g.taken;
      apart = g.apart;
      index_low = λ h. omega (arith, f.low, size);
      index_taken = λ h. f.taken;
      index_apart = λ h i e. ground (
        arith,
        f.free,
        ap (used fs) (sym (same i) ∙ e),
        o.taken i (λ z. f.nonzero (sym (sym (same i) ∙ e) ∙ z)),
      );
    }

-- The blocks of a file depend on the inode and the indirect block only.
pub block_of-same :
    (fs fs' : Fs) (sv sv' : File)
    → (sv.indirect ≢ 0 → fs'.disk sv.indirect ≡ fs.disk sv.indirect)
    → ((j : ℕ) → sv'.direct j ≡ sv.direct j)
    → sv'.indirect ≡ sv.indirect
    → (j : ℕ) → block_of fs' sv' j ≡ block_of fs sv j
unfolding block_of
block_of-same fs fs' sv sv' words direct e j = elim (ℕ_discrete sv.indirect 0) [
  | yes z ↦ ground (arith, direct j)
  | no nz ↦ rw (direct j, e, words nz)
]

pub block_of-direct :
    (fs : Fs) (sv : File) (i b : ℕ)
    → i < sfs_ndirect
    → (j : ℕ)
    → block_of fs (record sv { direct = update sv.direct i b; dirty = true }) j
      ≡ (if i == j then b else block_of fs sv j)
unfolding block_of
block_of-direct fs sv i b h j = ground arith

pub block_of-entry :
    (fs : Fs) (sv : File) (i b : ℕ) (words : ℕ → ℕ)
    → sfs_ndirect ≤ i
    → i < max_blocks
    → sv.indirect ≢ 0
    → words ≡ fs.disk sv.indirect
    → (j : ℕ)
    → block_of
        (record fs { disk = update fs.disk sv.indirect (update words (i - sfs_ndirect) b) })
        sv
        j
      ≡ (if i == j then b else block_of fs sv j)
unfolding block_of
block_of-entry fs sv i b words lo hi nz e j =
    let self : (sv.indirect == sv.indirect) ≡ true = ==-true refl in rw (self, e) (ground arith)

pub block_of_at : (fs : Fs) (sv : File) (i : ℕ) → i < sfs_ndirect → block_of fs sv i ≡ sv.direct i
unfolding block_of
block_of_at fs sv i h = ground arith

pub block_of_in :
    (fs : Fs) (sv : File) (i : ℕ)
    → sfs_ndirect ≤ i
    → i < max_blocks
    → sv.indirect ≢ 0
    → block_of fs sv i ≡ fs.disk sv.indirect (i - sfs_ndirect)
unfolding block_of
block_of_in fs sv i lo hi nz = ground arith

pub block_of-zeros :
    (fs fs' : Fs) (sv : File) (b : ℕ)
    → sv.indirect ≡ 0
    → fs'.disk b ≡ (λ w. 0)
    → (j : ℕ) → block_of fs' (record sv { indirect = b; dirty = true }) j ≡ block_of fs sv j
unfolding block_of
block_of-zeros fs fs' sv b z e j = rw e (ground arith)
