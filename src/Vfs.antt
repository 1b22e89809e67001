-- ===== src/Vfs.antt =====
-- The operations on path names of kern/vfs/vfspath.c and the counts of a vnode of kern/vfs/vnode.c.
-- A vnode is a number. What a file system does is a parameter; so are the two lookups.
pub mod References
pub mod Paths
pub mod Opening
mod Tests
use os161_kernel.Prelude.{
  ℕ, ◌+◌, ◌-◌, Bool, true, false, Option, none, some, ltb, ◌==◌, ◌&&◌, ◌||◌, not, if◌then◌else◌,
  update, bit_and,
}
use os161_kernel.Prelude.Errno.{Errno, einval, exdev, Reply, ok, err}
use os161_kernel.Prelude.Outcome.{Outcome, done, panic, ◌>>=◌, ◌>>◌, kassert}

-- vn_refcount and vn_opencount of every vnode.
pub record Counts : Type 0 where
  pub refs : ℕ → ℕ
  pub opens : ℕ → ℕ

-- The operations of the file systems and the lookups, by path. vn_fs is 0 for NULL. Those that hand out
-- a vnode may change counts, and so may VOP_RECLAIM and VOP_CLOSE, whose result is only printed; of
-- the others only the answer matters, with `none` for 0.
pub record Ops : Type 0 where
  pub lookup : ℕ → Counts → Reply ℕ × Counts
  pub lookparent : ℕ → Counts → Reply ℕ × Counts
  pub creat : ℕ → ℕ → Bool → ℕ → Counts → Reply ℕ × Counts
  pub open_vnode : ℕ → ℕ → Option Errno
  pub truncate : ℕ → Option Errno
  pub remove : ℕ → ℕ → Option Errno
  pub rename : ℕ → ℕ → ℕ → ℕ → Option Errno
  pub link : ℕ → ℕ → ℕ → Option Errno
  pub symlink : ℕ → ℕ → Option Errno
  pub readlink : ℕ → Option Errno
  pub mkdir : ℕ → ℕ → ℕ → Option Errno
  pub rmdir : ℕ → ℕ → Option Errno
  pub fs_of : ℕ → ℕ
  pub reclaim : ℕ → Counts → Counts
  pub close_vnode : ℕ → Counts → Counts

pub vnode_incopen : ℕ → Counts → Counts
vnode_incopen vn w = record w { opens = update w.opens vn (w.opens vn + 1) }

module _ (o : Ops) where
  pub vnode_decopen : ℕ → Counts → Outcome Counts
  vnode_decopen vn w =
      let w1 = record w { opens = update w.opens vn (w.opens vn - 1) } in
      kassert (ltb 0 (w.opens vn)) >> done (if ltb 0 (w1.opens vn) then w1 else o.close_vnode vn w1)

  pub vnode_decref : ℕ → Counts → Outcome Counts
  vnode_decref vn w =
      kassert (ltb 0 (w.refs vn))
      >> (if ltb 1 (w.refs vn)
          then done (record w { refs = update w.refs vn (w.refs vn - 1) })
          else done (o.reclaim vn w))

  -- Give the reference back and return.
  pub drop_vnode : ℕ → Option Errno → Counts → Outcome (Option Errno × Counts)
  drop_vnode vn result w = vnode_decref vn w >>= λ w1. done (result, w1)

  -- Look up the parent, do it, and give it back.
  pub at_parent : (ℕ → Option Errno) → ℕ → Counts → Outcome (Option Errno × Counts)
  at_parent act path w =
      let (found, w1) = o.lookparent path w in
      elim found [ err e ↦ done (some e, w1) | ok dir ↦ drop_vnode dir (act dir) w1 ]

  pub vfs_remove : ℕ → Counts → Outcome (Option Errno × Counts)
  vfs_remove path w = at_parent (λ dir. o.remove dir path) path w

  pub vfs_symlink : ℕ → Counts → Outcome (Option Errno × Counts)
  vfs_symlink path w = at_parent (λ dir. o.symlink dir path) path w

  pub vfs_mkdir : ℕ → ℕ → Counts → Outcome (Option Errno × Counts)
  vfs_mkdir path mode w = at_parent (λ dir. o.mkdir dir path mode) path w

  pub vfs_rmdir : ℕ → Counts → Outcome (Option Errno × Counts)
  vfs_rmdir path w = at_parent (λ dir. o.rmdir dir path) path w

  pub vfs_readlink : ℕ → Counts → Outcome (Option Errno × Counts)
  vfs_readlink path w =
      let (found, w1) = o.lookup path w in
      elim found [ err e ↦ done (some e, w1) | ok vn ↦ drop_vnode vn (o.readlink vn) w1 ]

  abbrev other_fs : ℕ → ℕ → Bool
  other_fs a b = (o.fs_of a == 0) || ((o.fs_of b == 0) || not (o.fs_of a == o.fs_of b))

  -- vfs_rename and vfs_link once they have the first vnode.
  pub at_both : (ℕ → Option Errno) → ℕ → ℕ → Counts → Outcome (Option Errno × Counts)
  at_both act old newpath w =
      let (found, w1) = o.lookparent newpath w in
      elim found [
        | err e ↦ drop_vnode old (some e) w1
        | ok newdir ↦ vnode_decref newdir w1 >>= λ w2.
            drop_vnode old (if other_fs old newdir then some exdev else act newdir) w2
      ]

  pub vfs_rename : ℕ → ℕ → Counts → Outcome (Option Errno × Counts)
  vfs_rename oldpath newpath w =
      let (found, w1) = o.lookparent oldpath w in
      elim found [
        | err e ↦ done (some e, w1)
        | ok olddir ↦ at_both (λ newdir. o.rename olddir oldpath newdir newpath) olddir newpath w1
      ]

  pub vfs_link : ℕ → ℕ → Counts → Outcome (Option Errno × Counts)
  vfs_link oldpath newpath w =
      let (found, w1) = o.lookup oldpath w in
      elim found [
        | err e ↦ done (some e, w1)
        | ok oldfile ↦ at_both (λ newdir. o.link newdir newpath oldfile) oldfile newpath w1
      ]

  -- vfs_open up to the test of the result of VOP_CREAT or vfs_lookup.
  pub get_vnode : ℕ → ℕ → ℕ → Counts → Outcome (Reply ℕ × Counts)
  get_vnode path openflags mode w =
      let (found, w1) = o.lookparent path w in
      if bit_and openflags 4 == 0 then done (o.lookup path w) else elim found [
        | err e ↦ done (err e, w1)
        | ok dir ↦
            let (made, w2) = o.creat dir path (not (bit_and openflags 8 == 0)) mode w1 in
            vnode_decref dir w2 >>= λ w3. done (made, w3)
      ]

  -- vfs_open from VOP_OPEN on.
  pub open_found : ℕ → ℕ → Counts → Outcome (Reply ℕ × Counts)
  open_found vn openflags w = elim (o.open_vnode vn openflags) [
    | some e ↦ vnode_decref vn w >>= λ w1. done (err e, w1)
    | none ↦
        let w1 = vnode_incopen vn w in
        let result =
          if bit_and openflags 16 == 0
          then none
          else (if bit_and openflags 3 == 0 then some einval else o.truncate vn) in
        elim result [
          | some e ↦ vnode_decopen vn w1 >>= λ w2. vnode_decref vn w2 >>= λ w3. done (err e, w3)
          | none ↦ done (ok vn, w1)
        ]
  ]

  pub vfs_open : ℕ → ℕ → ℕ → Counts → Outcome (Reply ℕ × Counts)
  vfs_open path openflags mode w =
      if bit_and openflags 3 == 3
      then done (err einval, w)
      else (get_vnode path openflags mode w >>= λ r. elim r.0 [
        | err e ↦ done (err e, r.1)
        | ok vn ↦ open_found vn openflags r.1
      ])

  pub vfs_close : ℕ → Counts → Outcome Counts
  vfs_close vn w = vnode_decopen vn w >>= λ w1. vnode_decref vn w1
