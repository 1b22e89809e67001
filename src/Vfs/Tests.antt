-- ===== src/Vfs/Tests.antt =====
-- A file system with one directory, vnode 0, and one file, vnode 1, that is found at path 1.
-- VOP_RECLAIM of the directory succeeds, that of the file fails.
use os161_kernel.Prelude.{
  ℕ, ◌+◌, ◌≡◌, refl, Bool, true, false, none, ◌==◌, if◌then◌else◌, update, arith, ap, ==-true,
}
use os161_kernel.Prelude.Errno.{enoent, Reply, ok, err}
use os161_kernel.Prelude.Outcome.{done}
use os161_kernel.Vfs.{Counts, Ops, vnode_incopen, get_vnode, open_found, vfs_open, vfs_close}
use os161_kernel.Vfs.References.{Same, Gives, gave, refused, Reclaimed, Laws}
use os161_kernel.Vfs.Opening.{Opened, vfs_open-Opened, vfs_close-vfs_open}

abbrev take : ℕ → Counts → Reply ℕ × Counts
take v w = (ok v, record w { refs = update w.refs v (w.refs v + 1) })

abbrev find_file : ℕ → Counts → Reply ℕ × Counts
find_file path w = if path == 1 then take 1 w else (err enoent, w)

abbrev fs : Ops
fs = record {
  lookup = find_file;
  lookparent = λ path w. take 0 w;
  creat = λ dir path excl mode w. find_file path w;
  open_vnode = λ v flags. none;
  truncate = λ v. none;
  remove = λ dir path. none;
  rename = λ dir path new newpath. none;
  link = λ dir path file. none;
  symlink = λ dir path. none;
  readlink = λ v. none;
  mkdir = λ dir path mode. none;
  rmdir = λ dir path. none;
  fs_of = λ v. 1;
  reclaim = λ v w. if v == 1 then w else record w { refs = update w.refs v 0 };
  close_vnode = λ v w. w;
}

abbrev idle : Counts
idle = record { refs = λ i. 0; opens = λ i. 0 }

take-Gives : (v : ℕ) (w : Counts) → Gives w (take v w)
take-Gives v w = gave v refl (record {
  refs = λ i p. ground (arith, ap w.refs);
  opens = λ i p. ground arith;
  least = λ i z. ground (arith, ap w.refs);
  most = λ i z. ground (arith, ap w.refs);
  opened = omega arith;
})

find_file-Gives : (path : ℕ) (w : Counts) → Gives w (find_file path w)
find_file-Gives path w = go (path == 1)
  where
    go : (b : Bool) → Gives w (if b then take 1 w else (err enoent, w))
    go true = take-Gives 1 w
    go false =
        refused enoent refl
          (record { refs = λ i p. refl; opens = λ i p. refl; most = λ i z. omega arith })

reclaim-Reclaimed : (v : ℕ) (w : Counts) → w.refs v ≡ 1 → Reclaimed v w (fs.reclaim v w)
reclaim-Reclaimed v w one =
    let self : (v == v) ≡ true = ==-true refl in
    record {
      left = ground (arith, self);
      refs = λ i ne. ground (arith, ne);
      opens = λ i ne. ground arith;
    }

fs-Laws : Laws fs
fs-Laws = record {
  lookup_gives = find_file-Gives;
  lookparent_gives = λ path w. take-Gives 0 w;
  creat_gives = λ dir path excl mode w. find_file-Gives path w;
  reclaims = reclaim-Reclaimed;
  closes_refs = λ v w i. refl;
  closes_opens = λ v w i. refl;
}

vfs_open-Opened_example : Opened idle (vfs_open fs 1 0 0 idle)
vfs_open-Opened_example = vfs_open-Opened fs-Laws 1 0 0 idle

abbrev used_once : Counts
used_once = record { refs = update idle.refs 1 1; opens = update idle.opens 1 1 }

vfs_close-vfs_open_example : (w2 : Counts) × (vfs_close fs 1 used_once ≡ done w2) × Same idle w2
unfolding vfs_open get_vnode open_found vnode_incopen
vfs_close-vfs_open_example = vfs_close-vfs_open fs-Laws 1 0 0 refl
