-- ===== src/Vfs/Opening.antt =====
-- vfs_open and vfs_close (kern/vfs/vfspath.c).
use os161_kernel.Prelude.{
  ℕ, ◌≡◌, ◌<◌, refl, ◌∙◌, inl, inr, true, false, Option, none, some, ◌==◌, not, bit_and,
  if◌then◌else◌, ap, sym, arith, subst, Bool-cases, Option-cases, ==-true,
}
use os161_kernel.Prelude.Errno.{Errno, einval, Reply, ok, err}
use os161_kernel.Prelude.Outcome.{Outcome, done, done-injective}
use os161_kernel.Vfs.{Counts, Ops, vnode_incopen, get_vnode, open_found, vfs_open, vfs_close}
use os161_kernel.Vfs.References.{
  Has, Same, Gives, gave, refused, Laws, Same-Has, give_back, vnode_decref_lem, vnode_decopen_lem,
  Less, Has-referenced, Dropped-Has,
}

-- What vfs_open leaves: an error and no reference, or a vnode with one reference and one open more.
pub data Opened (w : Counts) (r : Outcome (Reply ℕ × Counts)) : Type 0 where
  opened : (v : ℕ) (w' : Counts) → r ≡ done (ok v, w') → Has v 1 w w' → Opened w r
  failed : (e : Errno) (w' : Counts) → r ≡ done (err e, w') → Same w w' → Opened w r

Same-refl : (w : Counts) → Same w w
Same-refl w = record { refs = λ i p. refl; opens = λ i p. refl; most = λ i z. omega arith }

module _ {o : Ops} (l : Laws o) where
  incopen-Has : {v : ℕ} {w w1 : Counts} → Has v 0 w w1 → Has v 1 w (vnode_incopen v w1)
  unfolding vnode_incopen
  incopen-Has {v} {w} {w1} h =
      let self : (v == v) ≡ true = ==-true refl in
      record {
        refs = h.refs;
        opens = λ i p. ground (arith, h.opens i p, ap w1.opens);
        least = h.least;
        most = h.most;
        opened = ground (arith, self);
      }

  Less-Has : {v : ℕ} {w w1 w2 : Counts} → Has v 1 w w1 → Less v w1 w2 → Has v 0 w w2
  Less-Has h b = record {
    refs = λ i p. b.refs i ∙ h.refs i p;
    opens = λ i p. ground (arith, b.opens i, h.opens i p);
    least = λ i z. ground (arith, b.refs i, h.least i z);
    most = λ i z. ground (arith, b.refs i, h.most i z);
    opened = omega arith;
  }

  vfs_close_lem :
      {v : ℕ} {w w1 : Counts}
      → Has v 1 w w1
      → (w2 : Counts) × (vfs_close o v w1 ≡ done w2) × Same w w2
  unfolding vfs_close
  vfs_close_lem {v} {w} {w1} h =
      let (w2, first, a) = vnode_decopen_lem l v w1 (omega (arith, h.opened)) in
      let (w3, second, s) = give_back l (Less-Has h a) in (w3, rw (first, second) refl, s)

  -- The end of vfs_open, which undoes what it has done.
  open_found-Opened :
      {v : ℕ} {w w1 : Counts} (openflags : ℕ)
      → Has v 0 w w1
      → Opened w (open_found o v openflags w1)
  unfolding open_found vfs_close
  open_found-Opened {v} {w} {w1} openflags h = elim (Option-cases (o.open_vnode v openflags)) [
    | inr (e, q) ↦ let (w2, run, s) = give_back l h in failed e w2 (ground (arith, q, run)) s
    | inl q ↦
        go q
          (if bit_and openflags 16 == 0
            then none
            else (if bit_and openflags 3 == 0 then some einval else o.truncate v))
          refl
  ]
    where
      go :
          o.open_vnode v openflags ≡ none
          → (r : Option Errno)
          → (if bit_and openflags 16 == 0
              then none
              else (if bit_and openflags 3 == 0 then some einval else o.truncate v))
            ≡ r
          → Opened w (open_found o v openflags w1)
      go q none e = opened v (vnode_incopen v w1) (ground (arith, q, e)) (incopen-Has h)
      go q (some x) e =
          let (w2, run, s) = vfs_close_lem (incopen-Has h) in
          failed x w2 (ground (arith, q, e, run)) s

  -- Whatever hands out the vnode, its reference is there or nothing has changed.
  get_vnode_lem :
      (path openflags mode : ℕ) (w : Counts)
      → (r : Reply ℕ × Counts) × (get_vnode o path openflags mode w ≡ done r) × Gives w r
  unfolding get_vnode
  get_vnode_lem path openflags mode w = elim (Bool-cases (bit_and openflags 4 == 0)) [
    | inl old ↦ (o.lookup path w, rw old refl, l.lookup_gives path w)
    | inr new ↦ go new (l.lookparent_gives path w)
  ]
    where
      made : ℕ → Reply ℕ × Counts
      made dir = o.creat dir path (not (bit_and openflags 8 == 0)) mode (o.lookparent path w).1

      go :
          (bit_and openflags 4 == 0) ≡ false
          → Gives w (o.lookparent path w)
          → (r : Reply ℕ × Counts) × (get_vnode o path openflags mode w ≡ done r) × Gives w r
      go new (refused e q s) =
          ((err e, (o.lookparent path w).1), ground (arith, new, q), refused e refl s)
      go new (gave dir q h) =
          create
            (l.creat_gives dir path (not (bit_and openflags 8 == 0)) mode (o.lookparent path w).1)
        where
          two : {v : ℕ} {w1 w2 : Counts} → Has dir 0 w w1 → Has v 0 w1 w2 → 0 < w2.refs dir
          two h g = let one = Has-referenced h in ground (arith, g.refs dir one)

          create :
              Gives (o.lookparent path w).1 (made dir)
              → (r : Reply ℕ × Counts) × (get_vnode o path openflags mode w ≡ done r) × Gives w r
          create (refused e p s) =
              let (w3, run, t) = give_back l (Same-Has h s) in
              (((made dir).0, w3), ground (arith, new, q, run), refused e p t)
          create (gave v p g) =
              let (w3, run, b) = vnode_decref_lem l dir (made dir).1 (two h g) in
              (((made dir).0, w3), ground (arith, new, q, run), gave v p (Dropped-Has h g b))

  -- For a file system whose lookups and VOP_CREAT hand out one reference or answer an error, whose VOP_CLOSE
  -- keeps the counts, and whose VOP_RECLAIM, whether it succeeds or fails, leaves its vnode at most
  -- one reference and touches no other counts, and at any path, flags and mode: vfs_open either
  -- hands out a vnode or answers an error. Of the vnodes that had a reference before, the one
  -- handed out has one reference and one open more, and all other counts are as before. Of the
  -- vnodes that had none, the one handed out has an open and one reference, and any vnode may have
  -- one reference more, that of a VOP_RECLAIM that kept it.
  pub vfs_open-Opened :
      (path openflags mode : ℕ) (w : Counts) → Opened w (vfs_open o path openflags mode w)
  unfolding vfs_open
  vfs_open-Opened path openflags mode w = elim (Bool-cases (bit_and openflags 3 == 3)) [
    | inl bad ↦ failed einval w (rw bad refl) (Same-refl w)
    | inr fine ↦
        let (r, run, g) = get_vnode_lem path openflags mode w in go r g (ground (arith, fine, run))
  ]
    where
      rest : Reply ℕ × Counts → Outcome (Reply ℕ × Counts)
      rest r = elim r.0 [ err e ↦ done (err e, r.1) | ok vn ↦ open_found o vn openflags r.1 ]

      go :
          (r : Reply ℕ × Counts)
          → Gives w r
          → vfs_open o path openflags mode w ≡ rest r
          → Opened w (vfs_open o path openflags mode w)
      go r (refused e q s) run = failed e r.1 (run ∙ rw q refl) s
      go r (gave v q h) run =
          subst (Opened w) (sym (run ∙ rw q refl)) (open_found-Opened openflags h)

  -- For a file system whose lookups and VOP_CREAT hand out one reference or answer an error, whose VOP_CLOSE
  -- keeps the counts, and whose VOP_RECLAIM, whether it succeeds or fails, leaves its vnode at most
  -- one reference and touches no other counts: vfs_close of a vnode that vfs_open has just handed
  -- out returns, and the reference count and open count of each vnode that had a reference before
  -- vfs_open are what they were; any other vnode is left with at most one reference.
  pub vfs_close-vfs_open :
      {v : ℕ} {w w' : Counts} (path openflags mode : ℕ)
      → vfs_open o path openflags mode w ≡ done (ok v, w')
      → (w2 : Counts) × (vfs_close o v w' ≡ done w2) × Same w w2
  vfs_close-vfs_open {v} {w} {w'} path openflags mode e = go (vfs_open-Opened path openflags mode w)
    where
      go :
          Opened w (vfs_open o path openflags mode w)
          → (w2 : Counts) × (vfs_close o v w' ≡ done w2) × Same w w2
      go (failed x w1 run s) =
          absurd (differ (ap (λ (r : Reply ℕ × Counts). r.0) (done-injective (sym run ∙ e))))
        where
          differ : {x : Errno} {v : ℕ} → err x ≡ ok v → ⊥
          differ q = cc
      go (opened u w1 run h) =
          let both = done-injective (sym run ∙ e) in
          let vnode : u ≡ v = number (ap (λ (r : Reply ℕ × Counts). r.0) both) in
          let counts : w1 ≡ w' = ap (λ (r : Reply ℕ × Counts). r.1) both in
          vfs_close_lem (subst (λ c. Has v 1 w c) counts (subst (λ n. Has n 1 w w1) vnode h))
        where
          number : {a b : ℕ} → ok a ≡ ok b → a ≡ b
          number q = cc
