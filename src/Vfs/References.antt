-- ===== src/Vfs/References.antt =====
-- The reference counts of kern/vfs/vnode.c.
use os161_kernel.Prelude.{
  ℕ, ◌+◌, ◌-◌, ◌≤◌, ◌<◌, ◌≡◌, refl, ◌≢◌, Bool, true, ◌==◌, update, arith, ap, ◌∙◌, if◌then◌else◌,
  ==-true, dec_lt, sym, ℕ_discrete,
}
use os161_kernel.Prelude.Errno.{Errno, Reply, ok, err}
use os161_kernel.Prelude.Outcome.{done}
use os161_kernel.Vfs.{Counts, Ops, vnode_decopen, vnode_decref}

-- Between `w` and `w'` one reference to `v` was taken, and `k` opens. That is exact for the vnodes that
-- `w` has references to. A vnode without one may have been brought in and handed to VOP_RECLAIM
-- since, which may leave it a reference.
pub record Has (v k : ℕ) (w w' : Counts) : Type 0 where
  pub refs : (i : ℕ) → 0 < w.refs i → w'.refs i ≡ w.refs i + (if v == i then 1 else 0)
  pub opens : (i : ℕ) → 0 < w.refs i → w'.opens i ≡ w.opens i + (if v == i then k else 0)
  pub least : (i : ℕ) → w.refs i ≡ 0 → (if v == i then 1 else 0) ≤ w'.refs i
  pub most : (i : ℕ) → w.refs i ≡ 0 → w'.refs i ≤ (if v == i then 1 else 0) + 1
  pub opened : k ≤ w'.opens v

-- The same with no reference taken.
pub record Same (w w' : Counts) : Type 0 where
  pub refs : (i : ℕ) → 0 < w.refs i → w'.refs i ≡ w.refs i
  pub opens : (i : ℕ) → 0 < w.refs i → w'.opens i ≡ w.opens i
  pub most : (i : ℕ) → w.refs i ≡ 0 → w'.refs i ≤ 1

-- An operation that hands out a vnode: it has taken one reference to it, or answers an error.
pub data Gives (w : Counts) (r : Reply ℕ × Counts) : Type 0 where
  gave : (v : ℕ) → r.0 ≡ ok v → Has v 0 w r.1 → Gives w r
  refused : (e : Errno) → r.0 ≡ err e → Same w r.1 → Gives w r

-- VOP_RECLAIM of `v` that was handed its last reference: whether it succeeds or not, `v` has one
-- reference at most, and the counts of all other vnodes are as before.
pub record Reclaimed (v : ℕ) (w w' : Counts) : Type 0 where
  pub left : w'.refs v ≤ 1
  pub refs : (i : ℕ) → i ≢ v → w'.refs i ≡ w.refs i
  pub opens : (i : ℕ) → i ≢ v → w'.opens i ≡ w.opens i

-- What the operations of a file system have to keep to.
pub record Laws (o : Ops) : Type 0 where
  pub lookup_gives : (path : ℕ) (w : Counts) → Gives w (o.lookup path w)
  pub lookparent_gives : (path : ℕ) (w : Counts) → Gives w (o.lookparent path w)
  pub creat_gives :
      (dir path : ℕ) (excl : Bool) (mode : ℕ) (w : Counts) → Gives w (o.creat dir path excl mode w)
  pub reclaims : (v : ℕ) (w : Counts) → w.refs v ≡ 1 → Reclaimed v w (o.reclaim v w)
  pub closes_refs : (v : ℕ) (w : Counts) (i : ℕ) → (o.close_vnode v w).refs i ≡ w.refs i
  pub closes_opens : (v : ℕ) (w : Counts) (i : ℕ) → (o.close_vnode v w).opens i ≡ w.opens i

-- One reference to `v` given back.
pub record Dropped (v : ℕ) (w w' : Counts) : Type 0 where
  pub more : 1 < w.refs v → (w'.refs v + 1 ≡ w.refs v) × (w'.opens v ≡ w.opens v)
  pub last : w.refs v ≤ 1 → w'.refs v ≤ 1
  pub refs : (i : ℕ) → i ≢ v → w'.refs i ≡ w.refs i
  pub opens : (i : ℕ) → i ≢ v → w'.opens i ≡ w.opens i

pub vnode_decref_lem :
    {o : Ops}
    → Laws o
    → (v : ℕ) (w : Counts) → 0 < w.refs v
    → (w' : Counts) × (vnode_decref o v w ≡ done w') × Dropped v w w'
unfolding vnode_decref
vnode_decref_lem {o} l v w h =
    let self : (v == v) ≡ true = ==-true refl in
    elim (dec_lt 1 (w.refs v)) [
      | yes more ↦ (
        record w { refs = update w.refs v (w.refs v - 1) },
        ground arith,
        record {
          more = λ p. (ground (arith, self), refl);
          last = λ p. absurd (omega arith);
          refs = λ i ne. ground (arith, ne);
          opens = λ i ne. refl;
        },
      )
      | no last ↦
          let r = l.reclaims v w (omega arith) in
          (
            o.reclaim v w,
            ground arith,
            record {
              more = λ p. absurd (omega arith);
              last = λ p. r.left;
              refs = r.refs;
              opens = r.opens;
            },
          )
    ]

-- One open of `v` less, and all else as it is.
pub record Less (v : ℕ) (w w' : Counts) : Type 0 where
  pub refs : (i : ℕ) → w'.refs i ≡ w.refs i
  pub opens : (i : ℕ) → w'.opens i + (if v == i then 1 else 0) ≡ w.opens i

pub vnode_decopen_lem :
    {o : Ops}
    → Laws o
    → (v : ℕ) (w : Counts) → 0 < w.opens v
    → (w' : Counts) × (vnode_decopen o v w ≡ done w') × Less v w w'
unfolding vnode_decopen
vnode_decopen_lem {o} l v w h = elim (dec_lt 1 (w.opens v)) [
  | yes more ↦ (w1, ground arith, record { refs = λ i. refl; opens = less })
  | no last ↦ (
    o.close_vnode v w1,
    ground arith,
    record {
      refs = λ i. l.closes_refs v w1 i;
      opens = λ i. ap (λ x. x + (if v == i then 1 else 0)) (l.closes_opens v w1 i) ∙ less i;
    },
  )
]
  where
    w1 : Counts
    w1 = record w { opens = update w.opens v (w.opens v - 1) }

    less : (i : ℕ) → w1.opens i + (if v == i then 1 else 0) ≡ w.opens i
    less i = ground (arith, ap w.opens)

pub Has-referenced : {v k : ℕ} {w w1 : Counts} → Has v k w w1 → 0 < w1.refs v
Has-referenced {v} {k} {w} {w1} h =
    let self : (v == v) ≡ true = ==-true refl in
    elim (dec_lt 0 (w.refs v)) [
      | yes p ↦ ground (arith, self, h.refs v p)
      | no z ↦ ground (arith, self, h.least v (omega arith))
    ]

-- A reference that was taken is given back.
Dropped-Same : {v : ℕ} {w w1 w2 : Counts} → Has v 0 w w1 → Dropped v w1 w2 → Same w w2
Dropped-Same {v} {w} {w1} {w2} h b = record {
  refs = λ i p. elim (ℕ_discrete v i) [
    | yes q ↦ omega (arith, (more i q p).0, at1 i q p, ap w1.refs q, ap w2.refs q)
    | no ne ↦ ground (arith, b.refs i (λ e. ne (sym e)), h.refs i p, ne)
  ];
  opens = λ i p. elim (ℕ_discrete v i) [
    | yes q ↦ sym (ap w2.opens q) ∙ (more i q p).1 ∙ ap w1.opens q ∙ ground (arith, h.opens i p)
    | no ne ↦ ground (arith, b.opens i (λ e. ne (sym e)), h.opens i p, ne)
  ];
  most = λ i z. elim (ℕ_discrete v i) [
    | yes q ↦ elim (dec_lt 1 (w1.refs v)) [
      | yes p ↦
          let top : w1.refs i ≤ 2 = ground (arith, h.most i z, ==-true q) in
          omega (arith, (b.more p).0, top, ap w1.refs q, ap w2.refs q)
      | no p ↦ omega (arith, b.last (omega arith), ap w2.refs q)
    ]
    | no ne ↦ ground (arith, b.refs i (λ e. ne (sym e)), h.most i z, ne)
  ];
}
  where
    at1 : (i : ℕ) → v ≡ i → 0 < w.refs i → w1.refs i ≡ w.refs i + 1
    at1 i q p = ground (arith, h.refs i p, ==-true q)

    more : (i : ℕ) → v ≡ i → 0 < w.refs i → (w2.refs v + 1 ≡ w1.refs v) × (w2.opens v ≡ w1.opens v)
    more i q p = b.more (omega (arith, at1 i q p, ap w1.refs q))

pub give_back :
    {o : Ops}
    → Laws o
    → {v : ℕ} {w w1 : Counts} → Has v 0 w w1
    → (w2 : Counts) × (vnode_decref o v w1 ≡ done w2) × Same w w2
give_back l {v} {w} {w1} h =
    let (w2, run, b) = vnode_decref_lem l v w1 (Has-referenced h) in (w2, run, Dropped-Same h b)

-- A reference to `v` is taken where the other one was, or none.
pub Same-Has : {v : ℕ} {w w1 w2 : Counts} → Has v 0 w w1 → Same w1 w2 → Has v 0 w w2
Same-Has {v} {w} {w1} {w2} h s = record {
  refs = λ i p. s.refs i (there i p) ∙ h.refs i p;
  opens = λ i p. s.opens i (there i p) ∙ h.opens i p;
  least = λ i z. elim (ℕ_discrete v i) [
    | yes q ↦
        let one : 1 ≤ w1.refs i = ground (arith, h.least i z, ==-true q) in
        ground (arith, s.refs i one, ==-true q)
    | no ne ↦ ground (arith, ne)
  ];
  most = λ i z. elim (dec_lt 0 (w1.refs i)) [
    | yes p ↦ ground (arith, s.refs i p, h.most i z)
    | no p ↦ ground (arith, s.most i (omega arith))
  ];
  opened = omega arith;
}
  where
    there : (i : ℕ) → 0 < w.refs i → 0 < w1.refs i
    there i p = ground (arith, h.refs i p)

-- A second vnode is handed out, and the reference to the first given back.
module _ {d v : ℕ} {w w1 w2 w3 : Counts} (h : Has d 0 w w1) (g : Has v 0 w1 w2)
    (b : Dropped d w2 w3) where
  both_taken :
      (i : ℕ)
      → 0 < w.refs i
      → w2.refs i ≡ w.refs i + (if d == i then 1 else 0) + (if v == i then 1 else 0)
  both_taken i p =
      let one : 0 < w1.refs i = ground (arith, h.refs i p) in
      omega (arith, h.refs i p, g.refs i one)

  both_opens : (i : ℕ) → 0 < w.refs i → w2.opens i ≡ w.opens i
  both_opens i p =
      let one : 0 < w1.refs i = ground (arith, h.refs i p) in
      ground (arith, h.opens i p, g.opens i one)

  both_new :
      (i : ℕ)
      → w.refs i ≡ 0
      → ((if d == i then 1 else 0) + (if v == i then 1 else 0) ≤ w2.refs i)
        × (w2.refs i ≤ (if d == i then 1 else 0) + (if v == i then 1 else 0) + 1)
  both_new i z = elim (dec_lt 0 (w1.refs i)) [
    | yes p ↦
        let low = h.least i z in
        let high = h.most i z in
        let e = g.refs i p in (omega (arith, low, e), omega (arith, high, e))
    | no p ↦
        let none : w1.refs i ≡ 0 = omega arith in
        let low = h.least i z in
        let high = g.most i none in (omega (arith, low, none, g.least i none), omega (arith, high))
  ]

  more_there : (i : ℕ) → d ≡ i → 0 < w.refs i → 1 < w2.refs d
  more_there i q p =
      let e : w2.refs i ≡ w.refs i + 1 + (if v == i then 1 else 0) =
        ground (arith, both_taken i p, ==-true q) in
      omega (arith, e, ap w2.refs q)

  pub Dropped-Has : Has v 0 w w3
  Dropped-Has = record {
    refs = λ i p. elim (ℕ_discrete d i) [
      | yes q ↦
          let e : w2.refs i ≡ w.refs i + 1 + (if v == i then 1 else 0) =
            ground (arith, both_taken i p, ==-true q) in
          omega (arith, (b.more (more_there i q p)).0, e, ap w2.refs q, ap w3.refs q)
      | no ne ↦ ground (arith, b.refs i (λ e. ne (sym e)), both_taken i p, ne)
    ];
    opens = λ i p. elim (ℕ_discrete d i) [
      | yes q ↦
          sym (ap w3.opens q)
          ∙ (b.more (more_there i q p)).1
          ∙ ap w2.opens q
          ∙ ground (arith, both_opens i p)
      | no ne ↦ ground (arith, b.opens i (λ e. ne (sym e)), both_opens i p)
    ];
    least = λ i z. elim (ℕ_discrete d i) [
      | yes q ↦
          let low : 1 + (if v == i then 1 else 0) ≤ w2.refs i =
            ground (arith, (both_new i z).0, ==-true q) in
          elim (dec_lt 1 (w2.refs d)) [
            | yes p ↦ omega (arith, low, (b.more p).0, ap w2.refs q, ap w3.refs q)
            | no p ↦ omega (arith, low, ap w2.refs q)
          ]
      | no ne ↦ ground (arith, b.refs i (λ e. ne (sym e)), (both_new i z).0, ne)
    ];
    most = λ i z. elim (ℕ_discrete d i) [
      | yes q ↦
          let high : w2.refs i ≤ 1 + (if v == i then 1 else 0) + 1 =
            ground (arith, (both_new i z).1, ==-true q) in
          elim (dec_lt 1 (w2.refs d)) [
            | yes p ↦ omega (arith, high, (b.more p).0, ap w2.refs q, ap w3.refs q)
            | no p ↦ omega (arith, b.last (omega arith), ap w3.refs q)
          ]
      | no ne ↦ ground (arith, b.refs i (λ e. ne (sym e)), (both_new i z).1, ne)
    ];
    opened = omega arith;
  }
