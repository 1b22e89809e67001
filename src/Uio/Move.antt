-- ===== src/Uio/Move.antt =====
-- uiomove (kern/lib/uio.c): it ends, it does not run out of buffers, and what it does to the counts.
use os161_kernel.Prelude.{
  ℕ, zero, suc, ◌+◌, ◌-◌, ◌%◌, ◌^◌, ◌≤◌, ◌<◌, ◌≡◌, refl, ◌≢◌, Bool, true, Option, none, some, List,
  [], ◌∷◌, ◌==◌, ==-false, min, if◌then◌else◌, length, arith, ap, ◌∙◌, ℕ_discrete, dec_lt, lt→ltb,
  le→ltb-false,
}
use os161_kernel.Prelude.Outcome.{Outcome, done}
use os161_kernel.Prelude.Errno.{Errno}
use os161_kernel.Copyinout.{Machine}
use os161_kernel.Uio.{
  Uio, Iovec, Cursor, Step, again, return, stop, transfer, after_transfer, is_sys, move_first,
  move_step, move_loop, uiomove,
}

-- The room in the data blocks.
abbrev pub total : List Iovec → ℕ
total [] = 0
total (v ∷ vs) = v.len + total vs

-- uio_resid is the room in the blocks, and uio_iovcnt their number, as uio.h asks.
pub record IsBalanced (u : Uio) : Type 0 where
  pub resid_total : u.resid ≡ total u.iov
  pub iovcnt_length : u.iovcnt ≡ length u.iov
  pub resid_lt : u.resid < 2 ^ 32

-- What a run from `c` to `c'` did to the counts, when it moved `c.n - c'.n` bytes.
pub record Moves (c c' : Cursor) : Type 0 where
  pub left : c'.n ≤ c.n
  pub pointer : c'.ptr + c'.n ≡ c.ptr + c.n
  pub resid : c'.uio.resid + c.n ≡ c.uio.resid + c'.n
  pub offset : (c'.uio.offset + c'.n) % 2 ^ 64 ≡ (c.uio.offset + c.n) % 2 ^ 64
  pub segflg : c'.uio.segflg ≡ c.uio.segflg
  pub rw_flag : c'.uio.rw_flag ≡ c.uio.rw_flag
  pub space : c'.uio.space ≡ c.uio.space
  pub balanced : IsBalanced c'.uio

-- The uio is meant for the address space in context.
abbrev pub IsInContext : ℕ → Uio → Type 0
IsInContext curspace u = (if is_sys u.segflg then u.space == 0 else u.space == curspace) ≡ true

-- What a step does from a balanced uio.
unfoldable pub Good : Cursor → Step → Type 0
Good c (again c') = Moves c c' × (length c'.uio.iov + c'.n < length c.uio.iov + c.n)
Good c (return none c') = Moves c c' × (c'.n ≡ c.n - min c.n c.uio.resid)
Good c (return (some e) c') = Moves c c'
Good c stop = ⊥

after_transfer-Good :
    (c : Cursor) (v : Iovec) (vs : List Iovec) (t : Option Errno × Machine)
    → IsBalanced c.uio
    → c.uio.iov ≡ v ∷ vs
    → min v.len c.n ≢ 0
    → Good c (after_transfer c v vs (min v.len c.n) t)
unfolding Good
after_transfer-Good c v vs (none, m) b e h = (
  record {
    left = ground arith;
    pointer = ground arith;
    resid = ground (arith, b.resid_total, ap total e);
    offset = ground arith;
    segflg = refl;
    rw_flag = refl;
    space = refl;
    balanced = ground (arith, ap total e, ap length e);
  },
  ground (arith, ap length e),
)
after_transfer-Good c v vs (some e', m) b e h = ground arith

-- A run of the loop that returned, in `c'`.
pub record Returns (c : Cursor) (o : Option (Outcome (Option Errno × Cursor))) : Type 0 where
  pub result : Option Errno
  pub final : Cursor
  pub returned : o ≡ some (done (result, final))
  pub moves : Moves c final
  pub complete : result ≡ none → final.n ≡ c.n - min c.n c.uio.resid

Moves-refl : (c : Cursor) → IsBalanced c.uio → Moves c c
Moves-refl c b = record {
  left = omega arith;
  pointer = refl;
  resid = refl;
  offset = refl;
  segflg = refl;
  rw_flag = refl;
  space = refl;
  balanced = b;
}

pub Moves-trans : {c d e : Cursor} → Moves c d → Moves d e → Moves c e
Moves-trans p q = record {
  left = omega arith;
  pointer = omega (arith, p.pointer, q.pointer);
  resid = omega (arith, p.resid, q.resid, p.left, q.left);
  offset = omega (arith, p.offset, q.offset, p.left, q.left);
  segflg = q.segflg ∙ p.segflg;
  rw_flag = q.rw_flag ∙ p.rw_flag;
  space = q.space ∙ p.space;
  balanced = q.balanced;
}

pop-Good :
    (c : Cursor) (v : Iovec) (vs : List Iovec)
    → c.uio.iov ≡ v ∷ vs
    → IsBalanced c.uio
    → 0 < c.n
    → 0 < c.uio.resid
    → min v.len c.n ≡ 0
    → Good c (
        if c.uio.iovcnt - 1 == 0
        then stop
        else again (record c { uio = record c.uio { iov = vs; iovcnt = c.uio.iovcnt - 1 } }))
unfolding Good
pop-Good c v [] e b hn hr z = absurd (omega (arith, ap total e, b.resid_total))
pop-Good c v (v' ∷ vs) e b hn hr z =
    let more : c.uio.iovcnt - 1 ≢ 0 = omega (arith, ap length e, b.iovcnt_length) in
    rw (==-false more) (
      record {
        left = omega arith;
        pointer = refl;
        resid = refl;
        offset = refl;
        segflg = refl;
        rw_flag = refl;
        space = refl;
        balanced = omega (arith, ap total e, ap length e, b);
      },
      omega (arith, ap length e),
    )

module _ (bad : ℕ → Bool) where
  move_first-Good :
      (c : Cursor) (iov : List Iovec)
      → c.uio.iov ≡ iov
      → IsBalanced c.uio
      → 0 < c.n
      → 0 < c.uio.resid
      → Good c (move_first bad c iov)
  unfolding Good move_first
  move_first-Good c [] e b hn hr = ground (arith, ap total e, b.resid_total)
  move_first-Good c (v ∷ vs) e b hn hr = elim (ℕ_discrete (min v.len c.n) 0) [
    | no ne ↦ rw (==-false ne) (
        after_transfer-Good c v vs
          (transfer bad c.uio.segflg c.uio.rw_flag v.base c.ptr (min v.len c.n) c.machine) b e ne)
    | yes z ↦ rw z (pop-Good c v vs e b hn hr z)
  ]

  pub move_step-Good : (c : Cursor) → IsBalanced c.uio → Good c (move_step bad c)
  unfolding Good
  move_step-Good c b = elim (dec_lt 0 c.n) [
    | no out ↦ rw (le→ltb-false out) (Moves-refl c b, omega arith)
    | yes hn ↦ elim (dec_lt 0 c.uio.resid) [
      | no out ↦ rw (lt→ltb 0 c.n hn, le→ltb-false out) (Moves-refl c b, omega arith)
      | yes hr ↦
          rw (lt→ltb 0 c.n hn, lt→ltb 0 c.uio.resid hr) (move_first-Good c c.uio.iov refl b hn hr)
    ]
  ]

  extend :
      {c c' : Cursor} {o : Option (Outcome (Option Errno × Cursor))}
      → Moves c c'
      → Returns c' o
      → Returns c o
  extend p r = record {
    result = r.result;
    final = r.final;
    returned = r.returned;
    moves = Moves-trans p r.moves;
    complete = λ e. omega (arith, r.complete e, p.resid, p.left);
  }

  move_loop-Returns :
      (fuel : ℕ) (c : Cursor)
      → IsBalanced c.uio
      → length c.uio.iov + c.n < fuel
      → Returns c (move_loop bad fuel c)
  unfolding move_loop Good
  move_loop-Returns zero c b h = elim h [ ]
  move_loop-Returns (suc fuel) c b h =
      go (move_step bad c) refl (move_step-Good c b) (move_loop-Returns fuel)
    where
      go :
          (s : Step)
          → move_step bad c ≡ s
          → Good c s
          → ((c' : Cursor)
              → IsBalanced c'.uio
              → length c'.uio.iov + c'.n < fuel
              → Returns c' (move_loop bad fuel c'))
          → Returns c (move_loop bad (suc fuel) c)
      go (again c') e g ih =
          rw (e, move_loop) (extend g.0 (ih c' g.0.balanced (omega (arith, g.1))))
      go (return none c') e g ih =
          rw (e, move_loop)
            (record {
              result = none;
              final = c';
              returned = refl;
              moves = g.0;
              complete = λ _. g.1;
            })
      go (return (some e') c') e g ih =
          rw (e, move_loop)
            (record {
              result = some e';
              final = c';
              returned = refl;
              moves = g;
              complete = λ p. cc;
            })
      go stop e g ih = absurd g

  -- On a balanced uio for the address space in context, uiomove returns: it ends within
  -- `length iov + n + 1` rounds and does not run out of buffers. The pointer, uio_offset and
  -- uio_resid move by the bytes moved, on errors too; uio_segflg, uio_rw and uio_space stay, and
  -- the uio is balanced again. If it returns 0, it moved as many bytes as asked and left.
  pub uiomove_lem :
      (fuel curspace ptr n : ℕ) (u : Uio) (m : Machine)
      → IsBalanced u
      → IsInContext curspace u
      → length u.iov + n < fuel
      → Returns
          (record { ptr = ptr; n = n; uio = u; machine = m })
          (uiomove bad fuel curspace ptr n u m)
  unfolding uiomove
  uiomove_lem fuel curspace ptr n u m b ctx h = rw ctx (move_loop-Returns fuel _ b h)
