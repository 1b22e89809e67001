-- ===== src/Uio/Kernel.antt =====
-- uiomove on kernel buffers (kern/lib/uio.c): which bytes go where; uio_kinit.
use os161_kernel.Prelude.{
  Bool, false, true, ◌&&◌, ltb, ◌%◌, ℕ, zero, suc, ◌+◌, ◌-◌, ◌^◌, ◌≤◌, ◌<◌, ◌≡◌, refl, sym, ap, ◌∙◌,
  Option, none, some, List, [], ◌∷◌, ◌==◌, ==-true, ==-false, min, if◌then◌else◌, length, arith,
  ℕ_discrete, dec_lt, lt→ltb,
}
use os161_kernel.Prelude.Outcome.{Outcome, done}
use os161_kernel.Prelude.Errno.{Errno}
use os161_kernel.Prelude.Memory.{Mem, memmove}
use os161_kernel.Copyinout.Block.{memmove-zero}
use os161_kernel.Copyinout.{Machine}
use os161_kernel.Uio.Move.{total, IsBalanced, Moves, Moves-trans, Good, move_step-Good}
use os161_kernel.Uio.{
  Uio, Iovec, Cursor, Step, again, return, stop, Seg, uio_sysspace, uio_userspace, uio_userispace,
  transfer, is_sys, Direction, uio_read, uio_write, advance, move_first, move_step, move_loop,
  uiomove, uio_kinit,
}

-- Moving `k` bytes between a block and the buffer.
abbrev pub move_block : Direction → ℕ → ℕ → ℕ → Mem → Mem
move_block uio_read base ptr k m = memmove base ptr k m
move_block uio_write base ptr k m = memmove ptr base k m

-- The reference: `t` bytes of the buffer, block by block.
abbrev pub move_blocks : Direction → List Iovec → ℕ → ℕ → Mem → Mem
move_blocks d [] t ptr m = m
move_blocks d (v ∷ vs) t ptr m =
    let k = min v.len t in move_blocks d vs (t - k) (ptr + k) (move_block d v.base ptr k m)

move_block-zero : (d : Direction) (base ptr : ℕ) (m : Mem) → move_block d base ptr 0 m ≡ m
move_block-zero uio_read base ptr m = memmove-zero base ptr m
move_block-zero uio_write base ptr m = memmove-zero ptr base m

move_blocks-skip :
    (d : Direction) (v : Iovec) (vs : List Iovec) (t ptr : ℕ) (m : Mem)
    → min v.len t ≡ 0
    → move_blocks d (v ∷ vs) t ptr m ≡ move_blocks d vs t ptr m
move_blocks-skip d v vs t ptr m z =
    let p : ptr + 0 ≡ ptr = omega arith in
    let t' : t - 0 ≡ t = omega arith in rw (z, move_block-zero d v.base ptr m, p, t')

move_blocks-nothing :
    (d : Direction) (vs : List Iovec) (ptr : ℕ) (m : Mem) → move_blocks d vs 0 ptr m ≡ m
move_blocks-nothing d [] ptr m = refl
move_blocks-nothing d (v ∷ vs) ptr m =
    move_blocks-skip d v vs 0 ptr m (omega arith) ∙ move_blocks-nothing d vs ptr m

-- A block that was moved whole, or up to the last byte asked for, has nothing left to move.
move_blocks-advance :
    (d : Direction) (v : Iovec) (vs : List Iovec) (t ptr : ℕ) (m : Mem) (k : ℕ)
    → k ≡ min v.len t
    → move_blocks d
        (record { base = v.base + k; len = v.len - k } ∷ vs)
        (t - k)
        (ptr + k)
        (move_block d v.base ptr k m)
      ≡ move_blocks d (v ∷ vs) t ptr m
move_blocks-advance d v vs t ptr m k e =
    move_blocks-skip d (record { base = v.base + k; len = v.len - k }) vs (t - k) (ptr + k)
      (move_block d v.base ptr k m) (omega arith)
    ∙ ap (λ j. move_blocks d vs (t - j) (ptr + j) (move_block d v.base ptr j m)) e

-- The memory that the run from `c` is to leave.
abbrev Target : Cursor → Mem
Target c = move_blocks c.uio.rw_flag c.uio.iov (min c.n c.uio.resid) c.ptr c.machine.mem

-- A step of a transfer to or from kernel buffers keeps the target, and the last one reaches it.
Keeps : Cursor → Step → Type 0
Keeps c (again c') =
    (Target c' ≡ Target c)
    × (c'.uio.segflg ≡ uio_sysspace)
    × (c'.machine.badfaultfunc ≡ c.machine.badfaultfunc)
Keeps c (return none c') =
    (c'.machine.mem ≡ Target c) × (c'.machine.badfaultfunc ≡ c.machine.badfaultfunc)
Keeps c (return (some e) c') = ⊥
Keeps c stop = Unit

advance-Keeps :
    (c : Cursor) (v : Iovec) (vs : List Iovec) (k : ℕ)
    → IsBalanced c.uio
    → c.uio.iov ≡ v ∷ vs
    → c.uio.segflg ≡ uio_sysspace
    → k ≡ min v.len c.n
    → Keeps c (
        again (
          advance c v vs k
            (record c.machine { mem = move_block c.uio.rw_flag v.base c.ptr k c.machine.mem })))
unfolding Keeps
advance-Keeps c v vs k b e es ek =
    let d = c.uio.rw_flag in
    let moved = move_block d v.base c.ptr k c.machine.mem in
    let rest = record { base = v.base + k; len = v.len - k } ∷ vs in
    let t : min (c.n - k) ((c.uio.resid + 2 ^ 32 - k) % 2 ^ 32) ≡ min c.n c.uio.resid - k =
      omega (arith, ap total e, b.resid_total) in
    (
      ap (λ j. move_blocks d rest j (c.ptr + k) moved) t
          ∙ move_blocks-advance d v vs (min c.n c.uio.resid) c.ptr c.machine.mem k
              (omega (arith, ap total e, b.resid_total))
          ∙ ap (λ l. move_blocks d l (min c.n c.uio.resid) c.ptr c.machine.mem) (sym e),
      es,
      refl,
    )

pop-Keeps :
    (c : Cursor) (v : Iovec) (vs : List Iovec)
    → IsBalanced c.uio
    → c.uio.iov ≡ v ∷ vs
    → c.uio.segflg ≡ uio_sysspace
    → min v.len c.n ≡ 0
    → Keeps c (
        if c.uio.iovcnt - 1 == 0
        then stop
        else again (record c { uio = record c.uio { iov = vs; iovcnt = c.uio.iovcnt - 1 } }))
unfolding Keeps
pop-Keeps c v vs b e es z = elim (ℕ_discrete (c.uio.iovcnt - 1) 0) [
  | yes last ↦ rw (==-true last) tt
  | no more ↦ rw (==-false more) (
    sym (
          move_blocks-skip c.uio.rw_flag v vs (min c.n c.uio.resid) c.ptr c.machine.mem
            (omega arith))
        ∙ ap (λ l. move_blocks c.uio.rw_flag l (min c.n c.uio.resid) c.ptr c.machine.mem) (sym e),
    es,
    refl,
  )
]

module _ (bad : ℕ → Bool) where
  transfer-sys :
      (s : Seg) (d : Direction) (base ptr size : ℕ) (m : Machine)
      → s ≡ uio_sysspace
      → transfer bad s d base ptr size m
        ≡ (none, record m { mem = move_block d base ptr size m.mem })
  transfer-sys uio_sysspace uio_read base ptr size m e = refl
  transfer-sys uio_sysspace uio_write base ptr size m e = refl
  transfer-sys uio_userspace d base ptr size m e = cc
  transfer-sys uio_userispace d base ptr size m e = cc

  move_first-Keeps :
      (c : Cursor) (iov : List Iovec)
      → c.uio.iov ≡ iov
      → c.uio.segflg ≡ uio_sysspace
      → IsBalanced c.uio
      → Keeps c (move_first bad c iov)
  unfolding Keeps move_first
  move_first-Keeps c [] e es b = tt
  move_first-Keeps c (v ∷ vs) e es b = elim (ℕ_discrete (min v.len c.n) 0) [
    | yes z ↦ rw (==-true z) (pop-Keeps c v vs b e es z)
    | no ne ↦
        rw
          (
            ==-false ne,
            transfer-sys c.uio.segflg c.uio.rw_flag v.base c.ptr (min v.len c.n) c.machine es,
          )
          (advance-Keeps c v vs (min v.len c.n) b e es refl)
  ]

  move_step-Keeps :
      (c : Cursor) → c.uio.segflg ≡ uio_sysspace → IsBalanced c.uio → Keeps c (move_step bad c)
  unfolding Keeps
  move_step-Keeps c es b = elim (dec_lt 0 (min c.n c.uio.resid)) [
    | yes h ↦
        rw (lt→ltb 0 c.n (omega arith), lt→ltb 0 c.uio.resid (omega arith))
          (move_first-Keeps c c.uio.iov refl es b)
    | no out ↦ rw (end out) (
      sym (
          ap (λ t. move_blocks c.uio.rw_flag c.uio.iov t c.ptr c.machine.mem) (none_left out)
          ∙ move_blocks-nothing c.uio.rw_flag c.uio.iov c.ptr c.machine.mem),
      refl,
    )
  ]
    where
      end : ¬ (0 < min c.n c.uio.resid) → (ltb 0 c.n && ltb 0 c.uio.resid) ≡ false
      end out = ground arith

      none_left : ¬ (0 < min c.n c.uio.resid) → min c.n c.uio.resid ≡ 0
      none_left out = omega arith

  -- A run that ends well, with the memory that is meant.
  pub record Transfers (c : Cursor) (mem : Mem) (o : Option (Outcome (Option Errno × Cursor)))
      : Type 0 where
    pub final : Cursor
    pub returned : o ≡ some (done (none, final))
    pub memory : final.machine.mem ≡ mem
    pub badfaultfunc : final.machine.badfaultfunc ≡ c.machine.badfaultfunc
    pub moves : Moves c final

  move_loop-Transfers :
      (fuel : ℕ) (c : Cursor)
      → c.uio.segflg ≡ uio_sysspace
      → IsBalanced c.uio
      → length c.uio.iov + c.n < fuel
      → Transfers c (Target c) (move_loop bad fuel c)
  unfolding move_loop Keeps Good
  move_loop-Transfers zero c es b h = elim h [ ]
  move_loop-Transfers (suc fuel) c es b h =
      go (move_step bad c) refl (move_step-Keeps c es b) (move_step-Good bad c b)
        (move_loop-Transfers fuel)
    where
      go :
          (s : Step)
          → move_step bad c ≡ s
          → Keeps c s
          → Good c s
          → ((c' : Cursor)
              → c'.uio.segflg ≡ uio_sysspace
              → IsBalanced c'.uio
              → length c'.uio.iov + c'.n < fuel
              → Transfers c' (Target c') (move_loop bad fuel c'))
          → Transfers c (Target c) (move_loop bad (suc fuel) c)
      go (again c') e k g ih =
          let r = ih c' k.1 g.0.balanced (omega (arith, g.1)) in
          rw (e, move_loop)
            (record {
              final = r.final;
              returned = r.returned;
              memory = r.memory ∙ k.0;
              badfaultfunc = r.badfaultfunc ∙ k.2;
              moves = Moves-trans g.0 r.moves;
            })
      go (return none c') e k g ih =
          rw (e, move_loop)
            (record { final = c'; returned = refl; memory = k.0; badfaultfunc = k.1; moves = g.0 })
      go (return (some e') c') e k g ih = absurd k
      go stop e k g ih = absurd g

  -- On a balanced uio of kernel buffers uiomove succeeds, and moves `min n uio_resid` bytes between
  -- the buffer and the blocks, block after block, each block being a memmove in the direction of
  -- uio_rw; nothing else in memory changes.
  pub uiomove_kernel :
      (fuel curspace ptr n : ℕ) (u : Uio) (m : Machine)
      → IsBalanced u
      → u.segflg ≡ uio_sysspace
      → u.space ≡ 0
      → length u.iov + n < fuel
      → Transfers
          (record { ptr = ptr; n = n; uio = u; machine = m })
          (move_blocks u.rw_flag u.iov (min n u.resid) ptr m.mem)
          (uiomove bad fuel curspace ptr n u m)
  unfolding uiomove
  uiomove_kernel fuel curspace ptr n u m b es ez h =
      let ctx : (if is_sys u.segflg then u.space == 0 else u.space == curspace) ≡ true =
        rw es (==-true ez) in
      rw ctx (move_loop-Transfers fuel _ es b h)

  -- The uio that uio_kinit makes is balanced; a read of at most `len` bytes into it copies them from
  -- the start of the buffer, and a write out of it copies them from the start of the block.
  pub uio_kinit-uiomove :
      (curspace ptr n kbuf len pos : ℕ) (d : Direction) (m : Machine)
      → len < 2 ^ 32
      → n ≤ len
      → IsBalanced (uio_kinit kbuf len pos d)
        × Transfers
            (record { ptr = ptr; n = n; uio = uio_kinit kbuf len pos d; machine = m })
            (move_block d kbuf ptr n m.mem)
            (uiomove bad (n + 2) curspace ptr n (uio_kinit kbuf len pos d) m)
  unfolding uio_kinit
  uio_kinit-uiomove curspace ptr n kbuf len pos d m small h =
      let u = uio_kinit kbuf len pos d in
      let b : IsBalanced u = omega arith in
      let e : min n len ≡ n = omega arith in
      let e' : min len n ≡ n = omega arith in
      (b, rw (e, e') at (uiomove_kernel (n + 2) curspace ptr n u m b refl refl (omega arith)))
