-- ===== src/Uio.antt =====
-- kern/lib/uio.c and kern/include/uio.h: the transfer between a kernel buffer and the data blocks
-- of a uio. The blocks are the list of the iovecs from uio_iov on.
pub mod Move
pub mod Kernel
mod Tests
use os161_kernel.Prelude.{
  ℕ, zero, suc, ◌+◌, ◌-◌, ◌%◌, ◌^◌, Bool, true, false, Option, none, some, List, [], ◌∷◌, ltb, ◌==◌,
  ◌&&◌, min, if◌then◌else◌,
}
use os161_kernel.Prelude.Outcome.{Outcome, done, panic, spin, exited}
use os161_kernel.Prelude.Memory.{memmove}
use os161_kernel.Prelude.Errno.{Errno}
use os161_kernel.Copyinout.{Machine, copyin, copyout}

-- enum uio_rw
pub data Direction : Type 0 where
  uio_read uio_write : Direction

-- enum uio_seg
pub data Seg : Type 0 where
  uio_userispace uio_userspace uio_sysspace : Seg

pub record Iovec : Type 0 where
  pub base : ℕ
  pub len : ℕ

-- `space` is 0 for NULL. The offset is the 64-bit pattern of an off_t.
pub record Uio : Type 0 where
  pub iov : List Iovec
  pub iovcnt : ℕ
  pub offset : ℕ
  pub resid : ℕ
  pub segflg : Seg
  pub rw_flag : Direction
  pub space : ℕ

abbrev pub is_sys : Seg → Bool
is_sys uio_sysspace = true
is_sys uio_userspace = false
is_sys uio_userispace = false

-- The variables of the loop: the pointer, the bytes left to move, the uio and the memory.
pub record Cursor : Type 0 where
  pub ptr : ℕ
  pub n : ℕ
  pub uio : Uio
  pub machine : Machine

-- One step of the loop, or its end with the value that uiomove returns.
pub data Step : Type 0 where
  again : Cursor → Step
  return : Option Errno → Cursor → Step
  stop : Step

-- After the switch: the base is advanced, and the counts of the iovec and of the uio follow.
abbrev pub advance : Cursor → Iovec → List Iovec → ℕ → Machine → Cursor
advance c v vs size m = record {
  ptr = c.ptr + size;
  n = c.n - size;
  uio = record c.uio {
    iov = record { base = v.base + size; len = v.len - size } ∷ vs;
    resid = (c.uio.resid + 2 ^ 32 - size) % 2 ^ 32;
    offset = (c.uio.offset + size) % 2 ^ 64;
  };
  machine = m;
}

abbrev pub after_transfer : Cursor → Iovec → List Iovec → ℕ → Option Errno × Machine → Step
after_transfer c v vs size (none, m) = again (advance c v vs size m)
after_transfer c v vs size (some e, m) = return (some e) (record c { machine = m })

module _ (bad : ℕ → Bool) where
  -- The switch over uio_segflg: what moving `size` bytes returns, and the memory after it.
  abbrev pub transfer : Seg → Direction → ℕ → ℕ → ℕ → Machine → Option Errno × Machine
  transfer uio_sysspace uio_read base ptr size m =
      (none, record m { mem = memmove base ptr size m.mem })
  transfer uio_sysspace uio_write base ptr size m =
      (none, record m { mem = memmove ptr base size m.mem })
  transfer uio_userspace uio_read base ptr size m = copyout bad ptr base size m
  transfer uio_userspace uio_write base ptr size m = copyin bad base ptr size m
  transfer uio_userispace uio_read base ptr size m = copyout bad ptr base size m
  transfer uio_userispace uio_write base ptr size m = copyin bad base ptr size m

  -- The body of the while loop at the first iovec.
  pub move_first : Cursor → List Iovec → Step
  move_first c [] = stop
  move_first c (v ∷ vs) =
      let size = min v.len c.n in
      if size == 0
      then if c.uio.iovcnt - 1 == 0
        then stop
        else again (record c { uio = record c.uio { iov = vs; iovcnt = c.uio.iovcnt - 1 } })
      else after_transfer c v vs size
          (transfer c.uio.segflg c.uio.rw_flag v.base c.ptr size c.machine)

  abbrev pub move_step : Cursor → Step
  move_step c = if ltb 0 c.n && ltb 0 c.uio.resid then move_first c c.uio.iov else return none c

  -- The loop on fuel; the outer `none` means that the fuel ran out.
  pub move_loop : ℕ → Cursor → Option (Outcome (Option Errno × Cursor))
  unfolding move_first
  move_loop zero c = none
  move_loop (suc fuel) c = elim (move_step c) [
    | again c' ↦ move_loop fuel c'
    | return r c' ↦ some (done (r, c'))
    | stop ↦ some panic
  ]

  -- `curspace` is curthread->t_addrspace.
  pub uiomove : ℕ → ℕ → ℕ → ℕ → Uio → Machine → Option (Outcome (Option Errno × Cursor))
  unfolding move_loop
  uiomove fuel curspace ptr n uio m =
      if (if is_sys uio.segflg then uio.space == 0 else uio.space == curspace)
      then move_loop fuel (record { ptr = ptr; n = n; uio = uio; machine = m })
      else some panic

  -- sizeof(zeros)
  abbrev pub zeros_size : ℕ
  zeros_size = 16

  -- The loop of uiomovezeros, on fuel; `buf` is the address of the static buffer.
  pub zeros_loop : ℕ → ℕ → ℕ → ℕ → Uio → Machine → Option (Outcome (Option Errno × Uio × Machine))
  zeros_loop zero curspace buf n uio m = none
  zeros_loop (suc fuel) curspace buf n uio m =
      let amt = min zeros_size n in
      let next = λ (c : Cursor). zeros_loop fuel curspace buf (n - amt) c.uio c.machine in
      if ltb 0 n
      then elim (uiomove fuel curspace buf amt uio m) [
        | none ↦ none
        | some panic ↦ some panic
        | some spin ↦ some spin
        | some exited ↦ some exited
        | some (done (some e, c)) ↦ some (done (some e, c.uio, c.machine))
        | some (done (none, c)) ↦ next c
      ]
      else some (done (none, uio, m))

  unfoldable pub uiomovezeros :
      ℕ → ℕ → ℕ → ℕ → Uio → Machine → Option (Outcome (Option Errno × Uio × Machine))
  unfolding zeros_loop uiomove
  uiomovezeros fuel curspace buf n uio m = elim uio.rw_flag [
    | uio_read ↦ zeros_loop fuel curspace buf n uio m
    | uio_write ↦ some panic
  ]

-- uio_kinit: the uio and its one iovec.
pub uio_kinit : ℕ → ℕ → ℕ → Direction → Uio
uio_kinit kbuf len pos rw_flag = record {
  iov = record { base = kbuf; len = len } ∷ [];
  iovcnt = 1;
  offset = pos;
  resid = len;
  segflg = uio_sysspace;
  rw_flag = rw_flag;
  space = 0;
}
