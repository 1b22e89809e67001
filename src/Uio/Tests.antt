-- ===== src/Uio/Tests.antt =====
-- uiomove (kern/lib/uio.c) of six bytes into two kernel blocks of four.
use os161_kernel.Prelude.{ℕ, refl, Bool, false, [], ◌∷◌, arith, min}
use os161_kernel.Copyinout.{Machine}
use os161_kernel.Uio.{Uio, uio_sysspace, uio_read, uiomove}
use os161_kernel.Uio.Move.{IsBalanced, Returns, uiomove_lem}
use os161_kernel.Uio.Kernel.{move_blocks, Transfers, uiomove_kernel}

abbrev machine : Machine
machine = record { mem = λ a. a; badfaultfunc = false }

abbrev bad : ℕ → Bool
bad a = false

abbrev blocks : Uio
blocks = record {
  iov = record { base = 0x80001000; len = 4 } ∷ record { base = 0x80002000; len = 4 } ∷ [];
  iovcnt = 2;
  offset = 0;
  resid = 8;
  segflg = uio_sysspace;
  rw_flag = uio_read;
  space = 0;
}

blocks-IsBalanced : IsBalanced blocks
blocks-IsBalanced = record { resid_total = refl; iovcnt_length = refl; resid_lt = omega arith }

uiomove_lem_example :
    Returns
      (record { ptr = 0x80003000; n = 6; uio = blocks; machine = machine })
      (uiomove bad 9 5 0x80003000 6 blocks machine)
uiomove_lem_example =
    uiomove_lem bad 9 5 0x80003000 6 blocks machine blocks-IsBalanced refl (omega arith)

uiomove_kernel_example :
    Transfers bad
      (record { ptr = 0x80003000; n = 6; uio = blocks; machine = machine })
      (move_blocks uio_read blocks.iov (min 6 8) 0x80003000 machine.mem)
      (uiomove bad 9 5 0x80003000 6 blocks machine)
uiomove_kernel_example =
    uiomove_kernel bad 9 5 0x80003000 6 blocks machine blocks-IsBalanced refl refl (omega arith)
