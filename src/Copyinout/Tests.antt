-- ===== src/Copyinout/Tests.antt =====
-- The copies of kern/vm/copyinout.c on a small memory, from user address 0x1000 to kernel address
-- 0x80000100, where the page at 0x5000 cannot be accessed.
use os161_kernel.Prelude.{
  ℕ, ◌≤◌, ◌≡◌, refl, Bool, false, Option, none, some, ltb, leb, if◌then◌else◌, ◌&&◌, ◌==◌, arith,
  ap,
}
use os161_kernel.Prelude.Errno.{Errno, efault, ok}
use os161_kernel.Prelude.Memory.{Mem, memmove}
use os161_kernel.Copyinout.{Machine, copycheck, copyin, copyout, copyinstr, copyoutstr}
use os161_kernel.Copyinout.Block.{Mapped, Readable, copyin_lem, copyin-Readable, copyin-zero}
use os161_kernel.Copyinout.Text.{IsText, copyinstr_lem}

abbrev bad : ℕ → Bool
bad a = leb 0x5000 a && ltb a 0x6000

-- The text "hi" at 0x1000, and 7 everywhere else.
abbrev mem : Mem
mem a = if a == 0x1000 then 104 else if a == 0x1001 then 105 else if a == 0x1002 then 0 else 7

abbrev machine : Machine
machine = record { mem = mem; badfaultfunc = false }

abbrev kernel : ℕ
kernel = 0x80000100

low-Mapped : (n : ℕ) → n ≤ 0x4000 → Mapped bad 0x1000 n
low-Mapped n h a lo hi = ground arith

low-Readable : Readable bad 0x1000 3
low-Readable = record {
  some_bytes = omega arith;
  below_top = omega arith;
  mapped = low-Mapped 3 (omega arith);
}

hi-IsText : IsText mem 0x1000 2
hi-IsText = record { body = λ j h. ground arith; terminator = ground arith }

wraps : copycheck 0xfffffff0 0x20 ≡ none
unfolding copycheck
wraps = refl

copyin-zero_example :
    (copyin bad 0x1000 kernel 0 machine ≡ (some efault, machine))
    × (copyout bad kernel 0x1000 0 machine ≡ (some efault, machine))
copyin-zero_example = copyin-zero bad 0x1000 kernel machine (omega arith)

copyinstr_lem_example :
    (IsText mem 0x1000 2
      → copyinstr bad 0x1000 kernel 8 machine
        ≡ (ok 3, record { mem = memmove kernel 0x1000 3 mem; badfaultfunc = false }))
    × (IsText mem kernel 2
        → copyoutstr bad kernel 0x1000 8 machine
          ≡ (ok 3, record { mem = memmove 0x1000 kernel 3 mem; badfaultfunc = false }))
copyinstr_lem_example =
    copyinstr_lem bad 0x1000 kernel 8 machine (omega arith) (omega arith) (omega arith) 2
      (omega arith) (omega arith) (low-Mapped 3 (omega arith))

copyin-Readable_example : Readable bad 0x1000 3
copyin-Readable_example = copyin-Readable bad 0x1000 kernel 3 machine (omega arith) (omega arith) (
    ap (λ (r : Option Errno × Machine). r.0)
      ((copyin_lem bad 0x1000 kernel 3 machine (omega arith) low-Readable).0))
