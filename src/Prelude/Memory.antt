-- ===== src/Prelude/Memory.antt =====
-- Byte memory as a function of the address, and the block copies of the C library.
use os161_kernel.Prelude.Tests.{ltb, leb, ◌==◌, if◌then◌else◌}
use Prim.Native.Nat.{ℕ, ◌+◌, ◌-◌}
use mathlib.Core.Bool.{Bool, ◌&&◌}

abbrev pub Mem : Type 0
Mem = ℕ → ℕ

abbrev pub write : Mem → ℕ → ℕ → Mem
write m p v a = if p == a then v else m a

-- The address `a` lies in the block of `n` bytes at `p`.
abbrev pub within : ℕ → ℕ → ℕ → Bool
within p n a = leb p a && ltb a (p + n)

-- memmove(dst, src, n)
abbrev pub memmove : ℕ → ℕ → ℕ → Mem → Mem
memmove dst src n m a = if within dst n a then m (src + (a - dst)) else m a
