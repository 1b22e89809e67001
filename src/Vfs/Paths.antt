-- ===== src/Vfs/Paths.antt =====
-- The operations on path names (kern/vfs/vfspath.c) that keep no vnode.
use os161_kernel.Prelude.{ℕ, ◌≡◌, Option, some, if◌then◌else◌}
use os161_kernel.Prelude.Errno.{Errno, exdev, Reply, ok, err}
use os161_kernel.Prelude.Outcome.{Outcome, done}
use os161_kernel.Vfs.{Counts, Ops, other_fs}
use os161_kernel.Vfs.References.{Same, Laws}

-- The error of a lookup, or what is done with the vnode found.
pub answer : (ℕ → Option Errno) → Reply ℕ → Option Errno
answer act (err e) = some e
answer act (ok v) = act v

-- The call returns that answer, and no reference is taken.
abbrev pub Balanced : Counts → Option Errno → Outcome (Option Errno × Counts) → Type 0
Balanced w a r = (w' : Counts) × (r ≡ done (a, w')) × Same w w'

module _ {o : Ops} (l : Laws o) where
  -- The answer of an operation on two vnodes.
  abbrev pub both : (ℕ → Option Errno) → ℕ → ℕ → Option Errno
  both act old new = if other_fs o old new then some exdev else act new
