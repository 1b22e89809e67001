-- ===== src/Copyinout/Check.antt =====
-- copycheck (kern/vm/copyinout.c): which user regions it lets through.
use os161_kernel.Prelude.{
  ℕ, ◌+◌, ◌-◌, ◌^◌, ◌<◌, ◌≡◌, none, some, min, ltb, leb, if◌then◌else◌, ◌||◌, arith,
}
use os161_kernel.Copyinout.{copycheck, userspacetop}

-- A region of at least one byte is refused exactly when it wraps round the address space or starts
-- in the kernel; otherwise stoplen is what of it lies below USERSPACETOP.
pub copycheck_lem :
    (bot len : ℕ)
    → bot < 2 ^ 32
    → len < 2 ^ 32
    → 0 < len
    → copycheck bot len ≡ (
        if ltb (2 ^ 32) (bot + len) || leb userspacetop bot
        then none
        else some (min len (userspacetop - bot)))
unfolding copycheck
copycheck_lem bot len hb hl h = ground arith

-- Of an empty region nothing is let through but the one at address 0, for which stoplen is the
-- whole of user space.
pub copycheck-empty :
    (bot : ℕ) → bot < 2 ^ 32 → copycheck bot 0 ≡ (if ltb 0 bot then none else some userspacetop)
unfolding copycheck
copycheck-empty bot hb = ground arith
