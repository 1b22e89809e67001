-- ===== src/Libc.antt =====
-- The memory and string functions that the kernel and its programs share (common/libc/string). The
-- memory is one byte by address; a `long` is four bytes, and an assignment of one is an assignment of
-- its bytes. The loops over strings run on fuel; they end at the terminator.
pub mod Blocks
pub mod Text
mod Tests
use os161_kernel.Prelude.{
  ℕ, zero, suc, ◌+◌, ◌-◌, ◌*◌, ◌/◌, ◌%◌, Bool, true, false, ltb, ◌==◌, ◌&&◌, not, Option, none,
  some, if◌then◌else◌,
}
use os161_kernel.Prelude.Memory.{Mem, write, within}
use os161_kernel.Prelude.Outcome.{Outcome, done, spin, ◌>>=◌}

-- d[i] = s[i] for elements of `w` bytes, of the arrays at `dst` and `src`.
abbrev pub assign : ℕ → ℕ → ℕ → ℕ → Mem → Mem
assign w i dst src m a =
    if within (dst + i * w) w a then m (src + i * w + (a - (dst + i * w))) else m a

-- The loops of memcpy from index `i` on, over the rounds left.
pub copy_up : ℕ → ℕ → ℕ → ℕ → ℕ → Mem → Mem
copy_up w zero i dst src m = m
copy_up w (suc n) i dst src m = copy_up w n (i + 1) dst src (assign w i dst src m)

-- The loops of memmove: `i` goes down, and index i - 1 is copied.
pub copy_down : ℕ → ℕ → ℕ → ℕ → Mem → Mem
copy_down w zero dst src m = m
copy_down w (suc i) dst src m = copy_down w i dst src (assign w i dst src m)

abbrev aligned : ℕ → ℕ → ℕ → Bool
aligned dst src len = (dst % 4 == 0) && (src % 4 == 0) && (len % 4 == 0)

pub memcpy : ℕ → ℕ → ℕ → Mem → Mem
unfolding copy_up
memcpy dst src len m =
    if aligned dst src len then copy_up 4 (len / 4) 0 dst src m else copy_up 1 len 0 dst src m

pub memmove : ℕ → ℕ → ℕ → Mem → Mem
unfolding memcpy copy_down
memmove dst src len m =
    if ltb dst src
    then memcpy dst src len m
    else (if aligned dst src len
        then copy_down 4 (len / 4) dst src m
        else copy_down 1 len dst src m)

-- The loops of bzero.
pub zero_up : ℕ → ℕ → ℕ → ℕ → Mem → Mem
zero_up w zero i block m = m
zero_up w (suc n) i block m =
    zero_up w n (i + 1) block (λ a. if within (block + i * w) w a then 0 else m a)

pub bzero : ℕ → ℕ → Mem → Mem
unfolding zero_up
bzero block len m =
    if (block % 4 == 0) && (len % 4 == 0)
    then zero_up 4 (len / 4) 0 block m
    else zero_up 1 len 0 block m

-- strlen, from index `ret` on.
pub strlen_loop : ℕ → ℕ → ℕ → Mem → Outcome ℕ
strlen_loop zero ret str m = spin
strlen_loop (suc n) ret str m =
    let rest = strlen_loop n (ret + 1) str m in if m (str + ret) == 0 then done ret else rest

abbrev pub strlen : ℕ → ℕ → Mem → Outcome ℕ
strlen fuel str m = strlen_loop fuel 0 str m

-- strcpy, from index `i` on.
pub strcpy_loop : ℕ → ℕ → ℕ → ℕ → Mem → Outcome Mem
strcpy_loop zero i dest src m = spin
strcpy_loop (suc n) i dest src m =
    let rest = strcpy_loop n (i + 1) dest src (write m (dest + i) (m (src + i))) in
    if m (src + i) == 0 then done (write m (dest + i) 0) else rest

abbrev pub strcpy : ℕ → ℕ → ℕ → Mem → Outcome Mem
strcpy fuel dest src m = strcpy_loop fuel 0 dest src m

pub strcat : ℕ → ℕ → ℕ → Mem → Outcome Mem
unfolding strlen_loop strcpy_loop
strcat fuel dest src m = do offset ← strlen fuel dest m; strcpy fuel (dest + offset) src m

-- strcmp, from index `i` on. The result -1 is the int of all ones.
pub strcmp_loop : ℕ → ℕ → ℕ → ℕ → Mem → Outcome ℕ
strcmp_loop zero i a b m = spin
strcmp_loop (suc n) i a b m =
    let rest = strcmp_loop n (i + 1) a b m in
    if not (m (a + i) == 0) && (m (a + i) == m (b + i))
    then rest
    else (if ltb (m (b + i)) (m (a + i))
        then done 1
        else (if m (a + i) == m (b + i) then done 0 else done 0xffffffff))

abbrev pub strcmp : ℕ → ℕ → ℕ → Mem → Outcome ℕ
strcmp fuel a b m = strcmp_loop fuel 0 a b m

-- The loop of strchr, and what follows it; NULL is none.
pub strchr_loop : ℕ → ℕ → ℕ → Mem → Outcome (Option ℕ)
strchr_loop zero s ch m = spin
strchr_loop (suc n) s ch m =
    let rest = strchr_loop n (s + 1) ch m in
    if m s == 0
    then (if m s == ch then done (some s) else done none)
    else (if m s == ch then done (some s) else rest)

-- The character is the int as a char.
abbrev pub strchr : ℕ → ℕ → ℕ → Mem → Outcome (Option ℕ)
strchr fuel s ch_arg m = strchr_loop fuel s (ch_arg % 256) m

-- strrchr: the loop at index `i` and below.
pub strrchr_loop : ℕ → ℕ → ℕ → Mem → Option ℕ
strrchr_loop zero s ch m = none
strrchr_loop (suc i) s ch m =
    let rest = strrchr_loop i s ch m in if m (s + i) == ch then some (s + i) else rest

pub strrchr : ℕ → ℕ → ℕ → Mem → Outcome (Option ℕ)
unfolding strlen_loop strrchr_loop
strrchr fuel s ch_arg m = strlen fuel s m >>= λ n. done (strrchr_loop (n + 1) s (ch_arg % 256) m)
