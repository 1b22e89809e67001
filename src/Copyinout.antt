-- ===== src/Copyinout.antt =====
-- kern/vm/copyinout.c: the copies between user and kernel memory.
-- Which user addresses cannot be accessed is the `bad` of the machine: the pages that the VM system
-- cannot supply. A kernel address never faults. The C library's memcpy copies upwards.
pub mod Check
pub mod Block
pub mod Text
mod Tests
use os161_kernel.Prelude.{
  ℕ, zero, suc, ◌+◌, ◌-◌, ◌%◌, ◌^◌, Bool, true, false, Option, none, some, ltb, leb, ◌==◌, ◌&&◌,
  ◌||◌, min, if◌then◌else◌,
}
use os161_kernel.Prelude.Memory.{Mem, write}
use os161_kernel.Prelude.Errno.{Errno, efault, enametoolong, Reply, ok, err}

-- USERSPACETOP, which is MIPS_KSEG0
abbrev pub userspacetop : ℕ
userspacetop = 0x80000000

-- copycheck: `none` is EFAULT, and otherwise the value is stoplen.
pub copycheck : ℕ → ℕ → Option ℕ
copycheck bot len =
    let top = (bot + len + 2 ^ 32 - 1) % 2 ^ 32 in
    if ltb top bot
    then none
    else if leb userspacetop bot
    then none
    else if leb userspacetop top
    then some (userspacetop - bot)
    else some len

-- The memory, and whether tm_badfaultfunc is set to copyfail (or NULL).
pub record Machine : Type 0 where
  pub mem : Mem
  pub badfaultfunc : Bool

-- What a copy comes to: it ends, or an access faults. The memory holds what was copied until then.
pub data Copied {ℓ} (A : Type ℓ) : Type ℓ where
  finished : A → Mem → Copied A
  faulted : Mem → Copied A

-- A copy between the two assignments to tm_badfaultfunc. It is set to copyfail before the copy, so
-- a fault resumes at setjmp, where it is set to NULL again and the failure is returned.
abbrev pub protected {ℓ κ} :
    {A : Type ℓ} {B : Type κ} → (A → B) → B → Machine → Copied A → B × Machine
protected answer failure m (finished a mem) =
    (answer a, record m { mem = mem; badfaultfunc = false })
protected answer failure m (faulted mem) = (failure, record m { mem = mem; badfaultfunc = false })

module _ (bad : ℕ → Bool) where
  abbrev pub faults : ℕ → Bool
  faults a = ltb a userspacetop && bad a

  -- memcpy, up to the first access that faults.
  pub copy_bytes : ℕ → ℕ → ℕ → Mem → Copied (Unit {0})
  copy_bytes zero dst src m = finished tt m
  copy_bytes (suc n) dst src m =
      let rest = copy_bytes n (dst + 1) (src + 1) (write m dst (m src)) in
      if faults src || faults dst then faulted m else rest

  -- The loop of copystr, over the rounds left: the length found, or none at the end of the rounds.
  pub copystr_loop : ℕ → ℕ → ℕ → ℕ → Mem → Copied (Option ℕ)
  copystr_loop zero dst src i m = finished none m
  copystr_loop (suc n) dst src i m =
      let next = write m (dst + i) (m (src + i)) in
      let rest = copystr_loop n dst src (i + 1) next in
      if faults (src + i) || faults (dst + i)
      then faulted m
      else if m (src + i) == 0
      then finished (some (i + 1)) next
      else rest

  -- copystr: the loop runs while i < maxlen and i < stoplen.
  pub copystr : ℕ → ℕ → ℕ → ℕ → Mem → Copied (Reply ℕ)
  unfolding copystr_loop
  copystr dst src maxlen stoplen m = elim (copystr_loop (min maxlen stoplen) dst src 0 m) [
    | finished got m' ↦
        finished
          (elim got [
            | some i ↦ ok i
            | none ↦ if ltb stoplen maxlen then err efault else err enametoolong
          ])
          m'
    | faulted m' ↦ faulted m'
  ]

  pub copyin : ℕ → ℕ → ℕ → Machine → Option Errno × Machine
  unfolding copycheck
  copyin usersrc dest len m = elim (copycheck usersrc len) [
    | none ↦ (some efault, m)
    | some stoplen ↦
        if stoplen == len
        then protected (λ _. none) (some efault) m (copy_bytes len dest usersrc m.mem)
        else (some efault, m)
  ]

  pub copyout : ℕ → ℕ → ℕ → Machine → Option Errno × Machine
  unfolding copycheck
  copyout src userdest len m = elim (copycheck userdest len) [
    | none ↦ (some efault, m)
    | some stoplen ↦
        if stoplen == len
        then protected (λ _. none) (some efault) m (copy_bytes len userdest src m.mem)
        else (some efault, m)
  ]

  -- The value of `ok` is what goes through `actual`.
  pub copyinstr : ℕ → ℕ → ℕ → Machine → Reply ℕ × Machine
  unfolding copycheck
  copyinstr usersrc dest len m = elim (copycheck usersrc len) [
    | none ↦ (err efault, m)
    | some stoplen ↦ protected (λ r. r) (err efault) m (copystr dest usersrc len stoplen m.mem)
  ]

  pub copyoutstr : ℕ → ℕ → ℕ → Machine → Reply ℕ × Machine
  unfolding copycheck
  copyoutstr src userdest len m = elim (copycheck userdest len) [
    | none ↦ (err efault, m)
    | some stoplen ↦ protected (λ r. r) (err efault) m (copystr userdest src len stoplen m.mem)
  ]
