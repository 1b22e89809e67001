-- ===== src/Spinlock/Level.antt =====
-- splraise, spllower and splx (kern/thread/spl.c): raises and lowers that nest.
use os161_kernel.Prelude.{ℕ, ◌+◌, ◌-◌, ◌^◌, ◌<◌, ◌≤◌, ◌≡◌, refl, false, ◌==◌, arith, dec_lt}
use os161_kernel.Prelude.Outcome.{done}
use os161_kernel.Spinlock.{Thread, splraise, spllower, splx}

-- Interrupts are off exactly while the count of raises is not zero, and the thread's own level is
-- among the raises that are counted.
pub record IsValid (t : Thread) : Type 0 where
  pub level : t.curspl ≤ 1
  pub counted : t.curspl ≤ t.iplhigh_count
  pub irq : t.irq_on ≡ (t.iplhigh_count == 0)

-- From a valid state with room in the count, splraise turns interrupts off and stays valid, and the
-- spllower that follows restores the state.
pub spllower-splraise :
    (t : Thread)
    → IsValid t
    → t.iplhigh_count + 1 < 2 ^ 32
    → (u : Thread) × (splraise 0 1 t ≡ done u)
      × (u.irq_on ≡ false)
      × IsValid u
      × (spllower 1 0 u ≡ done t)
unfolding splraise spllower
spllower-splraise t v h = (
  record t { irq_on = false; iplhigh_count = t.iplhigh_count + 1 },
  ground (arith, v.irq),
  refl,
  record { level = v.level; counted = omega (arith, v.counted); irq = ground arith },
  ground (arith, v.irq),
)

-- From a valid state splx to level 0 or 1 never stops, leaves a valid state at that level, and
-- returns the level before; and a splx back to that level restores the state.
pub splx-splx :
    (spl : ℕ) (t : Thread)
    → IsValid t
    → spl ≤ 1
    → t.iplhigh_count + 1 < 2 ^ 32
    → (u : Thread) × (splx spl t ≡ done (t.curspl, u))
      × (u.curspl ≡ spl)
      × IsValid u
      × (splx t.curspl u ≡ done (spl, t))
unfolding splx splraise spllower
splx-splx spl t v hs h = elim (dec_lt t.curspl spl) [
  | yes up ↦ (
    record t { curspl = spl; irq_on = false; iplhigh_count = t.iplhigh_count + 1 },
    ground (arith, v.irq, v.counted),
    refl,
    record { level = hs; counted = omega (arith, v.counted); irq = ground arith },
    ground (arith, v.irq, v.counted),
  )
  | no stay ↦ elim (dec_lt spl t.curspl) [
    | yes down ↦ (
      record t {
        curspl = spl;
        irq_on = (t.iplhigh_count - 1 == 0);
        iplhigh_count = t.iplhigh_count - 1;
      },
      ground (arith, v.irq, v.counted, v.level),
      refl,
      record { level = hs; counted = omega (arith, v.counted); irq = refl },
      ground (arith, v.irq, v.counted, v.level),
    )
    | no same ↦ (t, ground arith, omega arith, v, ground arith)
  ]
]
