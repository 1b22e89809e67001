-- ===== src/Libc/Blocks.antt =====
-- memcpy, memmove and bzero (common/libc/string) against a block copy that reads all before it writes.
use os161_kernel.Prelude.{
  ℕ, zero, suc, ◌+◌, ◌-◌, ◌*◌, ◌/◌, ◌%◌, ◌≤◌, ◌≡◌, sym, ap, ◌∙◌, false, ltb, leb, ◌==◌, ◌&&◌,
  if◌then◌else◌, arith, Bool-cases, inl, inr,
}
use mathlib.Core.Path.{fun_ext}
use native.Mathlib.Nat.{suc-mul}
use os161_kernel.Prelude.Memory.{Mem, within}
use os161_kernel.Libc.{assign, copy_up, copy_down, memcpy, memmove, zero_up, bzero}

-- The block of `n` bytes at `src`, in the memory `m`, put at `dst` at once.
abbrev pub moved : ℕ → ℕ → ℕ → Mem → Mem
moved dst src n m a = if leb dst a && ltb a (dst + n) then m (src + (a - dst)) else m a

-- One assignment of `w` bytes, `k` bytes into the block.
abbrev assigned : ℕ → ℕ → ℕ → ℕ → Mem → Mem
assigned w k dst src m a = if within (dst + k) w a then m (src + k + (a - (dst + k))) else m a

module _ (dst src w k r : ℕ) (m : Mem) (a : ℕ) where
  -- The next assignments upwards are not disturbed by it when `dst` is not above `src`.
  up_step :
      dst ≤ src
      → moved (dst + (k + w)) (src + (k + w)) r (assigned w k dst src m) a
        ≡ moved (dst + k) (src + k) (r + w) m a
  up_step h = elim (Bool-cases (ltb a (dst + (k + w)))) [
    | inl t ↦ ground (arith, t)
    | inr f ↦
        let x = src + (k + w) + (a - (dst + (k + w))) in
        let same : x ≡ src + k + (a - (dst + k)) = ground (arith, f) in
        let above : ltb x (dst + k + w) ≡ false = ground (arith, f) in
        let m_same : m x ≡ m (src + k + (a - (dst + k))) = ap m same in
        ground (arith, f, above, m_same)
  ]

  -- Nor those downwards when it is not below.
  down_step : src ≤ dst → moved dst src k (assigned w k dst src m) a ≡ moved dst src (k + w) m a
  down_step h = elim (Bool-cases (ltb a (dst + k))) [
    | inl t ↦ elim (Bool-cases (leb dst a)) [
      | inl low ↦
          let below : leb (dst + k) (src + (a - dst)) ≡ false = ground (arith, t, low) in
          ground (arith, t, below, low)
      | inr low ↦ ground (arith, t, low)
    ]
    | inr f ↦
        let m_same : m (src + k + (a - (dst + k))) ≡ m (src + (a - dst)) =
          ap m (ground (arith, f)) in
        ground (arith, f, m_same)
  ]

copy_up-moved :
    (w n i dst src : ℕ) (m : Mem) (a : ℕ)
    → dst ≤ src
    → copy_up w n i dst src m a ≡ moved (dst + i * w) (src + i * w) (n * w) m a
unfolding copy_up
copy_up-moved w zero i dst src m a h = ground arith
copy_up-moved w (suc n) i dst src m a h =
    let next : (i + 1) * w ≡ i * w + w = ap (λ k. k * w) (omega arith) ∙ suc-mul i w in
    copy_up-moved w n (i + 1) dst src (assign w i dst src m) a h
    ∙ ap (λ k. moved (dst + k) (src + k) (n * w) (assign w i dst src m) a) next
    ∙ up_step dst src w (i * w) (n * w) m a h
    ∙ ap (λ k. moved (dst + i * w) (src + i * w) k m a) (sym (suc-mul n w))

copy_down-moved :
    (w n dst src : ℕ) (m : Mem) (a : ℕ)
    → src ≤ dst
    → copy_down w n dst src m a ≡ moved dst src (n * w) m a
unfolding copy_down
copy_down-moved w zero dst src m a h = ground arith
copy_down-moved w (suc n) dst src m a h =
    copy_down-moved w n dst src (assign w n dst src m) a h
    ∙ down_step dst src w (n * w) 0 m a h
    ∙ ap (λ k. moved dst src k m a) (sym (suc-mul n w))

up_all :
    (w n dst src : ℕ) (m : Mem) (a : ℕ)
    → dst ≤ src
    → copy_up w n 0 dst src m a ≡ moved dst src (n * w) m a
up_all w n dst src m a h =
    let zero_first : (x : ℕ) → x + 0 * w ≡ x = λ x. omega arith in
    copy_up-moved w n 0 dst src m a h
    ∙ ap (λ d. moved d (src + 0 * w) (n * w) m a) (zero_first dst)
    ∙ ap (λ e. moved dst e (n * w) m a) (zero_first src)

-- memcpy, when the destination is not above the source, moves the block.
memcpy-moved :
    (dst src len : ℕ) (m : Mem) (a : ℕ) → dst ≤ src → memcpy dst src len m a ≡ moved dst src len m a
unfolding memcpy
memcpy-moved dst src len m a h =
    elim (Bool-cases ((dst % 4 == 0) && (src % 4 == 0) && (len % 4 == 0))) [
      | inl t ↦
          let whole : len / 4 * 4 ≡ len = ground (arith, t) in
          rw t (up_all 4 (len / 4) dst src m a h ∙ ap (λ k. moved dst src k m a) whole)
      | inr f ↦ rw f (up_all 1 len dst src m a h ∙ ap (λ k. moved dst src k m a) (omega arith))
    ]

-- memmove of any two blocks, whether they overlap or not and whether it goes by words or by bytes, is
-- the copy of the whole block at once.
pub memmove-moved : (dst src len : ℕ) (m : Mem) → memmove dst src len m ≡ moved dst src len m
unfolding memmove
memmove-moved dst src len m = fun_ext (λ a. elim (Bool-cases (ltb dst src)) [
  | inl t ↦ rw t (memcpy-moved dst src len m a (ground (arith, t)))
  | inr n ↦
      let h : src ≤ dst = ground (arith, n) in
      elim (Bool-cases ((dst % 4 == 0) && (src % 4 == 0) && (len % 4 == 0))) [
        | inl t ↦
            let whole : len / 4 * 4 ≡ len = ground (arith, t) in
            rw (n, t)
              (copy_down-moved 4 (len / 4) dst src m a h ∙ ap (λ k. moved dst src k m a) whole)
        | inr f ↦
            rw (n, f)
              (copy_down-moved 1 len dst src m a h ∙ ap (λ k. moved dst src k m a) (omega arith))
      ]
])

-- The bytes of a block set to zero.
abbrev pub cleared : ℕ → ℕ → Mem → Mem
cleared block n m a = if leb block a && ltb a (block + n) then 0 else m a

zero_up-cleared :
    (w n i block : ℕ) (m : Mem) (a : ℕ)
    → zero_up w n i block m a ≡ cleared (block + i * w) (n * w) m a
unfolding zero_up
zero_up-cleared w zero i block m a = ground arith
zero_up-cleared w (suc n) i block m a =
    let next : (i + 1) * w ≡ i * w + w = ap (λ k. k * w) (omega arith) ∙ suc-mul i w in
    zero_up-cleared w n (i + 1) block _ a
    ∙ ap (λ k. cleared (block + k) (n * w) (cleared (block + i * w) w m) a) next
    ∙ step w (i * w) (n * w)
    ∙ ap (λ k. cleared (block + i * w) k m a) (sym (suc-mul n w))
  where
    step :
        (w k r : ℕ)
        → cleared (block + (k + w)) r (cleared (block + k) w m) a ≡ cleared (block + k) (r + w) m a
    step w k r = ground arith

-- bzero sets the bytes of the block to zero, and no other, by words or by bytes.
pub bzero-cleared : (block len : ℕ) (m : Mem) → bzero block len m ≡ cleared block len m
unfolding bzero
bzero-cleared block len m = fun_ext (λ a.
    let first : (x : ℕ) → x + 0 * x ≡ x = λ x. omega arith in
    elim (Bool-cases ((block % 4 == 0) && (len % 4 == 0))) [
      | inl t ↦
          let whole : len / 4 * 4 ≡ len = ground (arith, t) in
          rw t (
            zero_up-cleared 4 (len / 4) 0 block m a
            ∙ ap (λ b. cleared b (len / 4 * 4) m a) (omega arith)
            ∙ ap (λ k. cleared block k m a) whole)
      | inr f ↦ rw f (
          zero_up-cleared 1 len 0 block m a
          ∙ ap (λ b. cleared b (len * 1) m a) (omega arith)
          ∙ ap (λ k. cleared block k m a) (omega arith))
    ])
