-- ===== src/Region/Steal.antt =====
-- ram_stealmem (kern/arch/mips/vm/ram.c).
use os161_kernel.Prelude.{
  ℕ, ◌+◌, ◌*◌, ◌%◌, ◌^◌, ◌<◌, ◌≤◌, ◌≡◌, refl, ltb, true, false, arith, dec_lt, ◌⊎◌, inl, inr,
}
use os161_kernel.Region.{Ram, ram_stealmem}

-- Where `npages` pages and the memory handed out are less than 4 GB, ram_stealmem answers the next
-- free address, in front of a block of the pages that ends in the memory, and the next free address
-- is the end of the block; or there is no room, and it answers 0 and changes nothing.
pub ram_stealmem_lem :
    (npages : ℕ) (r : Ram)
    → r.first + npages * 4096 < 2 ^ 32
    → ((r.first + npages * 4096 ≤ r.last)
        × (ram_stealmem npages r ≡ (r.first, record r { first = r.first + npages * 4096 })))
      ⊎ ((r.last < r.first + npages * 4096) × (ram_stealmem npages r ≡ (0, r)))
unfolding ram_stealmem
ram_stealmem_lem npages r h =
    let size : npages * 4096 % 2 ^ 32 ≡ npages * 4096 = omega arith in
    let sum : (r.first + npages * 4096) % 2 ^ 32 ≡ r.first + npages * 4096 = omega arith in
    elim (dec_lt r.last (r.first + npages * 4096)) [
      | yes full ↦ inr (
        full,
        let t : ltb r.last (r.first + npages * 4096) ≡ true = ground arith in
            rw (size, sum, t) refl,
      )
      | no room ↦ inl (
        omega arith,
        let t : ltb r.last (r.first + npages * 4096) ≡ false = ground arith in
            rw (size, sum, t) refl,
      )
    ]
