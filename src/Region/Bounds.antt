-- ===== src/Region/Bounds.antt =====
-- as_define_region and sbrk (kern/arch/mips/vm/vm.c).
use os161_kernel.Prelude.{
  ℕ, ◌+◌, ◌-◌, ◌*◌, ◌/◌, ◌%◌, ◌^◌, ◌<◌, ◌≤◌, ◌≡◌, refl, ◌≢◌, Bool, true, false, Option, none, some,
  bit_and, ltb, leb, ◌==◌, ==-true, ==-false, if◌then◌else◌, arith, sym, subst, ◌∙◌, dec_lt,
}
use os161_kernel.Prelude.Outcome.{Outcome, done, panic, spin, exited, ◌>>=◌, done-injective}
use os161_kernel.Prelude.Errno.{Errno, einval, enomem, eunimp}
use os161_kernel.Vm.Flags.{page_frame, frame_lem}
use os161_kernel.Region.{
  Addrspace, Memory, region_pages, as_define_region, take_pages, sbrk, userstack, stackpages,
}

-- The pages of a region cover its bytes and nothing but the pages that these bytes lie in.
region_pages_lem :
    (vaddr sz : ℕ)
    → vaddr + sz + 8192 < 2 ^ 32
    → region_pages vaddr sz ≡ (sz + vaddr % 4096 + 4095) / 4096
region_pages_lem vaddr sz h =
    let e : ((sz + vaddr % 4096) % 2 ^ 32 + 4096 - 1) % 2 ^ 32 ≡ sz + vaddr % 4096 + 4095 =
      omega arith in
    rw e (omega (arith, frame_lem (sz + vaddr % 4096 + 4095) (omega arith)))

-- The region [vaddr, vaddr + sz) lies in the pages from `base` on, and less than a page is left at
-- each end.
pub record Covers (vaddr sz base npages : ℕ) : Type 0 where
  pub aligned : base % 4096 ≡ 0
  pub low : base ≤ vaddr
  pub low_near : vaddr < base + 4096
  pub high : vaddr + sz ≤ base + npages * 4096
  pub high_near : base + npages * 4096 < vaddr + sz + 4096

region-Covers :
    (vaddr sz : ℕ)
    → vaddr + sz + 8192 < 2 ^ 32
    → Covers vaddr sz (bit_and vaddr page_frame) (region_pages vaddr sz)
region-Covers vaddr sz h =
    let b : bit_and vaddr page_frame ≡ vaddr / 4096 * 4096 = frame_lem vaddr (omega arith) in
    let n = region_pages_lem vaddr sz h in
    record {
      aligned = omega (arith, b);
      low = omega (arith, b);
      low_near = omega (arith, b);
      high = omega (arith, b, n);
      high_near = omega (arith, b, n);
    }

-- For a region that ends 8 kB or more below 4 GB: in an address space with no region as_define_region
-- makes it the first one, after a first one it makes it the second one and starts the heap right
-- behind its pages; the pages cover the region. After a second region it fails with EUNIMP and
-- changes nothing.
pub as_define_region_lem :
    (space : Addrspace) (vaddr sz : ℕ)
    → vaddr + sz + 8192 < 2 ^ 32
    → (space.vbase1 ≡ 0
        → ((as_define_region space vaddr sz).0 ≡ none)
          × Covers vaddr sz
              (as_define_region space vaddr sz).1.vbase1
              (as_define_region space vaddr sz).1.npages1)
      × (space.vbase1 ≢ 0
          → space.vbase2 ≡ 0
          → (b : Addrspace) × (as_define_region space vaddr sz ≡ (none, b))
            × Covers vaddr sz b.vbase2 b.npages2
            × (b.vbase1 ≡ space.vbase1)
            × (b.heapbase ≡ b.vbase2 + b.npages2 * 4096)
            × (b.heaptop ≡ b.heapbase))
      × (space.vbase1 ≢ 0
          → space.vbase2 ≢ 0
          → as_define_region space vaddr sz ≡ (some eunimp, space))
unfolding as_define_region
as_define_region_lem space vaddr sz h =
    let c = region-Covers vaddr sz h in
    (
      (λ e. rw (==-true e) (refl, c)),
      (λ ne e.
          rw (==-false ne, ==-true e)
            (
              record space {
                vbase2 = bit_and vaddr page_frame;
                npages2 = region_pages vaddr sz;
                heapbase = bit_and vaddr page_frame + region_pages vaddr sz * 4096;
                heaptop = bit_and vaddr page_frame + region_pages vaddr sz * 4096;
              },
              ground (arith, c.high_near),
              c,
              refl,
              refl,
              refl,
            )),
      λ ne ne'. rw (==-false ne, ==-false ne') refl,
    )

module _ (read_error write_error : ℕ → Bool) where
  sbrk-positive :
      (size : ℕ) (space : Addrspace) (m : Memory)
      → 0 < size
      → size < 2 ^ 31
      → space.heaptop < userstack
      → sbrk read_error write_error size space m ≡ (
          if ltb (userstack + stackpages * 4096) (space.heaptop + (size / 4096 + 1) * 4096)
          then done (some einval, 2 ^ 32 - 1, space, m)
          else take_pages read_error write_error (size / 4096 + 1) space.heaptop space.pid m
            >>= λ r.
                if r.0
                then done (
                  none,
                  space.heaptop,
                  record space { heaptop = space.heaptop + (size / 4096 + 1) * 4096 },
                  r.1,
                )
                else done (some enomem, 2 ^ 32 - 1, space, r.1))
  unfolding sbrk
  sbrk-positive size space m pos small ht =
      let z : (size == 0) ≡ false = ground arith in
      let n : leb (2 ^ 31) size ≡ false = ground arith in
      let t : (space.heaptop + (size / 4096 + 1) * 4096) % 2 ^ 32
          ≡ space.heaptop + (size / 4096 + 1) * 4096 =
        omega arith in
      rw (z, n, t) refl

  -- What sbrk of a positive size comes to when it returns: an error with *retval -1 that leaves the
  -- heap as it is, or the old top of the heap, with the top moved up by whole pages, by more than
  -- `size` and at most a page more.
  pub data Grows (size : ℕ) (space : Addrspace)
      : Option Errno × ℕ × Addrspace × Memory → Type 0 where
    refused : (e : Errno) (m' : Memory) → Grows size space (some e, 2 ^ 32 - 1, space, m')
    grown :
        (m' : Memory) (n : ℕ)
        → size < n * 4096
        → n * 4096 ≤ size + 4096
        → space.heaptop + n * 4096 ≤ userstack + stackpages * 4096
        → Grows size space
            (none, space.heaptop, record space { heaptop = space.heaptop + n * 4096 }, m')

  -- sbrk of a size of 0 returns the top of the heap and changes nothing; of a negative size, EINVAL;
  -- and whenever sbrk of a positive size returns, it refused, or moved the top of the heap up by
  -- whole pages. The top is taken to be a user address: below USERSTACK.
  pub sbrk_lem :
      (size : ℕ) (space : Addrspace) (m : Memory)
      → size < 2 ^ 32
      → space.heaptop < userstack
      → (size ≡ 0 → sbrk read_error write_error size space m ≡ done (none, space.heaptop, space, m))
        × (2 ^ 31 ≤ size
            → sbrk read_error write_error size space m ≡ done (some einval, 2 ^ 32 - 1, space, m))
        × (0 < size
            → size < 2 ^ 31
            → (r : Option Errno × ℕ × Addrspace × Memory)
            → sbrk read_error write_error size space m ≡ done r
            → Grows size space r)
  unfolding sbrk
  sbrk_lem size space m hs ht = (
    (λ e. rw (==-true e) refl),
    (λ neg. ground arith),
    λ pos small r h. grows pos small r (sym (sbrk-positive size space m pos small ht) ∙ h),
  )
    where
      n : ℕ
      n = size / 4096 + 1

      taken :
          (o : Outcome (Bool × Memory)) (r : Option Errno × ℕ × Addrspace × Memory)
          → space.heaptop + n * 4096 ≤ userstack + stackpages * 4096
          → (o >>= λ q.
              if q.0
              then done
                  (none, space.heaptop, record space { heaptop = space.heaptop + n * 4096 }, q.1)
              else done (some enomem, 2 ^ 32 - 1, space, q.1))
            ≡ done r
          → Grows size space r
      taken (done (true, m')) r fits h =
          subst (Grows size space) (done-injective h) (grown m' n (omega arith) (omega arith) fits)
      taken (done (false, m')) r fits h =
          subst (Grows size space) (done-injective h) (refused enomem m')
      taken panic r fits h = cc
      taken spin r fits h = cc
      taken exited r fits h = cc

      grows :
          0 < size
          → size < 2 ^ 31
          → (r : Option Errno × ℕ × Addrspace × Memory)
          → (if ltb (userstack + stackpages * 4096) (space.heaptop + n * 4096)
              then done (some einval, 2 ^ 32 - 1, space, m)
              else take_pages read_error write_error n space.heaptop space.pid m >>= λ q.
                  if q.0
                  then done (
                    none,
                    space.heaptop,
                    record space { heaptop = space.heaptop + n * 4096 },
                    q.1,
                  )
                  else done (some enomem, 2 ^ 32 - 1, space, q.1))
            ≡ done r
          → Grows size space r
      grows pos small r h =
          elim (dec_lt (userstack + stackpages * 4096) (space.heaptop + n * 4096)) [
            | yes over ↦
                let t : ltb (userstack + stackpages * 4096) (space.heaptop + n * 4096) ≡ true =
                  ground arith in
                subst (Grows size space) (done-injective (rw t at h)) (refused einval m)
            | no fits ↦
                let t : ltb (userstack + stackpages * 4096) (space.heaptop + n * 4096) ≡ false =
                  ground arith in
                taken (take_pages read_error write_error n space.heaptop space.pid m) r
                  (omega arith) (rw t at h)
          ]
