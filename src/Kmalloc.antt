-- ===== src/Kmalloc.antt =====
-- kern/vm/kmalloc.c: the allocator of blocks smaller than a page, on pages of alloc_kpages.
-- The chains through next_samesize and next_all are the lists of the indices of their elements in
-- pagerefs. What stands between two changes of kmalloc_spinlock is one function.
pub mod Chain
pub mod Pages
pub mod Bits
pub mod Entries
pub mod Linked
pub mod Fresh
pub mod Sections
pub mod Sizes
pub mod Unlink
pub mod Delist
pub mod PutBack
pub mod Release
pub mod Requests
mod Tests
use os161_kernel.Prelude.{
  ℕ, zero, suc, ◌+◌, ◌-◌, ◌*◌, ◌/◌, ◌%◌, ◌^◌, Bool, true, false, Option, none, some, List, [], ◌∷◌,
  ltb, leb, ◌==◌, not, ◌&&◌, if◌then◌else◌, get_elem?, get_or, set, update,
}
use os161_kernel.Prelude.Outcome.{Outcome, done, panic, ◌>>=◌, ◌>>◌, kassert, access}

-- sizes[]
abbrev pub sizes : List ℕ
sizes = 16 ∷ 32 ∷ 64 ∷ 128 ∷ 256 ∷ 512 ∷ 1024 ∷ 2048 ∷ []

abbrev pub size_of : ℕ → ℕ
size_of blktype = get_or sizes blktype 16

-- struct pageref. `offset` is freelist_offset; `pab` is pageaddr_and_blocktype.
pub record Pageref : Type 0 where
  pub pab : ℕ
  pub offset : ℕ
  pub nfree : ℕ

-- PR_PAGEADDR, PR_BLOCKTYPE and MKPAB: the frame bits are those from 12 on.
abbrev pub page_of : Pageref → ℕ
page_of r = r.pab / 4096 * 4096

abbrev pub blktype_of : Pageref → ℕ
blktype_of r = r.pab % 4096

abbrev pub mkpab : ℕ → ℕ → ℕ
mkpab pa blk = pa / 4096 * 4096 + blk % 4096

-- INVALID_OFFSET
abbrev pub invalid_offset : ℕ
invalid_offset = 0xffff

-- `inuse` is pagerefs_inuse, eight words of 32 bits; `word` gives the word of memory at an address,
-- whose first use is the `next` of a free block.
pub record Heap : Type 0 where
  pub refs : ℕ → Pageref
  pub inuse : List ℕ
  pub sizebases : ℕ → List ℕ
  pub allbase : List ℕ
  pub word : ℕ → ℕ

-- w >> j, and (w & (1 << j)) != 0
pub shift_right : ℕ → ℕ → ℕ
shift_right w zero = w
shift_right w (suc j) = shift_right (w / 2) j

pub bit_set : ℕ → ℕ → Bool
unfolding shift_right
bit_set w j = shift_right w j % 2 == 1

-- The inner loop of allocpageref, from bit `j` on over the rounds left: the first clear bit.
pub clear_bit : ℕ → ℕ → ℕ → Option ℕ
clear_bit zero j w = none
clear_bit (suc n) j w = let rest = clear_bit n (j + 1) w in if bit_set w j then rest else some j

-- The outer loop, from word `i` on: the index found and the words after it. On a bit that is clear
-- `|= k` adds 2 ^ j.
pub alloc_inuse : List ℕ → ℕ → Outcome (Option (ℕ × List ℕ))
unfolding clear_bit
alloc_inuse [] i = done none
alloc_inuse (w ∷ ws) i =
    let rest = alloc_inuse ws (i + 1) in
    if w == 0xffffffff
    then (rest >>= λ r. done (elim r [ none ↦ none | some (p, us) ↦ some (p, w ∷ us) ]))
    else elim (clear_bit 32 0 w) [
      | none ↦ panic
      | some j ↦ done (some (i * 32 + j, (w + 2 ^ j) ∷ ws))
    ]

abbrev pub in_use : List ℕ → ℕ → Bool
in_use ws p = bit_set (get_or ws (p / 32) 0) (p % 32)

pub freepageref : ℕ → List ℕ → Outcome (List ℕ)
freepageref p ws = do
  kassert (ltb p 256)
  w ← access (get_elem? ws (p / 32))
  kassert (bit_set w (p % 32))
  done (set ws (p / 32) (w - 2 ^ (p % 32)))

-- The loops of remove_lists: the first link to `p` is taken out.
pub unlink : ℕ → List ℕ → List ℕ
unlink p [] = []
unlink p (q ∷ qs) = if q == p then qs else q ∷ unlink p qs

pub remove_lists : ℕ → ℕ → Heap → Outcome Heap
unfolding unlink
remove_lists p blktype h = do
  kassert (ltb blktype 8)
  done (record h {
    sizebases = update h.sizebases blktype (unlink p (h.sizebases blktype));
    allbase = unlink p h.allbase;
  })

-- blocktype: the loop from size `i` on.
pub blocktype_loop : ℕ → ℕ → List ℕ → Outcome ℕ
blocktype_loop sz i [] = panic
blocktype_loop sz i (s ∷ ss) =
    let rest = blocktype_loop sz (i + 1) ss in if leb sz s then done i else rest

abbrev pub blocktype : ℕ → Outcome ℕ
blocktype sz = blocktype_loop sz 0 sizes

-- The loop over the pages of the right size: the first one with a free block.
pub find_page : (ℕ → Pageref) → ℕ → List ℕ → Outcome (Option ℕ)
find_page refs blktype [] = done none
find_page refs blktype (p ∷ ps) =
    let rest = find_page refs blktype ps in
    kassert (blktype_of (refs p) == blktype)
    >> (if ltb 0 (refs p).nfree then done (some p) else rest)

-- From the label doalloc on: the block and the heap without it. Its page has a free block, since the loop
-- before it stops only there and a new page has them all, so that `nfree` is not 0.
pub take_block : ℕ → Heap → Outcome (ℕ × Heap)
take_block p h =
    let pr = h.refs p in
    let prpage = page_of pr in
    let fla = prpage + pr.offset in
    let fl = h.word fla in
    let offset = (fl + 2 ^ 32 - prpage) % 2 ^ 32 in
    kassert (ltb pr.offset 4096)
    >> (if fl == 0
        then kassert (pr.nfree - 1 == 0)
          >> done (
            fla,
            record h {
              refs = update h.refs p (record pr { nfree = pr.nfree - 1; offset = invalid_offset });
            },
          )
        else kassert (ltb 0 (pr.nfree - 1))
          >> kassert (ltb offset 4096)
          >> done (
            fla,
            record h {
              refs = update h.refs p (record pr { nfree = pr.nfree - 1; offset = offset });
            },
          ))

-- The first section of subpage_kmalloc: a block of a page that is there, or none.
pub first_section : ℕ → Heap → Outcome (Option (ℕ × Heap))
unfolding find_page take_block
first_section blktype h = find_page h.refs blktype (h.sizebases blktype) >>= λ r. elim r [
  | none ↦ done none
  | some p ↦ (take_block p h >>= λ b. done (some b))
]

-- The loop that links the blocks of a new page, over the rounds left. Its KASSERT, that a block does
-- not link to itself, is left out.
pub link_blocks : ℕ → ℕ → ℕ → ℕ → (ℕ → ℕ) → ℕ → ℕ
link_blocks zero i size fla word = word
link_blocks (suc n) i size fla word =
    link_blocks n (i + 1) size fla (update word (fla + i * size) (fla + (i - 1) * size))

-- The second section, for the new page at `prpage`, which starts with a page entry: none when there
-- is no entry left (NULL), and the page has to be given back.
pub second_section : ℕ → ℕ → Heap → Outcome (Option (ℕ × Heap))
unfolding alloc_inuse link_blocks take_block
second_section blktype prpage h = alloc_inuse h.inuse 0 >>= λ r. elim r [
  | none ↦ done none
  | some (p, inuse) ↦
      let size = size_of blktype in
      let n = 4096 / size in
      kassert (prpage + (n - 1) * size - prpage == (n - 1) * size)
      >> (take_block p (record h {
        refs =
            update h.refs p
              (record { pab = mkpab prpage blktype; nfree = n; offset = (n - 1) * size });
        inuse = inuse;
        sizebases = update h.sizebases blktype (p ∷ h.sizebases blktype);
        allbase = p ∷ h.allbase;
        word = link_blocks (n - 1) 1 size prpage (update h.word prpage 0);
      })
          >>= λ b. done (some b))
]

-- The loop of subpage_kfree: the entry of the page that the address lies in.
pub find_owner : (ℕ → Pageref) → ℕ → List ℕ → Outcome (Option ℕ)
find_owner refs ptr [] = done none
find_owner refs ptr (p ∷ ps) =
    let rest = find_owner refs ptr ps in
    kassert (ltb (blktype_of (refs p)) 8)
    >> (if leb (page_of (refs p)) ptr && ltb ptr ((page_of (refs p) + 4096) % 2 ^ 32)
        then done (some p)
        else rest)

-- fill_deadbeef: the words from `ptr` on.
abbrev pub fill_deadbeef : ℕ → ℕ → (ℕ → ℕ) → ℕ → ℕ
fill_deadbeef ptr len word a =
    if leb ptr a && ltb a (ptr + len / 4 * 4) && ((a - ptr) % 4 == 0) then 0xdeadbeef else word a

-- What subpage_kfree comes to: -1 for an address on none of the pages; or 0, after which free_kpages
-- is called for the page if that is free.
pub data Freed : Type 0 where
  not_ours : Freed
  freed : Heap → Freed
  freed_page : ℕ → Heap → Freed

pub release_block : ℕ → ℕ → Heap → Outcome Freed
unfolding remove_lists freepageref
release_block p ptr h =
    let pr = h.refs p in
    let prpage = page_of pr in
    let size = size_of (blktype_of pr) in
    let offset = ptr - prpage in
    let next = if pr.offset == invalid_offset then 0 else prpage + pr.offset in
    let h1 = record h {
      word = update (fill_deadbeef ptr size h.word) ptr next;
      refs = update h.refs p (record pr { offset = offset; nfree = pr.nfree + 1 });
    } in
    (if leb 4096 offset then panic else kassert (offset % size == 0))
    >> kassert (leb (pr.nfree + 1) (4096 / size))
    >> (if pr.nfree + 1 == 4096 / size
        then (remove_lists p (blktype_of pr) h1 >>= λ h2. freepageref p h2.inuse >>= λ inuse.
            done (freed_page prpage (record h2 { inuse = inuse })))
        else done (freed h1))

pub subpage_kfree : ℕ → Heap → Outcome Freed
unfolding find_owner release_block
subpage_kfree ptr h = find_owner h.refs ptr h.allbase >>= λ r. elim r [
  | none ↦ done not_ours
  | some p ↦ release_block p ptr h
]

-- A kernel state: the heap, and the pages of alloc_kpages and free_kpages.
pub record Kernel {ℓ} (S : Type ℓ) : Type ℓ where
  pub heap : Heap
  pub pages : S

module _ {ℓ} {S : Type ℓ} (alloc_kpages : ℕ → S → Outcome (ℕ × S))
    (free_kpages : ℕ → S → Outcome S) where
  -- After the first section found no block: alloc_kpages, and the second section or NULL.
  pub with_new_page : ℕ → Kernel S → Outcome (ℕ × Kernel S)
  unfolding second_section
  with_new_page blktype k = alloc_kpages 1 k.pages >>= λ a.
      if a.0 == 0
      then done (0, record k { pages = a.1 })
      else (second_section blktype a.0 k.heap >>= λ r. elim r [
        | none ↦ (free_kpages a.0 a.1 >>= λ pages. done (0, record k { pages = pages }))
        | some b ↦ done (b.0, record { heap = b.1; pages = a.1 })
      ])

  pub subpage_kmalloc : ℕ → Kernel S → Outcome (ℕ × Kernel S)
  unfolding first_section with_new_page
  subpage_kmalloc sz k = blocktype sz >>= λ blktype. first_section blktype k.heap >>= λ r. elim r [
    | none ↦ with_new_page blktype k
    | some b ↦ done (b.0, record k { heap = b.1 })
  ]

  pub kmalloc : ℕ → Kernel S → Outcome (ℕ × Kernel S)
  unfolding subpage_kmalloc
  kmalloc sz k =
      if leb 2048 sz
      then (alloc_kpages ((sz + 4096 - 1) % 2 ^ 32 / 4096) k.pages >>= λ a.
          done (a.0, record k { pages = a.1 }))
      else subpage_kmalloc sz k

  pub kfree : ℕ → Kernel S → Outcome (Kernel S)
  unfolding subpage_kfree
  kfree ptr k =
      if ptr == 0
      then done k
      else (subpage_kfree ptr k.heap >>= λ f. elim f [
        | not_ours ↦
            (kassert (ptr % 4096 == 0)
              >> (free_kpages ptr k.pages >>= λ pages. done (record k { pages = pages })))
        | freed h ↦ done (record k { heap = h })
        | freed_page page h ↦
            (free_kpages page k.pages >>= λ pages. done (record { heap = h; pages = pages }))
      ])
