-- ===== src/Vm/State.antt =====
-- The globals of kern/vm/addrspace.c, and the operations on single entries: coremap_insert,
-- coremap_insert_pid, coremap_remove, coreswap_insert and coreswap_remove.
use os161_kernel.Prelude.{
  ℕ, zero, suc, ◌+◌, ◌-◌, ◌/◌, ◌%◌, ◌^◌, List, bit_and, bit_or, ltb, ◌==◌, if◌then◌else◌, get_elem?,
  set,
}
use os161_kernel.Prelude.Outcome.{Outcome, done, ◌>>=◌, ◌>>◌, kassert, access}
use os161_kernel.Bitmap.{Bitmap, bitmap_mark, bitmap_unmark, bitmap_isset}
use os161_kernel.Vm.Flags.{page_frame, userspacetop, set_valid, set_dirty, set_kernel}

-- struct page_table_entry
pub record Entry : Type 0 where
  pub vaddr : ℕ
  pub paddr : ℕ
  pub pid : ℕ
  pub counter : ℕ
  pub ncounter : ℕ

pub record Tlb : Type 0 where
  pub ehi : ℕ
  pub elo : ℕ

-- `start` is coremap_start; coremap_size and coreswap_size are the lengths of the arrays.
-- `curpid` is curthread->pid and `as_pid` is curthread->t_addrspace->pid.
pub record Vm : Type 0 where
  pub start : ℕ
  pub mem_map : Bitmap
  pub coremap : List Entry
  pub swap_map : Bitmap
  pub coreswap : List Entry
  pub frames : ℕ → ℕ
  pub slots : ℕ → ℕ
  pub tlb : List Tlb
  pub draws : List ℕ
  pub curpid : ℕ
  pub as_pid : ℕ
  pub no_tlb : ℕ
  pub no_page : ℕ
  pub no_page_write : ℕ

-- (paddr - coremap_start) / PAGE_SIZE, an unsigned difference
abbrev pub map_index : Vm → ℕ → ℕ
map_index s paddr = (paddr + 2 ^ 32 - s.start) % 2 ^ 32 / 4096

-- PADDR_TO_KVADDR
abbrev pub paddr_to_kvaddr : ℕ → ℕ
paddr_to_kvaddr paddr = (paddr + 0x80000000) % 2 ^ 32

-- if (!bitmap_isset(map, index)) bitmap_mark(map, index)
unfoldable pub mark_if_clear : Bitmap → ℕ → Outcome Bitmap
mark_if_clear b i = do r ← bitmap_isset b i; if r == 0 then bitmap_mark b i else done b

-- The flags of a new coremap entry.
abbrev pub insert_flags : ℕ → ℕ → ℕ
insert_flags vaddr paddr =
    if ltb userspacetop vaddr
    then bit_or (bit_or (set_valid paddr) (set_dirty paddr)) (set_kernel paddr)
    else bit_or (set_valid paddr) (set_dirty paddr)

unfoldable pub coremap_insert_pid : ℕ → ℕ → ℕ → Vm → Outcome Vm
coremap_insert_pid vaddr paddr0 pid s = do
  let paddr = bit_and paddr0 page_frame
  let i = map_index s paddr
  e ← access (get_elem? s.coremap i)
  kassert (bit_and e.paddr page_frame == paddr)
  let e' = record e { vaddr = vaddr; paddr = insert_flags vaddr paddr; counter = 0; pid = pid }
  b ← mark_if_clear s.mem_map i
  done (record s { coremap = set s.coremap i e'; mem_map = b })

unfoldable pub coremap_insert : ℕ → ℕ → Vm → Outcome Vm
coremap_insert vaddr paddr s = coremap_insert_pid vaddr paddr s.curpid s

unfoldable pub coremap_remove : ℕ → Vm → Outcome Vm
coremap_remove paddr0 s = do
  let paddr = bit_and paddr0 page_frame
  let i = map_index s paddr
  e ← access (get_elem? s.coremap i)
  kassert (bit_and e.paddr page_frame == bit_and paddr page_frame)
  let e' = record e { vaddr = 0; paddr = bit_and paddr page_frame; counter = 0; pid = 0 }
  b ← bitmap_unmark s.mem_map i
  done (record s { coremap = set s.coremap i e'; mem_map = b })

-- The loop of coremap_remove_pid, from entry `i` on over the rounds left.
unfoldable pub remove_pid_loop : ℕ → ℕ → ℕ → Vm → Outcome Vm
remove_pid_loop zero i pid s = done s
remove_pid_loop (suc n) i pid s = do
  e ← access (get_elem? s.coremap i)
  s' ← (if e.pid == pid then coremap_remove e.paddr s else done s)
  remove_pid_loop n (i + 1) pid s'

-- (offset & PAGE_FRAME) / PAGE_SIZE
abbrev pub slot_index : ℕ → ℕ
slot_index offset = bit_and offset page_frame / 4096

-- The parameter `pid` is not used by the source either.
unfoldable pub coreswap_insert : ℕ → ℕ → ℕ → Vm → Outcome Vm
coreswap_insert vaddr offset _pid s = do
  let i = slot_index offset
  e ← access (get_elem? s.coreswap i)
  kassert (bit_and e.paddr page_frame == offset)
  let e' = record e { vaddr = vaddr; counter = 0; pid = s.curpid }
  b ← mark_if_clear s.swap_map i
  done (record s { coreswap = set s.coreswap i e'; swap_map = b })

unfoldable pub coreswap_remove : ℕ → Vm → Outcome Vm
coreswap_remove offset s = do
  let i = slot_index offset
  e ← access (get_elem? s.coreswap i)
  kassert (bit_and e.paddr page_frame == offset)
  let e' = record e { vaddr = 0; paddr = offset; counter = 0; pid = 0 }
  b ← bitmap_unmark s.swap_map i
  done (record s { coreswap = set s.coreswap i e'; swap_map = b })
