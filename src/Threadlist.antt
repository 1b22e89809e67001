-- ===== src/Threadlist.antt =====
-- kern/thread/threadlist.c: lists of threads between two bookends, in a store of list nodes by
-- their addresses. DEBUGASSERT is compiled to nothing.
pub mod Links
pub mod Places
pub mod Contents
pub mod Ends
pub mod Refinement
mod Tests
use os161_kernel.Prelude.{
  ℕ, ◌+◌, ◌-◌, ◌%◌, ◌^◌, Bool, true, false, not, ◌==◌, if◌then◌else◌, update,
}
use os161_kernel.Prelude.Outcome.{Outcome, done, panic, ◌>>=◌, ◌>>◌, kassert}

-- tln_prev, tln_next and tln_self by the address of a node, tl_count by that of a list. NULL is 0.
pub record Store : Type 0 where
  pub prev : ℕ → ℕ
  pub next : ℕ → ℕ
  pub self : ℕ → ℕ
  pub count : ℕ → ℕ

-- &tl->tl_head and &tl->tl_tail; a node is three words of four bytes.
abbrev pub tl_head : ℕ → ℕ
tl_head tl = tl

abbrev pub tl_tail : ℕ → ℕ
tl_tail tl = tl + 12

pub threadlistnode_init : ℕ → ℕ → Store → Outcome Store
threadlistnode_init tln t s = do
  kassert (not (t == 0))
  done (record s {
    next = update s.next tln 0;
    prev = update s.prev tln 0;
    self = update s.self tln t;
  })

pub threadlistnode_cleanup : ℕ → Store → Outcome (Unit {0})
threadlistnode_cleanup tln s = do
  kassert (s.next tln == 0)
  kassert (s.prev tln == 0)
  kassert (not (s.self tln == 0))

pub threadlist_init : ℕ → Store → Store
threadlist_init tl s = record {
  next = update (update s.next (tl_head tl) (tl_tail tl)) (tl_tail tl) 0;
  prev = update (update s.prev (tl_head tl) 0) (tl_tail tl) (tl_head tl);
  self = update (update s.self (tl_head tl) 0) (tl_tail tl) 0;
  count = update s.count tl 0;
}

abbrev pub threadlist_isempty : ℕ → Store → Bool
threadlist_isempty tl s = s.count tl == 0

pub threadlist_cleanup : ℕ → Store → Outcome (Unit {0})
threadlist_cleanup tl s = do kassert (threadlist_isempty tl s); kassert (s.count tl == 0)

-- The two assignments to the node, then the ones through its new neighbours.
abbrev pub threadlist_insertafternode : ℕ → ℕ → Store → Store
threadlist_insertafternode onlist addee s =
    let s1 = record s { prev = update s.prev addee onlist } in
    let s2 = record s1 { next = update s1.next addee (s1.next onlist) } in
    let s3 = record s2 { next = update s2.next (s2.prev addee) addee } in
    record s3 { prev = update s3.prev (s3.next addee) addee }

abbrev pub threadlist_insertbeforenode : ℕ → ℕ → Store → Store
threadlist_insertbeforenode addee onlist s =
    let s1 = record s { prev = update s.prev addee (s.prev onlist) } in
    let s2 = record s1 { next = update s1.next addee onlist } in
    let s3 = record s2 { next = update s2.next (s2.prev addee) addee } in
    record s3 { prev = update s3.prev (s3.next addee) addee }

abbrev pub threadlist_removenode : ℕ → Store → Store
threadlist_removenode tln s =
    let s1 = record s { next = update s.next (s.prev tln) (s.next tln) } in
    let s2 = record s1 { prev = update s1.prev (s1.next tln) (s1.prev tln) } in
    let s3 = record s2 { prev = update s2.prev tln 0 } in record s3 { next = update s3.next tln 0 }

-- tl_count is an unsigned int.
abbrev pub count_up : ℕ → Store → Store
count_up tl s = record s { count = update s.count tl ((s.count tl + 1) % 2 ^ 32) }

abbrev pub count_down : ℕ → Store → Store
count_down tl s = record s { count = update s.count tl ((s.count tl + 2 ^ 32 - 1) % 2 ^ 32) }

pub threadlist_remhead : ℕ → Store → ℕ × Store
threadlist_remhead tl s =
    let tln = s.next (tl_head tl) in
    if s.next tln == 0
    then (0, s)
    else (let s' = count_down tl (threadlist_removenode tln s) in (s'.self tln, s'))

pub threadlist_remtail : ℕ → Store → ℕ × Store
threadlist_remtail tl s =
    let tln = s.prev (tl_tail tl) in
    if s.prev tln == 0
    then (0, s)
    else (let s' = count_down tl (threadlist_removenode tln s) in (s'.self tln, s'))

-- `t_listnode` gives the address of the t_listnode of the thread at an address.
module _ (t_listnode : ℕ → ℕ) where
  pub threadlist_addhead : ℕ → ℕ → Store → Store
  threadlist_addhead tl t s = count_up tl (threadlist_insertafternode (tl_head tl) (t_listnode t) s)

  pub threadlist_addtail : ℕ → ℕ → Store → Store
  threadlist_addtail tl t s =
      count_up tl (threadlist_insertbeforenode (t_listnode t) (tl_tail tl) s)

  pub threadlist_insertafter : ℕ → ℕ → ℕ → Store → Store
  threadlist_insertafter tl onlist addee s =
      count_up tl (threadlist_insertafternode (t_listnode onlist) (t_listnode addee) s)

  pub threadlist_insertbefore : ℕ → ℕ → ℕ → Store → Store
  threadlist_insertbefore tl addee onlist s =
      count_up tl (threadlist_insertbeforenode (t_listnode addee) (t_listnode onlist) s)

  pub threadlist_remove : ℕ → ℕ → Store → Store
  threadlist_remove tl t s = count_down tl (threadlist_removenode (t_listnode t) s)
