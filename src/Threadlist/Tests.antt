-- ===== src/Threadlist/Tests.antt =====
-- Runs of kern/thread/threadlist.c on a list at 1000; the node of a thread is 8 behind the thread.
use os161_kernel.Prelude.{ℕ, ◌+◌, ◌-◌, ◌≡◌, refl, subst, [], ◌∷◌, arith}
use os161_kernel.Prelude.Outcome.{panic}
use os161_kernel.Threadlist.{
  Store, threadlist_init, threadlist_cleanup, threadlist_addhead, threadlist_addtail,
  threadlist_remtail, threadlistnode_init,
}
use os161_kernel.Threadlist.Contents.{IsList, IsFresh}
use os161_kernel.Threadlist.Ends.{threadlist_init-IsList}
use os161_kernel.Threadlist.Refinement.{addtail, add_last, run, run-IsList}

abbrev node_of : ℕ → ℕ
node_of t = t + 8

abbrev blank : Store
blank = record { prev = λ n. 0; next = λ n. 0; self = λ n. n - 8; count = λ tl. 7 }

abbrev empty : Store
empty = threadlist_init 1000 blank

abbrev two : Store
two = threadlist_addtail node_of 1000 200 (threadlist_addhead node_of 1000 100 empty)

remtail_two : (threadlist_remtail 1000 two).0 ≡ 200
unfolding threadlist_init threadlist_addhead threadlist_addtail threadlist_remtail
remtail_two = refl

cleanup_two : threadlist_cleanup 1000 two ≡ panic
unfolding threadlist_init threadlist_addhead threadlist_addtail threadlist_cleanup
cleanup_two = refl

init_null : threadlistnode_init 8 0 blank ≡ panic
unfolding threadlistnode_init
init_null = refl

empty-IsList : IsList node_of empty 1000 []
empty-IsList = threadlist_init-IsList node_of 1000 blank (omega arith)

fresh : IsFresh node_of empty 1000 [] 100
unfolding threadlist_init
fresh = record {
  off = refl;
  node = omega arith;
  self = refl;
  thread = omega arith;
  room = omega arith;
}

run-IsList_example :
    ((run node_of (addtail 100) 1000 empty).0 ≡ 0)
    × IsList node_of (run node_of (addtail 100) 1000 empty).1 1000 (100 ∷ [])
run-IsList_example =
    run-IsList node_of (addtail 100) empty 1000 0 [] (100 ∷ []) (add_last 100 [])
      (λ t e. let same : 100 ≡ t = cc in subst (λ x. IsFresh node_of empty 1000 [] x) same fresh)
      empty-IsList
