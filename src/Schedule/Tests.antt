-- ===== src/Schedule/Tests.antt =====
-- Runs of schedule (kern/thread/thread.c) on a run queue at 1000 with the threads 100 and 200.
use os161_kernel.Prelude.{
  ℕ, ◌+◌, ◌-◌, ◌%◌, ◌≤◌, ◌≡◌, ◌≢◌, refl, true, List, [], ◌∷◌, ◌++◌, length, arith, ◌⊎◌, ◌==◌,
  if◌then◌else◌,
}
use os161_kernel.Prelude.Members.{has}
use os161_kernel.Prelude.Outcome.{done, panic}
use os161_kernel.Threadlist.{Store}
use os161_kernel.Threadlist.Contents.{IsList}
use os161_kernel.Schedule.{schedule, go_on, lowest_loop}
use os161_kernel.Schedule.Turn.{schedule-IsList}

abbrev node_of : ℕ → ℕ
node_of t = t + 8

abbrev priority : ℕ → ℕ
priority t = if t == 200 then 0 else 1

abbrev queue : List ℕ
queue = 100 ∷ 200 ∷ []

abbrev two : Store
two = record {
  next = λ n. if n == 1000 then 108 else (if n == 108 then 208 else (if n == 208 then 1012 else 0));
  prev = λ n. if n == 1012 then 208 else (if n == 208 then 108 else (if n == 108 then 1000 else 0));
  self = λ n. if n == 1000 then 0 else (if n == 1012 then 0 else n - 8);
  count = λ tl. if tl == 1000 then 2 else 0;
}

two-IsList : IsList node_of two 1000 (100 ∷ 200 ∷ [])
two-IsList = record {
  links = (refl, refl, (refl, refl, (refl, refl)));
  front = refl;
  back = refl;
  count = refl;
  short = omega arith;
  apart = (refl, (refl, (refl, (refl, tt))));
  real = refl;
  selves = λ t h. ground (arith, h);
}

lowest_two : lowest_loop node_of priority 2 2 0 100 100 two ≡ done 200
unfolding lowest_loop
lowest_two = refl

-- With a count that is too high the loop reads through NULL.
lowest_beyond : lowest_loop node_of priority 5 5 0 100 100 two ≡ panic
unfolding lowest_loop
lowest_beyond = refl

second_of_queue : go_on node_of priority 1 100 two ≡ done 200
unfolding go_on
second_of_queue = refl

schedule-IsList_example :
    ((queue ≡ []) × (schedule node_of priority 7 1000 1 two ≡ done (1, two)))
    ⊎ ((us : List ℕ) × (t : ℕ) × (vs : List ℕ) × (fl : ℕ) × (s' : Store) × (queue ≡ us ++ t ∷ vs)
        × (schedule node_of priority 7 1000 1 two ≡ done (fl, s'))
        × IsList node_of s' 1000 (t ∷ us ++ vs)
        × (((◌≡◌ {A = ℕ} 1 0) × (fl ≡ 1) × (length us ≡ 7 % 2))
            ⊎ ((◌≢◌ {A = ℕ} 1 0)
                × (fl ≡ 0)
                × ((u : ℕ) → has u queue ≡ true → priority t ≤ priority u))))
schedule-IsList_example = schedule-IsList node_of priority 7 1000 1 two queue two-IsList
