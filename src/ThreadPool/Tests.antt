-- ===== src/ThreadPool/Tests.antt =====
-- Runs of a thread pool with two workers.
use yy.Prelude.{◌==◌, ◌||◌, if◌then◌else◌, ℕ, ◌≡◌, refl, Option, some, List, [], ◌∷◌, pos, ◌>>=◌}
use yy.ThreadPool.Places.{places}
use yy.ThreadPool.Once.{Reach-places, overlap_queues_twice}
use yy.ThreadPool.{
  ThreadPool, unknown, dependency, submit, dep_submit, add_dependency, execute, resolve,
  enqueue_ready, submitted, dep_submitted, dependency_added, local_taken, here, next,
}

abbrev idle : ThreadPool
idle = record {
  workers = [] ∷ [] ∷ [];
  global_queue = [];
  status = λ t. unknown;
  unresolved_dependencies = λ t. pos 0;
  dependents = λ t. [];
  running = [];
  executed = [];
}

-- Task 7 waits for task 3.
abbrev waiting : ThreadPool
waiting = submit (add_dependency (dep_submit idle 7) 7 3) 3

abbrev taken : ThreadPool
taken = record waiting { workers = [] ∷ [] ∷ []; running = 3 ∷ [] }

after_three : Option (List ℕ)
unfolding execute submit dep_submit add_dependency
after_three = execute taken 3 [] >>= λ q. some q.global_queue

after_three-run : after_three ≡ some (7 ∷ [])
unfolding after_three
after_three-run = refl

-- A dependency that is added twice is counted twice, and there is one dependent: the task waits for
-- ever.
twice : Option (List ℕ)
unfolding execute submit dep_submit add_dependency
twice = execute (add_dependency taken 7 3) 3 [] >>= λ q. some q.global_queue

twice-run : twice ≡ some []
unfolding twice
twice-run = refl

Reach-places_example : places 3 taken ≡ 1
unfolding submit dep_submit add_dependency
Reach-places_example =
    Reach-places {p = idle} {q = taken} (λ t. refl)
      (next
        (next
          (next (next here (dep_submitted idle 7 refl)) (dependency_added (dep_submit idle 7) 7 3))
          (submitted (add_dependency (dep_submit idle 7) 7 3) 3 refl))
        (local_taken waiting [] 3 [] ([] ∷ []) refl))
      3

-- Task 7 waits for 3 and for 4.
abbrev two_left : ThreadPool
two_left = record idle {
  status = λ t. if t == 7 then dependency else unknown;
  unresolved_dependencies = λ t. if t == 7 then pos 2 else pos 0;
  dependents = λ t. if (t == 3) || (t == 4) then 7 ∷ [] else [];
  executed = 3 ∷ 4 ∷ [];
}

overlap_queues_twice_example :
    (enqueue_ready 7 (enqueue_ready 7 (resolve 7 (resolve 7 two_left)))).global_queue ≡ 7 ∷ 7 ∷ []
overlap_queues_twice_example = overlap_queues_twice two_left 7 refl
