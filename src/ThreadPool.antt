-- ===== src/ThreadPool.antt =====
-- ThreadPool/ThreadPool.h, ThreadPool.tpp, BaseTask.h and BaseTask.cpp: the tasks of a pool. A task is
-- known by its number. What a thread does under a lock is one step, and so is the run of a task with
-- the loop over its dependents, which has no lock (Once tells the two apart); the steps come in any order;
-- so does what the priority queue gives out, whose order is the argument `Strategy`, and which victim
-- a thief finds unlocked. What the functions of the tasks do is not looked at. `none` is a failed
-- assertion.
pub mod Places
pub mod Once
mod Tests
use yy.Prelude.{
  ℕ, zero, suc, ◌+◌, ◌≡◌, ◌≢◌, Bool, true, false, ◌||◌, Option, none, some, List, [], ◌∷◌, ◌++◌,
  leb, ◌==◌, if◌then◌else◌, update, ◌>>=◌, ◌>>◌, assert, ℤ, pos, negsuc, length,
}

-- Of the five values only these two are ever given to a task; `unknown` is a task not made yet.
pub data TaskStatus : Type 0 where
  unknown dependency pending : TaskStatus

pub record ThreadPool : Type 0 where
  pub workers : List (List ℕ)
  pub global_queue : List ℕ
  pub status : ℕ → TaskStatus
  pub unresolved_dependencies : ℕ → ℤ
  pub dependents : ℕ → List ℕ
  pub running : List ℕ
  pub executed : List ℕ

abbrev pub queue_capacity : ℕ
queue_capacity = 2

abbrev pub is_dependency : TaskStatus → Bool
is_dependency unknown = false
is_dependency dependency = true
is_dependency pending = false

-- `++` and `--` of the count
unfoldable pub increment : ℤ → ℤ
increment (pos n) = pos (suc n)
increment (negsuc zero) = pos 0
increment (negsuc (suc n)) = negsuc n

unfoldable pub decrement : ℤ → ℤ
decrement (pos zero) = negsuc 0
decrement (pos (suc n)) = pos n
decrement (negsuc n) = negsuc (suc n)

unfoldable pub is_zero : ℤ → Bool
is_zero (pos zero) = true
is_zero (pos (suc n)) = false
is_zero (negsuc n) = false

-- `Worker::try_push_task`
unfoldable pub try_push_task : List ℕ → ℕ → Option (List ℕ)
try_push_task local_queue t =
    if leb queue_capacity (length local_queue) then none else some (local_queue ++ (t ∷ []))

unfoldable pub try_add_task : List (List ℕ) → ℕ → Option (List (List ℕ))
unfolding try_push_task
try_add_task [] t = none
try_add_task (w ∷ ws) t =
    let rest = try_add_task ws t in
    elim (try_push_task w t) [ some w' ↦ some (w' ∷ ws) | none ↦ (rest >>= λ ws'. some (w ∷ ws')) ]

unfoldable pub enqueue_task : ThreadPool → ℕ → ThreadPool
enqueue_task p t = record p { global_queue = p.global_queue ++ (t ∷ []) }

unfoldable pub submit : ThreadPool → ℕ → ThreadPool
unfolding try_add_task enqueue_task
submit p t =
    let p' : ThreadPool = record p { status = update p.status t pending } in
    elim (try_add_task p.workers t) [
      | some ws ↦ record p' { workers = ws }
      | none ↦ enqueue_task p' t
    ]

-- `dep_submit`: the task is not ready, so it goes into no queue.
unfoldable pub dep_submit : ThreadPool → ℕ → ThreadPool
dep_submit p t = record p { status = update p.status t dependency }

unfoldable pub contains : ℕ → List ℕ → Bool
contains t [] = false
contains t (x ∷ xs) = (x == t) || contains t xs

-- `BaseTask::add_dependency`: `dependents` is a set.
unfoldable pub add_dependency : ThreadPool → ℕ → ℕ → ThreadPool
unfolding increment contains
add_dependency p t d = record p {
  unresolved_dependencies =
      update p.unresolved_dependencies t (increment (p.unresolved_dependencies t));
  dependents =
      update p.dependents d
        (if contains t (p.dependents d) then p.dependents d else p.dependents d ++ (t ∷ []));
}

-- The two halves of the loop body of `BaseTask::execute`, which holds no lock: the count goes down
unfoldable pub resolve : ℕ → ThreadPool → ThreadPool
unfolding decrement
resolve d p = record p {
  unresolved_dependencies =
      update p.unresolved_dependencies d (decrement (p.unresolved_dependencies d));
}

-- and the task is queued when the count, read again, is zero.
unfoldable pub enqueue_ready : ℕ → ThreadPool → ThreadPool
unfolding is_zero enqueue_task
enqueue_ready d p =
    if is_zero (p.unresolved_dependencies d)
    then enqueue_task (record p { status = update p.status d pending }) d
    else p

-- The loop of `BaseTask::execute` over the dependents.
unfoldable pub release : List ℕ → ThreadPool → Option ThreadPool
unfolding resolve enqueue_ready
release [] p = some p
release (d ∷ ds) p =
    assert (is_dependency (p.status d)) >> release ds (enqueue_ready d (resolve d p))

-- A task that a worker has run to its end.
unfoldable pub execute : ThreadPool → ℕ → List ℕ → Option ThreadPool
unfolding release
execute p t others =
    release (p.dependents t) (record p { running = others; executed = p.executed ++ (t ∷ []) })

-- The steps of the threads. A worker has its task among `running` from where it takes it until the
-- task has run.
pub data Step : ThreadPool → ThreadPool → Type 0 where
  submitted : (p : ThreadPool) (t : ℕ) → p.status t ≡ unknown → Step p (submit p t)
  dep_submitted : (p : ThreadPool) (t : ℕ) → p.status t ≡ unknown → Step p (dep_submit p t)
  dependency_added : (p : ThreadPool) (t d : ℕ) → Step p (add_dependency p t d)
  local_taken :
      (p : ThreadPool) (before : List (List ℕ)) (t : ℕ) (queue : List ℕ) (after : List (List ℕ))
      → p.workers ≡ before ++ ((t ∷ queue) ∷ after)
      → Step p (record p { workers = before ++ (queue ∷ after); running = t ∷ p.running })
  global_taken :
      (p : ThreadPool) (before : List ℕ) (t : ℕ) (after : List ℕ)
      → p.global_queue ≡ before ++ (t ∷ after)
      → Step p (record p { global_queue = before ++ after; running = t ∷ p.running })
  stolen :
      (p : ThreadPool) (before : List (List ℕ)) (queue : List ℕ) (t : ℕ) (after : List (List ℕ))
      → p.workers ≡ before ++ ((queue ++ (t ∷ [])) ∷ after)
      → Step p (record p { workers = before ++ (queue ∷ after); running = t ∷ p.running })
  ran :
      (p : ThreadPool) (before : List ℕ) (t : ℕ) (after : List ℕ) {q : ThreadPool}
      → p.running ≡ before ++ (t ∷ after)
      → execute p t (before ++ after) ≡ some q
      → Step p q

pub data Reach (p : ThreadPool) : ThreadPool → Type 0 where
  here : Reach p p
  next : {q r : ThreadPool} → Reach p q → Step q r → Reach p r
