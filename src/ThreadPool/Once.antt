-- ===== src/ThreadPool/Once.antt =====
-- How the steps of the threads keep the tasks apart, and where they do not.
use mathlib.Core.Option.{some-injective}
use mathlib.Core.Path.{subst}
use yy.Prelude.{
  ℕ, ◌+◌, ◌≡◌, refl, ap, ◌∙◌, inl, inr, true, false, some, List, [], ◌∷◌, ◌++◌, arith, ◌==◌,
  Bool-cases, Option-cases, update, ==_iff, pos, append_assoc,
}
use yy.ThreadPool.Places.{
  one, count, count_all, places, count-append, count_all-append, count_all-try_add_task,
}
use yy.ThreadPool.{
  ThreadPool, TaskStatus, unknown, dependency, pending, is_dependency, submit, dep_submit,
  add_dependency, enqueue_task, release, execute, resolve, enqueue_ready, try_add_task, decrement,
  is_zero, Step, submitted, dep_submitted, dependency_added, local_taken, global_taken, stolen, ran,
  Reach, here, next,
}

-- How often a task of this status is in the pool.
abbrev pub due : TaskStatus → ℕ
due unknown = 0
due dependency = 0
due pending = 1

-- A task that is pending is in one place, and any other in none.
abbrev pub IsKept : ThreadPool → Type 0
IsKept p = (t : ℕ) → places t p ≡ due (p.status t)

dependency_of : (s : TaskStatus) → is_dependency s ≡ true → s ≡ dependency
dependency_of unknown h = cc h
dependency_of dependency h = refl
dependency_of pending h = cc h

due-update :
    (status : ℕ → TaskStatus) (t u : ℕ)
    → due (status t) ≡ 0
    → due (update status t pending u) ≡ due (status u) + one u t
due-update status t u h = elim (Bool-cases (u == t)) [
  | inl e ↦
      let same = (==_iff u t).0 e in
      let e' : (t == u) ≡ true = ground arith in
      let z : due (status u) ≡ 0 = ap (λ (v : ℕ). due (status v)) same ∙ h in
      rw (e, e', z) (omega arith)
  | inr n ↦ let n' : (t == u) ≡ false = ground arith in rw (n, n') (omega arith)
]

submit-IsKept : (p : ThreadPool) (t : ℕ) → p.status t ≡ unknown → IsKept p → IsKept (submit p t)
unfolding submit enqueue_task
submit-IsKept p t fresh k u =
    let d = due-update p.status t u (ap due fresh) in
    elim (Option-cases (try_add_task p.workers t)) [
      | inl e ↦ rw (e, submit) (omega (arith, d, k u, count-append u p.global_queue (t ∷ [])))
      | inr (ws, e) ↦ rw (e, submit) (omega (arith, d, k u, count_all-try_add_task u p.workers t e))
    ]

dep_submit-IsKept :
    (p : ThreadPool) (t : ℕ) → p.status t ≡ unknown → IsKept p → IsKept (dep_submit p t)
unfolding dep_submit
dep_submit-IsKept p t fresh k u = elim (Bool-cases (u == t)) [
  | inl e ↦ rw e (k u ∙ ap due (ap p.status ((==_iff u t).0 e) ∙ fresh))
  | inr n ↦ rw n (k u)
]

resolve-IsKept : (p : ThreadPool) (d : ℕ) → IsKept p → IsKept (resolve d p)
unfolding resolve
resolve-IsKept p d k = k

enqueue_ready-IsKept :
    (p : ThreadPool) (d : ℕ)
    → is_dependency (p.status d) ≡ true
    → IsKept p
    → IsKept (enqueue_ready d p)
unfolding enqueue_task enqueue_ready
enqueue_ready-IsKept p d h k u = elim (Bool-cases (is_zero (p.unresolved_dependencies d))) [
  | inl z ↦ rw z (
      omega (
        arith,
        due-update p.status d u (ap due (dependency_of (p.status d) h)),
        k u,
        count-append u p.global_queue (d ∷ []),
      ))
  | inr nz ↦ rw nz (k u)
]

resolve_status : (p : ThreadPool) (d : ℕ) → (resolve d p).status d ≡ p.status d
unfolding resolve
resolve_status p d = refl

release-IsKept :
    (ds : List ℕ) (p : ThreadPool) {q : ThreadPool} → IsKept p → release ds p ≡ some q → IsKept q
unfolding release
release-IsKept [] p k e = subst IsKept (some-injective _ _ e) k
release-IsKept (d ∷ ds) p k e = elim (Bool-cases (is_dependency (p.status d))) [
  | inr f ↦ cc (rw f at e)
  | inl t ↦
      release-IsKept ds (enqueue_ready d (resolve d p))
        (enqueue_ready-IsKept (resolve d p) d (ap is_dependency (resolve_status p d) ∙ t)
          (resolve-IsKept p d k))
        (rw t at e)
]

-- Taking a task from where it stands, and giving it to the running ones, or from these to the
-- executed, leaves it in one place.
moved :
    (u t : ℕ) (xs : List ℕ) (before after : List ℕ)
    → xs ≡ before ++ (t ∷ after)
    → count u xs ≡ count u (before ++ after) + one u t
moved u t xs before after e =
    rw e (omega (arith, count-append u before (t ∷ after), count-append u before after))

moved_all :
    (u t : ℕ) (qs before : List (List ℕ)) (q q' : List ℕ) (after : List (List ℕ))
    → qs ≡ before ++ (q ∷ after)
    → count u q ≡ count u q' + one u t
    → count_all u qs ≡ count_all u (before ++ (q' ∷ after)) + one u t
moved_all u t qs before q q' after e c = rw e (
    omega (arith, c, count_all-append u before (q ∷ after), count_all-append u before (q' ∷ after)))

execute-IsKept :
    (p : ThreadPool) (before : List ℕ) (t : ℕ) (after : List ℕ) {q : ThreadPool}
    → IsKept p
    → p.running ≡ before ++ (t ∷ after)
    → execute p t (before ++ after) ≡ some q
    → IsKept q
unfolding execute
execute-IsKept p before t after k at e =
    release-IsKept (p.dependents t)
      (record p { running = before ++ after; executed = p.executed ++ (t ∷ []) })
      (λ u.
        omega (arith, k u, moved u t p.running before after at, count-append u p.executed (t ∷ [])))
      e

pub Step-IsKept : {p q : ThreadPool} → Step p q → IsKept p → IsKept q
unfolding add_dependency
Step-IsKept (submitted p t fresh) k = submit-IsKept p t fresh k
Step-IsKept (dep_submitted p t fresh) k = dep_submit-IsKept p t fresh k
Step-IsKept (dependency_added p t d) k = k
Step-IsKept (local_taken p before t queue after e) k =
    λ u. omega (arith, k u, moved_all u t p.workers before (t ∷ queue) queue after e (omega arith))
Step-IsKept (global_taken p before t after e) k =
    λ u. omega (arith, k u, moved u t p.global_queue before after e)
Step-IsKept (stolen p before queue t after e) k = λ u. omega (
  arith,
  k u,
  moved_all u t p.workers before (queue ++ (t ∷ [])) queue after e
      (omega (arith, count-append u queue (t ∷ []))),
)
Step-IsKept (ran p before t after at e) k = execute-IsKept p before t after k at e

-- Whatever the threads do, in whatever order, if the loops over the dependents of two tasks do not
-- overlap: from a pool in which every pending task stands in one
-- place and every other task in none, a pool is reached in which this holds too. The places are the
-- local queues, the global queue, the running and the executed tasks; so a task that is ready is
-- never lost and never runs twice, and one that waits does not run.
pub Reach-places :
    {p q : ThreadPool} → IsKept p → Reach p q → (t : ℕ) → places t q ≡ due (q.status t)
Reach-places k here = k
Reach-places k (next r s) = Step-IsKept s (Reach-places k r)

resolved_twice :
    (p : ThreadPool) (d : ℕ)
    → p.unresolved_dependencies d ≡ pos 2
    → (resolve d (resolve d p)).unresolved_dependencies d ≡ pos 0
unfolding resolve decrement
resolved_twice p d two = let same : (d == d) ≡ true = (==_iff d d).1 refl in rw (same, two) refl

abbrev queued : ℕ → ThreadPool → ThreadPool
queued d p = enqueue_task (record p { status = update p.status d pending }) d

enqueue_ready_zero :
    (d : ℕ) (p : ThreadPool) → p.unresolved_dependencies d ≡ pos 0 → enqueue_ready d p ≡ queued d p
unfolding is_zero enqueue_ready enqueue_task
enqueue_ready_zero d p none_left = rw (none_left, enqueue_ready) refl

-- When the loops over the dependents of two tasks overlap, and a task waits for just these two: both
-- count it down before either looks at the count, both then find zero, and the task is queued twice.
pub overlap_queues_twice :
    (p : ThreadPool) (d : ℕ)
    → p.unresolved_dependencies d ≡ pos 2
    → (enqueue_ready d (enqueue_ready d (resolve d (resolve d p)))).global_queue
      ≡ p.global_queue ++ (d ∷ d ∷ [])
unfolding enqueue_task enqueue_ready resolve
overlap_queues_twice p d two =
    let q = resolve d (resolve d p) in
    let zero_left = resolved_twice p d two in
    let first = enqueue_ready_zero d q zero_left in
    let second = enqueue_ready_zero d (queued d q) zero_left in
    rw first (
      ap (λ (r : ThreadPool). r.global_queue) second
      ∙ append_assoc q.global_queue (d ∷ []) (d ∷ []))
