-- ===== src/EventLoop/Tests.antt =====
-- A queue that is a list.
use yy.EventLoop.Pending.{put_by, do_pending_functions_loses}
use yy.EventLoop.Wakeup.{System, leaving, Reach, IsStranded, submit_strands}
use yy.EventLoop.{FunctionQueue, EventLoop, do_pending_functions, initial}
use yy.Prelude.{ℕ, ◌+◌, ◌≡◌, refl, false, Option, none, some, List, [], ◌∷◌, ◌++◌, replicate}

take_first : List ℕ → Option (ℕ × List ℕ)
take_first [] = none
take_first (t ∷ rest) = some (t, rest)

take_empty : (q : List ℕ) → q ≡ [] → take_first q ≡ none
unfolding take_first
take_empty q e = rw e

take_next :
    (q : List ℕ) (t : ℕ) (rest : List ℕ)
    → q ≡ t ∷ rest
    → (q' : List ℕ) × (take_first q ≡ some (t, q')) × (q' ≡ rest)
unfolding take_first
take_next q t rest e = (rest, rw e, refl)

abbrev list_queue : FunctionQueue ℕ
list_queue = record {
  Queue = List ℕ;
  held = λ q. q;
  enqueue = λ t q. q ++ (t ∷ []);
  try_dequeue = take_first;
  try_dequeue-empty = take_empty;
  try_dequeue-first = take_next;
  held-enqueue = λ t q. refl;
}

abbrev loop_of : List ℕ → EventLoop list_queue
loop_of functions = record { status = initial; functions = functions; done = []; signals = 0 }

-- A function that puts its successor into the queue.
abbrev next_of : ℕ → List ℕ
next_of t = (t + 1) ∷ []

abbrev add_next : ℕ → List ℕ → List ℕ
add_next t q = q ++ next_of t

do_pending_functions_loses_example :
    ((do_pending_functions list_queue add_next
        (loop_of (replicate 100 1 ++ (7 ∷ 8 ∷ [])))).functions
      ≡ 8 ∷ put_by next_of (replicate 100 1))
    × ((do_pending_functions list_queue add_next (loop_of (replicate 100 1 ++ (7 ∷ 8 ∷ [])))).done
        ≡ replicate 100 1)
do_pending_functions_loses_example =
    do_pending_functions_loses list_queue add_next next_of (λ t q. refl)
      (loop_of (replicate 100 1 ++ (7 ∷ 8 ∷ []))) (replicate 100 1) 7 (8 ∷ []) refl refl

abbrev drained_loop : System
drained_loop = record { place = leaving; waiting = 0; signalled = false; behind = false }

submit_strands_example : (t : System) × Reach drained_loop t × IsStranded t
submit_strands_example = submit_strands drained_loop refl refl refl
