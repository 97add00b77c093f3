-- ===== src/EventLoop.antt =====
-- Net/src/EventLoop.cpp and Net/include/EventLoop.h: the status of a loop, the functions that wait for
-- it, and its rounds. The queue is that of Common/concurrentqueue.h, a library of its own, which is a
-- parameter: `held` is the order in which it gives its elements out. What a function does is its
-- effect on the queue; it is recorded in `done`. `none` is a failed assertion.
pub mod Pending
pub mod Wakeup
mod Tests
use yy.Prelude.{
  ℕ, zero, suc, ◌+◌, ◌-◌, ◌≡◌, Bool, true, false, not, ◌&&◌, ◌||◌, Option, none, some, List, [],
  ◌∷◌, ◌++◌, if◌then◌else◌, ◌>>=◌, ◌>>◌, assert,
}

-- The bits of `status_`.
pub record Status : Type 0 where
  pub init : Bool
  pub looping : Bool
  pub event_handling : Bool
  pub pending_functions : Bool
  pub quited : Bool

unfoldable pub check_event_loop_status : Status → Bool
check_event_loop_status s =
    if s.event_handling && s.pending_functions
    then false
    else not (s.init && (s.looping || s.event_handling || s.pending_functions || s.quited))

abbrev pub initial : Status
initial = record {
  init = true;
  looping = false;
  event_handling = false;
  pending_functions = false;
  quited = false;
}

-- `moodycamel::ConcurrentQueue`, as one thread at a time calls it.
pub record FunctionQueue (T : Type 0) : Type 1 where
  pub Queue : Type 0
  pub held : Queue → List T
  pub enqueue : T → Queue → Queue
  pub try_dequeue : Queue → Option (T × Queue)
  pub try_dequeue-empty : (q : Queue) → held q ≡ [] → try_dequeue q ≡ none
  pub try_dequeue-first :
      (q : Queue) (t : T) (rest : List T)
      → held q ≡ t ∷ rest
      → (q' : Queue) × (try_dequeue q ≡ some (t, q')) × (held q' ≡ rest)
  pub held-enqueue : (t : T) (q : Queue) → held (enqueue t q) ≡ held q ++ (t ∷ [])

-- `wakeup` of a status: whether it writes to the descriptor that ends a wait.
unfoldable pub wakes : Status → Bool
wakes s = not s.event_handling && not s.pending_functions

abbrev pub max_finish_num : ℕ
max_finish_num = 100

module _ {T : Type 0} (queue : FunctionQueue T) where
  open queue use {Queue, enqueue, try_dequeue}

  pub record EventLoop : Type 0 where
    pub status : Status
    pub functions : Queue
    pub done : List T
    pub signals : ℕ

  unfoldable pub wakeup : EventLoop → EventLoop
  unfolding wakes
  wakeup l = if wakes l.status then record l { signals = l.signals + 1 } else l

  -- `DelayedExecution`, and `submit` from another thread
  unfoldable pub delayed_execution : T → EventLoop → EventLoop
  unfolding wakeup
  delayed_execution t l = wakeup (record l { functions = enqueue t l.functions })

  abbrev pub call : (T → Queue → Queue) → T → EventLoop → EventLoop
  call effect t l = record l { functions = effect t l.functions; done = l.done ++ (t ∷ []) }

  unfoldable pub submit : (T → Queue → Queue) → Bool → T → EventLoop → EventLoop
  unfolding delayed_execution
  submit effect in_loop t l = if in_loop then call effect t l else delayed_execution t l

  -- `while(FunctionList_.try_dequeue(cb) && FinishNum < 100)`, with the functions that may still run.
  unfoldable pub pending_loop : (T → Queue → Queue) → ℕ → EventLoop → EventLoop
  pending_loop effect zero l = elim (try_dequeue l.functions) [
    | none ↦ l
    | some (t, q) ↦ record l { functions = q }
  ]
  pending_loop effect (suc left) l = elim (try_dequeue l.functions) [
    | none ↦ l
    | some (t, q) ↦ pending_loop effect left (call effect t (record l { functions = q }))
  ]

  abbrev pub with_pending : EventLoop → Bool → EventLoop
  with_pending l b = record l { status = record (l.status) { pending_functions = b } }

  unfoldable pub do_pending_functions : (T → Queue → Queue) → EventLoop → EventLoop
  unfolding pending_loop
  do_pending_functions effect l =
      let l' = pending_loop effect max_finish_num (with_pending l true) in with_pending l' false

  -- `loop` from its start to its first round
  unfoldable pub start : EventLoop → Option EventLoop
  unfolding check_event_loop_status
  start l =
      let s : Status = record (l.status) { init = false; looping = true } in
      (do assert (check_event_loop_status s); some (record l { status = s }))

  -- A round of `loop`, where `handle` is what the handlers do that `poll` has found active.
  unfoldable pub round :
      (T → Queue → Queue) → (EventLoop → Option EventLoop) → EventLoop → Option EventLoop
  unfolding check_event_loop_status do_pending_functions
  round effect handle l =
      let l1 : EventLoop = record l { status = record (l.status) { event_handling = true } } in
      (do
        assert (check_event_loop_status l1.status)
        l2 ← handle l1
        assert l2.status.event_handling
        some (
            do_pending_functions effect
              (record l2 { status = record (l2.status) { event_handling = false } })))

  -- `quit`, but for the function that it submits
  unfoldable pub quit : EventLoop → Option EventLoop
  unfolding check_event_loop_status
  quit l = do assert (check_event_loop_status l.status); some (record l { signals = l.signals + 1 })
