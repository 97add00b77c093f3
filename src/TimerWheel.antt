-- ===== src/TimerWheel.antt =====
-- Net/include/TimerWheel.h and Net/src/TimerWheel.cpp, with the timers of Net/include/Timer.h, as the
-- loop thread runs them. A slot is the list of the nodes that its chain of `next` pointers holds;
-- the timers that nodes share stand in a store, by their identity. A callback is recorded in `fired`,
-- in the order of the calls, and does nothing to the wheel. Intervals are not negative, and `si` and
-- `max_slots`, by which the code divides, are positive.
pub mod Walk
pub mod Due
pub mod Runs
mod Tests
use yy.Prelude.{
  ℕ, zero, suc, ◌+◌, ◌-◌, ◌/◌, ◌%◌, Bool, true, false, Option, none, some, List, [], ◌∷◌, ◌++◌, ltb,
  if◌then◌else◌, update, ◌>>=◌, ℤ, pos, negsuc, ◌>>◌, to_int,
}

pub record Timer : Type 0 where
  pub interval : ℕ
  pub execute_count : ℤ

pub record Node : Type 0 where
  pub timer : ℕ
  pub rotation : ℕ
  pub time_slot : ℕ

pub record TimerWheel : Type 0 where
  pub max_slots : ℕ
  pub si : ℕ
  pub cur_slot : ℕ
  pub slots : ℕ → List Node
  pub timers : ℕ → Timer
  pub fired : List ℕ

-- `BaseTimer::FOREVER`
abbrev pub forever : ℤ
forever = negsuc 0

-- How often the wheel has to tick for an interval, which is cast to `int` first: `timeout`.
abbrev pub ticks_of : ℕ → ℕ → ℕ
ticks_of si interval = elim (to_int interval) [
  | pos timeout ↦ if ltb timeout si then 1 else timeout / si
  | negsuc n ↦ 1
]

abbrev pub timer_ticks : TimerWheel → ℕ → ℕ
timer_ticks w t = ticks_of w.si (w.timers t).interval

abbrev pub new_node : TimerWheel → ℕ → Node
new_node w t = record {
  timer = t;
  rotation = timer_ticks w t / w.max_slots;
  time_slot = (w.cur_slot + timer_ticks w t % w.max_slots) % w.max_slots;
}

pub init : ℕ → ℕ → (ℕ → Timer) → TimerWheel
init max_slots si timers = record {
  max_slots = max_slots;
  si = si;
  cur_slot = 0;
  slots = λ _. [];
  timers = timers;
  fired = [];
}

unfoldable pub insert : TimerWheel → ℕ → TimerWheel
insert w t =
    let node = new_node w t in
    record w { slots = update w.slots node.time_slot (node ∷ w.slots node.time_slot) }

-- The count of `Timer::execute`; `none` is its assertion.
unfoldable pub execute : ℤ → Option ℤ
execute (pos zero) = none
execute (pos (suc n)) = some (pos n)
execute (negsuc zero) = some (negsuc zero)
execute (negsuc (suc n)) = some (negsuc (suc (suc n)))

-- `remain_count() > 0`
unfoldable pub remains : ℤ → Bool
remains (pos zero) = false
remains (pos (suc n)) = true
remains (negsuc n) = false

abbrev pub executed : TimerWheel → ℕ → ℤ → TimerWheel
executed w t count = record w {
  timers = update w.timers t (record (w.timers t) { execute_count = count });
  fired = w.fired ++ (t ∷ []);
}

-- What `tick` does for a node whose turn has come, but for taking it out of its slot.
unfoldable pub fire : TimerWheel → ℕ → Option TimerWheel
fire w t = do
  count ← execute (w.timers t).execute_count
  some (if remains count then insert (executed w t count) t else executed w t count)

abbrev pub keep : TimerWheel → Node → TimerWheel
keep w n = record w { slots = update w.slots w.cur_slot (w.slots w.cur_slot ++ (n ∷ [])) }

-- The loop of `tick` over the nodes that are left of the chain; the slot holds those that stay, and
-- in front of them those that are inserted meanwhile.
unfoldable pub walk : List Node → TimerWheel → Option TimerWheel
walk [] w = some w
walk (n ∷ rest) w =
    let kept = walk rest (keep w (record n { rotation = n.rotation - 1 })) in
    if ltb 0 n.rotation then kept else (fire w n.timer >>= λ w'. walk rest w')

unfoldable pub tick : TimerWheel → Option TimerWheel
tick w = walk (w.slots w.cur_slot) (record w { slots = update w.slots w.cur_slot [] }) >>= λ w'.
    some (record w' { cur_slot = (w'.cur_slot + 1) % w'.max_slots })
