-- ===== src/TimerWheel/Tests.antt =====
-- The wheel with 4 slots of one second, and runs of the properties.
use yy.Prelude.{ℕ, ◌+◌, ◌<◌, ◌≡◌, refl, Option, none, some, List, [], ◌∷◌, arith, pos, to_int}
use yy.TimerWheel.{
  TimerWheel, Timer, Node, forever, init, insert, tick, fire, execute, remains, walk,
}
use yy.TimerWheel.Walk.{In, count}
use yy.TimerWheel.Due.{IsTurning, due}
use yy.TimerWheel.Runs.{run, insert_fires, fire_again, advanced}

-- A timer of six seconds without end, and one of four seconds that runs twice.
abbrev six : Timer
six = record { interval = 6; execute_count = forever }

abbrev four : Timer
four = record { interval = 4; execute_count = pos 2 }

abbrev six_wheel : TimerWheel
six_wheel = init 4 1 (λ _. six)

abbrev four_wheel : TimerWheel
four_wheel = init 4 1 (λ _. four)

after : Option TimerWheel → Option (List ℕ)
after (some w) = some w.fired
after none = none

six_waits : after (run 6 (insert six_wheel 0)) ≡ some []
unfolding after run insert tick walk init to_int
six_waits = refl

six_fires : after (run 7 (insert six_wheel 0)) ≡ some (0 ∷ [])
unfolding after run insert tick walk init fire execute remains to_int
six_fires = refl

-- The first call is after four ticks, the second eight ticks later.
four_waits : after (run 12 (insert four_wheel 0)) ≡ some (0 ∷ [])
unfolding after run insert tick walk init fire execute remains to_int
four_waits = refl

four_fires : after (run 13 (insert four_wheel 0)) ≡ some (0 ∷ 0 ∷ [])
unfolding after run insert tick walk init fire execute remains to_int
four_fires = refl

or_else : Option TimerWheel → TimerWheel → TimerWheel
or_else (some w) d = w
or_else none d = d

six_before : TimerWheel
six_before = or_else (run 6 (insert six_wheel 0)) six_wheel

six_after : TimerWheel
six_after = or_else (tick six_before) six_wheel

six_ran : run 6 (insert six_wheel 0) ≡ some six_before
unfolding six_before or_else run insert tick walk init fire execute remains to_int
six_ran = refl

six_ticked : tick six_before ≡ some six_after
unfolding six_after six_before or_else run insert tick walk init fire execute remains to_int
six_ticked = refl

six_IsTurning : IsTurning six_wheel
unfolding init to_int
six_IsTurning = record { cur_lt = omega arith }

four_IsTurning : IsTurning four_wheel
unfolding init to_int
four_IsTurning = record { cur_lt = omega arith }

insert_fires_example : count 0 six_before.fired < count 0 six_after.fired
unfolding init to_int
insert_fires_example = insert_fires six_wheel 0 six_IsTurning six_ran six_ticked

four_after : TimerWheel
four_after = or_else (fire four_wheel 0) four_wheel

four_fired : fire four_wheel 0 ≡ some four_after
unfolding four_after or_else insert init fire execute remains to_int
four_fired = refl

fire_again_example :
    (n : Node) × (s : ℕ) × In n (four_after.slots s)
    × (n.timer ≡ 0)
    × (due (advanced four_after) n s + 1 ≡ 8)
unfolding init to_int
fire_again_example = fire_again four_wheel 0 0 four_IsTurning refl four_fired

six_inserted : TimerWheel
six_inserted = insert six_wheel 0

six_next : TimerWheel
six_next = or_else (tick six_inserted) six_wheel

six_next_ticked : tick six_inserted ≡ some six_next
unfolding six_next six_inserted or_else insert tick walk init to_int
six_next_ticked = refl
