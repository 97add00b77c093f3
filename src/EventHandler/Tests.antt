-- ===== src/EventHandler/Tests.antt =====
-- Runs of a handler.
use yy.Event.{read_event, has_event}
use yy.EventHandler.Laws.{
  IsListening, Op, run, step, turn_all, switches, run_lem, writing_on, both_on, reading_off,
}
use yy.EventHandler.{
  EventHandler, added, set_writing, cancel_reading, set_reading_and_except, is_reading_and_except,
}
use yy.Prelude.{◌≡◌, refl, true, some, List, [], ◌∷◌, arith}

-- registered for reading
abbrev reader : EventHandler
reader = record { status = added; events = read_event; watched = some read_event }

reader-IsListening : IsListening reader
reader-IsListening = record { is_added = refl; watches = refl; valid = omega arith }

abbrev ops : List Op
ops = writing_on ∷ both_on ∷ reading_off ∷ []

run-reader : run ops reader ≡ some (record reader { events = 6; watched = some 6 })
unfolding run step set_writing set_reading_and_except cancel_reading
run-reader = refl

-- Only reading is asked for.
either : is_reading_and_except reader ≡ true
unfolding has_event
either = refl

run_lem_example :
    (h' : EventHandler) × (run ops reader ≡ some h')
    × IsListening h'
    × (switches h' ≡ turn_all ops (switches reader))
run_lem_example = run_lem ops reader reader-IsListening
