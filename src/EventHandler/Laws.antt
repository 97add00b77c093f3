-- ===== src/EventHandler/Laws.antt =====
-- What the calls of a handler do to its events, and to what the poller watches for it.
use yy.Event.Laws.{add_lem, remove_lem}
use yy.Event.{has_event}
use yy.EventHandler.{
  EventHandler, added, update, set_flag, cancel_flag, set_reading, cancel_reading, set_writing,
  cancel_writing, set_except, cancel_except, set_reading_and_except, cancel_reading_and_except,
  disable_all, is_writing, is_reading, is_except,
}
use mathlib.Core.Path.{subst}
use yy.Prelude.{
  ℕ, ◌^◌, ◌<◌, ◌≡◌, refl, Bool, true, false, Option, some, List, [], ◌∷◌, arith, ◌==◌,
  if◌then◌else◌, ◌>>=◌,
}

-- A handler that is registered: the poller watches just what the handler asks for.
pub record IsListening (h : EventHandler) : Type 0 where
  pub is_added : h.status ≡ added
  pub watches : h.watched ≡ some h.events
  pub valid : h.events < 512

pub set_flag_lem :
    (h : EventHandler) (i : ℕ)
    → i < 9
    → IsListening h
    → (h' : EventHandler) × (set_flag (2 ^ i) h ≡ some h')
      × IsListening h'
      × ((j : ℕ)
          → j < 9
          → has_event h'.events (2 ^ j) ≡ (if i == j then true else has_event h.events (2 ^ j)))
unfolding set_flag update
set_flag_lem h i hi l =
    let (e, eq, lt, has) = add_lem h.events i l.valid hi in
    (
      record h { events = e; watched = some e },
      rw (eq, l.is_added, l.watches),
      record { is_added = l.is_added; watches = refl; valid = lt },
      has,
    )

pub cancel_flag_lem :
    (h : EventHandler) (i : ℕ)
    → i < 9
    → IsListening h
    → (h' : EventHandler) × (cancel_flag (2 ^ i) h ≡ some h')
      × IsListening h'
      × ((j : ℕ)
          → j < 9
          → has_event h'.events (2 ^ j) ≡ (if i == j then false else has_event h.events (2 ^ j)))
unfolding cancel_flag update
cancel_flag_lem h i hi l =
    let (e, eq, lt, has) = remove_lem h.events i l.valid hi in
    (
      record h { events = e; watched = some e },
      rw (eq, l.is_added, l.watches),
      record { is_added = l.is_added; watches = refl; valid = lt },
      has,
    )

-- The calls that change what a handler asks for.
pub data Op : Type 0 where
  reading_on reading_off writing_on writing_off except_on except_off both_on both_off all_off : Op

unfoldable pub step : Op → EventHandler → Option EventHandler
step reading_on h = set_reading h
step reading_off h = cancel_reading h
step writing_on h = set_writing h
step writing_off h = cancel_writing h
step except_on h = set_except h
step except_off h = cancel_except h
step both_on h = set_reading_and_except h
step both_off h = cancel_reading_and_except h
step all_off h = disable_all h

unfoldable pub run : List Op → EventHandler → Option EventHandler
run [] h = some h
run (op ∷ ops) h = step op h >>= run ops

-- The specification: three switches.
pub record Switches : Type 0 where
  pub read : Bool
  pub except : Bool
  pub write : Bool

unfoldable pub turn : Op → Switches → Switches
turn reading_on s = record s { read = true }
turn reading_off s = record s { read = false }
turn writing_on s = record s { write = true }
turn writing_off s = record s { write = false }
turn except_on s = record s { except = true }
turn except_off s = record s { except = false }
turn both_on s = record s { read = true; except = true }
turn both_off s = record s { read = false; except = false }
turn all_off s = record { read = false; except = false; write = false }

unfoldable pub turn_all : List Op → Switches → Switches
turn_all [] s = s
turn_all (op ∷ ops) s = turn_all ops (turn op s)

abbrev pub switches : EventHandler → Switches
switches h = record { read = is_reading h; except = is_except h; write = is_writing h }

-- Of the flags of a changed handler, the three that are switches.
changed : EventHandler → ℕ → Bool → Switches
changed h i b = record {
  read = if i == 0 then b else is_reading h;
  except = if i == 1 then b else is_except h;
  write = if i == 2 then b else is_writing h;
}

switches-changed :
    (h h' : EventHandler) (i : ℕ) (b : Bool)
    → ((j : ℕ)
        → j < 9
        → has_event h'.events (2 ^ j) ≡ (if i == j then b else has_event h.events (2 ^ j)))
    → switches h' ≡ changed h i b
unfolding changed
switches-changed h h' i b has = λ k. record {
  read = has 0 (omega arith) k;
  except = has 1 (omega arith) k;
  write = has 2 (omega arith) k;
}

abbrev Stepped : (EventHandler → Option EventHandler) → EventHandler → Switches → Type 0
Stepped f h s = (h' : EventHandler) × (f h ≡ some h') × IsListening h' × (switches h' ≡ s)

set_flag-Stepped :
    (h : EventHandler) (i : ℕ)
    → i < 9
    → IsListening h
    → Stepped (set_flag (2 ^ i)) h (changed h i true)
set_flag-Stepped h i hi l =
    let (h', e, l', has) = set_flag_lem h i hi l in (h', e, l', switches-changed h h' i true has)

cancel_flag-Stepped :
    (h : EventHandler) (i : ℕ)
    → i < 9
    → IsListening h
    → Stepped (cancel_flag (2 ^ i)) h (changed h i false)
cancel_flag-Stepped h i hi l =
    let (h', e, l', has) = cancel_flag_lem h i hi l in
    (h', e, l', switches-changed h h' i false has)

then_lem :
    (f g : EventHandler → Option EventHandler) (h : EventHandler) {s t : Switches}
    → Stepped f h s
    → ((h' : EventHandler) → IsListening h' → switches h' ≡ s → Stepped g h' t)
    → Stepped (λ h0. f h0 >>= g) h t
then_lem f g h (h', e, l', q) next = let (h2, e2, l2, q2) = next h' l' q in (h2, rw (e, e2), l2, q2)

read_after :
    (f : EventHandler → Option EventHandler) (b : Bool) {h : EventHandler} {s : Switches}
    → switches h ≡ s
    → Stepped f h (record { read = b; except = is_except h; write = is_writing h })
    → Stepped f h (record { read = b; except = s.except; write = s.write })
read_after f b {h} q st =
    subst (λ (s : Switches). Stepped f h (record { read = b; except = s.except; write = s.write }))
      q st

step_lem : (op : Op) (h : EventHandler) → IsListening h → Stepped (step op) h (turn op (switches h))
unfolding step turn changed set_reading cancel_reading set_writing cancel_writing set_except
    cancel_except set_reading_and_except cancel_reading_and_except disable_all update has_event
step_lem reading_on h l = set_flag-Stepped h 0 (omega arith) l
step_lem reading_off h l = cancel_flag-Stepped h 0 (omega arith) l
step_lem writing_on h l = set_flag-Stepped h 2 (omega arith) l
step_lem writing_off h l = cancel_flag-Stepped h 2 (omega arith) l
step_lem except_on h l = set_flag-Stepped h 1 (omega arith) l
step_lem except_off h l = cancel_flag-Stepped h 1 (omega arith) l
step_lem both_on h l =
    then_lem set_except set_reading h (set_flag-Stepped h 1 (omega arith) l)
      (λ h' l' q. read_after set_reading true q (set_flag-Stepped h' 0 (omega arith) l'))
step_lem both_off h l =
    then_lem cancel_except cancel_reading h (cancel_flag-Stepped h 1 (omega arith) l)
      (λ h' l' q. read_after cancel_reading false q (cancel_flag-Stepped h' 0 (omega arith) l'))
step_lem all_off h l = (
  record h { events = 0; watched = some 0 },
  rw (l.is_added, l.watches),
  record { is_added = l.is_added; watches = refl; valid = omega arith },
  refl,
)

-- On a handler that is registered with valid events: every sequence of the calls that change what it
-- asks for goes through, the poller then watches exactly what the handler asks for, and the three
-- flags stand as if each call had turned just its own switches.
pub run_lem :
    (ops : List Op) (h : EventHandler)
    → IsListening h
    → Stepped (run ops) h (turn_all ops (switches h))
unfolding run turn_all
run_lem [] h l = (h, refl, l, refl)
run_lem (op ∷ ops) h l =
    then_lem (step op) (run ops) h (step_lem op h l) (λ h' l' q. rw (← q) (run_lem ops h' l'))

-- What is used of these by the owner of a handler.
pub set_writing_lem :
    (h : EventHandler)
    → IsListening h
    → (h' : EventHandler) × (set_writing h ≡ some h') × IsListening h' × (is_writing h' ≡ true)
unfolding set_writing
set_writing_lem h l =
    let (h', e, l', has) = set_flag_lem h 2 (omega arith) l in (h', e, l', has 2 (omega arith))

pub cancel_writing_lem :
    (h : EventHandler)
    → IsListening h
    → (h' : EventHandler) × (cancel_writing h ≡ some h') × IsListening h' × (is_writing h' ≡ false)
unfolding cancel_writing
cancel_writing_lem h l =
    let (h', e, l', has) = cancel_flag_lem h 2 (omega arith) l in (h', e, l', has 2 (omega arith))
