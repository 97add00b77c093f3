-- ===== src/TimerQueue/Tests.antt =====
-- A small queue: timer 1 has three runs and is due, timer 2 runs for ever and is due, timer 3 is not
-- due.
use mathlib.Core.Path.{subst}
use yy.Prelude.{
  ℕ, ◌<◌, ◌≡◌, refl, sym, ◌∙◌, inl, inr, true, false, ◌||◌, none, some, [], ◌∷◌, arith, ◌>>=◌, ◌==◌,
  if◌then◌else◌, ℤ, pos, negsuc, Bool, Bool-cases, ltb, update,
}
use yy.TimerQueue.Due.{due_at, is_earlier, is_later, get_due_tasks_lem}
use yy.TimerQueue.Insert.{set_insert-IsQueue, insert_in_loop_lem, first_interval}
use yy.TimerQueue.Order.{
  has-set_insert, and_false, keep_if, set_insert-IsSorted, or_cases, same_entry_sound,
}
use yy.TimerQueue.Run.{has_timer}
use yy.TimerQueue.Runs.{IsHandled, handler_read_lem}
use yy.TimerQueue.Valid.{IsQueue, LeavesAlone}
use yy.TimerQueue.Stale.{runs_early, everyone}
use yy.TimerQueue.{
  Callback, Timer, Entry, TimerQueue, same_entry, less, has, set_insert, get_due_tasks,
  handler_read, insert_in_loop, entry_of,
}

abbrev first : Entry
first = record { time = 10; timer = 1 }

abbrev second : Entry
second = record { time = 20; timer = 2 }

abbrev third : Entry
third = record { time = 90; timer = 3 }

abbrev timer_of : ℕ → ℤ → ℕ → Timer
timer_of interval count expiration = record {
  interval = interval;
  execute_count = count;
  expiration = expiration;
}

abbrev timers : ℕ → Timer
timers t =
    if t == 1
    then timer_of 1000 (pos 3) 10
    else (if t == 2
        then timer_of 5 (negsuc 0) 20
        else (if t == 3 then timer_of 7 (pos 1) 90 else timer_of 4 (pos 1) 60))

abbrev queue : TimerQueue
queue = record { entries = first ∷ second ∷ third ∷ []; timers = timers; fired = []; armed = none }

-- An entry of the queue is one of the three.
case_of :
    (P : Entry → Type 0)
    → P first
    → P second
    → P third
    → (a : Entry) → has a queue.entries ≡ true
    → P a
unfolding has
case_of P x y z a h = elim (or_cases (same_entry a first) _ h) [
  | inl s ↦ subst P (sym (same_entry_sound a first s)) x
  | inr r ↦ elim (or_cases (same_entry a second) _ r) [
    | inl s ↦ subst P (sym (same_entry_sound a second s)) y
    | inr t ↦ elim (or_cases (same_entry a third) _ t) [
      | inl s ↦ subst P (sym (same_entry_sound a third s)) z
      | inr n ↦ cc n
    ]
  ]
]

ApartFrom : (x : Entry) → Entry → Type 0
ApartFrom x b = x.timer ≡ b.timer → x ≡ b

queue-IsQueue : IsQueue queue
unfolding has less same_entry set_insert ApartFrom
queue-IsQueue = record {
  sorted =
      set_insert-IsSorted first (second ∷ third ∷ [])
        (set_insert-IsSorted second (third ∷ []) (set_insert-IsSorted third [] tt));
  real = case_of (λ a. 0 < a.timer) (omega arith) (omega arith) (omega arith);
  once = λ a b ha hb.
      case_of (λ x. ApartFrom x b)
        (case_of (ApartFrom first) (λ e. refl) (λ e. absurd (omega arith))
          (λ e. absurd (omega arith)) b hb)
        (case_of (ApartFrom second) (λ e. absurd (omega arith)) (λ e. refl)
          (λ e. absurd (omega arith)) b hb)
        (case_of (ApartFrom third) (λ e. absurd (omega arith)) (λ e. absurd (omega arith))
          (λ e. refl) b hb)
        a ha;
}

get_due_tasks_lem_example : get_due_tasks 50 queue ≡ (
    if due_at 50 queue.entries
    then none
    else some (
      keep_if (is_earlier 50) queue.entries,
      record queue { entries = keep_if (is_later 50) queue.entries },
    ))
get_due_tasks_lem_example = get_due_tasks_lem 50 queue queue-IsQueue.sorted queue-IsQueue.real

-- The callback of timer 1 makes timer 9, anew for each call, to be run at 200, and inserts it where it
-- has none.
abbrev adds_timer : Callback
adds_timer t q =
    if has_timer 9 q.entries
    then some q
    else some (record q {
      timers = update q.timers 9 (timer_of 4 (pos 1) 200);
      entries = set_insert (record { time = 200; timer = 9 }) q.entries;
    })

-- The timers below 9
abbrev below_nine : ℕ → Bool
below_nine t = ltb t 9

other_timer : (a e : Entry) → e.timer ≡ 9 → below_nine a.timer ≡ true → same_entry a e ≡ false
unfolding same_entry
other_timer a e nine k =
    let f : (a.timer == e.timer) ≡ false = ground arith in rw f (and_false (a.time == e.time))

adds_timer-LeavesAlone : LeavesAlone below_nine adds_timer
adds_timer-LeavesAlone t q w = elim (Bool-cases (has_timer 9 q.entries)) [
  | inl h ↦ (
    q,
    rw h refl,
    record { same_fired = refl; same_timers = λ u k. refl; same_entries = λ a k. refl; queue = w },
  )
  | inr n ↦
      let e : Entry = record { time = 200; timer = 9 } in
      (
        record q {
          timers = update q.timers 9 (timer_of 4 (pos 1) 200);
          entries = set_insert e q.entries;
        },
        rw n refl,
        record {
          same_fired = refl;
          same_timers = λ u k. let f : (u == 9) ≡ false = ground arith in rw f refl;
          same_entries = λ a k.
              has-set_insert a e q.entries
              ∙ (let f : same_entry a e ≡ false = other_timer a e refl k in rw f refl);
          queue = set_insert-IsQueue e q w (omega arith) n;
        },
      )
]

handler_read_lem_example :
    (q' : TimerQueue) × (handler_read adds_timer (λ r. true) 1 (λ t. 51) 50 queue ≡ some q')
    × IsHandled below_nine (λ t. 51) 50 queue q'
unfolding due_at
handler_read_lem_example =
    handler_read_lem below_nine adds_timer (λ r. true) (λ t. 51) 50 queue adds_timer-LeavesAlone
      (λ t. refl) queue-IsQueue (case_of (λ a. below_nine a.timer ≡ true) refl refl refl) refl

-- A callback that does nothing to the queue.
abbrev does_nothing : Callback
does_nothing t q = some q

does_nothing-LeavesAlone : (known : ℕ → Bool) → LeavesAlone known does_nothing
does_nothing-LeavesAlone known t q w = (
  q,
  refl,
  record { same_fired = refl; same_timers = λ u k. refl; same_entries = λ a k. refl; queue = w },
)

-- The interval of the timer is 1000, and it runs again at 52.
runs_early_example :
    (q' : TimerQueue) × ((handler_read does_nothing (λ r. true) 1 (λ t. 51) 50 queue
        >>= handler_read does_nothing (λ r. true) 1 (λ t. 53) 52)
      ≡ some q')
    × ((q'.timers 1).execute_count ≡ pos 1)
unfolding due_at has same_entry
runs_early_example =
    runs_early does_nothing (does_nothing-LeavesAlone everyone) (λ r. true) (λ t. refl) (λ t. 51) 50
      queue queue-IsQueue refl first 1 refl (omega arith) refl (λ t. 53) 52 (omega arith) refl

insert_in_loop_lem_example :
    (q' : TimerQueue) × (insert_in_loop (λ r. true) 1 4 queue ≡ some q')
    × IsQueue q'
    × ((a : Entry) → has a q'.entries ≡ (same_entry a (entry_of timers 4) || has a queue.entries))
    × (q'.armed ≡ first_interval timers q'.entries)
unfolding has_timer
insert_in_loop_lem_example =
    insert_in_loop_lem (λ r. true) 4 queue (λ t. refl) queue-IsQueue (omega arith) refl
