-- ===== src/TimerQueue/Insert.antt =====
-- insertInLoop: the new entry, and the time for which the descriptor is set.
use yy.Prelude.{
  ℕ, ◌<◌, ◌≡◌, refl, sym, ap, ◌∙◌, inl, inr, Bool, true, false, ◌||◌, Option, none, some, List, [],
  ◌∷◌, arith, Bool-cases,
}
use yy.TimerQueue.Order.{
  has-set_insert, set_insert-IsSorted, or_cases, or_left, same_entry_sound, same_entry_refl,
}
use yy.TimerQueue.Run.{has_timer, has-has_timer}
use yy.TimerQueue.Valid.{IsQueue, IsOnce}
use yy.TimerQueue.{
  Timer, Entry, TimerQueue, same_entry, has, set_insert, insert_in_loop, modify_timerfd, entry_of,
}

-- The interval of the timer that stands first.
unfoldable pub first_interval : (ℕ → Timer) → List Entry → Option ℕ
first_interval timers [] = none
first_interval timers (x ∷ xs) = some (timers x.timer).interval

absent :
    (t : ℕ) (e : Entry) (xs : List Entry) → has_timer t xs ≡ false → e.timer ≡ t → has e xs ≡ false
absent t e xs none_there at_t = elim (Bool-cases (has e xs)) [
  | inl y ↦ cc (sym none_there ∙ sym (ap (λ (k : ℕ). has_timer k xs) at_t) ∙ has-has_timer e xs y)
  | inr f ↦ f
]

IsOnce-more :
    (e : Entry) (xs : List Entry)
    → has_timer e.timer xs ≡ false
    → IsOnce xs
    → IsOnce (set_insert e xs)
IsOnce-more e xs none_there o a b ha hb same =
    elim (or_cases (same_entry a e) (has a xs) (sym (has-set_insert a e xs) ∙ ha)) [
      | inl ae ↦ elim (or_cases (same_entry b e) (has b xs) (sym (has-set_insert b e xs) ∙ hb)) [
        | inl be ↦ same_entry_sound a e ae ∙ sym (same_entry_sound b e be)
        | inr mb ↦ cc (
            sym
              (absent e.timer b xs none_there (sym same ∙ ap Entry.timer (same_entry_sound a e ae)))
            ∙ mb)
      ]
      | inr ma ↦ elim (or_cases (same_entry b e) (has b xs) (sym (has-set_insert b e xs) ∙ hb)) [
        | inl be ↦ cc (
            sym (absent e.timer a xs none_there (same ∙ ap Entry.timer (same_entry_sound b e be)))
            ∙ ma)
        | inr mb ↦ o a b ma mb same
      ]
    ]

-- One entry more, of a timer that has none.
pub set_insert-IsQueue :
    (e : Entry) (q : TimerQueue) {timers : ℕ → Timer} {fired : List ℕ} {armed : Option ℕ}
    → IsQueue q
    → 0 < e.timer
    → has_timer e.timer q.entries ≡ false
    → IsQueue
        (record { entries = set_insert e q.entries; timers = timers; fired = fired; armed = armed })
set_insert-IsQueue e q w real new = record {
  sorted = set_insert-IsSorted e q.entries w.sorted;
  real = λ a h.
      elim (or_cases (same_entry a e) (has a q.entries) (sym (has-set_insert a e q.entries) ∙ h)) [
        | inl s ↦ let at_t = ap Entry.timer (same_entry_sound a e s) in omega arith
        | inr m ↦ w.real a m
      ];
  once = IsOnce-more e q.entries new w.once;
}

arm :
    (settime : Timer → Bool) (es : List Entry) (q : TimerQueue)
    → ((t : Timer) → settime t ≡ true)
    → (a : Option ℕ) × (modify_timerfd settime 1 (record q { entries = es })
        ≡ some (record q { entries = es; armed = a }))
      × ((e : Entry) → has e es ≡ true → a ≡ first_interval q.timers es)
unfolding modify_timerfd first_interval has
arm settime [] q works = (q.armed, refl, λ e h. cc h)
arm settime (x ∷ xs) q works =
    (some (q.timers x.timer).interval, rw (works (q.timers x.timer)), λ e h. refl)

-- `insertInLoop` of a timer that has no entry yet, on a queue in order, when `timerfd_settime`
-- succeeds: the queue has one entry more, the one of the timer at its time, and is in order. The
-- descriptor is set anew for the whole interval of the timer that stands first, from this moment on,
-- also if that timer had stood first for long.
pub insert_in_loop_lem :
    (settime : Timer → Bool) (t : ℕ) (q : TimerQueue)
    → ((r : Timer) → settime r ≡ true)
    → IsQueue q
    → 0 < t
    → has_timer t q.entries ≡ false
    → (q' : TimerQueue) × (insert_in_loop settime 1 t q ≡ some q')
      × IsQueue q'
      × ((a : Entry) → has a q'.entries ≡ (same_entry a (entry_of q.timers t) || has a q.entries))
      × (q'.armed ≡ first_interval q.timers q'.entries)
unfolding insert_in_loop
insert_in_loop_lem settime t q works w real new =
    let e = entry_of q.timers t in
    let es = set_insert e q.entries in
    let (armed, r, set) = arm settime es q works in
    let none_there : has e q.entries ≡ false = absent t e q.entries new refl in
    (
      record q { entries = es; armed = armed },
      rw none_there r,
      set_insert-IsQueue e q w real new,
      λ a. has-set_insert a e q.entries,
      set e (
          has-set_insert e e q.entries
          ∙ or_left (same_entry e e) (has e q.entries) (same_entry_refl e)),
    )
