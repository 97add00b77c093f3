-- ===== src/TimerQueue/Runs.antt =====
-- handlerRead as a whole, on a queue in order.
use mathlib.Core.Path.{subst}
use yy.Prelude.{
  ℕ, ◌≡◌, refl, sym, ap, ◌∙◌, ◌⊎◌, inl, inr, Bool, true, false, ◌&&◌, ◌||◌, some, List, map, [],
  ◌∷◌, ◌++◌, arith, ◌==◌, if◌then◌else◌, Bool-cases,
}
use yy.TimerQueue.Due.{due_at, is_earlier, is_later, get_due_tasks_lem}
use yy.TimerQueue.Order.{
  IsSorted, keep_if, has-keep_if, keep_if-IsSorted, insert_all-IsSorted, has-insert_all, and_left,
  and_right, or_cases, or_left, or_right, same_entry_refl, less_irrefl,
}
use yy.TimerQueue.Run.{IsSingle, has_timer, run_due_lem, by_count, is_again, is_left, ran, IsRun}
use yy.TimerQueue.Valid.{IsOnce, IsQueue, LeavesAlone, AllKnown}
use yy.TimerQueue.{
  Callback, Timer, Entry, TimerQueue, same_entry, has, less, handler_read, insert_all,
  modify_timerfd,
}

shuffle : (h e r l : Bool) → ((h && e) && r || (h && l)) ≡ (h && (l || (e && r)))
shuffle h e r l = ground arith

find_timer :
    (t : ℕ) (xs : List Entry)
    → has_timer t xs ≡ true
    → (a : Entry) × (has a xs ≡ true) × (a.timer ≡ t)
unfolding has has_timer
find_timer t [] h = cc h
find_timer t (x ∷ xs) h = elim (or_cases (x.timer == t) (has_timer t xs) h) [
  | inl e ↦ (x, or_left (same_entry x x) (has x xs) (same_entry_refl x), ground arith)
  | inr m ↦ let (a, ha, e) = find_timer t xs m in (a, or_right (same_entry a x) (has a xs) ha, e)
]

IsOnce-IsSingle : (xs : List Entry) → IsSorted xs → IsOnce xs → IsSingle xs
unfolding has
IsOnce-IsSingle [] s o = tt
IsOnce-IsSingle (x ∷ xs) (above, s) o = (
  elim (Bool-cases (has_timer x.timer xs)) [
    | inl t ↦
        let (a, m, e) = find_timer x.timer xs t in
        let same : x ≡ a =
          o x a (or_left _ _ (same_entry_refl x)) (or_right (same_entry a x) (has a xs) m)
            (sym e) in
        cc (sym (less_irrefl x) ∙ ap (λ (y : Entry). less x y) same ∙ above a m)
    | inr f ↦ f
  ],
  IsOnce-IsSingle xs s (λ a b ha hb. o a b (or_right _ _ ha) (or_right _ _ hb)),
)

subset-IsOnce :
    (xs ys : List Entry) → ((a : Entry) → has a ys ≡ true → has a xs ≡ true) → IsOnce xs → IsOnce ys
subset-IsOnce xs ys sub o a b ha hb = o a b (sub a ha) (sub b hb)

-- Whether an entry stays in the queue: it is not due yet, or its timer has two or more runs left.
abbrev pub stays : ℕ → TimerQueue → Entry → Bool
stays now q a = is_later now a || (is_earlier now a && by_count is_again q.timers a)

module _ (known : ℕ → Bool) (clock : ℕ → ℕ) (now : ℕ) (q : TimerQueue) (w : IsQueue q)
    (ks : AllKnown known q.entries) (not_now : due_at now q.entries ≡ false) where
  abbrev due : List Entry
  due = keep_if (is_earlier now) q.entries

  abbrev later : List Entry
  later = keep_if (is_later now) q.entries

  due-IsSingle : IsSingle due
  due-IsSingle = IsOnce-IsSingle due (keep_if-IsSorted (is_earlier now) q.entries w.sorted) (
      subset-IsOnce q.entries due
        (λ a h. and_left _ _ (sym (has-keep_if (is_earlier now) a q.entries) ∙ h)) w.once)

  due-AllKnown : AllKnown known due
  due-AllKnown a h = ks a (and_left _ _ (sym (has-keep_if (is_earlier now) a q.entries) ∙ h))

  timers_once : (a : Entry) → has a q.entries ≡ true → is_earlier now a ≡ true → has a due ≡ true
  timers_once a m e = has-keep_if (is_earlier now) a q.entries ∙ rw (m, e)

  -- The timer of an entry that is not due has no entry that is.
  not_due :
      (a : Entry)
      → has a q.entries ≡ true
      → is_earlier now a ≡ false
      → has_timer a.timer due ≡ false
  not_due a m e = elim (Bool-cases (has_timer a.timer due)) [
    | inl t ↦
        let (b, hb, same) = find_timer a.timer due t in
        let both = sym (has-keep_if (is_earlier now) b q.entries) ∙ hb in
        let eq : b ≡ a = w.once b a (and_left _ _ both) m same in
        cc (
          sym e
          ∙ ap (is_earlier now) (sym eq)
          ∙ and_right (has b q.entries) (is_earlier now b) both)
    | inr f ↦ f
  ]

  module _ (q2 : TimerQueue) (r : IsRun known clock due (record q { entries = later }) q2) where
    abbrev next_entries : List Entry
    next_entries = insert_all (keep_if (by_count is_again q.timers) due) q2.entries

    has-next_entries :
        (a : Entry)
        → has a next_entries ≡ (
            (has a q.entries && is_earlier now a) && by_count is_again q.timers a
            || has a q2.entries)
    has-next_entries a =
        has-insert_all a (keep_if (by_count is_again q.timers) due) q2.entries
        ∙ ap (λ (b : Bool). b || has a q2.entries)
            (has-keep_if (by_count is_again q.timers) a due
              ∙ ap (λ (b : Bool). b && by_count is_again q.timers a)
                  (has-keep_if (is_earlier now) a q.entries))

    known_next :
        (a : Entry) → known a.timer ≡ true → has a next_entries ≡ (has a q.entries && stays now q a)
    known_next a k =
        has-next_entries a
        ∙ ap
            (λ (b : Bool).
              (has a q.entries && is_earlier now a) && by_count is_again q.timers a || b)
            (r.same_entries a k ∙ has-keep_if (is_later now) a q.entries)
        ∙ shuffle (has a q.entries) (is_earlier now a) (by_count is_again q.timers a)
            (is_later now a)

    -- An entry is from the queue before, with a timer that is known, or a callback inserted it.
    next_from :
        (a : Entry)
        → has a next_entries ≡ true
        → (has a q.entries ≡ true) ⊎ (has a q2.entries ≡ true)
    next_from a h = elim (or_cases _ (has a q2.entries) (sym (has-next_entries a) ∙ h)) [
      | inl m ↦ inl (and_left _ _ (and_left _ _ m))
      | inr m ↦ inr m
    ]

    in_known :
        (a : Entry) → known a.timer ≡ true → has a next_entries ≡ true → has a q.entries ≡ true
    in_known a k h = and_left _ _ (sym (known_next a k) ∙ h)

    in_new :
        (a : Entry) → known a.timer ≡ false → has a next_entries ≡ true → has a q2.entries ≡ true
    in_new a k h = elim (next_from a h) [ inl m ↦ cc (sym k ∙ ks a m) | inr m ↦ m ]

    next-IsOnce : IsOnce next_entries
    next-IsOnce a b ha hb same = elim (Bool-cases (known a.timer)) [
      | inl t ↦ w.once a b (in_known a t ha) (in_known b (ap known (sym same) ∙ t) hb) same
      | inr f ↦ r.queue.once a b (in_new a f ha) (in_new b (ap known (sym same) ∙ f) hb) same
    ]

    handled-IsQueue : (q' : TimerQueue) → q'.entries ≡ next_entries → IsQueue q'
    handled-IsQueue q' e = record {
      sorted = subst IsSorted (sym e) (
          insert_all-IsSorted (keep_if (by_count is_again q.timers) due) q2.entries r.queue.sorted);
      real = λ a h. elim (next_from a (sym (ap (has a) e) ∙ h)) [
        | inl m ↦ w.real a m
        | inr m ↦ r.queue.real a m
      ];
      once = subst IsOnce (sym e) next-IsOnce;
    }

    turn_lem :
        (a : Entry)
        → has a q.entries ≡ true
        → q2.timers a.timer
          ≡ (if is_earlier now a then ran (clock a.timer) (q.timers a.timer) else q.timers a.timer)
    turn_lem a m = elim (Bool-cases (is_earlier now a)) [
      | inl e ↦ rw e (r.turns a (timers_once a m e))
      | inr n ↦ rw n (r.others a.timer (ks a m) (not_due a m n))
    ]

abbrev SameQueue : TimerQueue → TimerQueue → Type 0
SameQueue q' r = (q'.entries ≡ r.entries) × (q'.timers ≡ r.timers) × (q'.fired ≡ r.fired)

-- When `timerfd_settime` succeeds, one round is enough.
modify_works :
    (settime : Timer → Bool) (es : List Entry) (r : TimerQueue)
    → ((t : Timer) → settime t ≡ true)
    → r.entries ≡ es
    → (q' : TimerQueue) × (modify_timerfd settime 1 (record r { entries = es }) ≡ some q')
      × SameQueue q' (record r { entries = es })
unfolding modify_timerfd
modify_works settime [] r works e = (record r { entries = [] }, refl, (refl, refl, refl))
modify_works settime (x ∷ xs) r works e = (
  record r { entries = x ∷ xs; armed = some (r.timers x.timer).interval },
  rw (works (r.timers x.timer)),
  (refl, refl, refl),
)

-- What `handlerRead` makes of a queue, for the timers that are known.
pub record IsHandled (known : ℕ → Bool) (clock : ℕ → ℕ) (now : ℕ) (q q' : TimerQueue) : Type 0 where
  pub queue : IsQueue q'
  pub kept :
      (a : Entry) → known a.timer ≡ true → has a q'.entries ≡ (has a q.entries && stays now q a)
  pub turns :
      (a : Entry)
      → has a q.entries ≡ true
      → q'.timers a.timer
        ≡ (if is_earlier now a then ran (clock a.timer) (q.timers a.timer) else q.timers a.timer)
  pub fired_lem :
      q'.fired
      ≡ q.fired
        ++ map Entry.timer
            (keep_if (by_count is_left q.timers) (keep_if (is_earlier now) q.entries))

-- `handlerRead` on a queue in order, when no timer is due exactly now and `timerfd_settime` succeeds.
-- The timers of the queue are among those that are known, and the callbacks leave these and their
-- entries alone; they may make other timers, insert and cancel them. Then it goes through. Exactly the
-- timers with a positive count whose entry is before now are called, in the order of the entries, and
-- their counts and times move on. Of the entries of known timers exactly those stay that are after now,
-- or whose timer had two or more runs left; and the queue is in order again.
pub handler_read_lem :
    (known : ℕ → Bool) (callback : Callback) (settime : Timer → Bool) (clock : ℕ → ℕ) (now : ℕ)
    (q : TimerQueue)
    → LeavesAlone known callback
    → ((t : Timer) → settime t ≡ true)
    → IsQueue q
    → AllKnown known q.entries
    → due_at now q.entries ≡ false
    → (q' : TimerQueue) × (handler_read callback settime 1 clock now q ≡ some q')
      × IsHandled known clock now q q'
unfolding handler_read
handler_read_lem known callback settime clock now q alone works w ks not_now =
    let q1 : TimerQueue = record q { entries = keep_if (is_later now) q.entries } in
    let due = keep_if (is_earlier now) q.entries in
    let w1 : IsQueue q1 = record {
      sorted = keep_if-IsSorted (is_later now) q.entries w.sorted;
      real = λ a h. w.real a (and_left _ _ (sym (has-keep_if (is_later now) a q.entries) ∙ h));
      once =
          subset-IsOnce q.entries q1.entries
            (λ a h. and_left _ _ (sym (has-keep_if (is_later now) a q.entries) ∙ h)) w.once;
    } in
    let (q2, e2, r) =
      run_due_lem known callback alone clock due [] q1 w1
        (due-AllKnown known clock now q w ks not_now)
        (due-IsSingle known clock now q w ks not_now) in
    let next = next_entries known clock now q w ks not_now q2 r in
    let (q3, e3, s) = modify_works settime next (record q2 { entries = next }) works refl in
    (
      q3,
      rw (get_due_tasks_lem now q w.sorted w.real, not_now) (rw e2 e3),
      record {
        queue = handled-IsQueue known clock now q w ks not_now q2 r q3 s.0;
        kept = λ a k. ap (has a) s.0 ∙ known_next known clock now q w ks not_now q2 r a k;
        turns = λ a m.
            ap (λ (f : ℕ → Timer). f a.timer) s.1
            ∙ turn_lem known clock now q w ks not_now q2 r a m;
        fired_lem = s.2 ∙ r.fired_lem;
      },
    )
