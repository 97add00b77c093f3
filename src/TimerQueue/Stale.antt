-- ===== src/TimerQueue/Stale.antt =====
-- What follows from an entry that keeps its old time when its timer has run.
use yy.Prelude.{
  ℕ, suc, ◌+◌, ◌≤◌, ◌<◌, ◌≡◌, refl, sym, ap, ◌∙◌, inl, inr, Bool, true, false, ◌||◌, none, some,
  List, map, [], ◌∷◌, ◌++◌, arith, ◌==◌, Bool-cases, ◌>>=◌, ℤ, pos, negsuc, lt→ltb,
}
use yy.TimerQueue.Due.{due_at, is_earlier, is_later}
use yy.TimerQueue.Order.{
  keep_if, has-keep_if, and_left, and_right, or_cases, or_left, or_right, same_entry_sound,
  same_entry_refl,
}
use yy.TimerQueue.Run.{by_count, is_again, is_left, ran, ran_by}
use yy.TimerQueue.Runs.{IsHandled, handler_read_lem}
use yy.TimerQueue.Valid.{IsQueue, LeavesAlone, AllKnown}
use yy.TimerQueue.{
  Callback, Timer, Entry, TimerQueue, same_entry, has, handler_read, entry_of, cancel_timer_in_loop,
  is_nonzero, spent,
}

due_at_find :
    (now : ℕ) (xs : List Entry)
    → due_at now xs ≡ true
    → (a : Entry) × (has a xs ≡ true) × (a.time ≡ now)
unfolding due_at has
due_at_find now [] h = cc h
due_at_find now (x ∷ xs) h = elim (or_cases (x.time == now) (due_at now xs) h) [
  | inl e ↦ (x, or_left (same_entry x x) (has x xs) (same_entry_refl x), ground arith)
  | inr m ↦ let (a, ha, e) = due_at_find now xs m in (a, or_right (same_entry a x) (has a xs) ha, e)
]

due_at-has :
    (now : ℕ) (a : Entry) (xs : List Entry) → has a xs ≡ true → a.time ≡ now → due_at now xs ≡ true
unfolding due_at has
due_at-has now a [] h e = cc h
due_at-has now a (x ∷ xs) h e = elim (or_cases (same_entry a x) (has a xs) h) [
  | inl s ↦
      let same = same_entry_sound a x s in
      or_left (x.time == now) (due_at now xs)
        (let t : x.time ≡ now = sym (ap Entry.time same) ∙ e in ground arith)
  | inr m ↦ or_right (x.time == now) (due_at now xs) (due_at-has now a xs m e)
]

subset_due_at :
    (now : ℕ) (xs ys : List Entry)
    → ((a : Entry) → has a ys ≡ true → has a xs ≡ true)
    → due_at now xs ≡ false
    → due_at now ys ≡ false
subset_due_at now xs ys sub free = elim (Bool-cases (due_at now ys)) [
  | inl t ↦ let (a, m, e) = due_at_find now ys t in cc (sym free ∙ due_at-has now a xs (sub a m) e)
  | inr f ↦ f
]

ran_count :
    (now n : ℕ) (t : Timer)
    → t.execute_count ≡ pos (suc n)
    → ran now t ≡ record t { execute_count = pos n; expiration = now + t.interval }
unfolding ran_by
ran_count now n t e = ap (λ (z : ℤ). ran_by z now t) e

again_count : (z : ℤ) (k : ℕ) → z ≡ pos (suc (suc k)) → is_again z ≡ true
unfolding is_again is_nonzero
again_count z k e = rw e

-- Every timer is among them.
abbrev pub everyone : ℕ → Bool
everyone t = true

module _ (callback : Callback) (alone : LeavesAlone everyone callback) (settime : Timer → Bool)
    (works : (t : Timer) → settime t ≡ true) (clock : ℕ → ℕ) (now : ℕ) (q : TimerQueue)
    (w : IsQueue q) (free : due_at now q.entries ≡ false) (a : Entry) (k : ℕ)
    (m : has a q.entries ≡ true) (early : a.time < now)
    (count : (q.timers a.timer).execute_count ≡ pos (suc (suc k))) where
  -- The timer has run once, and its entry is still in the set.
  first_run :
      (q' : TimerQueue) × (handler_read callback settime 1 clock now q ≡ some q')
      × IsHandled everyone clock now q q'
      × (has a q'.entries ≡ true)
      × (q'.timers a.timer ≡ record (q.timers a.timer) {
        execute_count = pos (suc k);
        expiration = clock a.timer + (q.timers a.timer).interval;
      })
  first_run =
      let (q', e, h) =
        handler_read_lem everyone callback settime clock now q alone works w (λ b hb. refl) free in
      let t : is_earlier now a ≡ true = lt→ltb a.time now early in
      (
        q',
        e,
        h,
        h.kept a refl
            ∙ rw (m, t, again_count (q.timers a.timer).execute_count k count)
                (or_right (is_later now a) true refl),
        h.turns a m ∙ rw t (ran_count (clock a.timer) (suc k) (q.timers a.timer) count),
      )

  -- A timer with two or more runs left that has run keeps its entry at the old time. So at the next
  -- `handlerRead`, for whatever timer and however soon it comes, it runs again, whatever its interval:
  -- both calls go through, and two runs are gone. No timer is due exactly at either time,
  -- `timerfd_settime` succeeds, and the callbacks leave the timers and the entries alone.
  pub runs_early :
      (clock' : ℕ → ℕ) (now' : ℕ)
      → now ≤ now'
      → due_at now' q.entries ≡ false
      → (q'' : TimerQueue) × ((handler_read callback settime 1 clock now q
            >>= handler_read callback settime 1 clock' now')
          ≡ some q'')
        × ((q''.timers a.timer).execute_count ≡ pos k)
  runs_early clock' now' later free' =
      let (q', e, h, m', t') = first_run in
      let free2 =
        subset_due_at now' q.entries q'.entries (λ b hb. and_left _ _ (sym (h.kept b refl) ∙ hb))
          free' in
      let (q'', e2, h2) =
        handler_read_lem everyone callback settime clock' now' q' alone works h.queue (λ b hb. refl)
          free2 in
      let t2 : is_earlier now' a ≡ true = lt→ltb a.time now' (omega arith) in
      let c' : (q'.timers a.timer).execute_count ≡ pos (suc k) = ap Timer.execute_count t' in
      let turn2 : q''.timers a.timer ≡ ran (clock' a.timer) (q'.timers a.timer) =
        h2.turns a m' ∙ rw t2 refl in
      (
        q'',
        rw e e2,
        ap Timer.execute_count turn2
            ∙ ap Timer.execute_count (ran_count (clock' a.timer) k (q'.timers a.timer) c'),
      )

  -- A timer that has run and has runs left cannot be cancelled: its entry has the old time, and the
  -- assertion of `cancelTimerInLoop` fails.
  pub cancel_fails :
      now ≤ clock a.timer
      → (q' : TimerQueue) × (handler_read callback settime 1 clock now q ≡ some q')
        × (cancel_timer_in_loop a.timer q' ≡ none)
  unfolding cancel_timer_in_loop
  cancel_fails ended =
      let (q', e, h, m', t') = first_run in
      let key = entry_of q'.timers a.timer in
      let absent : has key q'.entries ≡ false = elim (Bool-cases (has key q'.entries)) [
        | inl t ↦
            let same : key.time ≡ a.time = ap Entry.time (h.queue.once key a t m' refl) in
            let stamp : key.time ≡ clock a.timer + (q.timers a.timer).interval =
              ap Timer.expiration t' in
            absurd (omega arith)
        | inr f ↦ f
      ] in
      (q', e, rw absent)

-- Whether a timer is among those that were called.
unfoldable called : ℕ → List ℕ → Bool
called t [] = false
called t (x ∷ xs) = (x == t) || called t xs

called-append : (t : ℕ) (xs ys : List ℕ) → called t (xs ++ ys) ≡ (called t xs || called t ys)
unfolding called
called-append t [] ys = refl
called-append t (x ∷ xs) ys = elim (Bool-cases (x == t)) [
  | inl e ↦ rw e
  | inr n ↦ rw n (called-append t xs ys)
]

or_none : (b : Bool) → (b || false) ≡ b
or_none true = refl
or_none false = refl

called_find :
    (t : ℕ) (xs : List Entry)
    → called t (map Entry.timer xs) ≡ true
    → (b : Entry) × (has b xs ≡ true) × (b.timer ≡ t)
unfolding called has
called_find t [] h = cc h
called_find t (x ∷ xs) h = elim (or_cases (x.timer == t) (called t (map Entry.timer xs)) h) [
  | inl e ↦ (x, or_left (same_entry x x) (has x xs) (same_entry_refl x), ground arith)
  | inr m ↦ let (b, hb, e) = called_find t xs m in (b, or_right (same_entry b x) (has b xs) hb, e)
]

-- A timer that is to run for ever is never called: its count is not positive, so when it is due
-- `handlerRead` takes it out of the queue without a call. The callbacks leave the timers that are known
-- alone, and all of the queue are.
forever_dropped :
    (known : ℕ → Bool) (callback : Callback) (settime : Timer → Bool) (clock : ℕ → ℕ) (now : ℕ)
    (q : TimerQueue) (a : Entry) (n : ℕ)
    → LeavesAlone known callback
    → ((t : Timer) → settime t ≡ true)
    → IsQueue q
    → AllKnown known q.entries
    → due_at now q.entries ≡ false
    → has a q.entries ≡ true
    → a.time < now
    → (q.timers a.timer).execute_count ≡ negsuc n
    → (q' : TimerQueue) × (handler_read callback settime 1 clock now q ≡ some q')
      × (has a q'.entries ≡ false)
      × (called a.timer q'.fired ≡ called a.timer q.fired)
      × (q'.timers a.timer ≡ q.timers a.timer)
unfolding is_again ran_by spent
forever_dropped known callback settime clock now q a n alone works w ks free m early count =
    let (q', e, h) = handler_read_lem known callback settime clock now q alone works w ks free in
    let t : is_earlier now a ≡ true = lt→ltb a.time now early in
    let f : is_later now a ≡ false = ground arith in
    let due = keep_if (is_earlier now) q.entries in
    let uncalled : called a.timer (map Entry.timer (keep_if (by_count is_left q.timers) due))
        ≡ false =
      elim (Bool-cases
        (called a.timer (map Entry.timer (keep_if (by_count is_left q.timers) due)))) [
          | inl c ↦
              let (b, hb, same) = called_find a.timer (keep_if (by_count is_left q.timers) due) c in
              let in_due = sym (has-keep_if (by_count is_left q.timers) b due) ∙ hb in
              let in_q = sym (has-keep_if (is_earlier now) b q.entries) ∙ and_left _ _ in_due in
              let left = and_right (has b due) (by_count is_left q.timers b) in_due in
              let eq : b ≡ a = w.once b a (and_left _ _ in_q) m same in
              cc (sym left ∙ ap (by_count is_left q.timers) eq ∙ ap is_left count)
          | inr u ↦ u
        ] in
    (
      q',
      e,
      h.kept a (ks a m) ∙ rw (m, t, f, count),
      ap (called a.timer) h.fired_lem
          ∙ called-append a.timer q.fired _
          ∙ ap (λ (b : Bool). called a.timer q.fired || b) uncalled
          ∙ or_none (called a.timer q.fired),
      h.turns a m ∙ rw t (ap (λ (z : ℤ). ran_by z (clock a.timer) (q.timers a.timer)) count),
    )
