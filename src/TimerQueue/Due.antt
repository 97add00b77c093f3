-- ===== src/TimerQueue/Due.antt =====
-- getDueTasks: which timers are due.
use yy.Prelude.{
  ℕ, ◌<◌, ◌≡◌, refl, sym, ap, ◌∙◌, ◌⊎◌, inl, inr, Bool, true, false, ◌||◌, none, some, List, [],
  ◌∷◌, arith, ltb, ◌==◌, if◌then◌else◌, Bool-cases,
}
use yy.TimerQueue.Order.{IsSorted, keep_if, or_left, or_right, same_entry_refl}
use yy.TimerQueue.{
  Entry, TimerQueue, less, same_entry, has, before, upper_bound, all_later, get_due_tasks,
}

abbrev pub is_earlier : ℕ → Entry → Bool
is_earlier now e = ltb e.time now

abbrev pub is_later : ℕ → Entry → Bool
is_later now e = ltb now e.time

-- Whether some entry is due exactly now.
unfoldable pub due_at : ℕ → List Entry → Bool
due_at now [] = false
due_at now (x ∷ xs) = (x.time == now) || due_at now xs

abbrev pub AllReal : List Entry → Type 0
AllReal xs = (a : Entry) → has a xs ≡ true → 0 < a.timer

abbrev sentry : ℕ → Entry
sentry now = record { time = now; timer = 0 }

AllReal-tail : (x : Entry) (xs : List Entry) → AllReal (x ∷ xs) → AllReal xs
unfolding has
AllReal-tail x xs real a h = real a (or_right (same_entry a x) (has a xs) h)

AllReal-head : (x : Entry) (xs : List Entry) → AllReal (x ∷ xs) → 0 < x.timer
unfolding has
AllReal-head x xs real = real x (or_left (same_entry x x) (has x xs) (same_entry_refl x))

-- All behind an entry that is later are later.
keep_later :
    (now : ℕ) (x : Entry) (xs : List Entry)
    → now < x.time
    → IsSorted (x ∷ xs)
    → (keep_if (is_earlier now) (x ∷ xs) ≡ [])
      × (keep_if (is_later now) (x ∷ xs) ≡ x ∷ xs)
      × (due_at now (x ∷ xs) ≡ false)
unfolding keep_if due_at has less
keep_later now x [] l s =
    (rw (let f : ltb x.time now ≡ false = ground arith in f), ground arith, ground arith)
keep_later now x (y ∷ ys) l (above, s) =
    let ly : now < y.time = let h = above y (or_left _ _ (same_entry_refl y)) in ground arith in
    let (e, k, d) = keep_later now y ys ly s in
    let f : ltb x.time now ≡ false = ground arith in
    let t : ltb now x.time ≡ true = ground arith in
    let n : (x.time == now) ≡ false = ground arith in
    (rw f e, rw t (ap (λ (r : List Entry). x ∷ r) k), rw n d)

abbrev Parts : ℕ → List Entry → Type 0
Parts now xs =
    (due_at now xs ≡ false
      → (before (sentry now) xs ≡ keep_if (is_earlier now) xs)
        × (upper_bound (sentry now) xs ≡ keep_if (is_later now) xs)
        × (all_later now (upper_bound (sentry now) xs) ≡ true))
    × (due_at now xs ≡ true → all_later now (upper_bound (sentry now) xs) ≡ false)

module _ (now : ℕ) (x : Entry) (xs : List Entry) where
  Parts-earlier : x.time < now → Parts now xs → Parts now (x ∷ xs)
  unfolding before upper_bound all_later keep_if due_at less
  Parts-earlier h (yes_parts, no_parts) =
      let l : less (sentry now) x ≡ false = ground arith in
      let n : (x.time == now) ≡ false = ground arith in
      let t : ltb x.time now ≡ true = ground arith in
      let f : ltb now x.time ≡ false = ground arith in
      rw (l, n, t, f)
        ((λ d. let (b, u, a) = yes_parts d in (ap (λ (r : List Entry). x ∷ r) b, u, a)), no_parts)

  Parts-at : x.time ≡ now → 0 < x.timer → Parts now (x ∷ xs)
  unfolding before upper_bound all_later keep_if due_at less
  Parts-at e real =
      let l : less (sentry now) x ≡ true = ground arith in
      let n : (x.time == now) ≡ true = ground arith in
      let f : ltb now x.time ≡ false = ground arith in rw (l, n) ((λ h. cc h), λ h. f)

  Parts-later : now < x.time → IsSorted (x ∷ xs) → Parts now (x ∷ xs)
  unfolding before upper_bound all_later less
  Parts-later h s =
      let (e, k, d) = keep_later now x xs h s in
      let l : less (sentry now) x ≡ true = ground arith in
      let t : ltb now x.time ≡ true = ground arith in
      (
        (λ _. (rw l (sym e), rw l (sym k), rw l t)),
        λ (due : due_at now (x ∷ xs) ≡ true). cc (sym d ∙ due),
      )

three_ways : (a b : ℕ) → (a < b) ⊎ ((a ≡ b) ⊎ (b < a))
three_ways a b = grind arith

parts : (now : ℕ) (xs : List Entry) → IsSorted xs → AllReal xs → Parts now xs
unfolding before upper_bound all_later keep_if due_at
parts now [] s real = ((λ _. (refl, refl, refl)), λ h. cc h)
parts now (x ∷ xs) (above, s) real =
    let rest = parts now xs s (AllReal-tail x xs real) in
    elim (three_ways x.time now) [
      | inl h ↦ Parts-earlier now x xs h rest
      | inr (inl e) ↦ Parts-at now x xs e (AllReal-head x xs real)
      | inr (inr h) ↦ Parts-later now x xs h (above, s)
    ]

-- `getDueTasks` on a set in order, with timers at positive addresses. If no timer is due exactly now,
-- it takes out those whose time is before now, and leaves those whose time is after. If one is due
-- exactly now, its assertion fails: the sentry stands before that entry.
pub get_due_tasks_lem :
    (now : ℕ) (q : TimerQueue)
    → IsSorted q.entries
    → AllReal q.entries
    → get_due_tasks now q ≡ (
        if due_at now q.entries
        then none
        else some (
          keep_if (is_earlier now) q.entries,
          record q { entries = keep_if (is_later now) q.entries },
        ))
unfolding get_due_tasks
get_due_tasks_lem now q s real =
    let (fine, stuck) = parts now q.entries s real in
    elim (Bool-cases (due_at now q.entries)) [
      | inl d ↦ rw d (rw (stuck d))
      | inr n ↦ let (b, u, a) = fine n in rw n (rw a (rw (b, u)))
    ]
