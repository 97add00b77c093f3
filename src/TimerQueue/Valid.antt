-- ===== src/TimerQueue/Valid.antt =====
-- When a queue is in order, and what a callback may do to it.
use yy.Prelude.{ℕ, ◌≡◌, Bool, true, some, List}
use yy.TimerQueue.Due.{AllReal}
use yy.TimerQueue.Order.{IsSorted}
use yy.TimerQueue.{Entry, TimerQueue, Callback, has}

-- A timer has at most one entry.
abbrev pub IsOnce : List Entry → Type 0
IsOnce xs = (a b : Entry) → has a xs ≡ true → has b xs ≡ true → a.timer ≡ b.timer → a ≡ b

-- The set is in order, its timers are at addresses, and no timer stands in it twice.
pub record IsQueue (q : TimerQueue) : Type 0 where
  pub sorted : IsSorted q.entries
  pub real : AllReal q.entries
  pub once : IsOnce q.entries

-- The timers that are known and their entries are as before, and the queue is in order.
pub record IsKept (known : ℕ → Bool) (q q' : TimerQueue) : Type 0 where
  pub same_fired : q'.fired ≡ q.fired
  pub same_timers : (t : ℕ) → known t ≡ true → q'.timers t ≡ q.timers t
  pub same_entries : (a : Entry) → known a.timer ≡ true → has a q'.entries ≡ has a q.entries
  pub queue : IsQueue q'

-- A callback that has no failed assertion and leaves the known timers alone. It may make other timers,
-- insert and cancel them.
abbrev pub LeavesAlone : (ℕ → Bool) → Callback → Type 0
LeavesAlone known callback =
    (t : ℕ) (q : TimerQueue)
    → IsQueue q
    → (q' : TimerQueue) × (callback t q ≡ some q') × IsKept known q q'

-- The timers of the entries are known.
abbrev pub AllKnown : (ℕ → Bool) → List Entry → Type 0
AllKnown known xs = (a : Entry) → has a xs ≡ true → known a.timer ≡ true
