-- ===== src/TimerQueue.antt =====
-- Net/include/TimerQueue.h and TimerQueue.tpp, with Timer of Net/include/Timer.h and the
-- `timerfd_settime` of Net/include/sockets.h, in the loop thread. Times are numbers of one unit. A
-- timer is known by its address, a positive number; `timers` is the store of the timers. The ordered
-- set is the list of its entries. What the callback of a timer does to the queue and to the timers is an
-- argument, and the calls are recorded in `fired`; `armed` is the time after which the descriptor was
-- last told to fire. `none` is a failed assertion.
pub mod Due
pub mod Order
pub mod Run
pub mod Runs
pub mod Stale
pub mod Valid
pub mod Insert
mod Tests
use yy.Prelude.{
  ℕ, zero, suc, ◌+◌, Bool, true, false, not, ◌&&◌, ◌||◌, Option, none, some, List, [], ◌∷◌, ◌++◌,
  ltb, leb, ◌==◌, if◌then◌else◌, update, ◌>>=◌, ℤ, pos, negsuc, ◌>>◌, assert,
}
use yy.TimerWheel.{execute}

pub record Timer : Type 0 where
  pub interval : ℕ
  pub execute_count : ℤ
  pub expiration : ℕ

-- `std::pair<Time_Stamp, TimerPtr>`
pub record Entry : Type 0 where
  pub time : ℕ
  pub timer : ℕ

pub record TimerQueue : Type 0 where
  pub entries : List Entry
  pub timers : ℕ → Timer
  pub fired : List ℕ
  pub armed : Option ℕ

-- The constructor of a timer, at a reading of the clock.
pub new_timer : ℕ → ℕ → ℤ → Timer
new_timer now interval count = record {
  interval = interval;
  execute_count = count;
  expiration = now + interval;
}

-- `operator<` of the pairs
unfoldable pub less : Entry → Entry → Bool
less a b = ltb a.time b.time || (a.time == b.time && ltb a.timer b.timer)

unfoldable pub same_entry : Entry → Entry → Bool
same_entry a b = a.time == b.time && a.timer == b.timer

-- `std::set::insert`, which leaves an entry that is there.
unfoldable pub set_insert : Entry → List Entry → List Entry
unfolding less same_entry
set_insert e [] = e ∷ []
set_insert e (x ∷ xs) =
    let rest = set_insert e xs in
    if less e x then e ∷ (x ∷ xs) else (if same_entry e x then x ∷ xs else x ∷ rest)

unfoldable pub has : Entry → List Entry → Bool
unfolding same_entry
has e [] = false
has e (x ∷ xs) = same_entry e x || has e xs

-- `std::set::erase` of a key
unfoldable pub set_erase : Entry → List Entry → List Entry
unfolding same_entry
set_erase e [] = []
set_erase e (x ∷ xs) = let rest = set_erase e xs in if same_entry e x then xs else x ∷ rest

-- `Entry(timer->getTimerStamp(), timer)`
abbrev pub entry_of : (ℕ → Timer) → ℕ → Entry
entry_of timers t = record { time = (timers t).expiration; timer = t }

-- The first argument says whether the call of `timerfd_settime` for a timer succeeds, the second is
-- the fuel: `none` is also a recursion without an end.
unfoldable pub modify_timerfd : (Timer → Bool) → ℕ → TimerQueue → Option TimerQueue
unfolding set_erase
modify_timerfd settime zero q = none
modify_timerfd settime (suc fuel) q = elim q.entries [
  | [] ↦ some q
  | e ∷ es ↦
      if settime (q.timers e.timer)
      then some (record q { armed = some (q.timers e.timer).interval })
      else modify_timerfd settime fuel
          (record q { entries = set_erase (entry_of q.timers e.timer) q.entries })
]

unfoldable pub insert_in_loop : (Timer → Bool) → ℕ → ℕ → TimerQueue → Option TimerQueue
unfolding modify_timerfd set_insert has
insert_in_loop settime fuel t q = do
  assert (not (has (entry_of q.timers t) q.entries))
  modify_timerfd settime fuel (record q { entries = set_insert (entry_of q.timers t) q.entries })

unfoldable pub cancel_timer_in_loop : ℕ → TimerQueue → Option TimerQueue
unfolding set_erase has
cancel_timer_in_loop t q = do
  assert (has (entry_of q.timers t) q.entries)
  some (record q { entries = set_erase (entry_of q.timers t) q.entries })

-- The entries before and from `upper_bound(sentry)`.
unfoldable pub before : Entry → List Entry → List Entry
unfolding less
before sentry [] = []
before sentry (x ∷ xs) = let rest = before sentry xs in if less sentry x then [] else x ∷ rest

unfoldable pub upper_bound : Entry → List Entry → List Entry
unfolding less
upper_bound sentry [] = []
upper_bound sentry (x ∷ xs) =
    let rest = upper_bound sentry xs in if less sentry x then x ∷ xs else rest

-- `end==timers_.end() || now<end->first`
unfoldable pub all_later : ℕ → List Entry → Bool
all_later now [] = true
all_later now (x ∷ xs) = ltb now x.time

-- The sentry is at the null pointer.
unfoldable pub get_due_tasks : ℕ → TimerQueue → Option (List Entry × TimerQueue)
unfolding before upper_bound all_later
get_due_tasks now q =
    let sentry : Entry = record { time = now; timer = 0 } in
    let rest = upper_bound sentry q.entries in
    (do assert (all_later now rest); some (before sentry q.entries, record q { entries = rest }))

-- `remain_count() <= 0` and `remain_count()`
unfoldable pub spent : ℤ → Bool
spent (pos zero) = true
spent (pos (suc n)) = false
spent (negsuc n) = true

unfoldable pub is_nonzero : ℤ → Bool
is_nonzero (pos zero) = false
is_nonzero (pos (suc n)) = true
is_nonzero (negsuc n) = true

-- What the callback of a timer does; `none` is a failed assertion in it.
abbrev pub Callback : Type 0
Callback = ℕ → TimerQueue → Option TimerQueue

-- `Timer::execute`, with the reading of the clock behind its callback.
unfoldable pub execute_timer : Callback → ℕ → ℕ → TimerQueue → Option TimerQueue
unfolding execute
execute_timer callback now t q = do
  count ← execute (q.timers t).execute_count
  q1 ← callback t (record q {
    timers = update q.timers t (record (q.timers t) { execute_count = count });
    fired = q.fired ++ (t ∷ []);
  })
  some (record q1 {
    timers =
        update q1.timers t (record (q1.timers t) { expiration = now + (q1.timers t).interval });
  })

-- The loop of `handlerRead` over what is due, with the entries of `NewTasks` so far. `clock t` is the
-- time when the callback of timer `t` has ended. The count is read again behind the callback.
unfoldable pub run_due :
    Callback → (ℕ → ℕ) → List Entry → List Entry → TimerQueue → Option (List Entry × TimerQueue)
unfolding spent is_nonzero
run_due callback clock [] new_tasks q = some (new_tasks, q)
run_due callback clock (e ∷ es) new_tasks q =
    let t = e.timer in
    let skipped = run_due callback clock es new_tasks q in
    let run = execute_timer callback (clock t) t q >>= λ q'.
    run_due callback clock es
      (if is_nonzero (q'.timers t).execute_count then new_tasks ++ (e ∷ []) else new_tasks) q' in
    if spent (q.timers t).execute_count then skipped else run

unfoldable pub insert_all : List Entry → List Entry → List Entry
unfolding set_insert
insert_all [] xs = xs
insert_all (e ∷ es) xs = insert_all es (set_insert e xs)

unfoldable pub handler_read :
    Callback → (Timer → Bool) → ℕ → (ℕ → ℕ) → ℕ → TimerQueue → Option TimerQueue
unfolding get_due_tasks run_due insert_all modify_timerfd
handler_read callback settime fuel clock now q = do
  (expired, q1) ← get_due_tasks now q
  (new_tasks, q2) ← run_due callback clock expired [] q1
  modify_timerfd settime fuel (record q2 { entries = insert_all new_tasks q2.entries })
