-- ===== src/EventLoop/Wakeup.antt =====
-- A thread that submits a function while the loop runs, in every interleaving of their steps.
use yy.EventLoop.{Status, wakes}
use yy.Prelude.{ℕ, suc, ◌+◌, ◌<◌, ◌≡◌, refl, Bool, true, false, ◌||◌, arith}

-- Where the loop thread is: in the wait of `poll`, among the handlers, in the loop of
-- `doPendingFunctions`, or behind it, where the status still says so.
pub data Place : Type 0 where
  polling handling draining leaving : Place

-- `waiting` is how many functions are in the queue, `behind` whether another thread has put a function
-- in and is about to call `wakeup`.
pub record System : Type 0 where
  pub place : Place
  pub waiting : ℕ
  pub signalled : Bool
  pub behind : Bool

-- `status_` as it stands at that place
abbrev pub status_at : Place → Status
status_at p = record {
  init = false;
  looping = true;
  event_handling = elim p [ handling ↦ true | _ ↦ false ];
  pending_functions = elim p [ draining ↦ true | leaving ↦ true | _ ↦ false ];
  quited = false;
}

pub data Step : System → System → Type 0 where
  -- `poll` returns, by the descriptor, whose handler reads it, or by its timeout
  poll :
      (s : System) → s.place ≡ polling → Step s (record s { place = handling; signalled = false })
  handled : (s : System) → s.place ≡ handling → Step s (record s { place = draining })
  drain :
      (s : System) (n : ℕ)
      → s.place ≡ draining
      → s.waiting ≡ suc n
      → Step s (record s { waiting = n })
  drained :
      (s : System) → s.place ≡ draining → s.waiting ≡ 0 → Step s (record s { place = leaving })
  leave : (s : System) → s.place ≡ leaving → Step s (record s { place = polling })
  enqueue :
      (s : System) → s.behind ≡ false → Step s (record s { waiting = s.waiting + 1; behind = true })
  wakeup :
      (s : System)
      → s.behind ≡ true
      → Step s (record s { signalled = wakes (status_at s.place) || s.signalled; behind = false })

pub data Reach (s : System) : System → Type 0 where
  here : Reach s s
  next : {t u : System} → Reach s t → Step t u → Reach s u

-- A function waits, the loop is in `poll`, and nothing will end the wait but its timeout.
abbrev pub IsStranded : System → Type 0
IsStranded s = (s.place ≡ polling) × (0 < s.waiting) × (s.signalled ≡ false) × (s.behind ≡ false)

-- `wakeup` writes to the descriptor only if the status says neither that handlers nor that pending
-- functions run. So from every state in which the loop has found its queue empty and has not yet reset
-- that status, and no other thread is in a call, a function that is submitted now can be left in the
-- queue while the loop waits in `poll`.
pub submit_strands :
    (s : System)
    → s.place ≡ leaving
    → s.signalled ≡ false
    → s.behind ≡ false
    → (t : System) × Reach s t × IsStranded t
unfolding wakes
submit_strands s p n b =
    let s1 : System = record s { waiting = s.waiting + 1; behind = true } in
    let s2 : System = record s1 {
      signalled = wakes (status_at s1.place) || s1.signalled;
      behind = false;
    } in
    (
      record s2 { place = polling },
      next (next (next here (enqueue s b)) (wakeup s1 refl)) (leave s2 p),
      (refl, omega arith, rw p n, refl),
    )
