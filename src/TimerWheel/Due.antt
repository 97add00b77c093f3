-- ===== src/TimerWheel/Due.antt =====
-- When a node of the wheel is due, counted in calls of `tick`.
use yy.Prelude.{
  ℕ, zero, suc, ◌+◌, ◌-◌, ◌*◌, ◌%◌, ◌≤◌, ◌<◌, ◌≡◌, refl, ◌≢◌, ◌⊎◌, inl, inr, false, some, [], arith,
  ltb, leb, ◌==◌, if◌then◌else◌, update, ==_iff, Bool-cases, Option-cases,
}
use native.Mathlib.Nat.{mod-eq_of_lt, mod_self, mod-eq-sub-mod, mod-lt, div-add-mod'}
use yy.TimerWheel.{TimerWheel, Node, new_node, walk, tick, timer_ticks}
use yy.TimerWheel.Walk.{count, In, lowered, walk-Extends, walk-keeps, walk-fires}

-- how far the pointer `c` is from the slot `s`
abbrev pub dist : ℕ → ℕ → ℕ → ℕ
dist max c s = if leb c s then s - c else s + max - c

-- The calls of `tick` that go by before the node in slot `s` is fired.
abbrev pub due : TimerWheel → Node → ℕ → ℕ
due w n s = n.rotation * w.max_slots + dist w.max_slots w.cur_slot s

-- The pointer is a slot of the wheel.
pub record IsTurning (w : TimerWheel) : Type 0 where
  pub cur_lt : w.cur_slot < w.max_slots

-- The next place of the pointer.
next_cases :
    (c m : ℕ) → c < m → ((c + 1 < m) × ((c + 1) % m ≡ c + 1)) ⊎ ((c + 1 ≡ m) × ((c + 1) % m ≡ 0))
next_cases c m h = elim (Bool-cases (ltb (c + 1) m)) [
  | inl t ↦ let l : c + 1 < m = ground arith in inl (l, mod-eq_of_lt l)
  | inr o ↦ let e : c + 1 ≡ m = ground arith in inr (e, rw e (mod_self m))
]

pub dist-slot : (c m d : ℕ) → c < m → d < m → dist m c ((c + d) % m) ≡ d
dist-slot c m d h k = elim (Bool-cases (ltb (c + d) m)) [
  | inl t ↦ let l : c + d < m = ground arith in rw (mod-eq_of_lt l) (ground arith)
  | inr o ↦
      let e : m ≤ c + d = ground arith in
      let f : (c + d) - m < m = omega arith in rw (mod-eq-sub-mod e, mod-eq_of_lt f) (ground arith)
]

-- How often `tick` is called before a node that `insert` adds now is fired.
pub due-insert :
    (w : TimerWheel) (t : ℕ)
    → IsTurning w
    → due w (new_node w t) (new_node w t).time_slot ≡ timer_ticks w t
due-insert w t v =
    let m = w.max_slots in
    let k = timer_ticks w t in
    let l : k % m < m = mod-lt k (omega (arith, v.cur_lt)) in
    rw (dist-slot w.cur_slot m (k % m) v.cur_lt l) (div-add-mod' k m)

pub dist-other :
    (m c s : ℕ)
    → c < m
    → s < m
    → (s == c) ≡ false
    → (0 < dist m c s) × (dist m ((c + 1) % m) s + 1 ≡ dist m c s)
dist-other m c s h k ne =
    let differ : s ≢ c = ground arith in
    elim (next_cases c m h) [ inl (l, e) ↦ rw e (ground arith) | inr (l, e) ↦ rw e (ground arith) ]

pub dist-own : (m c : ℕ) → c < m → (dist m c c ≡ 0) × (dist m ((c + 1) % m) c + 1 ≡ m)
dist-own m c h = elim (next_cases c m h) [
  | inl (l, e) ↦ rw e (ground arith)
  | inr (l, e) ↦ rw e (ground arith)
]

turn : (r m : ℕ) → 0 < r → (r - 1) * m + m ≡ r * m
turn zero m h = absurd (omega arith)
turn (suc r) m h = grind arith

due_zero : (r m : ℕ) → 0 < m → r * m ≡ 0 → r ≡ 0
due_zero zero m h e = refl
due_zero (suc r) m h e = absurd (grind arith)

due_pos : (r m : ℕ) → 0 < r * m → 0 < r
due_pos zero m h = absurd (omega arith)
due_pos (suc r) m h = omega arith

-- ---- one tick

-- The inversion of `tick`.
tick-eq-some :
    (w : TimerWheel) {w' : TimerWheel}
    → tick w ≡ some w'
    → (v : TimerWheel) × (walk
          (w.slots w.cur_slot)
          (record w { slots = update w.slots w.cur_slot [] })
        ≡ some v)
      × (record v { cur_slot = (v.cur_slot + 1) % v.max_slots } ≡ w')
unfolding tick
tick-eq-some w {w'} e =
    elim (Option-cases
      (walk (w.slots w.cur_slot) (record w { slots = update w.slots w.cur_slot [] }))) [
        | inl z ↦ let e' = rw z at e in cc
        | inr (v, z) ↦ let e' = rw z at e in (v, z, cc)
      ]

-- What stands at the end of a tick.
record IsTicked (w w' : TimerWheel) : Type 0 where
  cur_next : w'.cur_slot ≡ (w.cur_slot + 1) % w.max_slots
  max_same : w'.max_slots ≡ w.max_slots
  others : (n : Node) (s : ℕ) → (s == w.cur_slot) ≡ false → In n (w.slots s) → In n (w'.slots s)
  kept :
      (n : Node) → In n (w.slots w.cur_slot) → 0 < n.rotation → In (lowered n) (w'.slots w.cur_slot)
  calls :
      (n : Node)
      → In n (w.slots w.cur_slot)
      → n.rotation ≡ 0
      → count n.timer w.fired < count n.timer w'.fired

tick-IsTicked : (w : TimerWheel) {w' : TimerWheel} → tick w ≡ some w' → IsTicked w w'
tick-IsTicked w {w'} e =
    let (v, q, f) = tick-eq-some w e in
    let l = w.slots w.cur_slot in
    let w0 = record w { slots = update w.slots w.cur_slot [] } in
    let x = walk-Extends l w0 q in
    rw (← f) (record {
      cur_next = rw (x.cur_same, x.max_same);
      max_same = x.max_same;
      others = λ n s ne m. x.nodes n s (rw ne m);
      kept = λ n m h. walk-keeps l w0 n q m h;
      calls = λ n m h. walk-fires l w0 n q m h;
    })

pub tick-IsTurning :
    (w : TimerWheel) {w' : TimerWheel} → IsTurning w → tick w ≡ some w' → IsTurning w'
tick-IsTurning w {w'} v e =
    let t = tick-IsTicked w e in
    record {
      cur_lt = rw (t.cur_next, t.max_same) (mod-lt (w.cur_slot + 1) (omega (arith, v.cur_lt)));
    }

pub tick-max : (w : TimerWheel) {w' : TimerWheel} → tick w ≡ some w' → w'.max_slots ≡ w.max_slots
tick-max w e = (tick-IsTicked w e).max_same

due-own : (w : TimerWheel) (n : Node) → due w n w.cur_slot ≡ n.rotation * w.max_slots
due-own w n = ground arith

tick-due_own :
    (w : TimerWheel) {w' : TimerWheel} (n : Node)
    → IsTurning w
    → tick w ≡ some w'
    → In n (w.slots w.cur_slot)
    → 0 < due w n w.cur_slot
    → (k : Node) × In k (w'.slots w.cur_slot)
      × (k.timer ≡ n.timer)
      × (due w' k w.cur_slot + 1 ≡ due w n w.cur_slot)
tick-due_own w {w'} n v e m d =
    let t = tick-IsTicked w e in
    let r = due_pos n.rotation w.max_slots (rw (due-own w n) at d) in
    let own = dist-own w.max_slots w.cur_slot v.cur_lt in
    (
      lowered n,
      t.kept n m r,
      refl,
      rw (t.cur_next, t.max_same) (omega (arith, own, turn n.rotation w.max_slots r)),
    )

-- On a wheel whose pointer is one of its slots: for a node that is not due yet, the slot holds a
-- node with the same timer after `tick`, which is due one tick earlier.
pub tick-due :
    (w : TimerWheel) {w' : TimerWheel} (n : Node) (s : ℕ)
    → IsTurning w
    → tick w ≡ some w'
    → s < w.max_slots
    → In n (w.slots s)
    → 0 < due w n s
    → (k : Node) × In k (w'.slots s) × (k.timer ≡ n.timer) × (due w' k s + 1 ≡ due w n s)
tick-due w {w'} n s v e h m d =
    let t = tick-IsTicked w e in
    elim (Bool-cases (s == w.cur_slot)) [
      | inl y ↦
          let q = (==_iff s w.cur_slot).0 y in rw q (tick-due_own w n v e (rw q at m) (rw q at d))
      | inr o ↦
          let (p, b) = dist-other w.max_slots w.cur_slot s v.cur_lt h o in
          (n, t.others n s o m, refl, rw (t.cur_next, t.max_same) (omega (arith, b)))
    ]

-- The callback of a node that is due is called.
pub tick-fires :
    (w : TimerWheel) {w' : TimerWheel} (n : Node) (s : ℕ)
    → IsTurning w
    → tick w ≡ some w'
    → s < w.max_slots
    → In n (w.slots s)
    → due w n s ≡ 0
    → count n.timer w.fired < count n.timer w'.fired
tick-fires w {w'} n s v e h m d =
    let t = tick-IsTicked w e in
    elim (Bool-cases (s == w.cur_slot)) [
      | inl y ↦
          let q = (==_iff s w.cur_slot).0 y in
          let z = rw (q, due-own w n) at d in
          t.calls n (rw q at m) (due_zero n.rotation w.max_slots (omega (arith, v.cur_lt)) z)
      | inr o ↦ absurd (omega (arith, dist-other w.max_slots w.cur_slot s v.cur_lt h o))
    ]
