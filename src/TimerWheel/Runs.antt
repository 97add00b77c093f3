-- ===== src/TimerWheel/Runs.antt =====
-- The wheel over several ticks, as its timer descriptor makes them.
use yy.Prelude.{
  ℕ, zero, suc, ◌+◌, ◌%◌, ◌≤◌, ◌<◌, ◌≡◌, refl, ap, ◌∙◌, inl, inr, false, Option, some, List, [],
  ◌∷◌, arith, ltb, ◌==◌, if◌then◌else◌, update, ==_iff, Bool-cases, Option-cases, ◌>>=◌, pos,
}
use yy.TimerWheel.{
  TimerWheel, Node, forever, new_node, insert, execute, remains, executed, fire, keep, walk, tick,
  timer_ticks,
}
use native.Mathlib.Nat.{mod-lt, mod-eq_of_lt, div-add-mod'}
use yy.TimerWheel.Walk.{count, In, here, lowered}
use yy.TimerWheel.Due.{
  IsTurning, dist, due, dist-slot, due-insert, tick-IsTurning, tick-max, tick-due, tick-fires,
  dist-own, dist-other,
}

-- `n` calls of `tick`
unfoldable pub run : ℕ → TimerWheel → Option TimerWheel
run zero w = some w
run (suc n) w = tick w >>= run n

run-suc :
    (n : ℕ) (w : TimerWheel) {w' : TimerWheel}
    → run (suc n) w ≡ some w'
    → (v : TimerWheel) × (tick w ≡ some v) × (run n v ≡ some w')
unfolding run
run-suc n w {w'} e = elim (Option-cases (tick w)) [
  | inl z ↦ let e' = rw z at e in cc
  | inr (v, z) ↦ let e' = rw z at e in (v, z, e')
]

run-due :
    (i : ℕ) (w : TimerWheel) {w' : TimerWheel} (n : Node) (s : ℕ)
    → IsTurning w
    → run i w ≡ some w'
    → s < w.max_slots
    → In n (w.slots s)
    → i ≤ due w n s
    → (k : Node) × In k (w'.slots s)
      × (k.timer ≡ n.timer)
      × (due w' k s + i ≡ due w n s)
      × IsTurning w'
      × (w'.max_slots ≡ w.max_slots)
unfolding run
run-due zero w {w'} n s v e h m d =
    let q : w ≡ w' = cc in rw (← q) (n, m, refl, omega arith, v, refl)
run-due (suc i) w {w'} n s v e h m d =
    let (u, t, r) = run-suc i w e in
    let (k, m', c, a) = tick-due w n s v t h m (omega arith) in
    let g = tick-max w t in
    let (j, p, o, z, y, x) =
      run-due i u k s (tick-IsTurning w v t) r (omega (arith, g)) m' (omega (arith, a)) in
    (j, p, o ∙ c, omega (arith, a, z), y, x ∙ g)

-- On a wheel whose pointer is one of its slots, when callbacks leave the wheel alone: when a timer is
-- inserted, and `tick` has then run as often as its interval has ticks, after the cast to `int`, the
-- next run of `tick` calls the callback of the timer, if no assertion fails in these runs.
pub insert_fires :
    (w : TimerWheel) (t : ℕ) {w' w'' : TimerWheel}
    → IsTurning w
    → run (timer_ticks w t) (insert w t) ≡ some w'
    → tick w' ≡ some w''
    → count t w'.fired < count t w''.fired
unfolding insert
insert_fires w t {w'} {w''} v r e =
    let n = new_node w t in
    let s = n.time_slot in
    let l : s < w.max_slots = mod-lt _ (omega (arith, v.cur_lt)) in
    let d = due-insert w t v in
    let (k, m, c, a, y, x) =
      run-due (timer_ticks w t) (insert w t) n s (record { cur_lt = v.cur_lt }) r l
        (rw ((==_iff s s).1 refl) here) (omega (arith, d)) in
    rw (← c) (tick-fires w' k s y e (omega (arith, x, l)) m (omega (arith, a, d)))

-- ---- inserted again

-- The wheel as it is at the end of the tick.
abbrev pub advanced : TimerWheel → TimerWheel
advanced w = record w { cur_slot = (w.cur_slot + 1) % w.max_slots }

same-slot : (m c d : ℕ) → c < m → d < m → (d == 0) ≡ false → (((c + d) % m) == c) ≡ false
same-slot m c d h k o = elim (Bool-cases (((c + d) % m) == c)) [
  | inl t ↦
      let same = rw ((==_iff ((c + d) % m) c).0 t) at (dist-slot c m d h k) in
      absurd (ground (arith, same, (dist-own m c h).0))
  | inr f ↦ f
]

dist-next :
    (m c d : ℕ) → c < m → d < m → dist m ((c + 1) % m) ((c + d) % m) + 1 ≡ (if d == 0 then m else d)
dist-next m c d h k = elim (Bool-cases (d == 0)) [
  | inl y ↦
      let z = (==_iff d 0).0 y in
      let e : c + d ≡ c = omega arith in rw (y, e, mod-eq_of_lt h) (dist-own m c h).1
  | inr o ↦
      let l : (c + d) % m < m = mod-lt _ (omega arith) in
      let n = (dist-other m c ((c + d) % m) h l (same-slot m c d h k o)).1 in
      rw o (n ∙ dist-slot c m d h k)
]

again-due :
    (w : TimerWheel) (t : ℕ)
    → IsTurning w
    → due (advanced w) (new_node w t) (new_node w t).time_slot + 1 ≡ (
        if timer_ticks w t % w.max_slots == 0
        then timer_ticks w t + w.max_slots
        else timer_ticks w t)
again-due w t v =
    let m = w.max_slots in
    let k = timer_ticks w t in
    let l : k % m < m = mod-lt k (omega (arith, v.cur_lt)) in
    let d = dist-next m w.cur_slot (k % m) v.cur_lt l in
    let q = div-add-mod' k m in
    elim (Bool-cases (k % m == 0)) [
      | inl y ↦ let d' = rw y at d in rw y (omega (arith, d', q, (==_iff (k % m) 0).0 y))
      | inr o ↦ let d' = rw o at d in rw o (omega (arith, d', q))
    ]

-- On a wheel whose pointer is one of its slots, when callbacks leave the wheel alone: a timer that is
-- called with two or more runs left gets a node again. From the tick that calls it, that node is due
-- after the ticks of its interval, after the cast to `int`, but a whole turn of the wheel later when
-- these are a multiple of the number of slots.
pub fire_again :
    (w : TimerWheel) (t i : ℕ) {w' : TimerWheel}
    → IsTurning w
    → (w.timers t).execute_count ≡ pos (suc (suc i))
    → fire w t ≡ some w'
    → (n : Node) × (s : ℕ) × In n (w'.slots s)
      × (n.timer ≡ t)
      × (due (advanced w') n s + 1 ≡ (
          if timer_ticks w t % w.max_slots == 0
          then timer_ticks w t + w.max_slots
          else timer_ticks w t))
unfolding insert fire execute remains
fire_again w t i {w'} v h e =
    let u = executed w t (pos (suc i)) in
    let e' = rw h at e in
    let f : insert u t ≡ w' = cc in
    let n = new_node u t in
    let same : timer_ticks u t ≡ timer_ticks w t = rw ((==_iff t t).1 refl) in
    let turn = λ (k : ℕ). if k % w.max_slots == 0 then k + w.max_slots else k in
    let d = again-due u t (record { cur_lt = v.cur_lt }) ∙ ap turn same in
    rw (← f) (n, n.time_slot, rw ((==_iff n.time_slot n.time_slot).1 refl) here, refl, d)

-- ---- timers without end

abbrev pub IsForever : TimerWheel → Type 0
IsForever w = (t : ℕ) → (w.timers t).execute_count ≡ forever

fire-forever : (w : TimerWheel) (t : ℕ) → IsForever w → fire w t ≡ some (executed w t forever)
unfolding fire execute remains
fire-forever w t h = rw (h t)

executed-IsForever : (w : TimerWheel) (t : ℕ) → IsForever w → IsForever (executed w t forever)
executed-IsForever w t h t' = elim (Bool-cases (t' == t)) [ inl y ↦ rw y | inr o ↦ rw o (h t') ]

walk-IsForever :
    (l : List Node) (w : TimerWheel)
    → IsForever w
    → (w' : TimerWheel) × (walk l w ≡ some w') × IsForever w'
unfolding walk
walk-IsForever [] w h = (w, refl, h)
walk-IsForever (n ∷ l) w h = elim (Bool-cases (ltb 0 n.rotation)) [
  | inl y ↦ let (w', q, g) = walk-IsForever l (keep w (lowered n)) h in (w', rw y q, g)
  | inr o ↦
      let g = executed-IsForever w n.timer h in
      let (w', q, g') = walk-IsForever l (executed w n.timer forever) g in
      (w', rw (o, fire-forever w n.timer h) q, g')
]

tick-IsForever :
    (w : TimerWheel) → IsForever w → (w' : TimerWheel) × (tick w ≡ some w') × IsForever w'
unfolding tick
tick-IsForever w h =
    let w0 = record w { slots = update w.slots w.cur_slot [] } in
    let (v, q, g) = walk-IsForever (w.slots w.cur_slot) w0 h in (advanced v, rw q, g)

-- When every timer of a wheel runs for ever, any number of ticks goes through without a failed
-- assertion, and every timer still runs for ever.
pub run_total :
    (i : ℕ) (w : TimerWheel) → IsForever w → (w' : TimerWheel) × (run i w ≡ some w') × IsForever w'
unfolding run
run_total zero w h = (w, refl, h)
run_total (suc i) w h =
    let (v, e, g) = tick-IsForever w h in let (w', r, g') = run_total i v g in (w', rw e r, g')
