-- ===== src/LockFreeQueue/Safety.antt =====
-- What holds of the queue however its threads interleave.
use yy.Prelude.{
  ℕ, suc, ◌+◌, ◌-◌, ◌%◌, ◌^◌, ◌≤◌, ◌<◌, ◌≡◌, refl, sym, ap, ◌∙◌, ◌≢◌, ◌⊎◌, inl, inr, Option, none,
  some, arith, ltb, leb, not, ◌&&◌, false, ◌==◌, if◌then◌else◌, Bool-cases,
}
use yy.LockFreeQueue.{
  Queue, slot_of, sequence_at, data_at, Pc, idle, put_data, take_data, take_win, Move, Step, pick,
  System, Reach, later,
}
use yy.LockFreeQueue.{get_remain_capacity, full, empty}
use yy.LockFreeQueue.Inv.{putter, taker, Fits, IsRing}
use yy.LockFreeQueue.Inv.Steps.{Reach-Inv, Reach-size}
use yy.LockFreeQueue.Ring.{IsRing-pow}

Reach-IsRing :
    {A : Type 0} {v : A} {s : System A} (k : ℕ) → Reach (2 ^ suc k) v s → IsRing s.queue.size
Reach-IsRing k r = rw (Reach-size r) (IsRing-pow k)

-- In a ring of two slots or more, however the threads interleave: what the call of `dequeue` that
-- took a position has returned is what the call of `enqueue` that won this position was given, and
-- the position was given out and taken before.
pub Reach-fifo :
    {A : Type 0} {v : A} {s : System A} (k : ℕ)
    → Reach (2 ^ suc k) v s
    → (p : ℕ) {x : A} → s.queue.got p ≡ some x
    → (x ≡ s.queue.log p) × (p < s.queue.dequeue_pos) × (p < s.queue.enqueue_pos)
Reach-fifo k r p {x} e =
    let inv = Reach-Inv (IsRing-pow k) r in
    let (a, b) = inv.fifo p x e in (b, a, omega (arith, inv.taken_le))

-- In a ring of two slots or more, when no thread is inside a call: nothing is lost. Every taken
-- position was returned with its value, and every position that is not taken has its value in its
-- slot.
pub Reach-keeps :
    {A : Type 0} {v : A} {s : System A} (k : ℕ)
    → Reach (2 ^ suc k) v s
    → ((i : ℕ) → s.pc i ≡ idle)
    → (p : ℕ) → p < s.queue.enqueue_pos
    → (if ltb p s.queue.dequeue_pos then s.queue.got p else some (data_at s.queue p))
      ≡ some (s.queue.log p)
Reach-keeps {s} k r quiet p h =
    let inv = Reach-Inv (IsRing-pow k) r in
    elim (Bool-cases (ltb p s.queue.dequeue_pos)) [
      | inl t ↦ rw t (elim (inv.gone p (ground arith)) [
        | inl g ↦ g
        | inr (i, e) ↦ let no = ap taker (quiet i) in cc
      ])
      | inr o ↦ rw o (elim (inv.held p (ground arith) h) [
        | inl (g, (i, e)) ↦ let no = ap putter (quiet i) in cc
        | inr (g, e) ↦ ap some e
      ])
    ]

-- Steps of the threads from one state to a later one.
pub data Later {A : Type 0} (size : ℕ) (s : System A) : System A → Type 0 where
  now : Later size s s
  after :
      {t u : System A}
      → Later size s t
      → t.queue.enqueue_pos + size < 2 ^ 63
      → Step t u
      → Later size s u

Later-Reach :
    {A : Type 0} {size : ℕ} {v : A} {s t : System A}
    → Reach size v s
    → Later size s t
    → Reach size v t
Later-Reach r now = r
Later-Reach r (after l few m) = later (Later-Reach r l) few m

Move-dequeue_pos :
    {A : Type 0} {q q' : Queue A} {p p' : Pc A}
    → q.dequeue_pos + 1 < 2 ^ 64
    → Move q p q' p'
    → q.dequeue_pos ≤ q'.dequeue_pos
Move-dequeue_pos few (take_win a b) = omega arith
Move-dequeue_pos few m = omega arith

Later-dequeue_pos :
    (k : ℕ) {A : Type 0} {v : A} {s t : System A}
    → Reach (2 ^ suc k) v s
    → Later (2 ^ suc k) s t
    → s.queue.dequeue_pos ≤ t.queue.dequeue_pos
Later-dequeue_pos k r now = omega arith
Later-dequeue_pos k r (after {t} l few (pick i m)) =
    let inv = Reach-Inv (IsRing-pow k) (Later-Reach r l) in
    let up = Later-dequeue_pos k r l in
    let more = Move-dequeue_pos (omega (arith, inv.taken_le)) m in omega (arith, up, more)

-- `getRemainCapacity` loads the head in the state `s` and the tail in a later state `t`, in a ring of
-- two slots or more. It is the number of positions given out and not taken, and not the room that is
-- left: no less than that number at `t`, and more than the ring by at most what was taken in between.
-- So `empty` is true only if nothing is in the queue at `t`, and `full` is true whenever the ring is
-- full at `t`.
pub get_remain_capacity-bounds :
    {A : Type 0} {v : A} {s t : System A} (k : ℕ)
    → Reach (2 ^ suc k) v s
    → Later (2 ^ suc k) s t
    → t.queue.enqueue_pos < 2 ^ 63
    → let remains = get_remain_capacity s.queue t.queue in
      let held = t.queue.enqueue_pos - t.queue.dequeue_pos in
      let passed = t.queue.dequeue_pos - s.queue.dequeue_pos in
      (remains ≡ held + passed)
      × (held ≤ 2 ^ suc k)
      × ((empty s.queue t.queue ≡ (remains == 0)) × (empty s.queue t.queue && ltb 0 held ≡ false))
      × ((full s.queue t.queue ≡ leb (2 ^ suc k) remains)
          × (not (full s.queue t.queue) && (held == 2 ^ suc k) ≡ false))
unfolding get_remain_capacity full empty
get_remain_capacity-bounds {s} {t} k r l few =
    let inv = Reach-Inv (IsRing-pow k) (Later-Reach r l) in
    let same = Reach-size (Later-Reach r l) in
    let a = inv.taken_le in
    let b = inv.room in
    let up = Later-dequeue_pos k r l in
    let c : (t.queue.enqueue_pos + 2 ^ 64 - s.queue.dequeue_pos) % 2 ^ 64
        ≡ t.queue.enqueue_pos - s.queue.dequeue_pos =
      omega (arith, up) in
    let fits : t.queue.enqueue_pos - t.queue.dequeue_pos ≤ 2 ^ suc k = omega arith in
    rw (c, same) (omega (arith, up), fits, (ground arith, ground arith), (refl, ground arith))

-- The slot whose data a thread is about to write or to read.
abbrev pub touches : {A : Type 0} → ℕ → Pc A → Option ℕ
touches size (put_data x pos) = some (slot_of size pos)
touches size (take_data pos) = some (slot_of size pos)
touches size _ = none

touched :
    {A : Type 0} (q : Queue A) (p : Pc A) (c : ℕ)
    → Fits q p
    → touches q.size p ≡ some c
    → (r : ℕ) × (c ≡ slot_of q.size r)
      × (((q.dequeue_pos ≤ r) × (sequence_at q r ≡ r) × (putter p ≡ some r))
          ⊎ ((sequence_at q r ≡ r + 1) × (taker p ≡ some r)))
touched q (put_data x m) c (a, b, t, g) e = (m, cc, inl (a, t, refl))
touched q (take_data m) c (a, t, d, g) e = (m, cc, inr (t, refl))
touched q p c f e = cc

-- In a ring of two slots or more no two threads are ever about to access the data of one slot.
pub touches-apart :
    {A : Type 0} {v : A} {s : System A} (k : ℕ)
    → Reach (2 ^ suc k) v s
    → (i j : ℕ) {c d : ℕ} → touches s.queue.size (s.pc i) ≡ some c
    → touches s.queue.size (s.pc j) ≡ some d
    → i ≢ j
    → c ≢ d
touches-apart {s} k r i j {c} {d} a b ne e =
    let q = s.queue in
    let inv = Reach-Inv (IsRing-pow k) r in
    let ring = Reach-IsRing k r in
    let (m, x, f) = touched q (s.pc i) c (inv.fits i) a in
    let (n, y, g) = touched q (s.pc j) d (inv.fits j) b in
    let slots : slot_of q.size m ≡ slot_of q.size n = sym x ∙ e ∙ y in
    let same : sequence_at q m ≡ sequence_at q n = ap q.sequence slots in
    elim f [
      | inl (l, t, o) ↦ elim g [
        | inl (l', t', o') ↦ ne (inv.one_putter i j n (o ∙ ap some (omega arith)) o')
        | inr (t', o') ↦ ring.apart n m (omega arith) (omega (arith, ring.more)) (sym slots)
      ]
      | inr (t, o) ↦ elim g [
        | inl (l', t', o') ↦ ring.apart m n (omega arith) (omega (arith, ring.more)) slots
        | inr (t', o') ↦ ne (inv.one_taker i j n (o ∙ ap some (omega arith)) o')
      ]
    ]
