-- ===== src/LockFreeQueue/Inv/Steps.antt =====
-- Every step keeps the invariant, so that it holds in every reachable state.
use yy.Prelude.{ℕ, ◌+◌, ◌%◌, ◌^◌, ◌≤◌, ◌<◌, ◌≡◌, refl, sym, ap, ◌∙◌, inl, arith, update}
use yy.LockFreeQueue.{
  Queue, init, sequence_at, data_at, Pc, idle, put_loop, put_read, take_loop, take_read, take_seq,
  Move, put_start, put_load, put_win, put_lose, put_full, put_again, put_write, put_publish,
  take_start, take_load, take_win, take_lose, take_empty, take_again, take_copy, take_publish,
  System, pick, Reach, start, later,
}
use yy.LockFreeQueue.Inv.{putter, taker, Fits, Inv, IsRing}
use yy.LockFreeQueue.Inv.Quiet.{quiet}
use yy.LockFreeQueue.Inv.Put.{won-Inv}
use yy.LockFreeQueue.Inv.Publish.{written-Inv, published-Inv}
use yy.LockFreeQueue.Inv.Take.{passed-Inv, returned-Inv}

module _ {A : Type 0} {q : Queue A} {pc : ℕ → Pc A} (inv : Inv q pc) (ring : IsRing q.size)
    (few : q.enqueue_pos + q.size < 2 ^ 63) (i : ℕ) where
  still :
      {p : Pc A} (p' : Pc A)
      → pc i ≡ p
      → putter p' ≡ putter p
      → taker p' ≡ taker p
      → Fits q p'
      → Inv q (update pc i p')
  still p' h e f t = quiet inv i p' (e ∙ ap putter (sym h)) (f ∙ ap taker (sym h)) t

  Move-Inv : {p p' : Pc A} {q' : Queue A} → Move q p q' p' → pc i ≡ p → Inv q' (update pc i p')
  Move-Inv (put_start {x}) h = still (put_loop x q.enqueue_pos) h refl refl (omega arith)
  Move-Inv (put_load {x} {pos = n}) h =
      let f = rw h at (inv.fits i) in
      still (put_read x n (sequence_at q n)) h refl refl (f, omega arith)
  Move-Inv (put_win {x} {pos = n} {seq = k} a b) h =
      let (c, d) = rw h at (inv.fits i) in
      let next : (q.enqueue_pos + 1) % 2 ^ 64 ≡ q.enqueue_pos + 1 = omega arith in
      let up : q.enqueue_pos ≤ sequence_at q q.enqueue_pos = rw b (omega arith) in
      rw (← b) (rw next (won-Inv inv ring i x up (ap putter h) (ap taker h)))
  Move-Inv (put_lose {x} a) h = still (put_loop x q.enqueue_pos) h refl refl (omega arith)
  Move-Inv (put_full a) h = still idle h refl refl tt
  Move-Inv (put_again {x} a) h = still (put_loop x q.enqueue_pos) h refl refl (omega arith)
  Move-Inv (put_write {x} {pos = n}) h = written-Inv inv ring i x n h
  Move-Inv (put_publish {pos = n}) h =
      let (c, d, t, g) = rw h at (inv.fits i) in
      let next : (n + 1) % 2 ^ 64 ≡ n + 1 = omega arith in rw next (published-Inv inv ring i n h)
  Move-Inv take_start h = still (take_loop q.dequeue_pos) h refl refl (omega arith)
  Move-Inv (take_load {pos = n}) h =
      let f = rw h at (inv.fits i) in
      still (take_read n (sequence_at q n)) h refl refl (f, omega arith)
  Move-Inv (take_win {pos = n} {seq = k} a b) h =
      let (c, d) = rw h at (inv.fits i) in
      let next : (q.dequeue_pos + 1) % 2 ^ 64 ≡ q.dequeue_pos + 1 = omega (arith, inv.taken_le) in
      let step : (n + 1) % 2 ^ 64 ≡ n + 1 = omega (arith, inv.taken_le) in
      let up : q.dequeue_pos < sequence_at q q.dequeue_pos = rw b (omega arith) in
      rw (← b) (rw next (passed-Inv inv ring i up (ap putter h) (ap taker h)))
  Move-Inv (take_lose a) h = still (take_loop q.dequeue_pos) h refl refl (omega arith)
  Move-Inv (take_empty a) h = still idle h refl refl tt
  Move-Inv (take_again a) h = still (take_loop q.dequeue_pos) h refl refl (omega arith)
  Move-Inv (take_copy {pos = n}) h =
      let (c, t, d, g) = rw h at (inv.fits i) in
      still (take_seq (data_at q n) n) h refl refl (c, t, d, g)
  Move-Inv (take_publish {v} {pos = n}) h =
      let (c, t, d, g) = rw h at (inv.fits i) in
      let next : (n + q.size) % 2 ^ 64 ≡ n + q.size = omega (arith, inv.taken_le) in
      rw next (returned-Inv inv ring i v n h)

Move-size : {A : Type 0} {q q' : Queue A} {p p' : Pc A} → Move q p q' p' → q'.size ≡ q.size
Move-size (put_win a b) = refl
Move-size m = refl

pub Inv-init : {A : Type 0} (size : ℕ) (v : A) → IsRing size → Inv (init size v) (λ _. idle)
unfolding init
Inv-init size v ring = record {
  taken_le = omega arith;
  room = omega arith;
  held = λ p a b. absurd (omega arith);
  free = λ p a b. inl (ring.below p (omega arith));
  fits = λ i. tt;
  one_putter = λ i j p a b. cc;
  one_taker = λ i j p a b. cc;
  gone = λ p a. absurd (omega arith);
  unborn = λ p a. refl;
  fifo = λ p v a. cc;
}

pub Reach-size :
    {A : Type 0} {size : ℕ} {v : A} {s : System A} → Reach size v s → s.queue.size ≡ size
unfolding init
Reach-size start = refl
Reach-size (later r few (pick i m)) = Move-size m ∙ Reach-size r

pub Reach-Inv :
    {A : Type 0} {size : ℕ} {v : A} {s : System A} → IsRing size → Reach size v s → Inv s.queue s.pc
Reach-Inv {size = size} {v = v} ring start = Inv-init size v ring
Reach-Inv ring (later {s} r few (pick i m)) =
    let same = Reach-size r in Move-Inv (Reach-Inv ring r) (rw same ring) (rw same few) i m refl
