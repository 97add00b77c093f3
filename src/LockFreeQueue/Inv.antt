-- ===== src/LockFreeQueue/Inv.antt =====
-- What holds in every reachable state of the queue.
pub mod Quiet
pub mod Put
pub mod Publish
pub mod Take
pub mod Steps
use yy.Prelude.{ℕ, ◌+◌, ◌≤◌, ◌<◌, ◌≡◌, ◌≢◌, ◌⊎◌, Option, none, some}
use yy.LockFreeQueue.{
  Queue, init, slot_of, sequence_at, data_at, as_signed, Pc, idle, put_loop, put_read, put_data,
  put_seq, take_loop, take_read, take_data, take_seq, Move, put_start, put_load, put_win, put_lose,
  put_full, put_again, put_write, put_publish, take_start, take_load, take_win, take_lose,
  take_empty, take_again, take_copy, take_publish, System, Step, pick, Reach, start, later,
}

-- The position that a thread has won and not yet published, by the call that it is in.
abbrev pub putter : {A : Type 0} → Pc A → Option ℕ
putter (put_data x pos) = some pos
putter (put_seq pos) = some pos
putter _ = none

abbrev pub taker : {A : Type 0} → Pc A → Option ℕ
taker (take_data pos) = some pos
taker (take_seq v pos) = some pos
taker _ = none

-- What the locals of a thread say about the queue.
abbrev pub Fits : {A : Type 0} → Queue A → Pc A → Type 0
Fits q idle = Unit
Fits q (put_loop x pos) = pos ≤ q.enqueue_pos
Fits q (put_read x pos seq) = (pos ≤ q.enqueue_pos) × (seq ≤ sequence_at q pos)
Fits q (put_data x pos) =
    (q.dequeue_pos ≤ pos) × (pos < q.enqueue_pos) × (sequence_at q pos ≡ pos) × (q.log pos ≡ x)
Fits q (put_seq pos) =
    (q.dequeue_pos ≤ pos)
    × (pos < q.enqueue_pos)
    × (sequence_at q pos ≡ pos)
    × (data_at q pos ≡ q.log pos)
Fits q (take_loop pos) = pos ≤ q.dequeue_pos
Fits q (take_read pos seq) = (pos ≤ q.dequeue_pos) × (seq ≤ sequence_at q pos)
Fits q (take_data pos) =
    (pos < q.dequeue_pos)
    × (sequence_at q pos ≡ pos + 1)
    × (data_at q pos ≡ q.log pos)
    × (q.got pos ≡ none)
Fits q (take_seq v pos) =
    (pos < q.dequeue_pos) × (sequence_at q pos ≡ pos + 1) × (v ≡ q.log pos) × (q.got pos ≡ none)

pub record Inv {A : Type 0} (q : Queue A) (pc : ℕ → Pc A) : Type 0 where
  pub taken_le : q.dequeue_pos ≤ q.enqueue_pos
  pub room : q.enqueue_pos ≤ q.dequeue_pos + q.size
  -- a position that is given out and not taken
  pub held :
      (p : ℕ)
      → q.dequeue_pos ≤ p
      → p < q.enqueue_pos
      → ((sequence_at q p ≡ p) × ((i : ℕ) × (putter (pc i) ≡ some p)))
        ⊎ ((sequence_at q p ≡ p + 1) × (data_at q p ≡ q.log p))
  -- a position that is still to be given out in this round of the ring
  pub free :
      (p : ℕ)
      → q.enqueue_pos ≤ p
      → p < q.dequeue_pos + q.size
      → (sequence_at q p ≡ p)
        ⊎ ((k : ℕ) × (k + q.size ≡ p)
            × (sequence_at q p ≡ k + 1)
            × ((i : ℕ) × (taker (pc i) ≡ some k)))
  pub fits : (i : ℕ) → Fits q (pc i)
  pub one_putter : (i j p : ℕ) → putter (pc i) ≡ some p → putter (pc j) ≡ some p → i ≡ j
  pub one_taker : (i j p : ℕ) → taker (pc i) ≡ some p → taker (pc j) ≡ some p → i ≡ j
  pub gone :
      (p : ℕ) → p < q.dequeue_pos → (q.got p ≡ some (q.log p)) ⊎ ((i : ℕ) × (taker (pc i) ≡ some p))
  pub unborn : (p : ℕ) → q.dequeue_pos ≤ p → q.got p ≡ none
  pub fifo : (p : ℕ) (v : A) → q.got p ≡ some v → (p < q.dequeue_pos) × (v ≡ q.log p)

-- Two positions less than a round apart have different slots, and a round later the slot is the same.
pub record IsRing (size : ℕ) : Type 0 where
  pub more : 1 < size
  pub below : (p : ℕ) → p < size → slot_of size p ≡ p
  pub apart : (p r : ℕ) → p < r → r < p + size → slot_of size p ≢ slot_of size r
  pub lap : (p : ℕ) → slot_of size (p + size) ≡ slot_of size p
