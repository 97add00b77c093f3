-- ===== src/LockFreeQueue/Single.antt =====
-- A queue of one slot, which a capacity of one gives.
use yy.Prelude.{◌≡◌, refl, Bool, true, false, List, [], ◌∷◌, none, some, update}
use yy.LockFreeQueue.{Queue, init, slot_of, data_at}
use yy.LockFreeQueue.{round_up_to_power_of_2, enqueue, enqueue_loop, dequeue, dequeue_loop, full}

-- The queue after `x` and then `y` were put.
abbrev pub after_one : {A : Type 0} → A → A → Queue A
after_one v x = record (init 1 v) {
  enqueue_pos = 1;
  log = update (λ _. v) 0 x;
  slot_data = update (λ _. v) 0 x;
  sequence = update (λ i. i) 0 1;
}

abbrev pub after_two : {A : Type 0} → A → A → A → Queue A
after_two v x y = record (after_one v x) {
  enqueue_pos = 2;
  log = update (after_one v x).log 1 y;
  slot_data = update (after_one v x).slot_data 0 y;
  sequence = update (after_one v x).sequence 0 2;
}

stuck :
    {A : Type 0} (v x y : A) (rounds : List Bool) → dequeue_loop rounds (after_two v x y) 0 ≡ none
unfolding dequeue_loop init slot_of
stuck v x y [] = refl
stuck v x y (weak ∷ rounds) = stuck v x y rounds

-- A capacity of one gives a ring of one slot, where the sequence number of a full slot is that of a
-- free one. A second value is accepted though the queue is full, over the first one in the slot, and
-- then no number of rounds brings `dequeue` to an end.
pub one_slot_loses :
    {A : Type 0} (v x y : A) (rounds : List Bool)
    → (round_up_to_power_of_2 1 ≡ some 1)
      × (enqueue (false ∷ rounds) (init 1 v) x ≡ some (true, after_one v x))
      × (full (after_one v x) (after_one v x) ≡ true)
      × (enqueue (false ∷ rounds) (after_one v x) y ≡ some (true, after_two v x y))
      × (data_at (after_two v x y) 0 ≡ y)
      × ((more : List Bool) → dequeue more (after_two v x y) ≡ none)
unfolding round_up_to_power_of_2 enqueue enqueue_loop full dequeue init slot_of
one_slot_loses v x y rounds = (refl, refl, refl, refl, refl, stuck v x y)
