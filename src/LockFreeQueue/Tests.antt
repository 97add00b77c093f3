-- ===== src/LockFreeQueue/Tests.antt =====
-- Runs of the queue with two slots.
use yy.Prelude.{
  ℕ, zero, suc, ◌+◌, ◌-◌, ◌^◌, ◌≤◌, ◌<◌, ◌≡◌, refl, ◌≢◌, Bool, true, false, List, none, some, [],
  ◌∷◌, arith, ltb, leb, not, ◌&&◌, ◌==◌, if◌then◌else◌, ltb→lt,
}
use yy.LockFreeQueue.{
  Queue, init, slot_of, data_at, Pc, idle, Move, put_start, put_load, put_win, put_write,
  put_publish, take_start, take_load, take_win, take_copy, take_publish, System, pick, Reach, start,
  later,
}
use yy.LockFreeQueue.{round_up_to_power_of_2, enqueue, dequeue, full, get_remain_capacity, empty}
use yy.LockFreeQueue.Safety.{
  Reach-fifo, Reach-keeps, Later, now, after, get_remain_capacity-bounds, touches-apart,
}
use yy.LockFreeQueue.Refine.{put, take_one, run, list_run, calls_refine}
use yy.LockFreeQueue.Single.{one_slot_loses, after_one, after_two}
use yy.LockFreeQueue.Alone.{contents}

rounded :
    (round_up_to_power_of_2 0 ≡ none)
    × (round_up_to_power_of_2 2 ≡ some 2)
    × (round_up_to_power_of_2 1000 ≡ some 1024)
    × (round_up_to_power_of_2 (2 ^ 40 + 1) ≡ some (2 ^ 41))
unfolding round_up_to_power_of_2
rounded = (refl, refl, refl, refl)

record Run : Type 0 where
  last : System ℕ
  reach : Reach 2 0 last

go :
    (r : Run) (i : ℕ) {q : Queue ℕ} {p : Pc ℕ}
    → Move r.last.queue (r.last.pc i) q p
    → ltb (r.last.queue.enqueue_pos + 2) (2 ^ 63) ≡ true
    → Run
go r i m few = record { last = _; reach = later r.reach (ltb→lt _ _ few) (pick i m) }

-- Thread 0 has won position 0, and thread 1 position 1; both are about to write.
abbrev two_puts : Run
unfolding go init slot_of
two_puts =
    let s0 : Run = record { last = _; reach = start } in
    let s1 = go s0 0 (put_start {x = 7}) refl in
    let s2 = go s1 0 put_load refl in
    let s3 = go s2 0 (put_win refl refl) refl in
    let s4 = go s3 1 (put_start {x = 8}) refl in
    let s5 = go s4 1 put_load refl in go s5 1 (put_win refl refl) refl

-- Thread 0 puts 7 and 8, and takes a value.
abbrev one_taken : Run
unfolding go init slot_of
one_taken =
    let s0 : Run = record { last = _; reach = start } in
    let s1 = go s0 0 (put_start {x = 7}) refl in
    let s2 = go s1 0 put_load refl in
    let s3 = go s2 0 (put_win refl refl) refl in
    let s4 = go s3 0 put_write refl in
    let s5 = go s4 0 put_publish refl in
    let s6 = go s5 0 (put_start {x = 8}) refl in
    let s7 = go s6 0 put_load refl in
    let s8 = go s7 0 (put_win refl refl) refl in
    let s9 = go s8 0 put_write refl in
    let t0 = go s9 0 put_publish refl in
    let t1 = go t0 0 take_start refl in
    let t2 = go t1 0 take_load refl in
    let t3 = go t2 0 (take_win refl refl) refl in
    let t4 = go t3 0 take_copy refl in go t4 0 take_publish refl

one_taken_quiet : (i : ℕ) → one_taken.last.pc i ≡ idle
unfolding go init slot_of
one_taken_quiet zero = refl
one_taken_quiet (suc i) = ground arith

Reach-fifo_example :
    (7 ≡ one_taken.last.queue.log 0)
    × (0 < one_taken.last.queue.dequeue_pos)
    × (0 < one_taken.last.queue.enqueue_pos)
unfolding go init slot_of
Reach-fifo_example = Reach-fifo 0 one_taken.reach 0 refl

Reach-keeps_example :
    (if ltb 1 one_taken.last.queue.dequeue_pos
      then one_taken.last.queue.got 1
      else some (data_at one_taken.last.queue 1))
    ≡ some (one_taken.last.queue.log 1)
unfolding go init slot_of
Reach-keeps_example = Reach-keeps 0 one_taken.reach one_taken_quiet 1 (omega arith)

record Onward : Type 0 where
  end : System ℕ
  way : Later 2 one_taken.last end

step_on :
    (p : Onward) (i : ℕ) {q : Queue ℕ} {c : Pc ℕ}
    → Move p.end.queue (p.end.pc i) q c
    → ltb (p.end.queue.enqueue_pos + 2) (2 ^ 63) ≡ true
    → Onward
step_on p i m few = record { end = _; way = after p.way (ltb→lt _ _ few) (pick i m) }

-- Thread 1 takes the second value while thread 2 has loaded the head.
abbrev second_taken : Onward
unfolding go step_on init slot_of
second_taken =
    let p0 : Onward = record { end = _; way = now } in
    let p1 = step_on p0 1 take_start refl in
    let p2 = step_on p1 1 take_load refl in step_on p2 1 (take_win refl refl) refl

-- One is answered, and nothing is in the queue.
get_remain_capacity-bounds_example :
    let a = one_taken.last.queue in
    let b = second_taken.end.queue in
    (get_remain_capacity a b ≡ b.enqueue_pos - b.dequeue_pos + (b.dequeue_pos - a.dequeue_pos))
    × (b.enqueue_pos - b.dequeue_pos ≤ 2)
    × ((empty a b ≡ (get_remain_capacity a b == 0))
        × (empty a b && ltb 0 (b.enqueue_pos - b.dequeue_pos) ≡ false))
    × ((full a b ≡ leb 2 (get_remain_capacity a b))
        × (not (full a b) && (b.enqueue_pos - b.dequeue_pos == 2) ≡ false))
unfolding go step_on init slot_of
get_remain_capacity-bounds_example =
    get_remain_capacity-bounds 0 one_taken.reach second_taken.way (omega arith)

touches-apart_example : slot_of 2 0 ≢ slot_of 2 1
unfolding go init slot_of
touches-apart_example = touches-apart 0 two_puts.reach 0 1 refl refl (omega arith)

calls_refine_example :
    (q' : Queue ℕ) × (run (λ i. i) [] (init 2 5) (put 1 ∷ put 2 ∷ put 3 ∷ take_one ∷ [])
      ≡ some ((list_run 2 [] (put 1 ∷ put 2 ∷ put 3 ∷ take_one ∷ [])).0, q'))
    × (contents q' ≡ (list_run 2 [] (put 1 ∷ put 2 ∷ put 3 ∷ take_one ∷ [])).1)
calls_refine_example =
    calls_refine (λ i. i) [] 0 5 (put 1 ∷ put 2 ∷ put 3 ∷ take_one ∷ []) (omega arith)

one_slot_loses_example :
    (round_up_to_power_of_2 1 ≡ some 1)
    × (enqueue {A = ℕ} (false ∷ []) (init 1 5) 6 ≡ some (true, after_one {A = ℕ} 5 6))
    × (full {A = ℕ} (after_one 5 6) (after_one 5 6) ≡ true)
    × (enqueue {A = ℕ} (false ∷ []) (after_one 5 6) 7 ≡ some (true, after_two 5 6 7))
    × (data_at {A = ℕ} (after_two 5 6 7) 0 ≡ 7)
    × ((more : List Bool) → dequeue {A = ℕ} more (after_two 5 6 7) ≡ none)
one_slot_loses_example = one_slot_loses 5 6 7 []
