-- ===== src/LockFreeQueue.antt =====
-- Common/LockFreeCurcularQueue.h: the bounded queue of a ring of slots with sequence numbers, and the
-- threads that call it, one shared access at a time. Accesses interleave in one order that all
-- threads see. `log` and `got` are not in the code: the value that was put with each position, and
-- the value that the call which took the position has returned.
pub mod Inv
pub mod Ring
pub mod Safety
pub mod Alone
pub mod Refine
pub mod Single
mod Tests
use Prim.Native.Nat.{bit_and, bit_or}
use yy.Prelude.{
  ℕ, zero, suc, ◌+◌, ◌-◌, ◌/◌, ◌%◌, ◌^◌, ◌<◌, ◌≡◌, Bool, true, false, not, ◌&&◌, Option, none, some,
  List, [], ◌∷◌, ltb, leb, ◌==◌, if◌then◌else◌, update, add_size, sub_size, ◌>>=◌, ◌>>◌,
}

pub record Queue (A : Type 0) : Type 0 where
  pub size : ℕ
  pub enqueue_pos : ℕ
  pub dequeue_pos : ℕ
  pub sequence : ℕ → ℕ
  pub slot_data : ℕ → A
  pub log : ℕ → A
  pub got : ℕ → Option A

-- `n |= n >> k`
abbrev smear : ℕ → ℕ → ℕ
smear k n = bit_or n (n / 2 ^ k)

pub round_up_to_power_of_2 : ℕ → Option ℕ
round_up_to_power_of_2 n =
    if n == 0
    then none
    else some (add_size (smear 32 (smear 16 (smear 8 (smear 4 (smear 2 (smear 1 (n - 1))))))) 1)

-- The constructor for the size that the capacity is rounded up to; `v` is the value that a slot
-- is made with.
unfoldable pub init : {A : Type 0} → ℕ → A → Queue A
init size v = record {
  size = size;
  enqueue_pos = 0;
  dequeue_pos = 0;
  sequence = λ i. i;
  slot_data = λ _. v;
  log = λ _. v;
  got = λ _. none;
}

-- `pos & bufferMask_`
unfoldable pub slot_of : ℕ → ℕ → ℕ
slot_of size pos = bit_and pos (size - 1)

abbrev pub sequence_at : {A : Type 0} → Queue A → ℕ → ℕ
sequence_at q pos = q.sequence (slot_of q.size pos)

abbrev pub data_at : {A : Type 0} → Queue A → ℕ → A
data_at q pos = q.slot_data (slot_of q.size pos)

-- `static_cast<intptr_t>(n) + 2^63`, which has the order of the signed numbers.
abbrev pub as_signed : ℕ → ℕ
as_signed n = (n + 2 ^ 63) % 2 ^ 64

-- Where a thread stands in a call, with the local variables that are live there.
pub data Pc (A : Type 0) : Type 0 where
  idle : Pc A
  put_loop : (x : A) (pos : ℕ) → Pc A  -- head of the loop of `enqueueImpl`
  put_read : (x : A) (pos seq : ℕ) → Pc A  -- the sequence number is read
  put_data : (x : A) (pos : ℕ) → Pc A  -- the position is won
  put_seq : (pos : ℕ) → Pc A  -- the data is written
  take_loop : (pos : ℕ) → Pc A  -- head of the loop of `dequeue`
  take_read : (pos seq : ℕ) → Pc A
  take_data : (pos : ℕ) → Pc A
  take_seq : (v : A) (pos : ℕ) → Pc A

-- One step of one thread. `compare_exchange_weak` may fail for no reason, and what it then stores
-- in `pos` is what it read.
pub data Move {A : Type 0} (q : Queue A) : Pc A → Queue A → Pc A → Type 0 where
  put_start : {x : A} → Move q idle q (put_loop x q.enqueue_pos)
  put_load : {x : A} {pos : ℕ} → Move q (put_loop x pos) q (put_read x pos (sequence_at q pos))
  put_win :
      {x : A} {pos seq : ℕ}
      → seq ≡ pos
      → q.enqueue_pos ≡ pos
      → Move q
          (put_read x pos seq)
          (record q { enqueue_pos = add_size pos 1; log = update q.log pos x })
          (put_data x pos)
  put_lose :
      {x : A} {pos seq : ℕ} → seq ≡ pos → Move q (put_read x pos seq) q (put_loop x q.enqueue_pos)
  put_full :
      {x : A} {pos seq : ℕ} → as_signed seq < as_signed pos → Move q (put_read x pos seq) q idle
  put_again :
      {x : A} {pos seq : ℕ}
      → as_signed pos < as_signed seq
      → Move q (put_read x pos seq) q (put_loop x q.enqueue_pos)
  put_write :
      {x : A} {pos : ℕ}
      → Move q
          (put_data x pos)
          (record q { slot_data = update q.slot_data (slot_of q.size pos) x })
          (put_seq pos)
  put_publish :
      {pos : ℕ}
      → Move q
          (put_seq pos)
          (record q { sequence = update q.sequence (slot_of q.size pos) (add_size pos 1) })
          idle
  take_start : Move q idle q (take_loop q.dequeue_pos)
  take_load : {pos : ℕ} → Move q (take_loop pos) q (take_read pos (sequence_at q pos))
  take_win :
      {pos seq : ℕ}
      → seq ≡ add_size pos 1
      → q.dequeue_pos ≡ pos
      → Move q (take_read pos seq) (record q { dequeue_pos = add_size pos 1 }) (take_data pos)
  take_lose :
      {pos seq : ℕ} → seq ≡ add_size pos 1 → Move q (take_read pos seq) q (take_loop q.dequeue_pos)
  take_empty :
      {pos seq : ℕ} → as_signed seq < as_signed (add_size pos 1) → Move q (take_read pos seq) q idle
  take_again :
      {pos seq : ℕ}
      → as_signed (add_size pos 1) < as_signed seq
      → Move q (take_read pos seq) q (take_loop q.dequeue_pos)
  take_copy : {pos : ℕ} → Move q (take_data pos) q (take_seq (data_at q pos) pos)
  take_publish :
      {v : A} {pos : ℕ}
      → Move q
          (take_seq v pos)
          (record q {
            sequence = update q.sequence (slot_of q.size pos) (add_size pos q.size);
            got = update q.got pos (some v);
          })
          idle

-- Any number of threads over one queue.
pub record System (A : Type 0) : Type 0 where
  pub queue : Queue A
  pub pc : ℕ → Pc A

pub data Step {A : Type 0} (s : System A) : System A → Type 0 where
  pick :
      (i : ℕ) {q : Queue A} {p : Pc A}
      → Move s.queue (s.pc i) q p
      → Step s (record { queue = q; pc = update s.pc i p })

-- Runs in which fewer than 2^63 positions are given out, so that no position wraps.
pub data Reach {A : Type 0} (size : ℕ) (v : A) : System A → Type 0 where
  start : Reach size v (record { queue = init size v; pc = λ _. idle })
  later :
      {s t : System A}
      → Reach size v s
      → s.queue.enqueue_pos + size < 2 ^ 63
      → Step s t
      → Reach size v t

-- These load `head` and then `tail`: the arguments are the queue at the first and at the second load,
-- between which other threads may go on.
unfoldable pub empty : {A : Type 0} → Queue A → Queue A → Bool
empty at_head at_tail = at_head.dequeue_pos == at_tail.enqueue_pos

unfoldable pub full : {A : Type 0} → Queue A → Queue A → Bool
full at_head at_tail = leb at_tail.size (sub_size at_tail.enqueue_pos at_head.dequeue_pos)

unfoldable pub get_remain_capacity : {A : Type 0} → Queue A → Queue A → ℕ
get_remain_capacity at_head at_tail = sub_size at_tail.enqueue_pos at_head.dequeue_pos

-- ---- one call with no other thread inside a call

-- `enqueueImpl` from the head of its loop. The list has an entry for each round that the loop may
-- make: whether `compare_exchange_weak` fails in it for no reason. `none` is a loop that goes on.
unfoldable pub enqueue_loop : {A : Type 0} → List Bool → Queue A → A → ℕ → Option (Bool × Queue A)
enqueue_loop [] q x pos = none
enqueue_loop (weak ∷ rounds) q x pos =
    let again = enqueue_loop rounds q x q.enqueue_pos in
    let seq = sequence_at q pos in
    if seq == pos && (q.enqueue_pos == pos && not weak)
    then some (
      true,
      record q {
        enqueue_pos = add_size pos 1;
        log = update q.log pos x;
        slot_data = update q.slot_data (slot_of q.size pos) x;
        sequence = update q.sequence (slot_of q.size pos) (add_size pos 1);
      },
    )
    else if not (seq == pos) && ltb (as_signed seq) (as_signed pos)
    then some (false, q)
    else again

unfoldable pub enqueue : {A : Type 0} → List Bool → Queue A → A → Option (Bool × Queue A)
enqueue rounds q x = enqueue_loop rounds q x q.enqueue_pos

-- `dequeue`, with what it stores in `data`, if it returns true.
unfoldable pub dequeue_loop : {A : Type 0} → List Bool → Queue A → ℕ → Option (Option A × Queue A)
dequeue_loop [] q pos = none
dequeue_loop (weak ∷ rounds) q pos =
    let again = dequeue_loop rounds q q.dequeue_pos in
    let seq = sequence_at q pos in
    if seq == add_size pos 1 && (q.dequeue_pos == pos && not weak)
    then some (
      some (data_at q pos),
      record q {
        dequeue_pos = add_size pos 1;
        sequence = update q.sequence (slot_of q.size pos) (add_size pos q.size);
        got = update q.got pos (some (data_at q pos));
      },
    )
    else if not (seq == add_size pos 1) && ltb (as_signed seq) (as_signed (add_size pos 1))
    then some (none, q)
    else again

unfoldable pub dequeue : {A : Type 0} → List Bool → Queue A → Option (Option A × Queue A)
dequeue rounds q = dequeue_loop rounds q q.dequeue_pos
