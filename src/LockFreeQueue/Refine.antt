-- ===== src/LockFreeQueue/Refine.antt =====
-- Sequences of calls that do not overlap, against a list with a bound.
use yy.Prelude.{
  ℕ, suc, ◌+◌, ◌-◌, ◌^◌, ◌≤◌, ◌<◌, ◌≡◌, refl, inl, inr, Bool, true, false, Option, none, some, List,
  [], ◌∷◌, ◌++◌, arith, ltb, if◌then◌else◌, Bool-cases, ◌>>=◌, length,
}
use yy.LockFreeQueue.{Queue, init}
use yy.LockFreeQueue.{enqueue, dequeue}
use yy.LockFreeQueue.Inv.{IsRing}
use yy.LockFreeQueue.Inv.Steps.{Inv-init}
use yy.LockFreeQueue.Ring.{IsRing-pow}
use yy.LockFreeQueue.Alone.{
  Rested, contents, length-contents, contents-nil, enqueue_room, enqueue_full, dequeue-some,
  dequeue_empty, enqueued, dequeued, fails,
}

pub data Call (A : Type 0) : Type 0 where
  put : A → Call A
  take_one : Call A

pub data Reply (A : Type 0) : Type 0 where
  accepted : Bool → Reply A
  given : Option A → Reply A

-- A call of the code, in which `compare_exchange_weak` fails `m` times for no reason.
pub call : {A : Type 0} → ℕ → List Bool → Queue A → Call A → Option (Reply A × Queue A)
call m rounds q (put x) = enqueue (fails m rounds) q x >>= λ r. some (accepted r.0, r.1)
call m rounds q take_one = dequeue (fails m rounds) q >>= λ r. some (given r.0, r.1)

-- `weak i` is the number of these failures in call `i`.
pub run :
    {A : Type 0} → (ℕ → ℕ) → List Bool → Queue A → List (Call A) → Option (List (Reply A) × Queue A)
run weak rounds q [] = some ([], q)
run weak rounds q (c ∷ cs) = do
  r ← call (weak 0) rounds q c
  t ← run (λ i. weak (i + 1)) rounds r.1 cs
  some (r.0 ∷ t.0, t.1)

-- The same of a list of at most `size` values.
pub list_call : {A : Type 0} → ℕ → List A → Call A → Reply A × List A
list_call size l (put x) =
    if ltb (length l) size then (accepted true, l ++ (x ∷ [])) else (accepted false, l)
list_call size [] take_one = (given none, [])
list_call size (x ∷ l) take_one = (given (some x), l)

pub list_run : {A : Type 0} → ℕ → List A → List (Call A) → List (Reply A) × List A
list_run size l [] = ([], l)
list_run size l (c ∷ cs) =
    let (r, l') = list_call size l c in let (rs, l'') = list_run size l' cs in (r ∷ rs, l'')

call_refines :
    {A : Type 0} {size : ℕ} (m : ℕ) (rounds : List Bool) (q : Queue A) (c : Call A)
    → Rested q
    → IsRing size
    → q.size ≡ size
    → q.enqueue_pos + size < 2 ^ 63
    → (q' : Queue A) × (call m rounds q c ≡ some ((list_call size (contents q) c).0, q'))
      × Rested q'
      × (contents q' ≡ (list_call size (contents q) c).1)
      × (q'.size ≡ size)
      × (q'.enqueue_pos ≤ q.enqueue_pos + 1)
unfolding call list_call
call_refines {size = size} m rounds q (put x) rest ring same few =
    let ring' : IsRing q.size = rw same ring in
    let room : q.enqueue_pos + q.size < 2 ^ 63 = omega arith in
    let len : length (contents q) ≡ q.enqueue_pos - q.dequeue_pos = length-contents q in
    elim (Bool-cases (ltb q.enqueue_pos (q.dequeue_pos + q.size))) [
      | inl t ↦
          let (e, r, c) = enqueue_room q rest ring' room m rounds x (ground arith) in
          let l : ltb (q.enqueue_pos - q.dequeue_pos) size ≡ true = ground (arith, rest.taken_le) in
          (enqueued q rest ring' room x, rw (e, len, l), r, rw (len, l) c, same, omega arith)
      | inr o ↦
          let e = enqueue_full q rest ring' room m rounds x (ground arith) in
          let l : ltb (q.enqueue_pos - q.dequeue_pos) size ≡ false =
            ground (arith, rest.taken_le) in
          (q, rw (e, len, l), rest, rw (len, l), same, omega arith)
    ]
call_refines {size = size} m rounds q take_one rest ring same few =
    let ring' : IsRing q.size = rw same ring in
    let room : q.enqueue_pos + q.size < 2 ^ 63 = omega arith in
    elim (Bool-cases (ltb q.dequeue_pos q.enqueue_pos)) [
      | inl t ↦
          let (e, r, c) = dequeue-some q rest ring' room m rounds (ground arith) in
          (dequeued q rest ring' room (q.log q.dequeue_pos), rw (e, c), r, rw c, same, omega arith)
      | inr o ↦
          let e = dequeue_empty q rest ring' room m rounds (ground arith) in
          let none_left : q.enqueue_pos - q.dequeue_pos ≡ 0 = ground arith in
          let c : contents q ≡ [] = contents-nil q none_left in
          (q, rw (e, c), rest, rw c, same, omega arith)
    ]

run_refines_from :
    {A : Type 0} {size : ℕ} (weak : ℕ → ℕ) (rounds : List Bool) (q : Queue A) (cs : List (Call A))
    → Rested q
    → IsRing size
    → q.size ≡ size
    → q.enqueue_pos + size + length cs < 2 ^ 63
    → (q' : Queue A) × (run weak rounds q cs ≡ some ((list_run size (contents q) cs).0, q'))
      × (contents q' ≡ (list_run size (contents q) cs).1)
unfolding run list_run
run_refines_from weak rounds q [] rest ring same few = (q, refl, refl)
run_refines_from {size = size} weak rounds q (c ∷ cs) rest ring same few =
    let (q', e, r, d, s, p) = call_refines (weak 0) rounds q c rest ring same (omega arith) in
    let (q'', e', d') =
      run_refines_from (λ i. weak (i + 1)) rounds q' cs r ring s (omega (arith, p)) in
    let a' = rw d at e' in (q'', rw (e, a'), rw d at d')

-- Calls that do not overlap, on a new ring of two slots or more, when `compare_exchange_weak` fails any
-- number of times in each call for no reason: a call returns within one round of its loop more than
-- that number, and they answer as a list does that takes values at its end while it has fewer than the
-- slots, refuses them else, and gives them back from its front.
pub calls_refine :
    {A : Type 0} (weak : ℕ → ℕ) (rounds : List Bool) (k : ℕ) (v : A) (cs : List (Call A))
    → 2 ^ suc k + length cs < 2 ^ 63
    → (q' : Queue A) × (run weak rounds (init (2 ^ suc k) v) cs
        ≡ some ((list_run (2 ^ suc k) [] cs).0, q'))
      × (contents q' ≡ (list_run (2 ^ suc k) [] cs).1)
unfolding init
calls_refine weak rounds k v cs few =
    let size = 2 ^ suc k in
    let ring = IsRing-pow k in
    let q = init size v in
    let (q', e, c) =
      run_refines_from weak rounds q cs (Inv-init size v ring) ring refl (omega arith) in
    let none_yet : contents q ≡ [] = contents-nil q refl in (q', rw none_yet at e, rw none_yet at c)
