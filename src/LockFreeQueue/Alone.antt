-- ===== src/LockFreeQueue/Alone.antt =====
-- Calls that do not overlap: a bounded first-in first-out queue.
use mathlib.Core.Path.{fun_ext}
use yy.Prelude.{
  ℕ, zero, suc, ◌+◌, ◌-◌, ◌%◌, ◌^◌, ◌≤◌, ◌<◌, ◌≡◌, refl, ap, ap₂, ◌∙◌, inl, inr, Bool, true, false,
  none, some, List, [], ◌∷◌, ◌++◌, arith, ltb, ◌==◌, update, ==_iff, lt→ltb, Bool-cases, length,
}
use yy.LockFreeQueue.{
  Queue, slot_of, sequence_at, data_at, as_signed, Pc, idle, put_data, put_seq, take_data, take_seq,
}
use yy.LockFreeQueue.{enqueue, enqueue_loop, dequeue, dequeue_loop}
use yy.LockFreeQueue.Inv.{Inv, IsRing}
use yy.LockFreeQueue.Inv.Quiet.{quiet}
use yy.LockFreeQueue.Inv.Put.{won-Inv}
use yy.LockFreeQueue.Inv.Publish.{written-Inv, published-Inv}
use yy.LockFreeQueue.Inv.Take.{passed-Inv, returned-Inv}

-- No thread is inside a call.
abbrev pub Rested : {A : Type 0} → Queue A → Type 0
Rested q = Inv q (λ _. idle)

-- `n` values from position `a` on
span : {A : Type 0} → (ℕ → A) → ℕ → ℕ → List A
span g a zero = []
span g a (suc n) = g a ∷ span g (a + 1) n

pub contents : {A : Type 0} → Queue A → List A
contents q = span q.log q.dequeue_pos (q.enqueue_pos - q.dequeue_pos)

length-span : {A : Type 0} (g : ℕ → A) (a n : ℕ) → length (span g a n) ≡ n
unfolding span
length-span g a zero = refl
length-span g a (suc n) = ap suc (length-span g (a + 1) n)

pub length-contents :
    {A : Type 0} (q : Queue A) → length (contents q) ≡ q.enqueue_pos - q.dequeue_pos
unfolding contents
length-contents q = length-span q.log q.dequeue_pos (q.enqueue_pos - q.dequeue_pos)

pub contents-nil : {A : Type 0} (q : Queue A) → q.enqueue_pos - q.dequeue_pos ≡ 0 → contents q ≡ []
unfolding contents span
contents-nil q e = rw e

span-snoc :
    {A : Type 0} (g : ℕ → A) (x : A) (b a n : ℕ)
    → b ≡ a + n
    → span (update g b x) a (suc n) ≡ span g a n ++ (x ∷ [])
unfolding span
span-snoc g x b a zero e = ap (λ v. v ∷ []) (ground arith)
span-snoc g x b a (suc n) e =
    ap₂ (λ v vs. v ∷ vs) (ground arith) (span-snoc g x b (a + 1) n (omega arith))

collapse :
    {A : Type 0} (p p' : Pc A)
    → ◌≡◌ {A = ℕ → Pc A} (update (update (update (λ _. idle) 0 p) 0 p') 0 idle) (λ _. idle)
collapse p p' = fun_ext (λ j. elim (Bool-cases (j == 0)) [ inl t ↦ rw t | inr o ↦ rw o ])

-- The rounds of a call in which `compare_exchange_weak` fails `m` times for no reason, and then not.
pub fails : ℕ → List Bool → List Bool
fails zero rounds = false ∷ rounds
fails (suc m) rounds = true ∷ fails m rounds

-- A list of rounds of that kind is not empty.
fails-cons :
    (m : ℕ) (rounds : List Bool)
    → (weak : Bool) × (more : List Bool) × (fails m rounds ≡ weak ∷ more)
unfolding fails
fails-cons zero rounds = (false, rounds, refl)
fails-cons (suc m) rounds = (true, fails m rounds, refl)

module _ {A : Type 0} (q : Queue A) (rest : Rested q) (ring : IsRing q.size)
    (few : q.enqueue_pos + q.size < 2 ^ 63) where
  abbrev pub enqueued : A → Queue A
  enqueued x = record q {
    enqueue_pos = q.enqueue_pos + 1;
    log = update q.log q.enqueue_pos x;
    slot_data = update q.slot_data (slot_of q.size q.enqueue_pos) x;
    sequence = update q.sequence (slot_of q.size q.enqueue_pos) (q.enqueue_pos + 1);
  }

  enqueue_tries :
      (m : ℕ) (rounds : List Bool) (x : A)
      → sequence_at q q.enqueue_pos ≡ q.enqueue_pos
      → enqueue_loop (fails m rounds) q x q.enqueue_pos ≡ some (true, enqueued x)
  unfolding enqueue_loop fails
  enqueue_tries zero rounds x s =
      let next : (q.enqueue_pos + 1) % 2 ^ 64 ≡ q.enqueue_pos + 1 = omega arith in
      let t = (==_iff q.enqueue_pos q.enqueue_pos).1 refl in rw (s, t, next)
  enqueue_tries (suc m) rounds x s =
      let t = (==_iff q.enqueue_pos q.enqueue_pos).1 refl in rw (s, t) (enqueue_tries m rounds x s)

  pub enqueue_room :
      (m : ℕ) (rounds : List Bool) (x : A)
      → q.enqueue_pos < q.dequeue_pos + q.size
      → (enqueue (fails m rounds) q x ≡ some (true, enqueued x))
        × Rested (enqueued x)
        × (contents (enqueued x) ≡ contents q ++ (x ∷ []))
  unfolding enqueue contents
  enqueue_room m rounds x h =
      let s : sequence_at q q.enqueue_pos ≡ q.enqueue_pos =
        elim (rest.free q.enqueue_pos (omega arith) h) [ inl s ↦ s | inr (k, u, s, (i, e)) ↦ cc ] in
      let i1 = won-Inv rest ring 0 x (omega arith) refl refl in
      let i2 = written-Inv i1 ring 0 x q.enqueue_pos refl in
      let i3 = published-Inv i2 ring 0 q.enqueue_pos refl in
      let next : (q.enqueue_pos + 1) % 2 ^ 64 ≡ q.enqueue_pos + 1 = omega arith in
      let n = q.enqueue_pos - q.dequeue_pos in
      let len : q.enqueue_pos + 1 - q.dequeue_pos ≡ suc n = omega (arith, rest.taken_le) in
      let last : q.enqueue_pos ≡ q.dequeue_pos + n = omega (arith, rest.taken_le) in
      (
        enqueue_tries m rounds x s,
        rw (collapse (put_data x q.enqueue_pos) (put_seq q.enqueue_pos)) at i3,
        rw len (span-snoc q.log x q.enqueue_pos q.dequeue_pos n last),
      )

  pub enqueue_full :
      (m : ℕ) (rounds : List Bool) (x : A)
      → q.dequeue_pos + q.size ≤ q.enqueue_pos
      → enqueue (fails m rounds) q x ≡ some (false, q)
  unfolding enqueue enqueue_loop
  enqueue_full m rounds x h =
      let (weak, more, shape) = fails-cons m rounds in
      let e : q.enqueue_pos ≡ q.dequeue_pos + q.size = omega (arith, rest.room) in
      let same : sequence_at q q.enqueue_pos ≡ sequence_at q q.dequeue_pos =
        ap (λ k. q.sequence (slot_of q.size k)) e ∙ ap q.sequence (ring.lap q.dequeue_pos) in
      let s : sequence_at q q.enqueue_pos ≡ q.dequeue_pos + 1 =
        elim (rest.held q.dequeue_pos (omega arith) (omega (arith, ring.more))) [
          | inl (s, (i, e)) ↦ cc
          | inr (s, d) ↦ same ∙ s
        ] in
      let o : (q.dequeue_pos + 1 == q.enqueue_pos) ≡ false = ground (arith, ring.more) in
      let l : ltb (as_signed (q.dequeue_pos + 1)) (as_signed q.enqueue_pos) ≡ true =
        lt→ltb _ _ (omega (arith, ring.more)) in
      rw shape (rw (s, o, l))

  abbrev pub dequeued : A → Queue A
  dequeued v = record q {
    dequeue_pos = q.dequeue_pos + 1;
    sequence = update q.sequence (slot_of q.size q.dequeue_pos) (q.dequeue_pos + q.size);
    got = update q.got q.dequeue_pos (some v);
  }

  dequeue_tries :
      (m : ℕ) (rounds : List Bool) (v : A)
      → sequence_at q q.dequeue_pos ≡ q.dequeue_pos + 1
      → data_at q q.dequeue_pos ≡ v
      → dequeue_loop (fails m rounds) q q.dequeue_pos ≡ some (some v, dequeued v)
  unfolding dequeue_loop fails
  dequeue_tries zero rounds v s d =
      let next : (q.dequeue_pos + 1) % 2 ^ 64 ≡ q.dequeue_pos + 1 = omega (arith, rest.taken_le) in
      let over : (q.dequeue_pos + q.size) % 2 ^ 64 ≡ q.dequeue_pos + q.size =
        omega (arith, rest.taken_le) in
      let t = (==_iff q.dequeue_pos q.dequeue_pos).1 refl in
      let u = (==_iff (q.dequeue_pos + 1) (q.dequeue_pos + 1)).1 refl in rw (next, s, t, u, over, d)
  dequeue_tries (suc m) rounds v s d =
      let next : (q.dequeue_pos + 1) % 2 ^ 64 ≡ q.dequeue_pos + 1 = omega (arith, rest.taken_le) in
      let t = (==_iff q.dequeue_pos q.dequeue_pos).1 refl in
      let u = (==_iff (q.dequeue_pos + 1) (q.dequeue_pos + 1)).1 refl in
      rw (next, s, t, u) (dequeue_tries m rounds v s d)

  pub dequeue-some :
      (m : ℕ) (rounds : List Bool)
      → q.dequeue_pos < q.enqueue_pos
      → let v = q.log q.dequeue_pos in
        (dequeue (fails m rounds) q ≡ some (some v, dequeued v))
        × Rested (dequeued v)
        × (contents q ≡ v ∷ contents (dequeued v))
  unfolding dequeue contents span
  dequeue-some m rounds h =
      let v = q.log q.dequeue_pos in
      let (s, d) : (sequence_at q q.dequeue_pos ≡ q.dequeue_pos + 1)
          × (data_at q q.dequeue_pos ≡ v) =
        elim (rest.held q.dequeue_pos (omega arith) h) [
          | inl (s, (i, e)) ↦ cc
          | inr (s, d) ↦ (s, d)
        ] in
      let i1 = passed-Inv rest ring 0 (omega arith) refl refl in
      let p = i1.fits 0 in
      let i2 = quiet i1 0 (take_seq v q.dequeue_pos) refl refl (p.0, p.1, refl, p.3) in
      let i3 = returned-Inv i2 ring 0 v q.dequeue_pos refl in
      let n = q.enqueue_pos - (q.dequeue_pos + 1) in
      let len : q.enqueue_pos - q.dequeue_pos ≡ suc n = omega arith in
      (
        dequeue_tries m rounds v s d,
        rw (collapse (take_data q.dequeue_pos) (take_seq v q.dequeue_pos)) at i3,
        rw len,
      )

  pub dequeue_empty :
      (m : ℕ) (rounds : List Bool)
      → q.enqueue_pos ≤ q.dequeue_pos
      → dequeue (fails m rounds) q ≡ some (none, q)
  unfolding dequeue dequeue_loop
  dequeue_empty m rounds h =
      let (weak, more, shape) = fails-cons m rounds in
      let s : sequence_at q q.dequeue_pos ≡ q.dequeue_pos =
        elim (rest.free q.dequeue_pos h (omega (arith, ring.more))) [
          | inl s ↦ s
          | inr (k, u, s, (i, e)) ↦ cc
        ] in
      let next : (q.dequeue_pos + 1) % 2 ^ 64 ≡ q.dequeue_pos + 1 = omega (arith, rest.taken_le) in
      let o : (q.dequeue_pos == q.dequeue_pos + 1) ≡ false = ground arith in
      let l : ltb (as_signed q.dequeue_pos) (as_signed (q.dequeue_pos + 1)) ≡ true =
        lt→ltb _ _ (omega (arith, rest.taken_le)) in
      rw shape (rw (next, s, o, l))
