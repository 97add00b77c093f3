-- ===== src/LockFreeQueue/Inv/Put.antt =====
-- The steps of `enqueueImpl` that change the queue keep the invariant.
use yy.Prelude.{
  ℕ, ◌+◌, ◌≤◌, ◌<◌, ◌≡◌, sym, ap, ◌∙◌, ◌≢◌, inl, inr, Option, none, some, arith, ltb, ◌==◌, update,
  ==_iff, Bool-cases,
}
use yy.LockFreeQueue.{
  Queue, slot_of, sequence_at, Pc, put_loop, put_data, put_seq, take_data, take_seq,
}
use yy.LockFreeQueue.Inv.{putter, taker, Fits, Inv, IsRing}
use yy.LockFreeQueue.Inv.Quiet.{update-all, update-here, update-one, update-found}

pub putter-bounds :
    {A : Type 0} (q : Queue A) (p : Pc A) (r : ℕ)
    → Fits q p
    → putter p ≡ some r
    → (q.dequeue_pos ≤ r) × (r < q.enqueue_pos) × (sequence_at q r ≡ r)
putter-bounds q (put_data x n) r f e = ground arith
putter-bounds q (put_seq n) r f e = ground arith
putter-bounds q p r f e = cc

pub taker-bounds :
    {A : Type 0} (q : Queue A) (p : Pc A) (r : ℕ)
    → Fits q p
    → taker p ≡ some r
    → (r < q.dequeue_pos) × (sequence_at q r ≡ r + 1) × (q.got r ≡ none)
taker-bounds q (take_data n) r f e = ground arith
taker-bounds q (take_seq v n) r f e = ground arith
taker-bounds q p r f e = cc

pub none-ne : {k : ℕ} → ◌≡◌ {A = Option ℕ} none (some k) → ⊥
none-ne e = cc

abbrev pub won : {A : Type 0} → Queue A → A → Queue A
won q x = record q { enqueue_pos = q.enqueue_pos + 1; log = update q.log q.enqueue_pos x }

won-Fits :
    {A : Type 0} (q : Queue A) (x : A) (p : Pc A)
    → q.dequeue_pos ≤ q.enqueue_pos
    → Fits q p
    → Fits (won q x) p
won-Fits q x (put_loop y n) h f = omega arith
won-Fits q x p h f = ground arith

logged-older :
    {A : Type 0} (q : Queue A) (x : A) (r : ℕ)
    → r < q.enqueue_pos
    → update q.log q.enqueue_pos x r ≡ q.log r
logged-older q x r h = ground arith

pub ring-distinct :
    {size : ℕ}
    → IsRing size
    → (r n : ℕ) → r ≢ n
    → r < n + size
    → n < r + size
    → slot_of size r ≢ slot_of size n
ring-distinct ring r n ne h k z = elim (Bool-cases (ltb r n)) [
  | inl t ↦ ring.apart r n (ground arith) k z
  | inr o ↦ ring.apart n r (ground arith) h (sym z)
]

module _ {A : Type 0} {q : Queue A} {pc : ℕ → Pc A} (inv : Inv q pc) (ring : IsRing q.size)
    (i : ℕ) where
  -- A slot whose sequence number has come up to the next position is free for it.
  next_is_free :
      q.enqueue_pos ≤ sequence_at q q.enqueue_pos
      → (q.enqueue_pos < q.dequeue_pos + q.size) × (sequence_at q q.enqueue_pos ≡ q.enqueue_pos)
  next_is_free h = elim (Bool-cases (q.enqueue_pos == q.dequeue_pos + q.size)) [
    | inl t ↦
        let e = (==_iff q.enqueue_pos (q.dequeue_pos + q.size)).0 t in
        let same : sequence_at q q.enqueue_pos ≡ sequence_at q q.dequeue_pos =
          ap (λ k. q.sequence (slot_of q.size k)) e ∙ ap q.sequence (ring.lap q.dequeue_pos) in
        elim (inv.held q.dequeue_pos (omega arith) (omega (arith, ring.more))) [
          | inl (s, j) ↦ absurd (omega (arith, ring.more))
          | inr (s, d) ↦ absurd (omega (arith, ring.more))
        ]
    | inr o ↦
        let l : q.enqueue_pos < q.dequeue_pos + q.size = ground (arith, inv.room) in
        elim (inv.free q.enqueue_pos (omega arith) l) [
          | inl s ↦ (l, s)
          | inr (k, w, s, j) ↦ absurd (omega (arith, ring.more))
        ]
  ]

  pub won-Inv :
      (x : A)
      → q.enqueue_pos ≤ sequence_at q q.enqueue_pos
      → putter (pc i) ≡ none
      → taker (pc i) ≡ none
      → Inv (won q x) (update pc i (put_data x q.enqueue_pos))
  won-Inv x h e f =
      let (l, s) = next_is_free h in
      let n : Pc A = put_data x q.enqueue_pos in
      record {
        taken_le = omega (arith, inv.taken_le);
        room = omega arith;
        held = λ r a b. elim (Bool-cases (r == q.enqueue_pos)) [
          | inl t ↦
              let z = (==_iff r q.enqueue_pos).0 t in rw z (inl (s, (i, update-here pc i n putter)))
          | inr o ↦ elim (inv.held r a (ground arith)) [
            | inl (z, j) ↦ inl (z, update-found pc i n putter r j (λ y. cc))
            | inr (z, d) ↦ inr (z, rw o d)
          ]
        ];
        free = λ r a b. elim (inv.free r (omega arith) b) [
          | inl z ↦ inl z
          | inr (k, w, z, j) ↦ inr (k, w, z, update-found pc i n taker k j (λ y. cc))
        ];
        fits =
            update-all pc i n (Fits (won q x)) (inv.taken_le, omega arith, s, ground arith)
              (λ j _. won-Fits q x (pc j) inv.taken_le (inv.fits j));
        one_putter = update-one pc i n putter inv.one_putter (λ k r a b.
            let z : q.enqueue_pos ≡ r = cc in
            absurd (omega (arith, putter-bounds q (pc k) r (inv.fits k) b)));
        one_taker = update-one pc i n taker inv.one_taker (λ k r a b. cc);
        gone = λ r a. elim (inv.gone r a) [
          | inl g ↦ inl (g ∙ ap some (sym (logged-older q x r (omega (arith, inv.taken_le)))))
          | inr j ↦ inr (update-found pc i n taker r j (λ y. cc))
        ];
        unborn = inv.unborn;
        fifo = λ r v a.
            let (b, c) = inv.fifo r v a in
            (b, c ∙ sym (logged-older q x r (omega (arith, b, inv.taken_le))));
      }
