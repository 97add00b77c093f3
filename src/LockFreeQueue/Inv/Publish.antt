-- ===== src/LockFreeQueue/Inv/Publish.antt =====
-- The last two steps of `enqueueImpl`, which write the data and the sequence number.
use yy.Prelude.{
  ℕ, ◌+◌, ◌≤◌, ◌<◌, ◌≡◌, sym, ap, ◌∙◌, ◌≢◌, ◌⊎◌, inl, inr, none, some, arith, ◌==◌, update, ==_iff,
  Bool-cases,
}
use yy.LockFreeQueue.{Queue, slot_of, sequence_at, Pc, idle, put_data, put_seq, take_data, take_seq}
use yy.LockFreeQueue.Inv.{putter, taker, Fits, Inv, IsRing}
use yy.LockFreeQueue.Inv.Quiet.{update-all, update-one, update-found}
use yy.LockFreeQueue.Inv.Put.{ring-distinct, none-ne}

module _ {A : Type 0} {q : Queue A} {pc : ℕ → Pc A} (inv : Inv q pc) (ring : IsRing q.size)
    (i : ℕ) where
  -- ---- the data

  abbrev pub written : A → ℕ → Queue A
  written x n = record q { slot_data = update q.slot_data (slot_of q.size n) x }

  -- The slot of a position that is won by a call of `enqueueImpl` is no other position's.
  pub slot-ne :
      (n r : ℕ)
      → q.dequeue_pos ≤ n
      → n < q.enqueue_pos
      → sequence_at q n ≡ n
      → (sequence_at q r ≡ r + 1) ⊎ ((q.dequeue_pos ≤ r) × (r < q.enqueue_pos) × (r ≢ n))
      → r < q.dequeue_pos + q.size
      → slot_of q.size r ≢ slot_of q.size n
  slot-ne n r a b s o h z =
      let same : sequence_at q r ≡ sequence_at q n = ap q.sequence z in
      elim o [
        | inl t ↦ ring.apart r n (omega arith) (omega (arith, ring.more)) z
        | inr (c, d, ne) ↦
            ring-distinct ring r n ne (omega (arith, inv.room)) (omega (arith, inv.room)) z
      ]

  written-Fits :
      (x : A) (n : ℕ)
      → q.dequeue_pos ≤ n
      → n < q.enqueue_pos
      → sequence_at q n ≡ n
      → (p : Pc A) → Fits q p
      → putter p ≢ some n
      → Fits (written x n) p
  written-Fits x n a b s (put_seq m) (c, d, t, g) ne =
      let o : slot_of q.size m ≢ slot_of q.size n =
        slot-ne n m a b s (inr (c, d, λ z. ne (ap some z))) (omega (arith, inv.room)) in
      (c, d, t, ground arith)
  written-Fits x n a b s (take_data m) (c, t, d, g) ne =
      let o : slot_of q.size m ≢ slot_of q.size n =
        slot-ne n m a b s (inl t) (omega (arith, inv.room)) in
      (c, t, ground arith, g)
  written-Fits x n a b s p f ne = ground arith

  pub written-Inv :
      (x : A) (n : ℕ) → pc i ≡ put_data x n → Inv (written x n) (update pc i (put_seq n))
  written-Inv x n here =
      let own = rw here at (inv.fits i) in
      let (c, d, t, g) = own in
      let mine : putter (pc i) ≡ some n = ap putter here in
      let no : taker (pc i) ≡ none = ap taker here in
      let z : Pc A = put_seq n in
      record {
        taken_le = inv.taken_le;
        room = inv.room;
        held = λ r a b. elim (inv.held r a b) [
          | inl (y, j) ↦ inl (y, update-found pc i z putter r j (λ w. sym mine ∙ w))
          | inr (y, l) ↦ inr (
            y,
            (let o : slot_of q.size r ≢ slot_of q.size n =
                  slot-ne n r c d t (inl y) (omega (arith, inv.room, inv.taken_le)) in
                ground arith),
          )
        ];
        free = λ r a b. elim (inv.free r a b) [
          | inl y ↦ inl y
          | inr (k, u, y, j) ↦
              inr (k, u, y, update-found pc i z taker k j (λ w. absurd (none-ne (sym no ∙ w))))
        ];
        fits =
            update-all pc i z (Fits (written x n)) (c, d, t, ground arith)
              (λ j ne.
                written-Fits x n c d t (pc j) (inv.fits j) (λ w. ne (inv.one_putter j i n w mine)));
        one_putter =
            update-one pc i z putter inv.one_putter (λ k r a b. inv.one_putter k i r b (mine ∙ a));
        one_taker = update-one pc i z taker inv.one_taker (λ k r a b. cc);
        gone = λ r a. elim (inv.gone r a) [
          | inl g ↦ inl g
          | inr j ↦ inr (update-found pc i z taker r j (λ w. absurd (none-ne (sym no ∙ w))))
        ];
        unborn = inv.unborn;
        fifo = inv.fifo;
      }

  -- ---- the sequence number

  abbrev pub published : ℕ → Queue A
  published n = record q { sequence = update q.sequence (slot_of q.size n) (n + 1) }

  published-Fits :
      (n : ℕ)
      → q.dequeue_pos ≤ n
      → n < q.enqueue_pos
      → sequence_at q n ≡ n
      → (p : Pc A) → Fits q p
      → putter p ≢ some n
      → Fits (published n) p
  published-Fits n a b s (put_data x m) (c, d, t, g) ne =
      let o : slot_of q.size m ≢ slot_of q.size n =
        slot-ne n m a b s (inr (c, d, λ z. ne (ap some z))) (omega (arith, inv.room)) in
      (c, d, ground arith, g)
  published-Fits n a b s (put_seq m) (c, d, t, g) ne =
      let o : slot_of q.size m ≢ slot_of q.size n =
        slot-ne n m a b s (inr (c, d, λ z. ne (ap some z))) (omega (arith, inv.room)) in
      (c, d, ground arith, g)
  published-Fits n a b s (take_data m) (c, t, d, g) ne =
      let o : slot_of q.size m ≢ slot_of q.size n =
        slot-ne n m a b s (inl t) (omega (arith, inv.room)) in
      (c, ground arith, d, g)
  published-Fits n a b s (take_seq v m) (c, t, d, g) ne =
      let o : slot_of q.size m ≢ slot_of q.size n =
        slot-ne n m a b s (inl t) (omega (arith, inv.room)) in
      (c, ground arith, d, g)
  published-Fits n a b s p f ne = ground arith

  pub published-Inv : (n : ℕ) → pc i ≡ put_seq n → Inv (published n) (update pc i idle)
  published-Inv n here =
      let own = rw here at (inv.fits i) in
      let (c, d, t, g) = own in
      let mine : putter (pc i) ≡ some n = ap putter here in
      let no : taker (pc i) ≡ none = ap taker here in
      let z : Pc A = idle in
      record {
        taken_le = inv.taken_le;
        room = inv.room;
        held = λ r a b. elim (Bool-cases (r == n)) [
          | inl y ↦ let e = (==_iff r n).0 y in rw e (inr (ground arith, g))
          | inr y ↦
              let ne : r ≢ n = ground arith in
              let o : slot_of q.size r ≢ slot_of q.size n =
                ring-distinct ring r n ne (omega (arith, inv.room)) (omega (arith, inv.room)) in
              elim (inv.held r a b) [
                | inl (y, j) ↦ inl (
                  ground arith,
                  update-found pc i z putter r j (λ w. absurd (ground (arith, sym w ∙ mine))),
                )
                | inr (y, l) ↦ inr (ground arith, l)
              ]
        ];
        free = λ r a b.
            let o : slot_of q.size r ≢ slot_of q.size n =
              ring-distinct ring r n (λ e. absurd (omega arith)) (omega (arith, inv.room))
                (omega (arith, inv.room)) in
            elim (inv.free r a b) [
              | inl y ↦ inl (ground arith)
              | inr (k, u, y, j) ↦ inr (
                k,
                u,
                ground arith,
                update-found pc i z taker k j (λ w. absurd (none-ne (sym no ∙ w))),
              )
            ];
        fits = update-all pc i z (Fits (published n)) tt (λ j ne.
            published-Fits n c d t (pc j) (inv.fits j) (λ w. ne (inv.one_putter j i n w mine)));
        one_putter = update-one pc i z putter inv.one_putter (λ k r a b. cc);
        one_taker = update-one pc i z taker inv.one_taker (λ k r a b. cc);
        gone = λ r a. elim (inv.gone r a) [
          | inl g ↦ inl g
          | inr j ↦ inr (update-found pc i z taker r j (λ w. absurd (none-ne (sym no ∙ w))))
        ];
        unborn = inv.unborn;
        fifo = inv.fifo;
      }
