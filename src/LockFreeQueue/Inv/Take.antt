-- ===== src/LockFreeQueue/Inv/Take.antt =====
-- The steps of `dequeue` that change the queue keep the invariant.
use yy.Prelude.{
  ℕ, ◌+◌, ◌<◌, ◌≡◌, sym, ap, ◌∙◌, ◌≢◌, ◌⊎◌, inl, inr, false, none, some, arith, ◌==◌, update,
  ==_iff, Bool-cases,
}
use yy.LockFreeQueue.{
  Queue, slot_of, sequence_at, data_at, Pc, idle, put_data, put_seq, take_data, take_seq,
}
use yy.LockFreeQueue.Inv.{putter, taker, Fits, Inv, IsRing}
use yy.LockFreeQueue.Inv.Quiet.{update-all, update-here, update-one, update-found}
use yy.LockFreeQueue.Inv.Put.{taker-bounds, none-ne}

module _ {A : Type 0} {q : Queue A} {pc : ℕ → Pc A} (inv : Inv q pc) (ring : IsRing q.size)
    (i : ℕ) where
  -- A slot whose sequence number has come up to the next position to take is ready for it.
  next_is_ready :
      q.dequeue_pos < sequence_at q q.dequeue_pos
      → (q.dequeue_pos < q.enqueue_pos)
        × (sequence_at q q.dequeue_pos ≡ q.dequeue_pos + 1)
        × (data_at q q.dequeue_pos ≡ q.log q.dequeue_pos)
  next_is_ready h = elim (Bool-cases (q.dequeue_pos == q.enqueue_pos)) [
    | inl t ↦
        let e = (==_iff q.dequeue_pos q.enqueue_pos).0 t in
        elim (inv.free q.dequeue_pos (omega arith) (omega (arith, ring.more))) [
          | inl s ↦ absurd (omega arith)
          | inr (k, w, s, j) ↦ absurd (omega (arith, ring.more))
        ]
    | inr o ↦
        let l : q.dequeue_pos < q.enqueue_pos = ground (arith, inv.taken_le) in
        elim (inv.held q.dequeue_pos (omega arith) l) [
          | inl (s, j) ↦ absurd (omega arith)
          | inr (s, d) ↦ (l, s, d)
        ]
  ]

  abbrev pub passed : Queue A
  passed = record q { dequeue_pos = q.dequeue_pos + 1 }

  passed-Fits : q.dequeue_pos < sequence_at q q.dequeue_pos → (p : Pc A) → Fits q p → Fits passed p
  passed-Fits h (put_data x m) f = ground arith
  passed-Fits h (put_seq m) f = ground arith
  passed-Fits h p f = ground arith

  pub passed-Inv :
      q.dequeue_pos < sequence_at q q.dequeue_pos
      → putter (pc i) ≡ none
      → taker (pc i) ≡ none
      → Inv passed (update pc i (take_data q.dequeue_pos))
  passed-Inv h e f =
      let (l, s, d) = next_is_ready h in
      let n : Pc A = take_data q.dequeue_pos in
      record {
        taken_le = omega arith;
        room = omega (arith, inv.room);
        held = λ r a b. elim (inv.held r (omega arith) b) [
          | inl (z, j) ↦ inl (z, update-found pc i n putter r j (λ w. absurd (none-ne (sym e ∙ w))))
          | inr y ↦ inr y
        ];
        free = λ r a b. elim (Bool-cases (r == q.dequeue_pos + q.size)) [
          | inl t ↦
              let y = (==_iff r (q.dequeue_pos + q.size)).0 t in
              inr (
                q.dequeue_pos,
                sym y,
                ap (λ k. q.sequence (slot_of q.size k)) y
                    ∙ ap q.sequence (ring.lap q.dequeue_pos)
                    ∙ s,
                (i, update-here pc i n taker),
              )
          | inr o ↦ elim (inv.free r a (ground arith)) [
            | inl z ↦ inl z
            | inr (k, u, z, j) ↦
                inr (k, u, z, update-found pc i n taker k j (λ w. absurd (none-ne (sym f ∙ w))))
          ]
        ];
        fits =
            update-all pc i n (Fits passed)
              (omega arith, s, d, inv.unborn q.dequeue_pos (omega arith))
              (λ j _. passed-Fits h (pc j) (inv.fits j));
        one_putter = update-one pc i n putter inv.one_putter (λ k r a b. cc);
        one_taker = update-one pc i n taker inv.one_taker (λ k r a b.
            let z : q.dequeue_pos ≡ r = cc in
            absurd (omega (arith, (taker-bounds q (pc k) r (inv.fits k) b).0)));
        gone = λ r a. elim (Bool-cases (r == q.dequeue_pos)) [
          | inl t ↦ let y = (==_iff r q.dequeue_pos).0 t in rw y (inr (i, update-here pc i n taker))
          | inr o ↦ elim (inv.gone r (ground arith)) [
            | inl g ↦ inl g
            | inr j ↦ inr (update-found pc i n taker r j (λ w. absurd (none-ne (sym f ∙ w))))
          ]
        ];
        unborn = λ r a. inv.unborn r (omega arith);
        fifo = λ r v a. let (b, c) = inv.fifo r v a in (omega arith, c);
      }

  abbrev pub returned : A → ℕ → Queue A
  returned v n = record q {
    sequence = update q.sequence (slot_of q.size n) (n + q.size);
    got = update q.got n (some v);
  }

  -- The slot of a taken position holds no position that is not a round later.
  taken-slot-ne :
      (n r : ℕ)
      → sequence_at q n ≡ n + 1
      → ((sequence_at q r ≡ r) ⊎ ((r ≢ n) × (sequence_at q r ≡ r + 1)))
      → slot_of q.size r ≢ slot_of q.size n
  taken-slot-ne n r t o z =
      let same : sequence_at q r ≡ sequence_at q n = ap q.sequence z in
      elim o [
        | inl s ↦ ring.apart n r (omega arith) (omega (arith, ring.more)) (sym z)
        | inr (ne, s) ↦ ne (omega arith)
      ]

  returned-Fits :
      (v : A) (n : ℕ)
      → sequence_at q n ≡ n + 1
      → (p : Pc A) → Fits q p
      → taker p ≢ some n
      → Fits (returned v n) p
  returned-Fits v n s (put_data x m) (c, d, t, g) ne =
      let o : slot_of q.size m ≢ slot_of q.size n = taken-slot-ne n m s (inl t) in
      (c, d, ground arith, g)
  returned-Fits v n s (put_seq m) (c, d, t, g) ne =
      let o : slot_of q.size m ≢ slot_of q.size n = taken-slot-ne n m s (inl t) in
      (c, d, ground arith, g)
  returned-Fits v n s (take_data m) (c, t, d, g) ne =
      let y : m ≢ n = λ z. ne (ap some z) in
      let o : slot_of q.size m ≢ slot_of q.size n = taken-slot-ne n m s (inr (y, t)) in
      (c, ground arith, d, ground arith)
  returned-Fits v n s (take_seq u m) (c, t, d, g) ne =
      let y : m ≢ n = λ z. ne (ap some z) in
      let o : slot_of q.size m ≢ slot_of q.size n = taken-slot-ne n m s (inr (y, t)) in
      (c, ground arith, d, ground arith)
  returned-Fits v n s p f ne = ground (arith, ring.more)

  pub returned-Inv : (v : A) (n : ℕ) → pc i ≡ take_seq v n → Inv (returned v n) (update pc i idle)
  returned-Inv v n here =
      let (c, t, g, y) = rw here at (inv.fits i) in
      let mine : taker (pc i) ≡ some n = ap taker here in
      let no : putter (pc i) ≡ none = ap putter here in
      let z : Pc A = idle in
      record {
        taken_le = inv.taken_le;
        room = inv.room;
        held = λ r a b. elim (inv.held r a b) [
          | inl (s, j) ↦
              let o : slot_of q.size r ≢ slot_of q.size n = taken-slot-ne n r t (inl s) in
              inl
                (ground arith, update-found pc i z putter r j (λ w. absurd (none-ne (sym no ∙ w))))
          | inr (s, d) ↦
              let o : slot_of q.size r ≢ slot_of q.size n =
                taken-slot-ne n r t (inr (λ e. absurd (omega arith), s)) in
              inr (ground arith, d)
        ];
        free = λ r a b. elim (inv.free r a b) [
          | inl s ↦
              let o : slot_of q.size r ≢ slot_of q.size n = taken-slot-ne n r t (inl s) in
              inl (ground arith)
          | inr (k, u, s, j) ↦ elim (Bool-cases (k == n)) [
            | inl w ↦
                let e : n + q.size ≡ r = ground arith in
                let lap : slot_of q.size r ≡ slot_of q.size n =
                  ap (slot_of q.size) (sym e) ∙ ring.lap n in
                inl (ground arith)
            | inr w ↦
                let o : slot_of q.size r ≢ slot_of q.size n = λ e.
                  let same : sequence_at q r ≡ sequence_at q n = ap q.sequence e in ground arith in
                inr (
                  k,
                  u,
                  ground arith,
                  update-found pc i z taker k j (λ x. absurd (ground (arith, sym x ∙ mine))),
                )
          ]
        ];
        fits = update-all pc i z (Fits (returned v n)) tt (λ j ne.
            returned-Fits v n t (pc j) (inv.fits j) (λ w. ne (inv.one_taker j i n w mine)));
        one_putter = update-one pc i z putter inv.one_putter (λ k r a b. cc);
        one_taker = update-one pc i z taker inv.one_taker (λ k r a b. cc);
        gone = λ r a. elim (Bool-cases (r == n)) [
          | inl w ↦ let e = (==_iff r n).0 w in inl (rw (w, e) (ap some g))
          | inr o ↦ elim (inv.gone r a) [
            | inl l ↦ inl (rw o l)
            | inr j ↦
                inr (update-found pc i z taker r j (λ w. absurd (ground (arith, sym w ∙ mine))))
          ]
        ];
        unborn = λ r a. let o : (r == n) ≡ false = ground arith in rw o (inv.unborn r a);
        fifo = λ r w a. elim (Bool-cases (r == n)) [
          | inl x ↦
              let e = (==_iff r n).0 x in
              let a' = rw x at a in let same : v ≡ w = cc in (omega arith, rw e (sym same ∙ g))
          | inr o ↦ let a' = rw o at a in inv.fifo r w a'
        ];
      }
