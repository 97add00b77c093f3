-- ===== src/LockFreeQueue/Inv/Quiet.antt =====
-- Steps of a thread that change no more than its own place.
use yy.Prelude.{
  ℕ, ◌≡◌, sym, ap, ◌∙◌, ◌≢◌, inl, inr, true, Option, some, arith, ◌==◌, update, ==_iff, Bool-cases,
}
use yy.LockFreeQueue.{Queue, Pc}
use yy.LockFreeQueue.Inv.{putter, taker, Fits, Inv}

module _ {A : Type 0} (pc : ℕ → Pc A) (i : ℕ) (p : Pc A) where
  -- What holds of the new place, and of the others' places, holds of all.
  pub update-all :
      (P : Pc A → Type 0) → P p → ((j : ℕ) → j ≢ i → P (pc j)) → (j : ℕ) → P (update pc i p j)
  update-all P h k j = elim (Bool-cases (j == i)) [
    | inl t ↦ rw t h
    | inr o ↦ rw o (k j (ground arith))
  ]

  pub update-same :
      (g : Pc A → Option ℕ) → g p ≡ g (pc i) → (j : ℕ) → g (update pc i p j) ≡ g (pc j)
  update-same g e j = elim (Bool-cases (j == i)) [
    | inl t ↦ let same = (==_iff j i).0 t in rw t (e ∙ ap (λ k. g (pc k)) (sym same))
    | inr o ↦ rw o
  ]

  pub update-here : (g : Pc A → Option ℕ) → g (update pc i p i) ≡ g p
  update-here g = let o : (i == i) ≡ true = ground arith in rw o

  -- No two places have one position, if the new place shares its own with no other.
  pub update-one :
      (g : Pc A → Option ℕ)
      → ((j k r : ℕ) → g (pc j) ≡ some r → g (pc k) ≡ some r → j ≡ k)
      → ((k r : ℕ) → g p ≡ some r → g (pc k) ≡ some r → k ≡ i)
      → (j k r : ℕ) → g (update pc i p j) ≡ some r
      → g (update pc i p k) ≡ some r
      → j ≡ k
  update-one g old new j k r a b = elim (Bool-cases (j == i)) [
    | inl t ↦
        let a' = rw t at a in
        elim (Bool-cases (k == i)) [
          | inl u ↦ (==_iff j i).0 t ∙ sym ((==_iff k i).0 u)
          | inr v ↦ let b' = rw v at b in (==_iff j i).0 t ∙ sym (new k r a' b')
        ]
    | inr o ↦
        let a' = rw o at a in
        elim (Bool-cases (k == i)) [
          | inl u ↦ let b' = rw u at b in new j r b' a' ∙ sym ((==_iff k i).0 u)
          | inr v ↦ let b' = rw v at b in old j k r a' b'
        ]
  ]

  -- Some place still has a position that one had, if the changed place keeps it.
  pub update-found :
      (g : Pc A → Option ℕ) (r : ℕ)
      → ((j : ℕ) × (g (pc j) ≡ some r))
      → (g (pc i) ≡ some r → g p ≡ some r)
      → (j : ℕ) × (g (update pc i p j) ≡ some r)
  update-found g r (j, e) keep = elim (Bool-cases (j == i)) [
    | inl t ↦ let same = (==_iff j i).0 t in (j, rw t (keep (ap (λ k. g (pc k)) (sym same) ∙ e)))
    | inr o ↦ (j, rw o e)
  ]

module _ {A : Type 0} {q : Queue A} {pc : ℕ → Pc A} (inv : Inv q pc) (i : ℕ) where
  -- The place changes, and with it no won position.
  pub quiet :
      (p : Pc A)
      → putter p ≡ putter (pc i)
      → taker p ≡ taker (pc i)
      → Fits q p
      → Inv q (update pc i p)
  quiet p e f h = record {
    taken_le = inv.taken_le;
    room = inv.room;
    held = λ r l m. elim (inv.held r l m) [
      | inl (s, (j, o)) ↦ inl (s, (j, update-same pc i p putter e j ∙ o))
      | inr s ↦ inr s
    ];
    free = λ r l m. elim (inv.free r l m) [
      | inl s ↦ inl s
      | inr (k, w, s, (j, o)) ↦ inr (k, w, s, (j, update-same pc i p taker f j ∙ o))
    ];
    fits = update-all pc i p (Fits q) h (λ j _. inv.fits j);
    one_putter = λ j k r l m.
        inv.one_putter j k r (sym (update-same pc i p putter e j) ∙ l)
          (sym (update-same pc i p putter e k) ∙ m);
    one_taker = λ j k r l m.
        inv.one_taker j k r (sym (update-same pc i p taker f j) ∙ l)
          (sym (update-same pc i p taker f k) ∙ m);
    gone = λ r l. elim (inv.gone r l) [
      | inl s ↦ inl s
      | inr (j, o) ↦ inr (j, update-same pc i p taker f j ∙ o)
    ];
    unborn = inv.unborn;
    fifo = inv.fifo;
  }
