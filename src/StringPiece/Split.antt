-- ===== src/StringPiece/Split.antt =====
-- `split` and its inverse.
use yy.Prelude.{
  ℕ, zero, suc, ◌+◌, ◌-◌, ◌≤◌, ◌<◌, ◌≡◌, refl, sym, ap, ap₂, ◌∙◌, ◌≢◌, inl, inr, true, false, List,
  [], ◌∷◌, ◌++◌, map, arith, ◌==◌, ==_iff, Bool-cases, length, get_or, Bytes, slice, slice-suc,
  slice-cut,
}
use yy.StringPiece.{StringPiece, bytes, split_from, split}
use yy.StringPiece.Scan.{IsView, slice-cons, slice-nil}

-- the pieces, each but the last followed by the separator
pub join : ℕ → List Bytes → Bytes
join ch [] = []
join ch (x ∷ []) = x
join ch (x ∷ y ∷ ys) = x ++ (ch ∷ join ch (y ∷ ys))

unfoldable pub Lacks : ℕ → Bytes → Type 0
Lacks ch [] = Unit
Lacks ch (c ∷ cs) = (c ≢ ch) × Lacks ch cs

pub AllLack : ℕ → List Bytes → Type 0
AllLack ch [] = Unit
AllLack ch (x ∷ xs) = Lacks ch x × AllLack ch xs

-- the last piece, which `split` adds behind the loop
abbrev closed : StringPiece → List StringPiece × ℕ → List Bytes
closed s r = map bytes (r.0 ++ (record s { pb = r.1 } ∷ []))

Lacks-concat : (ch : ℕ) (xs : Bytes) (c : ℕ) → Lacks ch xs → c ≢ ch → Lacks ch (xs ++ (c ∷ []))
unfolding Lacks
Lacks-concat ch [] c h k = (k, tt)
Lacks-concat ch (x ∷ xs) c h k = (h.0, Lacks-concat ch xs c h.1 k)

join-cons :
    (ch : ℕ) (x : Bytes) (xs : List StringPiece) (l : StringPiece)
    → join ch (x ∷ map bytes (xs ++ (l ∷ []))) ≡ x ++ (ch ∷ join ch (map bytes (xs ++ (l ∷ []))))
unfolding join
join-cons ch x [] l = refl
join-cons ch x (y ∷ ys) l = refl

module _ (s : StringPiece) (ch : ℕ) (inside : s.pe ≤ length s.base) where
  IsJoined : ℕ → List StringPiece × ℕ → Type 0
  IsJoined b r = (join ch (closed s r) ≡ slice b (s.pe - b) s.base) × AllLack ch (closed s r)

  split_here :
      (p b : ℕ) (r : List StringPiece × ℕ)
      → b ≤ p
      → p < s.pe
      → Lacks ch (slice b (p - b) s.base)
      → get_or s.base p 0 ≡ ch
      → IsJoined (p + 1) r
      → IsJoined b (record s { pb = b; pe = p } ∷ r.0, r.1)
  unfolding IsJoined AllLack
  split_here p b r h k lacks e (j, a) =
      let m : s.pe - p ≡ suc (s.pe - (p + 1)) = omega arith in
      (
        join-cons ch (slice b (p - b) s.base) r.0 (record s { pb = r.1 })
            ∙ ap (λ q. slice b (p - b) s.base ++ q)
                (ap₂ ◌∷◌ (sym e) j
                  ∙ sym (slice-cons p (s.pe - (p + 1)) s.base (omega arith))
                  ∙ ap (λ n. slice p n s.base) (sym m))
            ∙ sym (slice-cut b p s.pe s.base h (omega arith)),
        (lacks, a),
      )

  split_from-IsJoined :
      (n p b : ℕ)
      → b ≤ p
      → p + n ≡ s.pe
      → Lacks ch (slice b (p - b) s.base)
      → IsJoined b (split_from s ch n p b)
  unfolding split_from IsJoined AllLack join
  split_from-IsJoined zero p b h e lacks =
      let m : p ≡ s.pe = omega arith in (refl, (rw m at lacks, tt))
  split_from-IsJoined (suc n) p b h e lacks = elim (Bool-cases (get_or s.base p 0 == ch)) [
    | inl t ↦ rw t (
        split_here p b (split_from s ch n (p + 1) (p + 1)) h (omega arith) lacks
          ((==_iff (get_or s.base p 0) ch).0 t)
          (split_from-IsJoined n (p + 1) (p + 1) (omega arith) (omega arith)
            (rw (slice-nil (p + 1) (p + 1 - (p + 1)) s.base (omega arith)) (unfold Lacks in tt))))
    | inr f ↦ rw f (
        split_from-IsJoined n (p + 1) b (omega arith) (omega arith) (
          let m : p + 1 - b ≡ suc (p - b) = omega arith in
          let w : b + (p - b) ≡ p = omega arith in
          rw m (
            rw (slice-suc b (p - b) s.base (omega arith)) (
              rw w (
                Lacks-concat ch (slice b (p - b) s.base) (get_or s.base p 0) lacks
                  (ground arith))))))
  ]

-- On a view inside its array, the pieces that `split` returns hold no separator, and with
-- separators between them they are the view again; an empty view has no piece.
pub split_lem :
    (s : StringPiece) (ch : ℕ)
    → IsView s
    → (s.pb < s.pe
        → (join ch (map bytes (split s ch)) ≡ bytes s) × AllLack ch (map bytes (split s ch)))
      × (s.pb ≡ s.pe → split s ch ≡ [])
unfolding split IsJoined split_from
split_lem s ch v = (
  (λ h.
      let f : (s.pe == s.pb) ≡ false = ground arith in
      rw f (
        split_from-IsJoined s ch v.inside (s.pe - s.pb) s.pb s.pb (omega arith) (omega arith)
          (rw (slice-nil s.pb (s.pb - s.pb) s.base (omega arith)) (unfold Lacks in tt)))),
  (λ e.
      let z : s.pe - s.pb ≡ zero = omega arith in
      let t : (s.pe == s.pb) ≡ true = ground arith in rw (t, z)),
)
