-- ===== src/StringPiece/Order.antt =====
-- Comparison of views by their bytes.
use Prim.Native.Nat.{compare, Ordering}
use yy.Prelude.{
  ℕ, ◌-◌, ◌≡◌, refl, sym, ap, ◌∙◌, ◌↔◌, inl, inr, true, [], ◌∷◌, ◌++◌, arith, leb, ◌==◌, ==_iff,
  le→leb, leb→le, Bool-cases, length, take, drop, length-append, length-take, length-drop,
  take-append-drop, take-append_self, drop-append_self, Bytes,
}
use yy.StringPiece.{memcmp, compare_pieces, eq_pieces, starts_with, end_with, is_eq}

-- the other way round
abbrev pub reversed : Ordering → Ordering
reversed o = elim o [
  | Ordering.lt ↦ Ordering.gt
  | Ordering.eq ↦ Ordering.eq
  | Ordering.gt ↦ Ordering.lt
]

-- Lexicographic order, a proper prefix first.
unfoldable pub lexicographic : Bytes → Bytes → Ordering
lexicographic [] [] = Ordering.eq
lexicographic [] (y ∷ ys) = Ordering.lt
lexicographic (x ∷ xs) [] = Ordering.gt
lexicographic (x ∷ xs) (y ∷ ys) =
    let rest = lexicographic xs ys in
    elim (compare x y) [
      | Ordering.lt ↦ Ordering.lt
      | Ordering.eq ↦ rest
      | Ordering.gt ↦ Ordering.gt
    ]

memcmp-eq : (xs ys : Bytes) → length xs ≡ length ys → (is_eq (memcmp xs ys) ≡ true) ↔ (xs ≡ ys)
unfolding memcmp
memcmp-eq [] [] h = ground arith
memcmp-eq [] (y ∷ ys) h = absurd (omega arith)
memcmp-eq (x ∷ xs) [] h = absurd (omega arith)
memcmp-eq (x ∷ xs) (y ∷ ys) h = ground (arith, memcmp-eq xs ys (omega arith))

-- `operator==` holds exactly when the two views span the same bytes.
pub eq_pieces_iff : (a b : Bytes) → (eq_pieces a b ≡ true) ↔ (a ≡ b)
unfolding eq_pieces
eq_pieces_iff a b = elim (Bool-cases (length a == length b)) [
  | inl t ↦ rw t (memcmp-eq a b ((==_iff (length a) (length b)).0 t))
  | inr f ↦
      rw f
        ((λ h. cc), (λ e. let t = (==_iff (length a) (length b)).1 (ap (length {A = ℕ}) e) in cc))
]

module _ (a x : Bytes) where
  -- `starts_with` holds exactly when the view is the prefix and then some bytes.
  pub starts_with_iff : (starts_with a x ≡ true) ↔ ((r : Bytes) × (a ≡ x ++ r))
  unfolding starts_with
  starts_with_iff = elim (Bool-cases (leb (length x) (length a))) [
    | inl t ↦
        let n = length x in
        let same = memcmp-eq (take n a) x (omega (arith, length-take n a, leb→le n (length a) t)) in
        rw t (
          (λ h. (drop n a, sym (take-append-drop n a) ∙ ap (λ q. q ++ drop n a) (same.0 h))),
          (λ (r, e). same.1 (ap (take n) e ∙ take-append_self x r)),
        )
    | inr f ↦ rw f (
      (λ h. cc),
      (λ (r, e).
          let t =
            le→leb (length x) (length a)
              (omega (arith, ap (length {A = ℕ}) e, length-append x r)) in
          cc),
    )
  ]

  -- `end_with` holds exactly when the view is some bytes and then the suffix.
  pub end_with_iff : (end_with a x ≡ true) ↔ ((r : Bytes) × (a ≡ r ++ x))
  unfolding end_with
  end_with_iff = elim (Bool-cases (leb (length x) (length a))) [
    | inl t ↦
        let n : ℕ = length a - length x in
        let same =
          memcmp-eq (drop n a) x (omega (arith, length-drop n a, leb→le (length x) (length a) t)) in
        rw t (
          (λ h. (take n a, sym (take-append-drop n a) ∙ ap (λ q. take n a ++ q) (same.0 h))),
          (λ (r, e).
              let k : n ≡ length r = omega (arith, ap (length {A = ℕ}) e, length-append r x) in
              same.1 (ap (λ m. drop m a) k ∙ ap (drop (length r)) e ∙ drop-append_self r x)),
        )
    | inr f ↦ rw f (
      (λ h. cc),
      (λ (r, e).
          let t =
            le→leb (length x) (length a)
              (omega (arith, ap (length {A = ℕ}) e, length-append r x)) in
          cc),
    )
  ]

compare_cons :
    (x y : ℕ) (xs ys : Bytes)
    → compare_pieces (x ∷ xs) (y ∷ ys) ≡ elim (compare x y) [
      | Ordering.lt ↦ Ordering.lt
      | Ordering.eq ↦ compare_pieces xs ys
      | Ordering.gt ↦ Ordering.gt
    ]
unfolding compare_pieces memcmp
compare_cons x y xs ys = ground arith

compare-lexicographic : (a b : Bytes) → compare_pieces a b ≡ lexicographic a b
unfolding lexicographic
compare-lexicographic [] [] = unfold compare_pieces memcmp in refl
compare-lexicographic [] (y ∷ ys) = unfold compare_pieces memcmp in ground arith
compare-lexicographic (x ∷ xs) [] = unfold compare_pieces memcmp in ground arith
compare-lexicographic (x ∷ xs) (y ∷ ys) =
    compare_cons x y xs ys ∙ ground (arith, compare-lexicographic xs ys)

pub lexicographic-reversed : (a b : Bytes) → lexicographic b a ≡ reversed (lexicographic a b)
unfolding lexicographic
lexicographic-reversed [] [] = refl
lexicographic-reversed [] (y ∷ ys) = refl
lexicographic-reversed (x ∷ xs) [] = refl
lexicographic-reversed (x ∷ xs) (y ∷ ys) = ground (arith, lexicographic-reversed xs ys)

pub lexicographic-eq : (a b : Bytes) → lexicographic a b ≡ Ordering.eq → a ≡ b
unfolding lexicographic
lexicographic-eq [] [] h = refl
lexicographic-eq [] (y ∷ ys) h = cc
lexicographic-eq (x ∷ xs) [] h = cc
lexicographic-eq (x ∷ xs) (y ∷ ys) h = ground (arith, lexicographic-eq xs ys)

-- `compare` is the lexicographic order of the bytes; exchanging the views reverses it, and it says
-- equal only of equal bytes.
pub compare_lem :
    (a b : Bytes)
    → (compare_pieces a b ≡ lexicographic a b)
      × (compare_pieces b a ≡ reversed (compare_pieces a b))
      × (compare_pieces a b ≡ Ordering.eq → a ≡ b)
compare_lem a b =
    let c = compare-lexicographic a b in
    let d = compare-lexicographic b a in
    (c, d ∙ lexicographic-reversed a b ∙ ap reversed (sym c), λ h. lexicographic-eq a b (sym c ∙ h))

pub lexicographic_refl : (a : Bytes) → lexicographic a a ≡ Ordering.eq
unfolding lexicographic
lexicographic_refl [] = refl
lexicographic_refl (x ∷ xs) = ground (arith, lexicographic_refl xs)
