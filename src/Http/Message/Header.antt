-- ===== src/Http/Message/Header.antt =====
-- The header loop of `tryDecode_` ends, and the search for the blank line finds the first one.
use yy.Prelude.{
  ℕ, zero, suc, ◌+◌, ◌-◌, ◌≤◌, ◌<◌, ◌≡◌, refl, inl, inr, Bool, true, false, not, some, arith, ltb,
  if◌then◌else◌, ltb→lt, Bool-cases, get_or, Bytes,
}
use yy.StringPiece.{StringPiece, is_line_end, is_empty, scan, eat, eat_line, eat_word}
use yy.Http.Fields.{Fields, insert}
use yy.Http.Message.{Turn, field, stop, refuse, header_line, header_lines}

le-scan : (test : ℕ → Bool) (base : Bytes) (n i : ℕ) → i ≤ scan test base n i
unfolding scan
le-scan test base zero i = omega arith
le-scan test base (suc n) i = elim (Bool-cases (test (get_or base i 0))) [
  | inl t ↦ rw t (omega (arith, le-scan test base n (i + 1)))
  | inr f ↦ rw f (omega arith)
]

abbrev Progress : StringPiece → Turn → Type 0
Progress s (field k v rest) = rest.pe - rest.pb < s.pe - s.pb
Progress s stop = Unit
Progress s refuse = Unit

-- the view that a turn of the loop leaves
abbrev rest_of : StringPiece → StringPiece
rest_of s = (eat_line (eat s 2).1).1

rest_of-shorter : (s : StringPiece) → s.pb < s.pe → (rest_of s).pe - (rest_of s).pb < s.pe - s.pb
unfolding eat_line eat
rest_of-shorter s h =
    omega (arith, le-scan (λ c. not (is_line_end c)) s.base (s.pe - (s.pb + 2)) (s.pb + 2))

choose-Progress :
    (s rest : StringPiece) (k v : Bytes) (a b : Bool)
    → (a ≡ true → rest.pe - rest.pb < s.pe - s.pb)
    → Progress s (if a then field k v rest else if b then stop else refuse)
choose-Progress s rest k v true b h = h refl
choose-Progress s rest k v false true h = tt
choose-Progress s rest k v false false h = tt

-- behind the end of the view a line is empty, and so is its key
overrun-no_key :
    (s : StringPiece) → s.pe ≤ s.pb → is_empty (eat_word (eat_line (eat s 2).1).0).0 ≡ true
unfolding eat eat_line eat_word scan
overrun-no_key s h =
    let z : s.pe - (s.pb + 2) ≡ zero = omega arith in
    let y : s.pb + 2 + (s.pb + 2 - (s.pb + 2)) - (s.pb + 2) ≡ zero = omega arith in
    rw z (rw y (ground arith))

header_line-Progress : (s : StringPiece) → is_empty s ≡ false → Progress s (header_line s)
unfolding header_line
header_line-Progress s h = elim (Bool-cases (ltb s.pb s.pe)) [
  | inl t ↦ choose-Progress s (rest_of s) _ _ _ _ (λ _. rest_of-shorter s (ltb→lt s.pb s.pe t))
  | inr f ↦
      choose-Progress s (rest_of s) _ _ _ _
        (λ t. let e = overrun-no_key s (ground arith) in cc (rw e at t))
]

-- The header loop ends: one more round than the view has bytes is enough.
pub header_lines_total :
    (fuel : ℕ) (s : StringPiece) (headers : Fields)
    → s.pe - s.pb < fuel
    → (r : Bool × Fields) × (header_lines fuel s headers ≡ some r)
unfolding header_lines
header_lines_total zero s headers h = absurd (omega arith)
header_lines_total (suc fuel) s headers h = elim (Bool-cases (is_empty s)) [
  | inl t ↦ ((true, headers), rw t)
  | inr f ↦ rw f (go (header_lines_total fuel) (header_line s) (header_line-Progress s f))
]
  where
    go :
        ((s' : StringPiece) (headers' : Fields)
          → s'.pe - s'.pb < fuel
          → (r : Bool × Fields) × (header_lines fuel s' headers' ≡ some r))
        → (t : Turn) → Progress s t
        → (r : Bool × Fields) × (elim t [
          | field key value rest ↦ header_lines fuel rest (insert key value headers)
          | stop ↦ some (true, headers)
          | refuse ↦ some (false, headers)
        ]
            ≡ some r)
    go ih (field k v rest) p = ih rest (insert k v headers) (omega arith)
    go ih stop p = ((true, headers), refl)
    go ih refuse p = ((false, headers), refl)
