-- ===== src/StringPiece/Scan.antt =====
-- The scanning loops of StringPiece against functions on the bytes of a view.
use yy.Prelude.{
  ℕ, zero, suc, ◌+◌, ◌-◌, ◌≤◌, ◌<◌, ◌≡◌, refl, ap, ◌∙◌, inl, inr, Bool, true, false, [], ◌∷◌, ◌++◌,
  arith, if◌then◌else◌, Bool-cases, length, get_or, Bytes, slice, slice-suc,
}
use yy.StringPiece.{StringPiece, scan, scan_back}

pub record IsView (s : StringPiece) : Type 0 where
  pub ordered : s.pb ≤ s.pe
  pub inside : s.pe ≤ length s.base

pub take_while : (ℕ → Bool) → Bytes → Bytes
take_while test [] = []
take_while test (c ∷ cs) = if test c then c ∷ take_while test cs else []

pub drop_while : (ℕ → Bool) → Bytes → Bytes
drop_while test [] = []
drop_while test (c ∷ cs) = if test c then drop_while test cs else c ∷ cs

pub slice-cons :
    (i n : ℕ) (bs : Bytes) → i < length bs → slice i (suc n) bs ≡ get_or bs i 0 ∷ slice (i + 1) n bs
slice-cons i n [] h = absurd (omega arith)
slice-cons zero n (b ∷ bs) h = refl
slice-cons (suc i) n (b ∷ bs) h =
    let e : suc i + 1 ≡ suc (i + 1) = omega arith in rw e (slice-cons i n bs (omega arith))

pub slice-nil : (i n : ℕ) (bs : Bytes) → n ≡ 0 → slice i n bs ≡ []
slice-nil i n bs e = rw e

-- What a scan of the `n` bytes from `i` on has found when it stops at `e`.
pub record IsScan (test : ℕ → Bool) (base : Bytes) (i n e : ℕ) : Type 0 where
  pub from : i ≤ e
  pub upto : e ≤ i + n
  pub passed : slice i (e - i) base ≡ take_while test (slice i n base)
  pub left : slice e (i + n - e) base ≡ drop_while test (slice i n base)

IsScan-step :
    (test : ℕ → Bool) (base : Bytes) (i n e : ℕ)
    → i + suc n ≤ length base
    → test (get_or base i 0) ≡ true
    → IsScan test base (i + 1) n e
    → IsScan test base i (suc n) e
unfolding take_while drop_while
IsScan-step test base i n e h t r =
    let whole = slice-cons i n base (omega arith) in
    let k : e - i ≡ suc (e - (i + 1)) = omega (arith, r.from) in
    let m : i + suc n - e ≡ i + 1 + n - e = omega arith in
    record {
      from = omega (arith, r.from);
      upto = omega (arith, r.upto);
      passed =
          rw (whole, t, k)
            (slice-cons i (e - (i + 1)) base (omega arith) ∙ ap (◌∷◌ (get_or base i 0)) r.passed);
      left = rw (whole, t, m) r.left;
    }

IsScan-stop :
    (test : ℕ → Bool) (base : Bytes) (i n : ℕ)
    → i + suc n ≤ length base
    → test (get_or base i 0) ≡ false
    → IsScan test base i (suc n) i
unfolding take_while drop_while
IsScan-stop test base i n h t =
    let whole = slice-cons i n base (omega arith) in
    let m : i + suc n - i ≡ suc n = omega arith in
    record {
      from = omega arith;
      upto = omega arith;
      passed = rw (whole, t) (slice-nil i (i - i) base (omega arith));
      left = rw m (rw (whole, t));
    }

pub scan-IsScan :
    (test : ℕ → Bool) (base : Bytes) (n i : ℕ)
    → i + n ≤ length base
    → IsScan test base i n (scan test base n i)
unfolding scan take_while drop_while
scan-IsScan test base zero i h = record {
  from = omega arith;
  upto = omega arith;
  passed = slice-nil i (i - i) base (omega arith);
  left = slice-nil i (i + zero - i) base (omega arith);
}
scan-IsScan test base (suc n) i h = elim (Bool-cases (test (get_or base i 0))) [
  | inl t ↦ rw t (
      IsScan-step test base i n (scan test base n (i + 1)) h t
        (scan-IsScan test base n (i + 1) (omega arith)))
  | inr f ↦ rw f (IsScan-stop test base i n h f)
]

-- Every byte passes the test.
abbrev pub All : (ℕ → Bool) → Bytes → Type 0
All test [] = Unit
All test (c ∷ cs) = (test c ≡ true) × All test cs

pub All-append : (test : ℕ → Bool) (xs ys : Bytes) → All test xs → All test ys → All test (xs ++ ys)
All-append test [] ys h k = k
All-append test (x ∷ xs) ys h k = (h.0, All-append test xs ys h.1 k)

-- the bytes do not end with one that passes the test
abbrev pub EndsOff : (ℕ → Bool) → Bytes → Type 0
EndsOff test [] = Unit
EndsOff test (c ∷ []) = test c ≡ false
EndsOff test (c ∷ d ∷ ds) = EndsOff test (d ∷ ds)

pub EndsOff-concat :
    (test : ℕ → Bool) (xs : Bytes) (c : ℕ) → test c ≡ false → EndsOff test (xs ++ (c ∷ []))
EndsOff-concat test [] c h = h
EndsOff-concat test (x ∷ []) c h = h
EndsOff-concat test (x ∷ y ∷ ys) c h = EndsOff-concat test (y ∷ ys) c h

-- What a backward scan of the `n` bytes before `e` has found when it stops at `d`.
pub record IsBackScan (test : ℕ → Bool) (base : Bytes) (d n e : ℕ) : Type 0 where
  pub above : e ≤ d + n
  pub below : d ≤ e
  pub skipped : All test (slice d (e - d) base)
  pub kept : EndsOff test (slice (e - n) (d - (e - n)) base)

-- the last byte before `e`, by itself
slice-last :
    (bs : Bytes) (i n e : ℕ)
    → e ≤ length bs
    → e ≡ i + suc n
    → slice i (suc n) bs ≡ slice i n bs ++ (get_or bs (e - 1) 0 ∷ [])
slice-last bs i n e h k =
    let m : e - 1 ≡ i + n = omega arith in rw m (slice-suc i n bs (omega arith))

back_step :
    (test : ℕ → Bool) (base : Bytes) (d n e : ℕ)
    → suc n ≤ e
    → e ≤ length base
    → test (get_or base (e - 1) 0) ≡ true
    → IsBackScan test base d n (e - 1)
    → IsBackScan test base d (suc n) e
back_step test base d n e h k t r =
    let m : e - d ≡ suc (e - 1 - d) = omega (arith, r.below) in
    let w : e - suc n ≡ e - 1 - n = omega arith in
    record {
      above = omega (arith, r.above);
      below = omega (arith, r.below);
      skipped = rw m (
          rw (slice-last base d (e - 1 - d) e k (omega (arith, r.below)))
            (All-append test (slice d (e - 1 - d) base) _ r.skipped (t, tt)));
      kept = rw w r.kept;
    }

back_stop :
    (test : ℕ → Bool) (base : Bytes) (n e : ℕ)
    → suc n ≤ e
    → e ≤ length base
    → test (get_or base (e - 1) 0) ≡ false
    → IsBackScan test base e (suc n) e
back_stop test base n e h k f =
    let m : e - (e - suc n) ≡ suc n = omega arith in
    record {
      above = omega arith;
      below = omega arith;
      skipped = rw (slice-nil e (e - e) base (omega arith)) tt;
      kept = rw m (
          rw (slice-last base (e - suc n) n e k (omega arith))
            (EndsOff-concat test (slice (e - suc n) n base) _ f));
    }

pub scan_back-IsBackScan :
    (test : ℕ → Bool) (base : Bytes) (n e : ℕ)
    → n ≤ e
    → e ≤ length base
    → IsBackScan test base (scan_back test base n e) n e
unfolding scan_back
scan_back-IsBackScan test base zero e h k = record {
  above = omega arith;
  below = omega arith;
  skipped = rw (slice-nil e (e - e) base (omega arith)) tt;
  kept = rw (slice-nil (e - zero) (e - (e - zero)) base (omega arith)) tt;
}
scan_back-IsBackScan test base (suc n) e h k = elim (Bool-cases (test (get_or base (e - 1) 0))) [
  | inl t ↦ rw t (
      back_step test base (scan_back test base n (e - 1)) n e h k t
        (scan_back-IsBackScan test base n (e - 1) (omega arith) (omega arith)))
  | inr f ↦ rw f (back_stop test base n e h k f)
]

abbrev pub StartsOff : (ℕ → Bool) → Bytes → Type 0
StartsOff test [] = Unit
StartsOff test (c ∷ cs) = test c ≡ false

pub split_while :
    (test : ℕ → Bool) (xs : Bytes)
    → (xs ≡ take_while test xs ++ drop_while test xs)
      × All test (take_while test xs)
      × StartsOff test (drop_while test xs)
unfolding take_while drop_while
split_while test [] = (refl, tt, tt)
split_while test (c ∷ cs) =
    let (e, a, o) = split_while test cs in
    elim (Bool-cases (test c)) [
      | inl t ↦ rw t (ap (◌∷◌ c) e, (t, a), o)
      | inr f ↦ rw f (refl, tt, f)
    ]

pub StartsOff-append :
    (test : ℕ → Bool) (xs ys : Bytes) → StartsOff test (xs ++ ys) → StartsOff test xs
StartsOff-append test [] ys h = tt
StartsOff-append test (x ∷ xs) ys h = h
