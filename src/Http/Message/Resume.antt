-- ===== src/Http/Message/Resume.antt =====
-- The search for the blank line behind the headers: it finds the first one, also when the input
-- comes in pieces and the search goes on where it stood.
use yy.Prelude.{
  ℕ, zero, suc, ◌+◌, ◌-◌, ◌≤◌, ◌<◌, ◌≡◌, refl, sym, ap, ap₂, ◌∙◌, ◌≢◌, ◌↔◌, ◌⊎◌, inl, inr, Bool,
  true, false, not, ◌&&◌, some, [], ◌∷◌, ◌++◌, arith, ◌==◌, if◌then◌else◌, ==_iff, Bool-cases,
  length, get_or, length-append, take-append_left, Bytes, slice, equal, equal_iff,
}
use yy.StringPiece.Scan.{slice-cons}
use yy.Http.Message.{HttpMsg, not_complete, find_end, blank_line, try_decode_msg, decode_header}

-- What the search says of the `n` positions from `i` on.
pub record IsFound (buf : Bytes) (i n : ℕ) (r : Bool × ℕ) : Type 0 where
  pub from : i ≤ r.1
  pub upto : r.1 ≤ i + n
  pub earlier : (k : ℕ) → i ≤ k → k < r.1 → slice k 4 buf ≢ blank_line
  pub at_blank : r.0 ≡ true → slice r.1 4 buf ≡ blank_line
  pub at_end : r.0 ≡ false → r.1 ≡ i + n

abbrev test : Bytes → ℕ → Bool
test buf i = get_or buf i 0 == b'\r' && equal (slice i 4 buf) blank_line

head-injective : {x y : ℕ} {xs ys : Bytes} → x ∷ xs ≡ y ∷ ys → x ≡ y
head-injective e = cc

test_iff :
    (buf : Bytes) (i : ℕ) → i < length buf → (test buf i ≡ true) ↔ (slice i 4 buf ≡ blank_line)
test_iff buf i h =
    let same = equal_iff (slice i 4 buf) blank_line in
    (
      (λ t. ground (arith, same)),
      (λ e.
          let c = head-injective (sym (slice-cons i 3 buf h) ∙ e) in let t = same.1 e in rw (c, t)),
    )

find_end_step :
    (buf : Bytes) (i n : ℕ) (r : Bool × ℕ)
    → slice i 4 buf ≢ blank_line
    → IsFound buf (i + 1) n r
    → IsFound buf i (suc n) r
find_end_step buf i n r ne f = record {
  from = omega (arith, f.from);
  upto = omega (arith, f.upto);
  earlier = λ k h l. elim (Bool-cases (k == i)) [
    | inl t ↦ rw ((==_iff k i).0 t) ne
    | inr o ↦ f.earlier k (ground arith) l
  ];
  at_blank = f.at_blank;
  at_end = λ e. omega (arith, f.at_end e);
}

-- The search stops at the first blank line among its positions, and says that it found one exactly
-- if there is one; else it has passed them all.
pub find_end_lem : (buf : Bytes) (n i : ℕ) → i + n ≤ length buf → IsFound buf i n (find_end buf n i)
unfolding find_end
find_end_lem buf zero i h = record {
  from = omega arith;
  upto = omega arith;
  earlier = λ k l m. absurd (omega arith);
  at_blank = λ e. cc;
  at_end = λ e. omega arith;
}
find_end_lem buf (suc n) i h = elim (Bool-cases (test buf i)) [
  | inl t ↦ rw t (record {
    from = omega arith;
    upto = omega arith;
    earlier = λ k l m. absurd (omega arith);
    at_blank = λ e. (test_iff buf i (omega arith)).0 t;
    at_end = λ e. cc;
  })
  | inr f ↦ rw f (
      find_end_step buf i n (find_end buf n (i + 1))
        (λ e. let t = (test_iff buf i (omega arith)).1 e in cc)
        (find_end_lem buf n (i + 1) (omega arith)))
]

get_or-append : (a b : Bytes) (i : ℕ) → i < length a → get_or (a ++ b) i 0 ≡ get_or a i 0
get_or-append [] b i h = absurd (omega arith)
get_or-append (x ∷ xs) b zero h = refl
get_or-append (x ∷ xs) b (suc i) h = get_or-append xs b i (omega arith)

slice-append : (a b : Bytes) (i n : ℕ) → i + n ≤ length a → slice i n (a ++ b) ≡ slice i n a
slice-append a b zero n h = take-append_left n a b (omega arith)
slice-append [] b (suc i) n h = absurd (omega arith)
slice-append (x ∷ xs) b (suc i) n h = slice-append xs b i n (omega arith)

find_end-append :
    (a b : Bytes) (n i : ℕ) → n ≡ 0 ⊎ i + n + 3 ≤ length a → find_end (a ++ b) n i ≡ find_end a n i
unfolding find_end
find_end-append a b zero i h = refl
find_end-append a b (suc n) i h =
    let l : i + suc n + 3 ≤ length a = omega arith in
    rw (
      get_or-append a b i (omega arith),
      slice-append a b i 4 (omega arith),
      find_end-append a b n (i + 1) (inr (omega arith)),
    )

find_end_more :
    (buf : Bytes) (n k i j : ℕ)
    → find_end buf n i ≡ (false, j)
    → find_end buf (n + k) i ≡ find_end buf k j
unfolding find_end
find_end_more buf zero k i j e =
    let z : zero + k ≡ k = omega arith in rw z (ap (find_end buf k) (ap (λ r. r.1) e))
find_end_more buf (suc n) k i j e =
    let z : suc n + k ≡ suc (n + k) = omega arith in
    elim (Bool-cases (test buf i)) [
      | inl t ↦ let e' = rw t at e in cc
      | inr f ↦ rw z (rw f (find_end_more buf n k (i + 1) j (rw f at e)))
    ]

abbrev rounds : HttpMsg → Bytes → ℕ
rounds m buf = length buf - 3 - m.scanned

rounds_more :
    (m : HttpMsg) (a b : Bytes) → rounds m (a ++ b) ≡ rounds m a + (rounds m (a ++ b) - rounds m a)
rounds_more m a b = omega (arith, length-append a b)

-- a message that waits for its headers
abbrev IsWaiting : HttpMsg → Type 0
IsWaiting m = (m.is_complete ≡ false) × (m.content_len ≡ 0)

waiting-eq :
    (m : HttpMsg) (buf : Bytes) (copy : Bool)
    → IsWaiting m
    → try_decode_msg m buf copy ≡ (
        let (found, scanned) = find_end buf (rounds m buf) m.scanned in
        let m' = record m { scanned = scanned } in
        if found && not (scanned == 0)
        then decode_header m' buf copy
        else some (not_complete, m', []))
unfolding try_decode_msg
waiting-eq m buf copy w = let z : (m.content_len == 0) ≡ true = ground arith in rw (w.0, z)

-- If the headers have not ended in the input so far, the parser asks for more and notes how far it
-- looked; and from there, with any bytes added to the input, it comes to the same result, in every
-- part, as if it had been given all the input at once.
pub try_decode_resume :
    (m : HttpMsg) (a b : Bytes) (copy : Bool)
    → IsWaiting m
    → m.scanned ≤ length a
    → (find_end a (rounds m a) m.scanned).0 ≡ false
    → let m' = record m { scanned = m.scanned + rounds m a } in
      (try_decode_msg m a copy ≡ some (not_complete, m', []))
      × (try_decode_msg m' (a ++ b) copy ≡ try_decode_msg m (a ++ b) copy)
try_decode_resume m a b copy w h f =
    let j : ℕ = m.scanned + rounds m a in
    let r = find_end_lem a (rounds m a) m.scanned (omega arith) in
    let e : find_end a (rounds m a) m.scanned ≡ (false, j) = ap₂ (λ x y. (x, y)) f (r.at_end f) in
    let m' = record m { scanned = j } in
    let more : ℕ = rounds m (a ++ b) - rounds m a in
    let rest : rounds m' (a ++ b) ≡ more = omega (arith, length-append a b) in
    let prefix : find_end (a ++ b) (rounds m a) m.scanned ≡ (false, j) =
      find_end-append a b (rounds m a) m.scanned (ends (rounds m a) refl) ∙ e in
    let both : find_end (a ++ b) (rounds m (a ++ b)) m.scanned
        ≡ find_end (a ++ b) (rounds m' (a ++ b)) j =
      ap (λ n. find_end (a ++ b) n m.scanned) (rounds_more m a b)
      ∙ find_end_more (a ++ b) (rounds m a) more m.scanned j prefix
      ∙ ap (λ n. find_end (a ++ b) n j) (sym rest) in
    (
      waiting-eq m a copy w ∙ rw e,
      waiting-eq m' (a ++ b) copy w ∙ sym (waiting-eq m (a ++ b) copy w ∙ rw both),
    )
  where
    ends : (n : ℕ) → n ≡ rounds m a → n ≡ 0 ⊎ m.scanned + n + 3 ≤ length a
    ends zero e = inl refl
    ends (suc n) e = inr (omega arith)
