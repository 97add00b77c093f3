-- ===== src/TimerQueue/Order.antt =====
-- The ordered set of TimerQueue: what it holds after an insertion, and that it stays in order.
use yy.Prelude.{
  ◌≡◌, refl, sym, ap, ◌∙◌, ◌⊎◌, inl, inr, Bool, true, false, ◌&&◌, ◌||◌, List, [], ◌∷◌, arith,
  if◌then◌else◌, Bool-cases,
}
use yy.TimerQueue.{Entry, less, same_entry, set_insert, has, insert_all}

pub same_entry_sound : (a b : Entry) → same_entry a b ≡ true → a ≡ b
unfolding same_entry
same_entry_sound a b h =
    let p : a.time ≡ b.time = ground arith in
    let q : a.timer ≡ b.timer = ground arith in λ i. record { time = p i; timer = q i }

pub same_entry_refl : (a : Entry) → same_entry a a ≡ true
unfolding same_entry
same_entry_refl a = ground arith

pub less_trans : (a b c : Entry) → less a b ≡ true → less b c ≡ true → less a c ≡ true
unfolding less
less_trans a b c h k = ground arith

pub less_irrefl : (a : Entry) → less a a ≡ false
unfolding less
less_irrefl a = ground arith

pub less_total : (a b : Entry) → less a b ≡ false → same_entry a b ≡ false → less b a ≡ true
unfolding less same_entry
less_total a b h k = ground arith

pub or_cases : (a b : Bool) → (a || b) ≡ true → (a ≡ true) ⊎ (b ≡ true)
or_cases true b h = inl refl
or_cases false b h = inr h

pub or_left : (a b : Bool) → a ≡ true → (a || b) ≡ true
or_left a b e = rw e

pub or_right : (a b : Bool) → b ≡ true → (a || b) ≡ true
or_right true b e = refl
or_right false b e = e

-- In strictly ascending order.
abbrev pub IsSorted : List Entry → Type 0
IsSorted [] = Unit
IsSorted (x ∷ xs) = ((a : Entry) → has a xs ≡ true → less x a ≡ true) × IsSorted xs

or_swap : (a b c : Bool) → (a || (b || c)) ≡ (b || (a || c))
or_swap true true c = refl
or_swap true false c = refl
or_swap false b c = refl

or_same : (a b : Bool) → (a || b) ≡ (a || (a || b))
or_same true b = refl
or_same false b = refl

pub has-set_insert :
    (a e : Entry) (xs : List Entry) → has a (set_insert e xs) ≡ (same_entry a e || has a xs)
unfolding has set_insert
has-set_insert a e [] = refl
has-set_insert a e (x ∷ xs) = elim (Bool-cases (less e x)) [
  | inl l ↦ rw l
  | inr nl ↦ elim (Bool-cases (same_entry e x)) [
    | inl s ↦ rw (nl, s) (rw (same_entry_sound e x s) (or_same (same_entry a x) (has a xs)))
    | inr ns ↦
        rw (nl, ns)
          (rw (has-set_insert a e xs) (or_swap (same_entry a x) (same_entry a e) (has a xs)))
  ]
]

above-cons :
    (e x : Entry) (xs : List Entry)
    → less e x ≡ true
    → ((a : Entry) → has a xs ≡ true → less x a ≡ true)
    → (a : Entry) → has a (x ∷ xs) ≡ true
    → less e a ≡ true
unfolding has
above-cons e x xs l above a h = elim (or_cases (same_entry a x) (has a xs) h) [
  | inl s ↦ rw (same_entry_sound a x s) l
  | inr m ↦ less_trans e x a l (above a m)
]

pub set_insert-IsSorted : (e : Entry) (xs : List Entry) → IsSorted xs → IsSorted (set_insert e xs)
unfolding set_insert
set_insert-IsSorted e [] s = ((λ a h. absurd (unfold has in cc h)), tt)
set_insert-IsSorted e (x ∷ xs) (above, s) = elim (Bool-cases (less e x)) [
  | inl l ↦ rw l (above-cons e x xs l above, (above, s))
  | inr nl ↦ elim (Bool-cases (same_entry e x)) [
    | inl same ↦ rw (nl, same) (above, s)
    | inr ns ↦
        rw (nl, ns)
          (
            (λ a h. elim (or_cases (same_entry a e) (has a xs) (sym (has-set_insert a e xs) ∙ h)) [
              | inl at_e ↦ rw (same_entry_sound a e at_e) (less_total e x nl ns)
              | inr m ↦ above a m
            ]),
            set_insert-IsSorted e xs s,
          )
  ]
]

or_assoc : (a b c : Bool) → ((a || b) || c) ≡ (a || (b || c))
or_assoc true b c = refl
or_assoc false b c = refl

pub has-insert_all :
    (a : Entry) (es xs : List Entry) → has a (insert_all es xs) ≡ (has a es || has a xs)
unfolding has insert_all
has-insert_all a [] xs = refl
has-insert_all a (e ∷ es) xs =
    has-insert_all a es (set_insert e xs)
    ∙ ap (λ (b : Bool). has a es || b) (has-set_insert a e xs)
    ∙ or_swap (has a es) (same_entry a e) (has a xs)
    ∙ sym (or_assoc (same_entry a e) (has a es) (has a xs))

pub insert_all-IsSorted : (es xs : List Entry) → IsSorted xs → IsSorted (insert_all es xs)
unfolding insert_all
insert_all-IsSorted [] xs s = s
insert_all-IsSorted (e ∷ es) xs s =
    insert_all-IsSorted es (set_insert e xs) (set_insert-IsSorted e xs s)

pub and_false : (b : Bool) → (b && false) ≡ false
and_false true = refl
and_false false = refl

pub and_left : (a b : Bool) → (a && b) ≡ true → a ≡ true
and_left true b h = refl
and_left false b h = h

pub and_right : (a b : Bool) → (a && b) ≡ true → b ≡ true
and_right true b h = h
and_right false b h = cc

-- The entries that pass a test.
unfoldable pub keep_if : (Entry → Bool) → List Entry → List Entry
keep_if p [] = []
keep_if p (x ∷ xs) = let rest = keep_if p xs in if p x then x ∷ rest else rest

pub has-keep_if :
    (p : Entry → Bool) (a : Entry) (xs : List Entry) → has a (keep_if p xs) ≡ (has a xs && p a)
unfolding has keep_if
has-keep_if p a [] = refl
has-keep_if p a (x ∷ xs) = elim (Bool-cases (same_entry a x)) [
  | inl s ↦
      let e = same_entry_sound a x s in
      elim (Bool-cases (p x)) [
        | inl t ↦ rw (t, s) (rw e (sym t))
        | inr f ↦
            rw (f, s)
              (has-keep_if p a xs
                ∙ (let pa : p a ≡ false = ap p e ∙ f in rw pa (and_false (has a xs))))
      ]
  | inr ns ↦ elim (Bool-cases (p x)) [
    | inl t ↦ rw t (rw ns (has-keep_if p a xs))
    | inr f ↦ rw f (rw ns (has-keep_if p a xs))
  ]
]

pub keep_if-IsSorted : (p : Entry → Bool) (xs : List Entry) → IsSorted xs → IsSorted (keep_if p xs)
unfolding keep_if
keep_if-IsSorted p [] s = tt
keep_if-IsSorted p (x ∷ xs) (above, s) = elim (Bool-cases (p x)) [
  | inl t ↦ rw t (
    (λ a h. above a (and_left (has a xs) (p a) (sym (has-keep_if p a xs) ∙ h))),
    keep_if-IsSorted p xs s,
  )
  | inr f ↦ rw f (keep_if-IsSorted p xs s)
]
