-- ===== src/TimerWheel/Walk.antt =====
-- What the loop of `tick` does to the nodes of the wheel.
use yy.Prelude.{
  ℕ, suc, ◌+◌, ◌-◌, ◌≤◌, ◌<◌, ◌≡◌, refl, ◌∙◌, ◌⊎◌, inl, inr, some, List, [], ◌∷◌, ◌++◌, arith, ltb,
  ◌==◌, if◌then◌else◌, update, ==_iff, Bool-cases, Option-cases, ℤ,
}
use yy.TimerWheel.{TimerWheel, Node, new_node, insert, execute, remains, executed, fire, keep, walk}

pub data In {ℓ} {A : Type ℓ} (a : A) : List A → Type ℓ where
  here : {xs : List A} → In a (a ∷ xs)
  there : {x : A} {xs : List A} → In a xs → In a (x ∷ xs)

pub In-append_left {ℓ} : {A : Type ℓ} {a : A} (xs ys : List A) → In a xs → In a (xs ++ ys)
In-append_left [] ys m = elim m [ ]
In-append_left (x ∷ xs) ys here = here
In-append_left (x ∷ xs) ys (there m) = there (In-append_left xs ys m)

pub In-append_right {ℓ} : {A : Type ℓ} {a : A} (xs ys : List A) → In a ys → In a (xs ++ ys)
In-append_right [] ys m = m
In-append_right (x ∷ xs) ys m = there (In-append_right xs ys m)

-- How often a number stands in a list.
pub count : ℕ → List ℕ → ℕ
count t [] = 0
count t (x ∷ xs) = let c = count t xs in if x == t then suc c else c

count-append : (t : ℕ) (xs ys : List ℕ) → count t (xs ++ ys) ≡ count t xs + count t ys
unfolding count
count-append t [] ys = omega arith
count-append t (x ∷ xs) ys = elim (Bool-cases (x == t)) [
  | inl e ↦ rw e (omega (arith, count-append t xs ys))
  | inr o ↦ rw o (count-append t xs ys)
]

count-one : (t : ℕ) → count t (t ∷ []) ≡ 1
unfolding count
count-one t = rw ((==_iff t t).1 refl)

-- One wheel has all nodes and firings of another, at the same place of the pointer.
pub record Extends (w w' : TimerWheel) : Type 0 where
  pub cur_same : w'.cur_slot ≡ w.cur_slot
  pub max_same : w'.max_slots ≡ w.max_slots
  pub nodes : (n : Node) (s : ℕ) → In n (w.slots s) → In n (w'.slots s)
  pub firings : (t : ℕ) → count t w.fired ≤ count t w'.fired

pub Extends-refl : (w : TimerWheel) → Extends w w
Extends-refl w = record {
  cur_same = refl;
  max_same = refl;
  nodes = λ n s m. m;
  firings = λ t. omega arith;
}

pub Extends-trans : (u v w : TimerWheel) → Extends u v → Extends v w → Extends u w
Extends-trans u v w e f = record {
  cur_same = f.cur_same ∙ e.cur_same;
  max_same = f.max_same ∙ e.max_same;
  nodes = λ n s m. f.nodes n s (e.nodes n s m);
  firings = λ t. omega (arith, e.firings t, f.firings t);
}

In-update :
    (f : ℕ → List Node) (i s : ℕ) (n : Node) (l : List Node)
    → (In n (f i) → In n l)
    → In n (f s)
    → In n (update f i l s)
In-update f i s n l h m = elim (Bool-cases (s == i)) [
  | inl t ↦ let e = (==_iff s i).0 t in rw t (h (rw e at m))
  | inr o ↦ rw o m
]

insert-Extends : (w : TimerWheel) (t : ℕ) → Extends w (insert w t)
unfolding insert
insert-Extends w t = record {
  cur_same = refl;
  max_same = refl;
  nodes = λ n s m. In-update w.slots (new_node w t).time_slot s n _ there m;
  firings = λ t'. omega arith;
}

executed-Extends : (w : TimerWheel) (t : ℕ) (c : ℤ) → Extends w (executed w t c)
executed-Extends w t c = record {
  cur_same = refl;
  max_same = refl;
  nodes = λ n s m. m;
  firings = λ t'. omega (arith, count-append t' w.fired (t ∷ []));
}

keep-Extends : (w : TimerWheel) (n : Node) → Extends w (keep w n)
keep-Extends w n = record {
  cur_same = refl;
  max_same = refl;
  nodes = λ n' s m.
      In-update w.slots w.cur_slot s n' _ (In-append_left (w.slots w.cur_slot) (n ∷ [])) m;
  firings = λ t'. omega arith;
}

-- The inversion of `fire`.
pub fire-eq-some :
    (w : TimerWheel) (t : ℕ) {w' : TimerWheel}
    → fire w t ≡ some w'
    → (c : ℤ) × (execute (w.timers t).execute_count ≡ some c)
      × ((if remains c then insert (executed w t c) t else executed w t c) ≡ w')
unfolding fire
fire-eq-some w t {w'} e = elim (Option-cases (execute (w.timers t).execute_count)) [
  | inl z ↦ let e' = rw z at e in cc
  | inr (c, z) ↦ let e' = rw z at e in (c, z, cc)
]

pub fire-Extends :
    (w : TimerWheel) (t : ℕ) {w' : TimerWheel}
    → fire w t ≡ some w'
    → Extends w w' × (count t w.fired < count t w'.fired)
fire-Extends w t {w'} e =
    let (c, z, f) = fire-eq-some w t e in
    rw (← f) (elim (Bool-cases (remains c)) [
      | inl y ↦ rw y (
        Extends-trans w (executed w t c) (insert (executed w t c) t) (executed-Extends w t c)
            (insert-Extends (executed w t c) t),
        omega (
          arith,
          (insert-Extends (executed w t c) t).firings t,
          count-append t w.fired (t ∷ []),
          count-one t,
        ),
      )
      | inr o ↦
          rw o (executed-Extends w t c, omega (arith, count-append t w.fired (t ∷ []), count-one t))
    ])

abbrev pub lowered : Node → Node
lowered n = record n { rotation = n.rotation - 1 }

-- The inversion of one turn of the loop.
pub walk-cons :
    (n : Node) (l : List Node) (w : TimerWheel) {w' : TimerWheel}
    → walk (n ∷ l) w ≡ some w'
    → ((0 < n.rotation) × (walk l (keep w (lowered n)) ≡ some w'))
      ⊎ ((n.rotation ≡ 0) × ((v : TimerWheel) × (fire w n.timer ≡ some v) × (walk l v ≡ some w')))
unfolding walk
walk-cons n l w {w'} e = elim (Bool-cases (ltb 0 n.rotation)) [
  | inl t ↦ inl (ground arith, rw t at e)
  | inr o ↦
      let e' = rw o at e in
      elim (Option-cases (fire w n.timer)) [
        | inl z ↦ let e'' = rw z at e' in cc
        | inr (v, z) ↦ let e'' = rw z at e' in inr (ground arith, (v, z, e''))
      ]
]

pub walk-Extends :
    (l : List Node) (w : TimerWheel) {w' : TimerWheel} → walk l w ≡ some w' → Extends w w'
unfolding walk
walk-Extends [] w {w'} e = let q : w ≡ w' = cc in rw (← q) (Extends-refl w)
walk-Extends (n ∷ l) w {w'} e = elim (walk-cons n l w e) [
  | inl (p, q) ↦
      Extends-trans w (keep w (lowered n)) w' (keep-Extends w (lowered n))
        (walk-Extends l (keep w (lowered n)) q)
  | inr (z, (v, f, q)) ↦ Extends-trans w v w' (fire-Extends w n.timer f).0 (walk-Extends l v q)
]

-- A node whose rotation is not over stays in its slot, and has one turn less to wait.
pub walk-keeps :
    (l : List Node) (w : TimerWheel) {w' : TimerWheel} (n : Node)
    → walk l w ≡ some w'
    → In n l
    → 0 < n.rotation
    → In (lowered n) (w'.slots w.cur_slot)
walk-keeps [] w {w'} n e m h = elim m [ ]
walk-keeps (k ∷ l) w {w'} n e here h = elim (walk-cons n l w e) [
  | inl (p, q) ↦ (walk-Extends l (keep w (lowered k)) q).nodes (lowered k) w.cur_slot (
      rw ((==_iff w.cur_slot w.cur_slot).1 refl)
        (In-append_right (w.slots w.cur_slot) (lowered k ∷ []) here))
  | inr (z, (v, f, q)) ↦ absurd (omega arith)
]
walk-keeps (k ∷ l) w {w'} n e (there m) h = elim (walk-cons k l w e) [
  | inl (p, q) ↦ walk-keeps l (keep w (lowered k)) n q m h
  | inr (z, (v, f, q)) ↦
      let c = (fire-Extends w k.timer f).0.cur_same in let r = walk-keeps l v n q m h in rw c at r
]

-- The callback of a node whose rotation is over is called.
pub walk-fires :
    (l : List Node) (w : TimerWheel) {w' : TimerWheel} (n : Node)
    → walk l w ≡ some w'
    → In n l
    → n.rotation ≡ 0
    → count n.timer w.fired < count n.timer w'.fired
walk-fires [] w {w'} n e m h = elim m [ ]
walk-fires (k ∷ l) w {w'} n e here h = elim (walk-cons n l w e) [
  | inl (p, q) ↦ absurd (omega arith)
  | inr (z, (v, f, q)) ↦
      omega (arith, (walk-Extends l v q).firings k.timer, (fire-Extends w k.timer f).1)
]
walk-fires (k ∷ l) w {w'} n e (there m) h = elim (walk-cons k l w e) [
  | inl (p, q) ↦ walk-fires l (keep w (lowered k)) n q m h
  | inr (z, (v, f, q)) ↦
      omega (arith, walk-fires l v n q m h, (fire-Extends w k.timer f).0.firings n.timer)
]
