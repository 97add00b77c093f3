-- ===== src/Event/Laws.antt =====
-- What adding and removing a flag does to the flags of an event. Flag `k` is the number `2 ^ k`; all
-- masks of nine bits are gone through by evaluation.
use Prim.Native.Nat.{bit_and, bit_or}
use yy.Prelude.{
  ℕ, zero, suc, ◌^◌, ◌<◌, ◌≡◌, refl, inl, inr, ◌⊎◌, Bool, true, false, not, ◌&&◌, some, arith, ltb,
  ltb→lt, ◌==◌, if◌then◌else◌,
}
use yy.Event.{LogicEvent, complement, has_event, validate, add, remove}

and_left : (a b : Bool) → (a && b) ≡ true → (a ≡ true) × (b ≡ true)
and_left true b h = (refl, h)
and_left false b h = cc

eq_or_less : (i k : ℕ) → i < suc k → (i ≡ k) ⊎ (i < k)
eq_or_less i k h = ground arith

-- Whether a test passes for every number under a bound.
passes : (ℕ → Bool) → ℕ → Bool
passes test zero = true
passes test (suc k) = passes test k && test k

passes_at : (test : ℕ → Bool) (bound i : ℕ) → i < bound → passes test bound ≡ true → test i ≡ true
unfolding passes
passes_at test zero i under all = absurd (omega arith)
passes_at test (suc k) i under all =
    let (before, last) = and_left _ _ all in
    elim (eq_or_less i k under) [ inl e ↦ rw e last | inr less ↦ passes_at test k i less before ]

same : Bool → Bool → Bool
same true b = b
same false b = not b

same_sound : (a b : Bool) → same a b ≡ true → a ≡ b
unfolding same
same_sound true true h = refl
same_sound true false h = cc
same_sound false true h = cc
same_sound false false h = refl

pair_laws : LogicEvent → ℕ → ℕ → Bool
unfolding has_event complement same
pair_laws e i j =
    same (has_event (bit_or e (2 ^ i)) (2 ^ j)) (if i == j then true else has_event e (2 ^ j))
    && same (has_event (bit_and e (complement (2 ^ i))) (2 ^ j))
        (if i == j then false else has_event e (2 ^ j))

flag_laws : LogicEvent → ℕ → Bool
unfolding pair_laws validate complement passes
flag_laws e i =
    validate (2 ^ i)
    && (ltb (bit_or e (2 ^ i)) 512
        && (ltb (bit_and e (complement (2 ^ i))) 512 && passes (pair_laws e i) 9))

laws : LogicEvent → Bool
unfolding flag_laws passes
laws e = passes (flag_laws e) 9

laws_table : passes laws 512 ≡ true
unfolding passes laws
laws_table = refl

module _ (e i : ℕ) (he : e < 512) (hi : i < 9) where
  at_flag : flag_laws e i ≡ true
  unfolding laws
  at_flag = passes_at (flag_laws e) 9 i hi (passes_at laws 512 e he laws_table)

  flag_parts :
      (validate (2 ^ i) ≡ true)
      × (bit_or e (2 ^ i) < 512)
      × (bit_and e (complement (2 ^ i)) < 512)
      × (passes (pair_laws e i) 9 ≡ true)
  unfolding flag_laws
  flag_parts =
      let (v, r) = and_left _ _ at_flag in
      let (a, r') = and_left _ _ r in
      let (b, t) = and_left _ _ r' in (v, ltb→lt _ _ a, ltb→lt _ _ b, t)

  pair_parts :
      (j : ℕ)
      → j < 9
      → (has_event (bit_or e (2 ^ i)) (2 ^ j) ≡ (if i == j then true else has_event e (2 ^ j)))
        × (has_event (bit_and e (complement (2 ^ i))) (2 ^ j)
            ≡ (if i == j then false else has_event e (2 ^ j)))
  unfolding pair_laws
  pair_parts j hj =
      let (a, b) = and_left _ _ (passes_at (pair_laws e i) 9 j hj flag_parts.3) in
      (same_sound _ _ a, same_sound _ _ b)

  -- Adding a flag to valid events gives valid events, which have that flag and else the flags that
  -- they had.
  pub add_lem :
      (e' : LogicEvent) × (add e (2 ^ i) ≡ some e')
      × (e' < 512)
      × ((j : ℕ) → j < 9 → has_event e' (2 ^ j) ≡ (if i == j then true else has_event e (2 ^ j)))
  unfolding add
  add_lem = (bit_or e (2 ^ i), rw flag_parts.0, flag_parts.1, λ j hj. (pair_parts j hj).0)

  -- Removing a flag from valid events gives valid events, which have the flags that they had but
  -- not that one.
  pub remove_lem :
      (e' : LogicEvent) × (remove e (2 ^ i) ≡ some e')
      × (e' < 512)
      × ((j : ℕ) → j < 9 → has_event e' (2 ^ j) ≡ (if i == j then false else has_event e (2 ^ j)))
  unfolding remove
  remove_lem =
      (bit_and e (complement (2 ^ i)), rw flag_parts.0, flag_parts.2, λ j hj. (pair_parts j hj).1)
