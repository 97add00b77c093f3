-- ===== src/ThreadPool/Places.antt =====
-- How often a task stands in the queues of a pool, among the running and the executed tasks.
use mathlib.Core.Option.{some-injective}
use yy.Prelude.{
  ℕ, ◌+◌, ◌≡◌, refl, sym, inl, inr, none, some, List, [], ◌∷◌, ◌++◌, arith, leb, ◌==◌,
  if◌then◌else◌, Bool-cases, Option-cases, length,
}
use yy.ThreadPool.{ThreadPool, try_push_task, try_add_task, queue_capacity}

abbrev pub one : ℕ → ℕ → ℕ
one t x = if x == t then 1 else 0

abbrev pub count : ℕ → List ℕ → ℕ
count t [] = 0
count t (x ∷ xs) = one t x + count t xs

abbrev pub count_all : ℕ → List (List ℕ) → ℕ
count_all t [] = 0
count_all t (q ∷ qs) = count t q + count_all t qs

abbrev pub places : ℕ → ThreadPool → ℕ
places t p = count_all t p.workers + count t p.global_queue + count t p.running + count t p.executed

pub count-append : (t : ℕ) (xs ys : List ℕ) → count t (xs ++ ys) ≡ count t xs + count t ys
count-append t [] ys = omega arith
count-append t (x ∷ xs) ys = omega (arith, count-append t xs ys)

pub count_all-append :
    (t : ℕ) (ps qs : List (List ℕ)) → count_all t (ps ++ qs) ≡ count_all t ps + count_all t qs
count_all-append t [] qs = omega arith
count_all-append t (p ∷ ps) qs = omega (arith, count_all-append t ps qs)

count-try_push_task :
    (u : ℕ) (w : List ℕ) (t : ℕ) {w' : List ℕ}
    → try_push_task w t ≡ some w'
    → count u w' ≡ count u w + one u t
unfolding try_push_task
count-try_push_task u w t {w'} e = elim (Bool-cases (leb queue_capacity (length w))) [
  | inl full ↦ cc (rw full at e)
  | inr room ↦
      let at : w' ≡ w ++ (t ∷ []) = sym (some-injective _ _ (rw room at e)) in
      rw at (omega (arith, count-append u w (t ∷ [])))
]

module _ (w : List ℕ) (ws : List (List ℕ)) (t : ℕ) where
  add_here : {v : List ℕ} → try_push_task w t ≡ some v → try_add_task (w ∷ ws) t ≡ some (v ∷ ws)
  unfolding try_add_task
  add_here room = rw (room, try_add_task) refl

  add_nowhere : try_push_task w t ≡ none → try_add_task ws t ≡ none → try_add_task (w ∷ ws) t ≡ none
  unfolding try_add_task
  add_nowhere full e = rw (full, try_add_task) (rw e refl)

  add_later :
      {vs : List (List ℕ)}
      → try_push_task w t ≡ none
      → try_add_task ws t ≡ some vs
      → try_add_task (w ∷ ws) t ≡ some (w ∷ vs)
  unfolding try_add_task
  add_later full e = rw (full, try_add_task) (rw e refl)

pub count_all-try_add_task :
    (u : ℕ) (ws : List (List ℕ)) (t : ℕ) {ws' : List (List ℕ)}
    → try_add_task ws t ≡ some ws'
    → count_all u ws' ≡ count_all u ws + one u t
unfolding try_add_task
count_all-try_add_task u [] t e = cc e
count_all-try_add_task u (w ∷ ws) t {ws'} e = elim (Option-cases (try_push_task w t)) [
  | inr (w', room) ↦
      let at : ws' ≡ w' ∷ ws = cc (e, add_here w ws t room) in
      rw at (omega (arith, count-try_push_task u w t room))
  | inl full ↦ elim (Option-cases (try_add_task ws t)) [
    | inl n ↦ cc (e, add_nowhere w ws t full n)
    | inr (vs, s) ↦
        let at : ws' ≡ w ∷ vs = cc (e, add_later w ws t full s) in
        rw at (omega (arith, count_all-try_add_task u ws t s))
  ]
]
