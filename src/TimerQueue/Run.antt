-- ===== src/TimerQueue/Run.antt =====
-- The loop of handlerRead over the timers that are due.
use yy.Prelude.{
  ℕ, zero, suc, ◌+◌, ◌≡◌, refl, sym, ap, ◌∙◌, ◌⊎◌, inl, inr, Bool, true, false, not, ◌||◌, some,
  List, map, [], ◌∷◌, ◌++◌, append-nil, append_assoc, arith, ◌==◌, if◌then◌else◌, Bool-cases, ℤ,
  pos, negsuc, update, ==_iff,
}
use yy.TimerQueue.Order.{keep_if, or_cases, or_left, or_right, same_entry_sound, same_entry_refl}
use yy.TimerQueue.Valid.{IsQueue, LeavesAlone, AllKnown}
use yy.TimerQueue.{
  Timer, Entry, TimerQueue, Callback, same_entry, has, run_due, execute_timer, spent, is_nonzero,
}
use yy.TimerWheel.{execute}

-- Whether a timer with this count has runs left behind the next one.
unfoldable pub is_again : ℤ → Bool
unfolding is_nonzero
is_again (pos zero) = false
is_again (pos (suc n)) = is_nonzero (pos n)
is_again (negsuc n) = false

-- A test of the count of the timer of an entry.
abbrev pub by_count : (ℤ → Bool) → (ℕ → Timer) → Entry → Bool
by_count p timers e = p (timers e.timer).execute_count

abbrev pub is_left : ℤ → Bool
is_left z = not (spent z)

-- A timer behind its turn: with a positive count it has run once more.
unfoldable pub ran_by : ℤ → ℕ → Timer → Timer
ran_by (pos zero) now t = t
ran_by (pos (suc k)) now t = record t { execute_count = pos k; expiration = now + t.interval }
ran_by (negsuc n) now t = t

abbrev pub ran : ℕ → Timer → Timer
ran now t = ran_by t.execute_count now t

unfoldable pub has_timer : ℕ → List Entry → Bool
has_timer t [] = false
has_timer t (x ∷ xs) = (x.timer == t) || has_timer t xs

abbrev pub IsSingle : List Entry → Type 0
IsSingle [] = Unit
IsSingle (x ∷ xs) = (has_timer x.timer xs ≡ false) × IsSingle xs

-- What the loop does to the known timers and their entries.
pub record IsRun (known : ℕ → Bool) (clock : ℕ → ℕ) (es : List Entry) (q q' : TimerQueue)
    : Type 0 where
  pub queue : IsQueue q'
  pub same_entries : (a : Entry) → known a.timer ≡ true → has a q'.entries ≡ has a q.entries
  pub fired_lem : q'.fired ≡ q.fired ++ map Entry.timer (keep_if (by_count is_left q.timers) es)
  pub others : (t : ℕ) → known t ≡ true → has_timer t es ≡ false → q'.timers t ≡ q.timers t
  pub turns :
      (e : Entry) → has e es ≡ true → q'.timers e.timer ≡ ran (clock e.timer) (q.timers e.timer)

abbrev pub Ran : (ℕ → Bool) → Callback → (ℕ → ℕ) → List Entry → List Entry → TimerQueue → Type 0
Ran known callback clock es acc q =
    (q' : TimerQueue) × (run_due callback clock es acc q
      ≡ some (acc ++ keep_if (by_count is_again q.timers) es, q'))
    × IsRun known clock es q q'

count_cases :
    (z : ℤ)
    → ((spent z ≡ true) × (is_again z ≡ false) × ((now : ℕ) (t : Timer) → ran_by z now t ≡ t))
      ⊎ ((n : ℕ) × (z ≡ pos (suc n)))
unfolding spent is_again ran_by
count_cases (pos zero) = inl (refl, refl, λ now t. refl)
count_cases (pos (suc n)) = inr (n, refl)
count_cases (negsuc n) = inl (refl, refl, λ now t. refl)

pub has-has_timer : (e : Entry) (xs : List Entry) → has e xs ≡ true → has_timer e.timer xs ≡ true
unfolding has has_timer
has-has_timer e [] h = h
has-has_timer e (x ∷ xs) h = elim (or_cases (same_entry e x) (has e xs) h) [
  | inl s ↦
      let q = same_entry_sound e x s in
      let t : (x.timer == e.timer) ≡ true = (==_iff x.timer e.timer).1 (sym (ap Entry.timer q)) in
      rw t
  | inr m ↦ elim (Bool-cases (x.timer == e.timer)) [
    | inl t ↦ rw t
    | inr f ↦ rw f (has-has_timer e xs m)
  ]
]

-- The stores agree on the timers of the entries.
keep_if-same :
    (p : ℤ → Bool) (timers timers' : ℕ → Timer) (xs : List Entry)
    → ((a : Entry) → has a xs ≡ true → timers' a.timer ≡ timers a.timer)
    → keep_if (by_count p timers') xs ≡ keep_if (by_count p timers) xs
unfolding keep_if has
keep_if-same p timers timers' [] h = refl
keep_if-same p timers timers' (x ∷ xs) h = rw (
  h x (or_left (same_entry x x) (has x xs) (same_entry_refl x)),
  keep_if-same p timers timers' xs (λ a m. h a (or_right (same_entry a x) (has a xs) m)),
)

self : (t : ℕ) → (t == t) ≡ true
self t = ground arith

or_false : (a b : Bool) → (a || b) ≡ false → (a ≡ false) × (b ≡ false)
or_false true b h = cc
or_false false b h = (refl, h)

module _ (known : ℕ → Bool) (callback : Callback) (alone : LeavesAlone known callback) where
  -- What one run does.
  record IsTurn (now n t : ℕ) (q q' : TimerQueue) : Type 0 where
    queue : IsQueue q'
    same_entries : (a : Entry) → known a.timer ≡ true → has a q'.entries ≡ has a q.entries
    same_fired : q'.fired ≡ q.fired ++ (t ∷ [])
    others : (u : ℕ) → known u ≡ true → (u == t) ≡ false → q'.timers u ≡ q.timers u
    turn :
        q'.timers t
        ≡ record (q.timers t) { execute_count = pos n; expiration = now + (q.timers t).interval }

  execute_timer_lem :
      (now n t : ℕ) (q : TimerQueue)
      → IsQueue q
      → known t ≡ true
      → (q.timers t).execute_count ≡ pos (suc n)
      → (q' : TimerQueue) × (execute_timer callback now t q ≡ some q') × IsTurn now n t q q'
  unfolding execute_timer execute
  execute_timer_lem now n t q w k e =
      let q0 : TimerQueue = record q {
        timers = update q.timers t (record (q.timers t) { execute_count = pos n });
        fired = q.fired ++ (t ∷ []);
      } in
      let (q1, r, s) = alone t q0 (record { sorted = w.sorted; real = w.real; once = w.once }) in
      let at_t : q1.timers t ≡ record (q.timers t) { execute_count = pos n } =
        s.same_timers t k ∙ rw (self t) refl in
      (
        record q1 {
          timers =
              update q1.timers t
                (record (q1.timers t) { expiration = now + (q1.timers t).interval });
        },
        rw e (rw r refl),
        record {
          queue = record { sorted = s.queue.sorted; real = s.queue.real; once = s.queue.once };
          same_entries = s.same_entries;
          same_fired = s.same_fired;
          others = λ u ku f. rw f (s.same_timers u ku ∙ rw f refl);
          turn = rw (self t) (ap (λ (r : Timer). record r { expiration = now + r.interval }) at_t);
        },
      )

  module _ (clock : ℕ → ℕ) (x : Entry) (xs acc : List Entry) (q : TimerQueue)
      (k : known x.timer ≡ true) (ks : AllKnown known xs)
      (single : has_timer x.timer xs ≡ false) where
    abbrev count : ℤ
    count = (q.timers x.timer).execute_count

    -- No entry behind `x` has its timer.
    apart : (e : Entry) → has e xs ≡ true → (e.timer == x.timer) ≡ false
    apart e m = elim (Bool-cases (e.timer == x.timer)) [
      | inl t ↦
          let same : e.timer ≡ x.timer = (==_iff e.timer x.timer).0 t in
          cc (sym (ap (λ (k : ℕ). has_timer k xs) same) ∙ has-has_timer e xs m, single)
      | inr f ↦ f
    ]

    skip_turn :
        spent count ≡ true
        → is_again count ≡ false
        → ((now : ℕ) (t : Timer) → ran_by count now t ≡ t)
        → Ran known callback clock xs acc q
        → Ran known callback clock (x ∷ xs) acc q
    unfolding run_due keep_if has_timer has
    skip_turn s a idle (q', e, r) = (
      q',
      rw (s, a) e,
      record {
        queue = r.queue;
        same_entries = r.same_entries;
        fired_lem = rw s r.fired_lem;
        others = λ t kt h. r.others t kt (or_false (x.timer == t) (has_timer t xs) h).1;
        turns = λ e' m. elim (or_cases (same_entry e' x) (has e' xs) m) [
          | inl same ↦
              rw (same_entry_sound e' x same)
                (r.others x.timer k single ∙ sym (idle (clock x.timer) (q.timers x.timer)))
          | inr m' ↦ r.turns e' m'
        ];
      },
    )

    kept :
        (b : Bool) (ys : List Entry) {zs ws : List Entry}
        → zs ≡ ws
        → (if b then ys ++ (x ∷ []) else ys) ++ zs ≡ ys ++ (if b then x ∷ ws else ws)
    kept true ys {zs} e = append_assoc ys (x ∷ []) zs ∙ ap (λ (l : List Entry). ys ++ (x ∷ l)) e
    kept false ys e = ap (λ (l : List Entry). ys ++ l) e

    run_turn :
        (n : ℕ) (q1 : TimerQueue)
        → count ≡ pos (suc n)
        → execute_timer callback (clock x.timer) x.timer q ≡ some q1
        → IsTurn (clock x.timer) n x.timer q q1
        → Ran known callback clock xs (if is_nonzero (pos n) then acc ++ (x ∷ []) else acc) q1
        → Ran known callback clock (x ∷ xs) acc q
    unfolding run_due keep_if has_timer has spent is_again ran_by
    run_turn n q1 e d i (q', r, s) =
        let left : (p : ℤ → Bool)
            → keep_if (by_count p q1.timers) xs ≡ keep_if (by_count p q.timers) xs =
          λ p.
            keep_if-same p q.timers q1.timers xs (λ a m. i.others a.timer (ks a m) (apart a m)) in
        let at_x : (q1.timers x.timer).execute_count ≡ pos n = ap Timer.execute_count i.turn in
        (
          q',
          rw (e, d)
              (rw at_x (
                r
                ∙ ap (λ (l : List Entry). some (l, q'))
                    (kept (is_nonzero (pos n)) acc (left is_again)))),
          record {
            queue = s.queue;
            same_entries = λ a ka. s.same_entries a ka ∙ i.same_entries a ka;
            fired_lem = rw e (
                s.fired_lem
                ∙ (ap
                      (λ (l : List ℕ).
                        l ++ map Entry.timer (keep_if (by_count is_left q1.timers) xs))
                      i.same_fired
                    ∙ append_assoc q.fired (x.timer ∷ []) _
                    ∙ ap (λ (l : List Entry). q.fired ++ (x.timer ∷ map Entry.timer l))
                        (left is_left)));
            others = λ t kt h.
                let (f, g) = or_false (x.timer == t) (has_timer t xs) h in
                s.others t kt g
                ∙ i.others t kt (let f' : (t == x.timer) ≡ false = ground arith in f');
            turns = λ e' m. elim (or_cases (same_entry e' x) (has e' xs) m) [
              | inl same ↦ rw (same_entry_sound e' x same) (
                  s.others x.timer k single
                  ∙ (i.turn ∙ sym (ap (λ (z : ℤ). ran_by z (clock x.timer) (q.timers x.timer)) e)))
              | inr m' ↦
                  s.turns e' m'
                  ∙ ap (ran (clock e'.timer)) (i.others e'.timer (ks e' m') (apart e' m'))
            ];
          },
        )

  -- The loop over entries with different timers never fails.
  pub run_due_lem :
      (clock : ℕ → ℕ) (es acc : List Entry) (q : TimerQueue)
      → IsQueue q
      → AllKnown known es
      → IsSingle es
      → Ran known callback clock es acc q
  unfolding run_due keep_if has has_timer
  run_due_lem clock [] acc q w ks single = (
    q,
    rw (append-nil acc) refl,
    record {
      queue = w;
      same_entries = λ a k. refl;
      fired_lem = sym (append-nil q.fired);
      others = λ t k h. refl;
      turns = λ e h. cc h;
    },
  )
  run_due_lem clock (x ∷ xs) acc q w ks (apart, single) =
      let k = ks x (or_left (same_entry x x) (has x xs) (same_entry_refl x)) in
      let rest : AllKnown known xs = λ a m. ks a (or_right (same_entry a x) (has a xs) m) in
      elim (count_cases (q.timers x.timer).execute_count) [
        | inl (s, a, idle) ↦
            skip_turn clock x xs acc q k rest apart s a idle
              (run_due_lem clock xs acc q w rest single)
        | inr (n, e) ↦
            let (q1, d, i) = execute_timer_lem (clock x.timer) n x.timer q w k e in
            run_turn clock x xs acc q k rest apart n q1 e d i (
              run_due_lem clock xs (if is_nonzero (pos n) then acc ++ (x ∷ []) else acc) q1 i.queue
                rest single)
      ]
