-- ===== src/EventLoop/Pending.antt =====
-- doPendingFunctions: which functions it runs.
use yy.EventLoop.{
  FunctionQueue, EventLoop, pending_loop, do_pending_functions, call, max_finish_num, with_pending,
}
use yy.Prelude.{
  ℕ, zero, suc, ◌≤◌, ◌≡◌, refl, sym, ap, ◌∙◌, true, List, [], ◌∷◌, ◌++◌, append-nil, append_assoc,
  arith, length,
}

module _ {T : Type 0} (queue : FunctionQueue T) (effect : T → queue.Queue → queue.Queue)
    (quiet : (t : T) (q : queue.Queue) → effect t q ≡ q) where
  open queue use {held, try_dequeue-empty, try_dequeue-first}

  -- The queue gives out all that may run.
  runs_all :
      (left : ℕ) (ts : List T) (l : EventLoop queue)
      → held l.functions ≡ ts
      → length ts ≤ left
      → (held (pending_loop queue effect left l).functions ≡ [])
        × ((pending_loop queue effect left l).done ≡ l.done ++ ts)
  unfolding pending_loop
  runs_all zero [] l e h =
      rw (try_dequeue-empty l.functions e, pending_loop) (e, sym (append-nil l.done))
  runs_all zero (t ∷ ts) l e h = absurd (omega arith)
  runs_all (suc left) [] l e h =
      rw (try_dequeue-empty l.functions e, pending_loop) (e, sym (append-nil l.done))
  runs_all (suc left) (t ∷ ts) l e h =
      let (q, d, r) = try_dequeue-first l.functions t ts e in
      let l1 : EventLoop queue = call queue effect t (record l { functions = q }) in
      let (empty, done) = runs_all left ts l1 (ap held (quiet t q) ∙ r) (omega arith) in
      rw (d, pending_loop) (empty, done ∙ append_assoc l.done (t ∷ []) ts)

  -- A call of `doPendingFunctions` when at most a hundred functions wait, which put no others into the
  -- queue: all run, in the order of the queue, and none waits any more.
  pub do_pending_functions-all :
      (l : EventLoop queue)
      → length (held l.functions) ≤ max_finish_num
      → (held (do_pending_functions queue effect l).functions ≡ [])
        × ((do_pending_functions queue effect l).done ≡ l.done ++ held l.functions)
  unfolding do_pending_functions
  do_pending_functions-all l h =
      runs_all max_finish_num (held l.functions) (with_pending queue l true) refl h

-- What functions put into the queue while they run, one behind the other.
abbrev pub put_by : {T : Type 0} → (T → List T) → List T → List T
put_by puts [] = []
put_by puts (t ∷ ts) = puts t ++ put_by puts ts

module _ {T : Type 0} (queue : FunctionQueue T) (effect : T → queue.Queue → queue.Queue)
    (puts : T → List T)
    (adds : (t : T) (q : queue.Queue) → queue.held (effect t q) ≡ queue.held q ++ puts t) where
  open queue use {held, try_dequeue-empty, try_dequeue-first}

  -- One more than may run.
  loses_one :
      (left : ℕ) (ts : List T) (t : T) (rest : List T) (l : EventLoop queue)
      → held l.functions ≡ ts ++ (t ∷ rest)
      → length ts ≡ left
      → (held (pending_loop queue effect left l).functions ≡ rest ++ put_by puts ts)
        × ((pending_loop queue effect left l).done ≡ l.done ++ ts)
  unfolding pending_loop
  loses_one zero [] t rest l e h =
      let (q, d, r) = try_dequeue-first l.functions t rest e in
      rw (d, pending_loop) (r ∙ sym (append-nil rest), sym (append-nil l.done))
  loses_one zero (x ∷ xs) t rest l e h = absurd (omega arith)
  loses_one (suc left) [] t rest l e h = absurd (omega arith)
  loses_one (suc left) (x ∷ xs) t rest l e h =
      let (q, d, r) = try_dequeue-first l.functions x (xs ++ (t ∷ rest)) e in
      let l1 : EventLoop queue = call queue effect x (record l { functions = q }) in
      let waits : held l1.functions ≡ xs ++ (t ∷ (rest ++ puts x)) =
        adds x q ∙ ap (λ (fs : List T). fs ++ puts x) r ∙ append_assoc xs (t ∷ rest) (puts x) in
      let (left_over, done) = loses_one left xs t (rest ++ puts x) l1 waits (omega arith) in
      rw (d, pending_loop)
        (
          left_over ∙ append_assoc rest (puts x) (put_by puts xs),
          done ∙ append_assoc l.done (x ∷ []) xs,
        )

  -- When more than a hundred functions wait, and functions that run put others behind them at most,
  -- the first hundred run, and the one behind them is taken from the queue and lost: it does not run,
  -- and it does not wait any more. Those behind it and those that were put in still wait.
  pub do_pending_functions_loses :
      (l : EventLoop queue) (ts : List T) (t : T) (rest : List T)
      → held l.functions ≡ ts ++ (t ∷ rest)
      → length ts ≡ max_finish_num
      → (held (do_pending_functions queue effect l).functions ≡ rest ++ put_by puts ts)
        × ((do_pending_functions queue effect l).done ≡ l.done ++ ts)
  unfolding do_pending_functions
  do_pending_functions_loses l ts t rest e h =
      loses_one max_finish_num ts t rest (with_pending queue l true) e h
