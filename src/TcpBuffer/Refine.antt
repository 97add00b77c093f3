-- ===== src/TcpBuffer/Refine.antt =====
-- A client that appends and retrieves cannot tell a buffer from a queue of bytes.
use yy.Prelude.{
  ℕ, ◌+◌, ◌≤◌, ◌≡◌, refl, ap, inl, inr, Option, none, some, List, [], ◌∷◌, ◌++◌, arith, leb,
  if◌then◌else◌, leb→le, Bool-cases, ◌>>=◌, length, take, drop, length-append, length-drop, Bytes,
  slice,
}
use yy.TcpBuffer.Contents.{append_lem, retrieve_lem}
use yy.TcpBuffer.Inv.{IsValid}
use yy.TcpBuffer.{TcpBuffer, max_size, contents, append, retrieve}

pub data Op : Type 0 where
  put : Bytes → Op
  get : ℕ → Op

-- the bytes that a client reads through the pointer of `retrieve(n)`; `nullptr` reads as `none`
abbrev seen : ℕ → Option ℕ → TcpBuffer → Option Bytes
seen n none b = none
seen n (some p) b = some (slice p n b.buffer)

-- The replies to the `get`s of a sequence of calls. `none` is a failed assertion or an exception.
unfoldable pub run : TcpBuffer → List Op → Option (List (Option Bytes))
run b [] = some []
run b (put xs ∷ ops) = append b xs >>= λ b'. run b' ops
run b (get n ∷ ops) =
    retrieve b n >>= λ r. run r.1 ops >>= λ replies. some (seen n r.0 r.1 ∷ replies)

-- The specification: a queue of bytes, and nothing else.
unfoldable pub run_queue : Bytes → List Op → List (Option Bytes)
run_queue q [] = []
run_queue q (put xs ∷ ops) = run_queue (q ++ xs) ops
run_queue q (get n ∷ ops) =
    let rest = run_queue (drop n q) ops in
    let same = run_queue q ops in if leb n (length q) then some (take n q) ∷ rest else none ∷ same

-- all the bytes that the calls append
abbrev pub volume : List Op → ℕ
volume [] = 0
volume (put xs ∷ ops) = length xs + volume ops
volume (get n ∷ ops) = volume ops

run-get :
    (b : TcpBuffer) (n : ℕ) (ops : List Op) {p : Option ℕ} {b' : TcpBuffer}
    {rs : List (Option Bytes)}
    → retrieve b n ≡ some (p, b')
    → run b' ops ≡ some rs
    → run b (get n ∷ ops) ≡ some (seen n p b' ∷ rs)
unfolding run
run-get b n ops e f = rw e (rw f)

-- Every sequence of appends and retrievals that starts at a valid buffer, and whose bytes fit the
-- largest vector, runs with no failure, and each reply is that of the queue of the readable bytes.
pub run_refines :
    (ops : List Op) (b : TcpBuffer)
    → IsValid b
    → b.prepend_size + length (contents b) + volume ops ≤ max_size
    → run b ops ≡ some (run_queue (contents b) ops)
unfolding run run_queue
run_refines [] b v h = refl
run_refines (put xs ∷ ops) b v h =
    let (b', e, v', c, p) = append_lem b xs v (omega arith) in
    rw e (
      rw (← c) (
        run_refines ops b' v'
          (omega (arith, p, ap (length {A = ℕ}) c, length-append (contents b) xs))))
run_refines (get n ∷ ops) b v h = elim (Bool-cases (leb n (length (contents b)))) [
  | inl t ↦
      let (b', e, v', s, c, p) = (retrieve_lem b n v).0 (leb→le n (length (contents b)) t) in
      let ih =
        run_refines ops b' v'
          (omega (arith, p, ap (length {A = ℕ}) c, length-drop n (contents b))) in
      rw t (rw e (rw ih (rw (s, c))))
  | inr f ↦ rw f (rw ((retrieve_lem b n v).1 (ground arith)) (rw (run_refines ops b v h)))
]
