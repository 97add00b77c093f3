-- ===== src/TcpClient/Backoff.antt =====
-- The delays between the attempts to connect, and the attempts that no delay parts.
use native.Mathlib.Nat.{pow-suc}
use yy.Prelude.{
  ℕ, zero, suc, ◌+◌, ◌*◌, ◌^◌, ◌≤◌, ◌<◌, ◌≡◌, refl, sym, ap, ◌∙◌, inl, inr, true, false, Option,
  none, some, List, [], ◌∷◌, ◌++◌, arith, ltb, append_assoc, append-nil, if◌then◌else◌, Bool-cases,
  ◌>>=◌, get_or, min, ltb→lt,
}
use yy.TcpClient.Laws.{start_connecting_lem, remove_listen_lem}
use yy.TcpClient.{
  new_connection, TcpClient, disconnected, connected, Answer, econnrefused, other, einprogress,
  is_connecting, is_disconnected, retry_connect, start_in_loop, after_connect, created, close_fd,
  restarted, max_retry_delay, stop, stop_in_loop, handle_write,
}

-- The timer starts an attempt, so many times, and each is refused.
unfoldable pub refused : ℕ → TcpClient → Option TcpClient
unfolding start_in_loop
refused zero c = some c
refused (suc n) c = start_in_loop (econnrefused ∷ []) c >>= refused n

-- The delays of so many attempts, from the first one.
unfoldable pub delays : ℕ → ℕ → List ℕ
delays zero d = []
delays (suc n) d = d ∷ delays n (min (2 * d) max_retry_delay)

next_delay :
    (d : ℕ)
    → (if ltb (2 * d) max_retry_delay then 2 * d else max_retry_delay) ≡ min (2 * d) max_retry_delay
next_delay d = grind arith

refused_once :
    (c : TcpClient)
    → c.state ≡ disconnected
    → c.retry ≡ true
    → start_in_loop (econnrefused ∷ []) c
      ≡ some (record c {
        has_fd = false;
        opened = c.opened + 1;
        closed = c.closed + 1;
        state = disconnected;
        timers = c.timers ++ (c.retry_delay ∷ []);
        retry_delay = min (2 * c.retry_delay) max_retry_delay;
      })
unfolding start_in_loop after_connect retry_connect
refused_once c d r =
    let t : is_disconnected c.state ≡ true = ap is_disconnected d in
    rw t (rw r (rw (next_delay c.retry_delay)))

refused_lem :
    (n : ℕ) (c : TcpClient)
    → c.state ≡ disconnected
    → c.retry ≡ true
    → (c' : TcpClient) × (refused n c ≡ some c')
      × (c'.state ≡ disconnected)
      × (c'.timers ≡ c.timers ++ delays n c.retry_delay)
      × (c'.opened ≡ c.opened + n)
      × (c'.closed ≡ c.closed + n)
unfolding refused delays
refused_lem zero c d r = (c, refl, d, sym (append-nil c.timers), omega arith, omega arith)
refused_lem (suc n) c d r =
    let c1 : TcpClient = record c {
      has_fd = false;
      opened = c.opened + 1;
      closed = c.closed + 1;
      state = disconnected;
      timers = c.timers ++ (c.retry_delay ∷ []);
      retry_delay = min (2 * c.retry_delay) max_retry_delay;
    } in
    let (c', e, d', t, o, cl) = refused_lem n c1 refl r in
    (
      c',
      rw (refused_once c d r) e,
      d',
      t
          ∙ append_assoc c.timers (c.retry_delay ∷ [])
              (delays n (min (2 * c.retry_delay) max_retry_delay)),
      omega arith,
      omega arith,
    )

pos_pow : (k : ℕ) → 0 < 2 ^ k
pos_pow zero = omega arith
pos_pow (suc k) = omega (arith, pos_pow k, pow-suc 2 k)

double_min : (d m p : ℕ) → 0 < p → min (min (2 * d) m * p) m ≡ min (d * (p * 2)) m
double_min d m zero h = absurd (omega arith)
double_min d m (suc p) h = elim (Bool-cases (ltb m (2 * d))) [
  | inl big ↦
      let lt = ltb→lt m (2 * d) big in let e : min (2 * d) m ≡ m = omega arith in rw e (omega arith)
  | inr small ↦
      let le : 2 * d ≤ m = ground arith in
      let e : min (2 * d) m ≡ 2 * d = omega arith in rw e (omega arith)
]

get_or-delays :
    (n k d : ℕ)
    → k < n
    → d ≤ max_retry_delay
    → get_or (delays n d) k 0 ≡ min (d * 2 ^ k) max_retry_delay
unfolding delays
get_or-delays zero k d h l = absurd (omega arith)
get_or-delays (suc n) zero d h l = omega arith
get_or-delays (suc n) (suc k) d h l =
    get_or-delays n k (min (2 * d) max_retry_delay) (omega arith) (omega arith)
    ∙ double_min d max_retry_delay (2 ^ k) (pos_pow k)
    ∙ ap (λ (t : ℕ). min (d * t) max_retry_delay) (sym (pow-suc 2 k))

-- A connector that is to retry and whose attempts are all refused, so many times: each attempt makes a
-- socket and closes it, and starts a timer for the next. The delay of attempt `k` is the first one
-- times `2 ^ k`, and 30 seconds at most.
pub backoff_lem :
    (n : ℕ) (c : TcpClient)
    → c.state ≡ disconnected
    → c.retry ≡ true
    → c.retry_delay ≤ max_retry_delay
    → (c' : TcpClient) × (refused n c ≡ some c')
      × (c'.state ≡ disconnected)
      × (c'.opened ≡ c.opened + n)
      × (c'.closed ≡ c.closed + n)
      × ((ds : List ℕ) × (c'.timers ≡ c.timers ++ ds)
          × ((k : ℕ) → k < n → get_or ds k 0 ≡ min (c.retry_delay * 2 ^ k) max_retry_delay))
backoff_lem n c d r l =
    let (c', e, d', t, o, cl) = refused_lem n c d r in
    (c', e, d', o, cl, (delays n c.retry_delay, t, λ k h. get_or-delays n k c.retry_delay h l))

abbrev pub unknown_errors : ℕ → List Answer → List Answer
unknown_errors zero rest = rest
unknown_errors (suc n) rest = other n ∷ unknown_errors n rest

-- What is left of a connector behind an attempt that failed with an unknown error.
failed : TcpClient → TcpClient
failed c = restarted (close_fd (created c))

after_unknown :
    (n : ℕ) (c : TcpClient) (again : Option TcpClient)
    → c.retry ≡ true
    → after_connect (other n) c again ≡ again
unfolding after_connect
after_unknown n c again r = rw r

unknown_error :
    (n : ℕ) (answers : List Answer) (c : TcpClient)
    → c.state ≡ disconnected
    → c.retry ≡ true
    → start_in_loop (other n ∷ answers) c ≡ start_in_loop answers (failed c)
unfolding start_in_loop failed
unknown_error n answers c d r =
    let t : is_disconnected c.state ≡ true = ap is_disconnected d in
    rw t (after_unknown n (created c) (start_in_loop answers (restarted (close_fd (created c)))) r)

-- An error of `connect` that the code does not know is followed by the next attempt at once, inside
-- the first one: a connector that is to retry starts no timer, and each such error takes one more
-- socket and one more call. If all errors are of that kind, the call does not return.
pub unknown_errors_nest :
    (n : ℕ) (rest : List Answer) (c : TcpClient)
    → c.state ≡ disconnected
    → c.retry ≡ true
    → (c' : TcpClient) × (start_in_loop (unknown_errors n rest) c ≡ start_in_loop rest c')
      × (c'.timers ≡ c.timers)
      × (c'.opened ≡ c.opened + n)
      × (start_in_loop (unknown_errors n []) c ≡ none)
unfolding start_in_loop failed
unknown_errors_nest zero rest c d r = (
  c,
  refl,
  refl,
  omega arith,
  rw (let t : is_disconnected c.state ≡ true = ap is_disconnected d in t),
)
unknown_errors_nest (suc n) rest c d r =
    let (c', e, tm, o, never) = unknown_errors_nest n rest (failed c) refl r in
    (
      c',
      unknown_error n (unknown_errors n rest) c d r ∙ e,
      tm,
      omega arith,
      unknown_error n (unknown_errors n []) c d r ∙ never,
    )

-- `stop` does not reach an attempt that waits for its timer: the timer connects again all the same,
-- and when the socket can be written, the client has a connection, if its callback for that is set.
pub stop_then_connects :
    (c : TcpClient)
    → c.state ≡ disconnected
    → c.has_callback ≡ true
    → (c' : TcpClient) × ((stop c >>= start_in_loop (einprogress ∷ []) >>= handle_write 0 false)
        ≡ some c')
      × (c'.connection ≡ true)
      × (c'.retry ≡ false)
unfolding stop stop_in_loop start_in_loop after_connect handle_write new_connection
stop_then_connects c d cb =
    let c1 : TcpClient = created (record c { retry = false }) in
    let idle : is_connecting c.state ≡ false = ap is_connecting d in
    let t : is_disconnected c.state ≡ true = ap is_disconnected d in
    let (h, e, l, w) = start_connecting_lem c1 in
    let c2 : TcpClient = record c1 { state = connected; handler = some h } in
    let (h', r, i) = remove_listen_lem c2 h refl l in
    (
      record c2 { handler = some h'; connection = true },
      rw idle (rw t (rw e (rw r (rw cb refl)))),
      refl,
      refl,
    )
