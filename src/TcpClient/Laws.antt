-- ===== src/TcpClient/Laws.antt =====
-- What the steps of a client keep: the poller watches the socket of a connector exactly while it is
-- connecting.
use mathlib.Core.Path.{subst}
use yy.EventHandler
use yy.EventHandler.Laws.{IsListening, set_writing_lem}
use yy.EventHandler.{EventHandler, is_writing, added}
use yy.Prelude.{
  ℕ, ◌≡◌, refl, sym, inl, inr, Bool, true, false, Option, none, some, List, [], ◌∷◌, arith, ◌==◌,
  Bool-cases, ◌>>=◌,
}
use yy.TcpClient.{
  TcpClient, disconnected, connecting, connected, Answer, is_connecting, is_disconnected,
  start_connecting, retry_connect, after_connect, success, einprogress, eintr, eisconn, other,
  start_in_loop, remove_listen, handle_write, handle_error, stop_in_loop, created, close_fd,
  restarted, State, new_connection,
}

-- A handler that nothing is watched for.
pub record IsIdle (h : EventHandler) : Type 0 where
  pub removed : EventHandler.is_added h.status ≡ false
  pub unwatched : h.watched ≡ none

abbrev pub Watches : Bool → Option EventHandler → Type 0
Watches true none = ⊥
Watches true (some h) = IsListening h × (is_writing h ≡ true)
Watches false none = Unit
Watches false (some h) = IsIdle h

abbrev pub IsSane : TcpClient → Type 0
IsSane c = Watches (is_connecting c.state) c.handler

abbrev pub IsSaneResult : Option TcpClient → Type 0
IsSaneResult none = Unit
IsSaneResult (some c) = IsSane c

pub start_connecting_lem :
    (c : TcpClient)
    → (h : EventHandler) × (start_connecting c
        ≡ some (record c { state = connecting; handler = some h }))
      × IsListening h
      × (is_writing h ≡ true)
unfolding start_connecting EventHandler.init EventHandler.new_handler
start_connecting_lem c =
    let h : EventHandler = record { status = added; events = 0; watched = some 0 } in
    let l : IsListening h = record { is_added = refl; watches = refl; valid = omega arith } in
    let (h', e, l', w) = set_writing_lem h l in (h', rw e, l', w)

start_connecting-IsSane : (c : TcpClient) → IsSaneResult (start_connecting c)
start_connecting-IsSane c =
    let (h, e, l, w) = start_connecting_lem c in subst IsSaneResult (sym e) (l, w)

idle_retry : (c : TcpClient) → Watches false c.handler → IsSane (retry_connect c)
unfolding retry_connect
idle_retry c w = elim (Bool-cases c.has_fd) [
  | inl fd ↦ elim (Bool-cases c.retry) [ inl r ↦ rw (fd, r) w | inr n ↦ rw (fd, n) w ]
  | inr no_fd ↦ elim (Bool-cases c.retry) [ inl r ↦ rw (no_fd, r) w | inr n ↦ rw (no_fd, n) w ]
]

pub remove_listen_lem :
    (c : TcpClient) (h : EventHandler)
    → c.handler ≡ some h
    → IsListening h
    → (h' : EventHandler) × (remove_listen c ≡ some (record c { handler = some h' })) × IsIdle h'
unfolding remove_listen EventHandler.remove_listen
remove_listen_lem c h e l =
    let h' : EventHandler = record h { status = EventHandler.deleted; watched = none } in
    (h', rw e (rw (l.is_added, l.watches)), record { removed = refl; unwatched = refl })

-- A step of a connecting client that stops listening and then goes on in a state that is not
-- connecting.
stop_listening :
    (c : TcpClient) (k : TcpClient → TcpClient)
    → (h : EventHandler) × (c.handler ≡ some h) × IsListening h
    → ((h : EventHandler) → IsIdle h → IsSane (k (record c { handler = some h })))
    → (d : TcpClient) × ((remove_listen c >>= λ c'. some (k c')) ≡ some d) × IsSane d
stop_listening c k (h, e, l) keeps =
    let (h', r, idle) = remove_listen_lem c h e l in
    let c' : TcpClient = record c { handler = some h' } in (k c', rw r, keeps h' idle)

listening :
    (b : Bool) (o : Option EventHandler)
    → Watches b o
    → b ≡ true
    → (h : EventHandler) × (o ≡ some h) × IsListening h
listening true none w e = absurd w
listening true (some h) w e = (h, refl, w.0)
listening false o w e = cc e

not_connecting : (b : Bool) (o : Option EventHandler) → Watches b o → b ≡ false → Watches false o
not_connecting true o w e = cc e
not_connecting false o w e = w

after_connect-IsSane :
    (a : Answer) (c : TcpClient) (again : Option TcpClient)
    → Watches false c.handler
    → is_connecting c.state ≡ false
    → IsSaneResult again
    → IsSaneResult (after_connect a c again)
unfolding after_connect
after_connect-IsSane success c again w idle s = start_connecting-IsSane c
after_connect-IsSane einprogress c again w idle s = start_connecting-IsSane c
after_connect-IsSane eintr c again w idle s = start_connecting-IsSane c
after_connect-IsSane eisconn c again w idle s = start_connecting-IsSane c
after_connect-IsSane (other n) c again w idle s = elim (Bool-cases c.retry) [
  | inl r ↦ rw r s
  | inr f ↦ rw f (rw idle w)
]
after_connect-IsSane a c again w idle s = idle_retry c w

-- From a state that is not connecting, `startInLoop` keeps it too, whatever the calls of `connect`
-- answer, if it returns.
pub start_in_loop-IsSane :
    (answers : List Answer) (c : TcpClient)
    → Watches false c.handler
    → is_connecting c.state ≡ false
    → IsSaneResult (start_in_loop answers c)
unfolding start_in_loop
start_in_loop-IsSane [] c w idle = elim (Bool-cases (is_disconnected c.state)) [
  | inl d ↦ rw d tt
  | inr n ↦ rw n (rw idle w)
]
start_in_loop-IsSane (a ∷ answers) c w idle =
    let again = start_in_loop-IsSane answers (restarted (close_fd (created c))) w refl in
    elim (Bool-cases (is_disconnected c.state)) [
      | inl d ↦ rw d (after_connect-IsSane a (created c) _ w idle again)
      | inr n ↦ rw n (rw idle w)
    ]

new_connection-IsSane :
    (c : TcpClient)
    → (h : EventHandler) × (c.handler ≡ some h) × IsListening h
    → c.has_callback ≡ true
    → (d : TcpClient) × ((remove_listen (record c { state = connected }) >>= new_connection)
        ≡ some d)
      × IsSane d
unfolding new_connection
new_connection-IsSane c (h, e, l) cb =
    let (h', r, idle) = remove_listen_lem (record c { state = connected }) h e l in
    (record c { state = connected; handler = some h'; connection = true }, rw r (rw cb refl), idle)

not_disconnected : (s : State) → is_connecting s ≡ true → is_disconnected s ≡ false
not_disconnected disconnected h = cc h
not_disconnected connecting h = refl
not_disconnected connected h = refl

-- A connector that is connecting does not start anew.
start_connected :
    (answers : List Answer) (c : TcpClient)
    → IsSane c
    → is_connecting c.state ≡ true
    → IsSaneResult (start_in_loop answers c)
unfolding start_in_loop
start_connected [] c w on = let no = not_disconnected c.state on in rw no w
start_connected (a ∷ answers) c w on = let no = not_disconnected c.state on in rw no w

-- Four calls keep that the poller watches the socket of a connector, for writing, exactly while it is
-- connecting, when the client has a callback for new connections. `handleWrite`, whatever
-- `sockfd_has_error` and `isSelfConnect` answer, `handleError` and `stopInLoop` do not fail; and
-- `startInLoop` keeps it whenever it returns, whatever its calls of `connect` answer.
pub events-IsSane :
    (err : ℕ) (self : Bool) (answers : List Answer) (c : TcpClient)
    → IsSane c
    → c.has_callback ≡ true
    → ((d : TcpClient) × (handle_write err self c ≡ some d) × IsSane d)
      × ((d : TcpClient) × (handle_error c ≡ some d) × IsSane d)
      × ((d : TcpClient) × (stop_in_loop c ≡ some d) × IsSane d)
      × IsSaneResult (start_in_loop answers c)
unfolding handle_write handle_error stop_in_loop
events-IsSane err self answers c w cb = elim (Bool-cases (is_connecting c.state)) [
  | inr idle ↦ (
    (c, rw idle, w),
    (c, rw idle, w),
    (c, rw idle, w),
    start_in_loop-IsSane answers c (not_connecting (is_connecting c.state) c.handler w idle) idle,
  )
  | inl on ↦
      let at = listening (is_connecting c.state) c.handler w on in
      let again =
        stop_listening c retry_connect at (λ h i. idle_retry (record c { handler = some h }) i) in
      (
        elim (Bool-cases (err == 0)) [
          | inr bad ↦ rw (on, bad) again
          | inl fine ↦ elim (Bool-cases self) [
            | inl loop ↦ rw (on, fine, loop) again
            | inr good ↦ rw (on, fine, good) (new_connection-IsSane c at cb)
          ]
        ],
        rw on again,
        rw on (
            let c1 : TcpClient = record c { state = disconnected } in
            let (h, r, i) = remove_listen_lem c1 at.0 at.1 at.2 in
            (record c1 { handler = some h }, r, i)),
        start_connected answers c w on,
      )
]
