-- ===== src/TcpConnection/Close.antt =====
-- The ways in which a connection ends: disconnect, disconnectInLoop, handleClose.
use yy.EventHandler.Laws.{IsListening}
use yy.EventHandler
use yy.EventHandler.{EventHandler, is_writing, deleted, remove_listen, set_writing}
use yy.Prelude.{
  ℕ, ◌≤◌, ◌<◌, ◌≡◌, refl, sym, ap, ◌∙◌, inl, inr, true, false, ◌||◌, none, some, List, [], ◌∷◌,
  ◌++◌, append-nil, arith, ◌==◌, ◌>>=◌, length, drop, Bytes, ==_iff, Option-cases, take, lt→ltb,
}
use yy.TcpBuffer.{append, contents, readable_size}
use yy.TcpConnection.Drain.{readable-length, writes, writes_idle, AllPositive, drain}
use yy.TcpConnection.Send.{IsSound}
use yy.TcpConnection.{
  TcpConnection, Services, ok, fail, eagain, is_disconnecting, is_connected, is_set, ConnectStatus,
  connected, disconnecting, disconnected, disconnect, disconnect_in_loop, want_writing,
  handle_close, keep, send_in_loop, to_destruct,
}

waits_eq :
    (c : TcpConnection)
    → IsSound c
    → 0 < length (contents c.send_buffer)
    → ((readable_size c.send_buffer == 0) ≡ false) × (want_writing c ≡ some c)
unfolding want_writing
waits_eq c s h = (ground (arith, readable-length c s), rw (s.waits h))

-- `disconnect` while bytes wait only asks for the event that it has asked for already. When all has
-- been written, the connection is still connected, and it has not been shut, unless it was before.
pub disconnect_forgets :
    (rooms : List ℕ) (app : Services) (c : TcpConnection)
    → IsSound c
    → 0 < length (contents c.send_buffer)
    → c.status ≡ connected
    → AllPositive rooms
    → length (contents c.send_buffer) ≤ length rooms
    → (c' : TcpConnection) × ((disconnect true c >>= writes rooms app) ≡ some c')
      × (contents c'.send_buffer ≡ [])
      × (is_writing c'.handler ≡ false)
      × (c'.status ≡ connected)
      × (c'.shut ≡ c.shut)
unfolding disconnect
disconnect_forgets rooms app c s h on all enough =
    let (full, same) = waits_eq c s h in
    let (c', e, d) = drain rooms app c s (s.waits h) h all enough in
    (
      c',
      rw full (rw same e),
      d.empty,
      d.idle,
      d.same_status ∙ on,
      d.shut_lem ∙ ap (λ (st : ConnectStatus). is_disconnecting st || c.shut) on,
    )

-- `disconnectInLoop` of a connected connection, and events enough to write what waits: all bytes that
-- waited are on the wire, the connection is disconnecting, and it is shut behind them.
pub disconnect_in_loop_closes :
    (rooms : List ℕ) (app : Services) (c : TcpConnection)
    → IsSound c
    → c.status ≡ connected
    → (contents c.send_buffer ≡ [] → is_writing c.handler ≡ false)
    → AllPositive rooms
    → length (contents c.send_buffer) ≤ length rooms
    → (c' : TcpConnection) × ((disconnect_in_loop c >>= writes rooms app) ≡ some c')
      × (c'.wire ≡ c.wire ++ contents c.send_buffer)
      × (c'.status ≡ disconnecting)
      × (c'.shut ≡ true)
unfolding disconnect_in_loop
disconnect_in_loop_closes rooms app c s on idle all enough =
    by_contents (contents c.send_buffer) refl
  where
    c1 : TcpConnection
    c1 = record c { status = disconnecting }

    connected_now : is_connected c.status ≡ true
    connected_now = ap is_connected on

    by_contents :
        (q : Bytes)
        → contents c.send_buffer ≡ q
        → (c' : TcpConnection) × ((disconnect_in_loop c >>= writes rooms app) ≡ some c')
          × (c'.wire ≡ c.wire ++ contents c.send_buffer)
          × (c'.status ≡ disconnecting)
          × (c'.shut ≡ true)
    by_contents [] e =
        let size : (readable_size c.send_buffer == 0) ≡ true =
          (==_iff (readable_size c.send_buffer) 0).1
            (readable-length c s ∙ ap (length {A = ℕ}) e) in
        let shut_now : TcpConnection = record c1 { shut = true } in
        (
          shut_now,
          rw connected_now (rw size (writes_idle rooms app shut_now (idle e))),
          sym (ap (λ (m : Bytes). c.wire ++ m) e ∙ append-nil c.wire),
          refl,
          refl,
        )
    by_contents (x ∷ xs) e =
        let h : 0 < length (contents c.send_buffer) =
          let l = ap (length {A = ℕ}) e in omega arith in
        let s1 : IsSound c1 = record {
          valid = s.valid;
          listening = s.listening;
          waits = s.waits;
        } in
        let (full, same) = waits_eq c1 s1 h in
        let (c', r, d) = drain rooms app c1 s1 (s.waits h) h all enough in
        (c', rw connected_now (rw full (rw same r)), d.taken, d.same_status, d.shut_lem)

-- What is left of a connection by `handleClose`, when the callback of the application does nothing.
abbrev pub closed : TcpConnection → TcpConnection
closed c = record c {
  status = disconnected;
  handler = record c.handler { status = deleted; watched = none };
  pending = c.pending ++ (to_destruct ∷ []);
}

-- `handleClose` of a registered connection that is connected or disconnecting, when the callback of
-- the application does nothing: the connection is disconnected, nothing is watched for it any more,
-- and the loop is given its destruction once. A second `handleClose` fails an assertion.
pub handle_close_lem :
    (app : Services) (c : TcpConnection)
    → IsListening c.handler
    → (is_connected c.status || is_disconnecting c.status) ≡ true
    → is_set app.destruct ≡ true
    → ((d : TcpConnection) → EventHandler.call app.close d ≡ some d)
    → (handle_close app c ≡ some (closed c)) × (handle_close app (closed c) ≡ none)
unfolding handle_close remove_listen
handle_close_lem app c l live owner quiet =
    (rw live (rw (l.is_added, l.watches) (rw (quiet _) (rw owner))), refl)

set_writing_removed :
    (h : EventHandler) → EventHandler.is_added h.status ≡ false → set_writing h ≡ none
unfolding set_writing
set_writing_removed h gone = rw gone

keep_removed :
    (c : TcpConnection) (bytes : Bytes)
    → is_writing c.handler ≡ false
    → EventHandler.is_added c.handler.status ≡ false
    → (keep c bytes >>= want_writing) ≡ none
unfolding keep want_writing
keep_removed c bytes idle gone = elim (Option-cases (append c.send_buffer bytes)) [
  | inl e ↦ rw e
  | inr (b, e) ↦ rw e (rw idle (rw (set_writing_removed c.handler gone)))
]

-- `send` looks at no status. On a connection that `handleClose` has closed, and that did not ask for
-- the event, every message that the socket does not take whole, or answers EAGAIN for, fails an
-- assertion of the poller.
pub send_after_close :
    (app : Services) (c : TcpConnection) (message : Bytes) (n : ℕ)
    → is_writing c.handler ≡ false
    → n < length message
    → (send_in_loop (ok n) app (closed c) message ≡ none)
      × (send_in_loop (fail eagain) app (closed c) message ≡ none)
unfolding send_in_loop
send_after_close app c message n idle h = (
  rw (lt→ltb n (length message) h) (
      keep_removed (record (closed c) { wire = c.wire ++ take n message }) (drop n message) idle
        refl),
  keep_removed (record (closed c) { errno = eagain }) message idle refl,
)
