-- ===== src/TcpConnection/Drain.antt =====
-- handleWrite and the two ways to disconnect: the buffered bytes leave in order, and whether the
-- connection is shut behind them.
use yy.EventHandler.Laws.{cancel_writing_lem}
use yy.EventHandler.{EventHandler, is_writing, cancel_writing}
use yy.Prelude.{
  ℕ, zero, suc, ◌≤◌, ◌<◌, ◌≡◌, refl, sym, ap, ap₂, ◌∙◌, inl, inr, Bool, true, false, ◌||◌, Option,
  some, List, [], ◌∷◌, ◌++◌, append_assoc, arith, ltb, ◌==◌, if◌then◌else◌, ltb→lt, lt→ltb,
  Bool-cases, ◌>>=◌, length, take, drop, length-drop, take-all, drop-all, take-append-drop, Bytes,
  min, ==_iff,
}
use yy.TcpBuffer.Contents.{consume_lem}
use yy.TcpBuffer.Inv.{readable_eq, length-contents}
use yy.TcpBuffer.{contents, readable_size}
use yy.TcpConnection.Send.{IsSound}
use yy.TcpConnection.{
  TcpConnection, Services, ok, handle_write, all_sent, is_disconnecting, ConnectStatus,
}

pub readable-length :
    (c : TcpConnection) → IsSound c → readable_size c.send_buffer ≡ length (contents c.send_buffer)
readable-length c s =
    readable_eq c.send_buffer s.valid ∙ sym (length-contents c.send_buffer s.valid)

-- What a call of `handleWrite` has done when the socket took `n` bytes.
pub record IsWritten (c : TcpConnection) (n : ℕ) (c' : TcpConnection) : Type 0 where
  pub sound : IsSound c'
  pub taken : c'.wire ≡ c.wire ++ take n (contents c.send_buffer)
  pub kept : contents c'.send_buffer ≡ drop n (contents c.send_buffer)
  pub same_status : c'.status ≡ c.status
  pub writing : is_writing c'.handler ≡ ltb n (length (contents c.send_buffer))
  pub shut_lem : c'.shut ≡ (
      if ltb n (length (contents c.send_buffer))
      then c.shut
      else is_disconnecting c.status || c.shut)

shut_eq :
    (c : TcpConnection)
    → (if is_disconnecting c.status then record c { shut = true } else c)
      ≡ record c { shut = is_disconnecting c.status || c.shut }
shut_eq c = elim (Bool-cases (is_disconnecting c.status)) [
  | inl closing ↦ rw closing
  | inr open_still ↦ rw open_still
]

all_sent_lem :
    (c : TcpConnection) (h : EventHandler)
    → is_writing c.handler ≡ true
    → cancel_writing c.handler ≡ some h
    → all_sent c ≡ some (record c { handler = h; shut = is_disconnecting c.status || c.shut })
unfolding all_sent
all_sent_lem c h w e = rw w (rw (shut_eq c) (rw e))

module _ (app : Services) (c : TcpConnection) (k : ℕ) (s : IsSound c)
    (writes : is_writing c.handler ≡ true) where
  all-IsWritten :
      suc k ≡ length (contents c.send_buffer)
      → (c' : TcpConnection) × (handle_write (ok (suc k)) app c ≡ some c') × IsWritten c (suc k) c'
  unfolding handle_write all_sent
  all-IsWritten e =
      let (h, ce, l, w) = cancel_writing_lem c.handler s.listening in
      let (b, be, v, eq, p) = consume_lem c.send_buffer (suc k) s.valid (omega arith) in
      let t : (suc k == readable_size c.send_buffer) ≡ true =
        (==_iff (suc k) _).1 (e ∙ sym (readable-length c s)) in
      let f : ltb (suc k) (length (contents c.send_buffer)) ≡ false = ground arith in
      let gone : contents b ≡ [] = eq ∙ drop-all (suc k) (contents c.send_buffer) (omega arith) in
      let c1 : TcpConnection = record c {
        wire = c.wire ++ take (suc k) (contents c.send_buffer);
      } in
      let c2 : TcpConnection = record c1 {
        handler = h;
        shut = is_disconnecting c.status || c.shut;
      } in
      (
        record c2 { send_buffer = b },
        rw t (rw (all_sent_lem c1 h writes ce) (rw be)),
        record {
          sound = record {
            valid = v;
            listening = l;
            waits = λ lt. absurd (let z = ap (length {A = ℕ}) gone in omega arith);
          };
          taken = refl;
          kept = eq;
          same_status = refl;
          writing = w ∙ sym f;
          shut_lem = rw f;
        },
      )

  part-IsWritten :
      suc k < length (contents c.send_buffer)
      → (c' : TcpConnection) × (handle_write (ok (suc k)) app c ≡ some c') × IsWritten c (suc k) c'
  unfolding handle_write
  part-IsWritten lt =
      let (b, be, v, eq, p) = consume_lem c.send_buffer (suc k) s.valid (omega arith) in
      let t : (suc k == readable_size c.send_buffer) ≡ false =
        ground (arith, readable-length c s) in
      let f = lt→ltb (suc k) (length (contents c.send_buffer)) lt in
      (
        record c { wire = c.wire ++ take (suc k) (contents c.send_buffer); send_buffer = b },
        rw t (rw be),
        record {
          sound = record { valid = v; listening = s.listening; waits = λ _. writes };
          taken = refl;
          kept = eq;
          same_status = refl;
          writing = writes ∙ sym f;
          shut_lem = rw f;
        },
      )

-- When the loop reports that the socket of a sound connection has room, and bytes wait, and the socket
-- takes at least one and at most all of them: these are on the wire, the rest waits, and the handler
-- goes on to ask for the event exactly if there is a rest. With the last byte a connection that is
-- disconnecting is shut; nothing else shuts it.
pub handle_write_lem :
    (app : Services) (c : TcpConnection) (n : ℕ)
    → IsSound c
    → is_writing c.handler ≡ true
    → 0 < n
    → n ≤ length (contents c.send_buffer)
    → (c' : TcpConnection) × (handle_write (ok n) app c ≡ some c') × IsWritten c n c'
handle_write_lem app c zero s w pos h = absurd (omega arith)
handle_write_lem app c (suc k) s w pos h =
    elim (Bool-cases (ltb (suc k) (length (contents c.send_buffer)))) [
      | inl t ↦ part-IsWritten app c k s w (ltb→lt _ _ t)
      | inr f ↦ all-IsWritten app c k s w (ground arith)
    ]

-- The loop reports that the socket has room for so many bytes, as long as the handler asks for that.
unfoldable pub writes : List ℕ → Services → TcpConnection → Option TcpConnection
unfolding handle_write
writes [] app c = some c
writes (room ∷ rooms) app c =
    if is_writing c.handler
    then (handle_write (ok (min room (readable_size c.send_buffer))) app c >>= writes rooms app)
    else some c

abbrev pub AllPositive : List ℕ → Type 0
AllPositive [] = Unit
AllPositive (room ∷ rooms) = (0 < room) × AllPositive rooms

pub writes_idle :
    (rooms : List ℕ) (app : Services) (c : TcpConnection)
    → is_writing c.handler ≡ false
    → writes rooms app c ≡ some c
unfolding writes
writes_idle [] app c idle = refl
writes_idle (room ∷ rooms) app c idle = rw idle

-- What is left of a connection when all that waited has gone.
pub record IsDrained (c c' : TcpConnection) : Type 0 where
  pub sound : IsSound c'
  pub taken : c'.wire ≡ c.wire ++ contents c.send_buffer
  pub empty : contents c'.send_buffer ≡ []
  pub idle : is_writing c'.handler ≡ false
  pub same_status : c'.status ≡ c.status
  pub shut_lem : c'.shut ≡ (is_disconnecting c.status || c.shut)

IsWritten-last :
    {c : TcpConnection} {n : ℕ} {c' : TcpConnection}
    → IsWritten c n c'
    → ltb n (length (contents c.send_buffer)) ≡ false
    → IsDrained c c'
IsWritten-last {c} {n} d done =
    let full : length (contents c.send_buffer) ≤ n = ground arith in
    record {
      sound = d.sound;
      taken = d.taken ∙ ap (λ (m : Bytes). c.wire ++ m) (take-all n (contents c.send_buffer) full);
      empty = d.kept ∙ drop-all n (contents c.send_buffer) full;
      idle = d.writing ∙ done;
      same_status = d.same_status;
      shut_lem = d.shut_lem ∙ rw done refl;
    }

IsWritten-then :
    {c : TcpConnection} {n : ℕ} {c1 c' : TcpConnection}
    → IsWritten c n c1
    → ltb n (length (contents c.send_buffer)) ≡ true
    → IsDrained c1 c'
    → IsDrained c c'
IsWritten-then {c} {n} d more d' = record {
  sound = d'.sound;
  taken =
      d'.taken
      ∙ ap₂ (λ (a b : Bytes). a ++ b) d.taken d.kept
      ∙ append_assoc c.wire (take n (contents c.send_buffer)) (drop n (contents c.send_buffer))
      ∙ ap (λ (m : Bytes). c.wire ++ m) (take-append-drop n (contents c.send_buffer));
  empty = d'.empty;
  idle = d'.idle;
  same_status = d'.same_status ∙ d.same_status;
  shut_lem =
      d'.shut_lem
      ∙ ap₂ (λ (a : ConnectStatus) (b : Bool). is_disconnecting a || b) d.same_status
          (d.shut_lem ∙ rw more refl);
}

-- The send buffer drains: when bytes wait in a sound connection that asks for the event, and the loop
-- reports at least as often as there are bytes that the socket has room for some, then no call fails,
-- all bytes are on the wire in their order, the handler does not ask for the event any more, and the
-- connection is shut behind them if it was disconnecting; its status stays as it was.
pub drain :
    (rooms : List ℕ) (app : Services) (c : TcpConnection)
    → IsSound c
    → is_writing c.handler ≡ true
    → 0 < length (contents c.send_buffer)
    → AllPositive rooms
    → length (contents c.send_buffer) ≤ length rooms
    → (c' : TcpConnection) × (writes rooms app c ≡ some c') × IsDrained c c'
unfolding writes
drain [] app c s w some_wait all enough = absurd (omega arith)
drain (room ∷ rooms) app c s w some_wait (pos, all) enough =
    let len = length (contents c.send_buffer) in
    let n = min room len in
    let (c1, e, d) = handle_write_lem app c n s w (omega arith) (omega arith) in
    elim (Bool-cases (ltb n len)) [
      | inl more ↦
          let size = ap (length {A = ℕ}) d.kept in
          let lt = ltb→lt n len more in
          let dl = length-drop n (contents c.send_buffer) in
          let (c', e', d') =
            drain rooms app c1 d.sound (d.writing ∙ more) (omega (arith, size, dl, lt)) all
              (omega (arith, size, dl, lt)) in
          (c', rw (w, readable-length c s) (rw e e'), IsWritten-then d more d')
      | inr done ↦ (
        c1,
        rw (w, readable-length c s) (rw e (writes_idle rooms app c1 (d.writing ∙ done))),
        IsWritten-last d done,
      )
    ]
