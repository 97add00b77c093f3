-- ===== src/TcpConnection/Send.antt =====
-- sendInLoop: what goes to the socket, what is kept, and in which order.
use yy.EventHandler.Laws.{IsListening, set_writing_lem}
use yy.EventHandler.{EventHandler, is_writing}
use yy.Prelude.{
  ℕ, ◌+◌, ◌≤◌, ◌<◌, ◌≡◌, refl, sym, ap, ap₂, ◌∙◌, inl, inr, Bool, true, false, some, [], ◌++◌,
  append-nil, append_assoc, arith, ltb, ltb→lt, lt→ltb, Bool-cases, ◌>>=◌, length, take, drop,
  length-drop, take-all, drop-all, take-append-drop, Bytes,
}
use yy.TcpBuffer.Contents.{append_lem}
use yy.TcpBuffer.Inv.{IsValid}
use yy.TcpBuffer.{TcpBuffer, max_size, contents}
use yy.TcpConnection.{
  TcpConnection, Services, Result, ok, fail, eagain, want_writing, keep, send_in_loop,
}

-- All that the connection has been given to send and has not lost, in the order in which it leaves.
abbrev pub stream : TcpConnection → Bytes
stream c = c.wire ++ contents c.send_buffer

-- The handler is registered, the buffer is sound, and bytes that wait are waited for.
pub record IsSound (c : TcpConnection) : Type 0 where
  pub valid : IsValid c.send_buffer
  pub listening : IsListening c.handler
  pub waits : 0 < length (contents c.send_buffer) → is_writing c.handler ≡ true

-- The connection with another send buffer and another handler.
abbrev pub rest_of : TcpConnection → TcpBuffer → EventHandler → TcpConnection
rest_of c b h = record c { send_buffer = b; handler = h }

pub want_writing_lem :
    (c : TcpConnection)
    → IsListening c.handler
    → (h : EventHandler) × (want_writing c ≡ some (record c { handler = h }))
      × IsListening h
      × (is_writing h ≡ true)
unfolding want_writing
want_writing_lem c l = elim (Bool-cases (is_writing c.handler)) [
  | inl yes_writing ↦ (c.handler, rw yes_writing, l, yes_writing)
  | inr idle ↦ let (h, e, l', w) = set_writing_lem c.handler l in (h, rw (idle, e), l', w)
]

module _ (c : TcpConnection) (bytes : Bytes) (v : IsValid c.send_buffer) (l : IsListening c.handler)
    (fits : c.send_buffer.prepend_size + length (contents c.send_buffer) + length bytes
      ≤ max_size) where
  pub keep_lem :
      (b : TcpBuffer) × (h : EventHandler) × ((keep c bytes >>= want_writing)
        ≡ some (rest_of c b h))
      × IsValid b
      × (contents b ≡ contents c.send_buffer ++ bytes)
      × IsListening h
      × (is_writing h ≡ true)
  unfolding keep
  keep_lem =
      let (b, e, v', eq, p) = append_lem c.send_buffer bytes v fits in
      let (h, e', l', w) = want_writing_lem (record c { send_buffer = b }) l in
      (b, h, rw e e', v', eq, l', w)

-- What has become of a message that was given to the socket when `sent` of its bytes were taken.
pub record IsQueued (c : TcpConnection) (sent : ℕ) (message : Bytes) (c' : TcpConnection)
    : Type 0 where
  pub sound : IsSound c'
  pub taken : c'.wire ≡ c.wire ++ take sent message
  pub kept : contents c'.send_buffer ≡ contents c.send_buffer ++ drop sent message
  pub same_status : c'.status ≡ c.status
  pub same_shut : c'.shut ≡ c.shut

-- The error EAGAIN as the answer that nothing was taken.
abbrev pub answer_of : Bool → ℕ → Result ℕ
answer_of true n = ok n
answer_of false n = fail eagain

abbrev pub taken_of : Bool → ℕ → ℕ
taken_of true n = n
taken_of false n = 0

module _ (app : Services) (c : TcpConnection) (message : Bytes) (s : IsSound c)
    (fits : c.send_buffer.prepend_size + length (contents c.send_buffer) + length message
      ≤ max_size) where
  all_taken :
      (n : ℕ)
      → n ≡ length message
      → (c' : TcpConnection) × (send_in_loop (ok n) app c message ≡ some c')
        × IsQueued c n message c'
  unfolding send_in_loop
  all_taken n e = (
    record c { wire = c.wire ++ take n message },
    rw (let f : ltb n (length message) ≡ false = ground arith in f),
    record {
      sound = record { valid = s.valid; listening = s.listening; waits = s.waits };
      taken = refl;
      kept = sym (
          ap (λ (q : Bytes). contents c.send_buffer ++ q) (drop-all n message (omega arith))
          ∙ append-nil (contents c.send_buffer));
      same_status = refl;
      same_shut = refl;
    },
  )

  part_taken :
      (n : ℕ)
      → n < length message
      → (c' : TcpConnection) × (send_in_loop (ok n) app c message ≡ some c')
        × IsQueued c n message c'
  unfolding send_in_loop
  part_taken n lt =
      let c1 : TcpConnection = record c { wire = c.wire ++ take n message } in
      let (b, h, e, v, eq, l, w) =
        keep_lem c1 (drop n message) s.valid s.listening (omega (arith, length-drop n message)) in
      (
        rest_of c1 b h,
        rw (lt→ltb n (length message) lt) e,
        record {
          sound = record { valid = v; listening = l; waits = λ _. w };
          taken = refl;
          kept = eq;
          same_status = refl;
          same_shut = refl;
        },
      )

  none_taken :
      (c' : TcpConnection) × (send_in_loop (fail eagain) app c message ≡ some c')
      × IsQueued c 0 message c'
  unfolding send_in_loop
  none_taken =
      let c1 : TcpConnection = record c { errno = eagain } in
      let (b, h, e, v, eq, l, w) = keep_lem c1 message s.valid s.listening fits in
      (
        rest_of c1 b h,
        e,
        record {
          sound = record { valid = v; listening = l; waits = λ _. w };
          taken = sym (append-nil c.wire);
          kept = eq;
          same_status = refl;
          same_shut = refl;
        },
      )

-- `sendInLoop` on a sound connection, with room for the message, when the socket takes at most the
-- whole message or says EAGAIN: what was taken is on the wire, the rest stands behind what waited
-- already, and the connection is sound: when bytes wait, the loop is asked to say when it can write.
pub send_in_loop_lem :
    (app : Services) (c : TcpConnection) (message : Bytes) (answered : Bool) (n : ℕ)
    → IsSound c
    → c.send_buffer.prepend_size + length (contents c.send_buffer) + length message ≤ max_size
    → n ≤ length message
    → (c' : TcpConnection) × (send_in_loop (answer_of answered n) app c message ≡ some c')
      × IsQueued c (taken_of answered n) message c'
send_in_loop_lem app c message false n s fits h = none_taken app c message s fits
send_in_loop_lem app c message true n s fits h = elim (Bool-cases (ltb n (length message))) [
  | inl t ↦ part_taken app c message s fits n (ltb→lt n (length message) t)
  | inr f ↦ all_taken app c message s fits n (ground arith)
]

-- If nothing waits, the message fits the send buffer, and the socket takes at most the whole message
-- or says EAGAIN, then `sendInLoop` on a sound connection keeps the order: the bytes on the wire and those that wait behind
-- them are as before and then the message.
pub send_in_order :
    (app : Services) (c : TcpConnection) (message : Bytes) (answered : Bool) (n : ℕ)
    → IsSound c
    → c.send_buffer.prepend_size + length message ≤ max_size
    → n ≤ length message
    → contents c.send_buffer ≡ []
    → (c' : TcpConnection) × (send_in_loop (answer_of answered n) app c message ≡ some c')
      × IsSound c'
      × (stream c' ≡ stream c ++ message)
send_in_order app c message answered n s fits h idle =
    let (c', e, q) =
      send_in_loop_lem app c message answered n s (omega (arith, ap (length {A = ℕ}) idle)) h in
    let k = taken_of answered n in
    let kept : contents c'.send_buffer ≡ drop k message = q.kept ∙ rw idle refl in
    let all : stream c' ≡ (c.wire ++ take k message) ++ drop k message =
      ap₂ (λ (a b : Bytes). a ++ b) q.taken kept in
    let parts = ap (λ (m : Bytes). c.wire ++ m) (take-append-drop k message) in
    let idle_stream : stream c ≡ c.wire =
      ap (λ (m : Bytes). c.wire ++ m) idle ∙ append-nil c.wire in
    (
      c',
      e,
      q.sound,
      all
          ∙ append_assoc c.wire (take k message) (drop k message)
          ∙ parts
          ∙ sym (ap (λ (m : Bytes). m ++ message) idle_stream),
    )

-- When the socket takes the whole message, the message overtakes the bytes that wait: it is on the
-- wire, and they all wait still.
pub send_overtakes :
    (app : Services) (c : TcpConnection) (message : Bytes)
    → IsSound c
    → c.send_buffer.prepend_size + length (contents c.send_buffer) + length message ≤ max_size
    → (c' : TcpConnection) × (send_in_loop (ok (length message)) app c message ≡ some c')
      × (c'.wire ≡ c.wire ++ message)
      × (contents c'.send_buffer ≡ contents c.send_buffer)
send_overtakes app c message s fits =
    let (c', e, q) = all_taken app c message s fits (length message) refl in
    (
      c',
      e,
      q.taken ∙ ap (λ (m : Bytes). c.wire ++ m) (take-all (length message) message (omega arith)),
      q.kept
          ∙ ap (λ (m : Bytes). contents c.send_buffer ++ m)
              (drop-all (length message) message (omega arith))
          ∙ append-nil (contents c.send_buffer),
    )
