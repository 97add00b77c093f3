-- ===== src/TcpConnection.antt =====
-- Net/include/TcpConnection.h and Net/src/TcpConnection.cpp, as the loop thread runs them. What a
-- system call answers is an argument: `send` a number of bytes or an error, `readv` the bytes that it
-- read or an error, which the code finds in `errno`. The bytes that the socket took are recorded in
-- `wire`, a call of `shutdown(SHUT_WR)` in `shut`, the closures given to the loop in `pending`. The
-- callbacks of the application are functions on the connection. `none` is a failed assertion, an
-- exception, or the call of an empty callback.
pub mod Send
pub mod Drain
pub mod Close
pub mod Read
mod Tests
use yy.Event.{LogicEvent, edge_event, has_event}
use yy.EventHandler
use yy.EventHandler.{EventHandler, Callbacks, is_writing, handler_revent}
use yy.Prelude.{
  ℕ, zero, suc, ◌+◌, ◌-◌, ◌<◌, Bool, true, false, not, ◌&&◌, ◌||◌, Option, none, some, List, [],
  ◌∷◌, ◌++◌, ltb, ◌==◌, if◌then◌else◌, ◌>>=◌, ◌>>◌, assert, length, take, drop, Bytes, copy_to,
}
use yy.TcpBuffer
use yy.TcpBuffer.Fd.{append_from_fd, offered}
use yy.TcpBuffer.{TcpBuffer, readable_size, writable_size, contents}

pub data ConnectStatus : Type 0 where
  connecting connected disconnecting disconnected : ConnectStatus

-- The values of `errno` that the code tells apart; on Linux EWOULDBLOCK is EAGAIN.
pub data Errno : Type 0 where
  eagain eintr epipe econnreset eshutdown : Errno
  other : ℕ → Errno

-- What a system call returns: not negative, or -1 with `errno`.
pub data Result (A : Type 0) : Type 0 where
  ok : A → Result A
  fail : Errno → Result A

-- The closures that are given to the loop.
pub data Task : Type 0 where
  to_destruct to_read to_disconnect to_write : Task
  to_send : Bytes → Task

pub record TcpConnection : Type 0 where
  pub status : ConnectStatus
  pub handler : EventHandler
  pub is_et : Bool
  pub recv_buffer : TcpBuffer
  pub send_buffer : TcpBuffer
  pub errno : Errno
  pub wire : Bytes
  pub shut : Bool
  pub pending : List Task

-- The callbacks of the application, where that of messages is called without a test, and the one by
-- which the owner of the connection lets it go.
pub record Services : Type 0 where
  pub destruct : Option (TcpConnection → Option TcpConnection)
  pub message : TcpConnection → Option TcpConnection
  pub close : Option (TcpConnection → Option TcpConnection)
  pub except : Option (TcpConnection → Option TcpConnection)
  pub error : Option (TcpConnection → Option TcpConnection)

abbrev pub is_connected : ConnectStatus → Bool
is_connected connecting = false
is_connected connected = true
is_connected disconnecting = false
is_connected disconnected = false

abbrev pub is_disconnecting : ConnectStatus → Bool
is_disconnecting connecting = false
is_disconnecting connected = false
is_disconnecting disconnecting = true
is_disconnecting disconnected = false

abbrev pub is_connecting : ConnectStatus → Bool
is_connecting connecting = true
is_connecting connected = false
is_connecting disconnecting = false
is_connecting disconnected = false

-- A call on the handler of the connection.
abbrev pub with_handler :
    TcpConnection → (EventHandler → Option EventHandler) → Option TcpConnection
with_handler c f = f c.handler >>= λ h. some (record c { handler = h })

abbrev pub enqueue : TcpConnection → Task → TcpConnection
enqueue c t = record c { pending = c.pending ++ (t ∷ []) }

-- `TcpConnection(int, ...)`
pub accept : TcpBuffer → LogicEvent → Option TcpConnection
unfolding has_event EventHandler.init
accept empty events = do
  h ← EventHandler.init (EventHandler.new_handler events)
  some (record {
    status = connected;
    handler = h;
    is_et = has_event events edge_event;
    recv_buffer = empty;
    send_buffer = empty;
    errno = other 0;
    wire = [];
    shut = false;
    pending = [];
  })

-- `if(!handler_.isWriting()) handler_.setWriting();`
unfoldable pub want_writing : TcpConnection → Option TcpConnection
want_writing c =
    if not (is_writing c.handler) then with_handler c EventHandler.set_writing else some c

-- `SendBuffer_.append(bytes)`
unfoldable pub keep : TcpConnection → Bytes → Option TcpConnection
keep c bytes = TcpBuffer.append c.send_buffer bytes >>= λ b. some (record c { send_buffer = b })

unfoldable pub handle_error : Services → TcpConnection → Option TcpConnection
handle_error app c = elim c.errno [
  | eagain ↦ some c
  | epipe ↦ some c
  | econnreset ↦ some c
  | eshutdown ↦ some c
  | eintr ↦ EventHandler.call app.error c
  | other n ↦ EventHandler.call app.error c
]

-- The first argument is what `sockets::send` answers for the message.
unfoldable pub send_in_loop : Result ℕ → Services → TcpConnection → Bytes → Option TcpConnection
unfolding keep want_writing handle_error
send_in_loop answer app c message = elim answer [
  | ok n ↦
      let c' : TcpConnection = record c { wire = c.wire ++ take n message } in
      if ltb n (length message) then (keep c' (drop n message) >>= want_writing) else some c'
  | fail eagain ↦ keep (record c { errno = eagain }) message >>= want_writing
  | fail e ↦ handle_error app (record c { errno = e })
]

-- `send(const char*, size_t)`, by whether the caller is in the loop thread.
unfoldable pub send : Bool → Result ℕ → Services → TcpConnection → Bytes → Option TcpConnection
unfolding send_in_loop
send in_loop answer app c message =
    if in_loop then send_in_loop answer app c message else some (enqueue c (to_send message))

-- `send(std::string&&)`
unfoldable pub send_string :
    Bool → Result ℕ → Services → TcpConnection → Bytes → Option TcpConnection
unfolding send
send_string in_loop answer app c message =
    if not (is_connected c.status) then some c else send in_loop answer app c message

unfoldable pub send_output : Bool → TcpConnection → Option TcpConnection
unfolding want_writing
send_output in_loop c = if in_loop then want_writing c else some (enqueue c to_write)

unfoldable pub disconnect_in_loop : TcpConnection → Option TcpConnection
unfolding want_writing
disconnect_in_loop c =
    if is_connected c.status
    then (let c' : TcpConnection = record c { status = disconnecting } in
        if readable_size c.send_buffer == 0
        then some (record c' { shut = true })
        else want_writing c')
    else some c

unfoldable pub disconnect : Bool → TcpConnection → Option TcpConnection
unfolding disconnect_in_loop want_writing
disconnect in_loop c =
    if readable_size c.send_buffer == 0
    then (if in_loop then disconnect_in_loop c else some (enqueue c to_disconnect))
    else (if in_loop then want_writing c else some (enqueue c to_write))

-- `if(n==len) { ... }`: all that was buffered is sent.
unfoldable pub all_sent : TcpConnection → Option TcpConnection
all_sent c =
    let c' : TcpConnection = if is_disconnecting c.status then record c { shut = true } else c in
    if is_writing c.handler then with_handler c' EventHandler.cancel_writing else some c'

unfoldable pub handle_write : Result ℕ → Services → TcpConnection → Option TcpConnection
unfolding all_sent handle_error
handle_write answer app c = elim answer [
  | ok zero ↦ handle_error app c
  | ok (suc k) ↦ (do
    let n = suc k
    let sent = record c { wire = c.wire ++ take n (contents c.send_buffer) }
    c1 ← if n == readable_size c.send_buffer then all_sent sent else some sent
    b ← TcpBuffer.consume c1.send_buffer n
    some (record c1 { send_buffer = b }))
  | fail e ↦ handle_error app (record c { errno = e })
]

abbrev pub is_set : {A : Type 0} → Option A → Bool
is_set none = false
is_set (some a) = true

unfoldable pub handle_close : Services → TcpConnection → Option TcpConnection
handle_close app c = do
  assert (is_connected c.status || is_disconnecting c.status)
  c1 ← with_handler c EventHandler.remove_listen
  c2 ← EventHandler.call app.close (record c1 { status = disconnected })
  assert (is_set app.destruct)
  some (enqueue c2 to_destruct)

-- `RecvBuffer_.appendFormFd(fd)` with what it returns, where `none` is a negative number.
unfoldable pub read_fd : Result Bytes → TcpConnection → Option (TcpConnection × Option ℕ)
read_fd (ok input) c = append_from_fd (λ _. some input) c.recv_buffer >>= λ r.
    some (record c { recv_buffer = r.0 }, r.1)
read_fd (fail e) c = append_from_fd (λ _. none) c.recv_buffer >>= λ r.
    some (record c { recv_buffer = r.0; errno = e }, r.1)

abbrev pub max_read_num : ℕ
max_read_num = 100

-- The loop of `handleETRead` with the answers of the calls of `readv` and the rounds that are left.
-- When the answers are used up, the socket has no more and says EAGAIN.
unfoldable pub et_loop : List (Result Bytes) → ℕ → Services → TcpConnection → Option TcpConnection
unfolding read_fd handle_close handle_error
et_loop [] zero app c = some (enqueue c to_read)
et_loop [] (suc left) app c = some (record c { errno = eagain })
et_loop (a ∷ answers) zero app c = some (enqueue c to_read)
et_loop (a ∷ answers) (suc left) app c = read_fd a c >>= λ r. elim r.1 [
  | some zero ↦ handle_close app r.0
  | some (suc n) ↦ app.message r.0 >>= et_loop answers left app
  | none ↦ elim r.0.errno [
    | eagain ↦ some r.0
    | eintr ↦ et_loop answers (suc left) app r.0
    | _ ↦ handle_error app r.0
  ]
]

unfoldable pub handle_et_read :
    List (Result Bytes) → Services → TcpConnection → Option TcpConnection
unfolding et_loop
handle_et_read answers app c = et_loop answers max_read_num app c

unfoldable pub handle_read : Result Bytes → Services → TcpConnection → Option TcpConnection
unfolding read_fd handle_close handle_error
handle_read answer app c = read_fd answer c >>= λ r. elim r.1 [
  | some zero ↦ handle_close app r.0
  | some (suc n) ↦ app.message r.0
  | none ↦ elim r.0.errno [
    | eagain ↦ handle_error app r.0
    | eintr ↦ handle_error app r.0
    | _ ↦ some r.0
  ]
]

-- The loop over `recv(..., MSG_OOB)`, which writes behind the readable bytes and counts nothing.
unfoldable pub handle_exception :
    List (Result Bytes) → Services → TcpConnection → Option TcpConnection
unfolding handle_close handle_error
handle_exception [] app c = handle_error app (record c { errno = eagain })
handle_exception (ok [] ∷ answers) app c = handle_close app c
handle_exception (ok (x ∷ xs) ∷ answers) app c =
    let b = c.recv_buffer in
    EventHandler.call app.except
      (record c { recv_buffer = record b { buffer = copy_to b.buffer b.write_index (x ∷ xs) } })
    >>= handle_exception answers app
handle_exception (fail e ∷ answers) app c =
    let c' : TcpConnection = record c { errno = e } in
    elim e [ eintr ↦ handle_exception answers app c' | _ ↦ handle_error app c' ]

-- What the system calls answer while an event is handled.
pub record Answers : Type 0 where
  pub reads : List (Result Bytes)
  pub urgent : List (Result Bytes)
  pub write : Result ℕ

-- `readv` on a socket with no more bytes
abbrev pub first_answer : List (Result Bytes) → Result Bytes
first_answer [] = fail eagain
first_answer (a ∷ rest) = a

-- The callbacks that the constructor gives to the handler, and `setEvent` changes.
unfoldable pub callbacks : Answers → Services → Bool → Callbacks TcpConnection
unfolding handle_close handle_error handle_exception handle_et_read handle_read handle_write
callbacks answers app is_et = record {
  close = some (handle_close app);
  error = some (handle_error app);
  except = some (handle_exception answers.urgent app);
  read = some (
      if is_et
      then handle_et_read answers.reads app
      else handle_read (first_answer answers.reads) app);
  write = some (handle_write answers.write app);
}

unfoldable pub handle_event : LogicEvent → Answers → Services → TcpConnection → Option TcpConnection
unfolding handler_revent callbacks
handle_event revents answers app c = handler_revent revents (callbacks answers app c.is_et) c

-- A closure that the loop runs.
unfoldable pub run_task : Answers → Services → Task → TcpConnection → Option TcpConnection
unfolding handle_et_read disconnect_in_loop want_writing send_in_loop
run_task answers app to_destruct c = EventHandler.call app.destruct c
run_task answers app to_read c = handle_et_read answers.reads app c
run_task answers app to_disconnect c = disconnect_in_loop c
run_task answers app to_write c = want_writing c
run_task answers app (to_send message) c = send_in_loop answers.write app c message

unfoldable pub set_event : TcpConnection → LogicEvent → Option TcpConnection
unfolding has_event
set_event c e = do
  c' ← with_handler c (λ h. EventHandler.set_event h e)
  some (record c' { is_et = has_event e edge_event })

-- `TcpBuffer::reset`
unfoldable pub reset_buffer : TcpBuffer → TcpBuffer
reset_buffer b = record b { read_index = 8; write_index = 8 }

-- A connection that goes back to a pool, and the start of its next use.
unfoldable pub reset : TcpConnection → TcpConnection
unfolding reset_buffer
reset c = record c {
  recv_buffer = reset_buffer c.recv_buffer;
  send_buffer = reset_buffer c.send_buffer;
  status = connecting;
}

unfoldable pub init : TcpConnection → Option TcpConnection
init c = do
  assert (is_connecting c.status)
  with_handler (record c { status = connected; wire = []; shut = false }) EventHandler.init
