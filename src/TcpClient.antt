-- ===== src/TcpClient.antt =====
-- Net/src/TcpClient.cpp and Net/include/TcpClient.h: the client and its Connector, in the loop thread.
-- What the calls of `connect` answer, one behind the other, is a list; `none` is a failed assertion, or
-- that a call goes on behind the end of that list. The delays of the timers that were started are
-- recorded in `timers`, the sockets that were made in `opened` and those that were closed in `closed`.
pub mod Laws
pub mod Backoff
mod Tests
use yy.Event.{no_event}
use yy.EventHandler
use yy.EventHandler.{EventHandler}
use yy.Prelude.{
  ℕ, ◌+◌, ◌*◌, Bool, true, false, not, Option, none, some, List, [], ◌∷◌, ◌++◌, ltb, ◌==◌,
  if◌then◌else◌, ◌>>=◌, ◌>>◌, assert,
}

pub data State : Type 0 where
  disconnected connecting connected : State

-- What `connect` leaves in `savedErrno`.
pub data Answer : Type 0 where
  success einprogress eintr eisconn eagain eaddrinuse eaddrnotavail econnrefused enetunreach :
      Answer
  other : ℕ → Answer

-- `connector_` is its state, delay and handler; `connection` says whether there is a `connection_`,
-- `has_callback` whether `SconnectionCallback_` is set.
pub record TcpClient : Type 0 where
  pub state : State
  pub handler : Option EventHandler
  pub has_fd : Bool
  pub retry_delay : ℕ
  pub retry : Bool
  pub connection : Bool
  pub has_callback : Bool
  pub timers : List ℕ
  pub opened : ℕ
  pub closed : ℕ

-- in microseconds
abbrev pub init_retry_delay : ℕ
init_retry_delay = 500000

abbrev pub max_retry_delay : ℕ
max_retry_delay = 30000000

pub new_client : TcpClient
new_client = record {
  state = disconnected;
  handler = none;
  has_fd = false;
  retry_delay = init_retry_delay;
  retry = false;
  connection = false;
  has_callback = false;
  timers = [];
  opened = 0;
  closed = 0;
}

abbrev pub is_disconnected : State → Bool
is_disconnected disconnected = true
is_disconnected connecting = false
is_disconnected connected = false

abbrev pub is_connecting : State → Bool
is_connecting disconnected = false
is_connecting connecting = true
is_connecting connected = false

-- `Connector::connecting`: a new handler, which asks to be told when the socket can be written.
unfoldable pub start_connecting : TcpClient → Option TcpClient
start_connecting c = do
  h ← EventHandler.init (EventHandler.new_handler no_event)
  h' ← EventHandler.set_writing h
  some (record c { state = connecting; handler = some h' })

-- `sockets::close(fd_); fd_=-1;`
abbrev pub close_fd : TcpClient → TcpClient
close_fd c = record c { has_fd = false; closed = c.closed + 1 }

-- What is called when `removeConnection` starts anew: `restart` up to the call of `startInLoop`.
abbrev pub restarted : TcpClient → TcpClient
restarted c = record c { state = disconnected; retry_delay = init_retry_delay; connection = false }

-- `Connector::retry` up to its last call; with `retry_` off this is `removeConnection`, which then only
-- drops the connection.
unfoldable pub retry_connect : TcpClient → TcpClient
retry_connect c =
    let c1 : TcpClient = if c.has_fd then close_fd c else c in
    if c.retry
    then record c1 {
      state = disconnected;
      timers = c.timers ++ (c.retry_delay ∷ []);
      retry_delay =
          if ltb (2 * c.retry_delay) max_retry_delay then 2 * c.retry_delay else max_retry_delay;
    }
    else record c1 { state = disconnected; connection = false }

abbrev pub created : TcpClient → TcpClient
created c = record c { has_fd = true; opened = c.opened + 1 }

-- The `switch` of `connectInLoop`; the last argument is what follows if an unknown error starts anew.
unfoldable pub after_connect : Answer → TcpClient → Option TcpClient → Option TcpClient
unfolding start_connecting retry_connect
after_connect success c again = start_connecting c
after_connect einprogress c again = start_connecting c
after_connect eintr c again = start_connecting c
after_connect eisconn c again = start_connecting c
after_connect (other n) c again =
    if c.retry then again else some (record (close_fd c) { connection = false })
after_connect a c again = some (retry_connect c)

-- `startInLoop` and `connectInLoop`, and on an unknown error `removeConnection` and `restart`.
unfoldable pub start_in_loop : List Answer → TcpClient → Option TcpClient
unfolding after_connect
start_in_loop [] c = if is_disconnected c.state then none else some c
start_in_loop (a ∷ answers) c =
    let again = start_in_loop answers (restarted (close_fd (created c))) in
    if is_disconnected c.state then after_connect a (created c) again else some c

unfoldable pub remove_listen : TcpClient → Option TcpClient
remove_listen c = do
  h ← c.handler
  h' ← EventHandler.remove_listen h
  some (record c { handler = some h' })

-- `TcpClient::newConnection`
unfoldable pub new_connection : TcpClient → Option TcpClient
new_connection c = do assert c.has_callback; some (record c { connection = true })

-- `Connector::handleWrite`, with what `sockfd_has_error` and `isSelfConnect` answer. At the end the
-- client makes its connection (`newConnection`), if its callback for that is set: else an assertion fails.
unfoldable pub handle_write : ℕ → Bool → TcpClient → Option TcpClient
unfolding remove_listen retry_connect new_connection
handle_write err self_connect c =
    if is_connecting c.state
    then (if not (err == 0)
        then (remove_listen c >>= λ c'. some (retry_connect c'))
        else (if self_connect
            then (remove_listen c >>= λ c'. some (retry_connect c'))
            else (remove_listen (record c { state = connected }) >>= new_connection)))
    else some c

unfoldable pub handle_error : TcpClient → Option TcpClient
unfolding remove_listen retry_connect
handle_error c =
    if is_connecting c.state then (remove_listen c >>= λ c'. some (retry_connect c')) else some c

unfoldable pub stop_in_loop : TcpClient → Option TcpClient
unfolding remove_listen
stop_in_loop c =
    if is_connecting c.state then remove_listen (record c { state = disconnected }) else some c

-- `TcpClient::removeConnection`, when a connection is gone.
unfoldable pub remove_connection : List Answer → TcpClient → Option TcpClient
unfolding start_in_loop
remove_connection answers c =
    if c.retry then start_in_loop answers (restarted c) else some (record c { connection = false })

-- `TcpClient::stop`, but for the call of `disconnect` on its connection
unfoldable pub stop : TcpClient → Option TcpClient
unfolding stop_in_loop
stop c = stop_in_loop (record c { retry = false })
