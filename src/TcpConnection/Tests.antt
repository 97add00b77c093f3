-- ===== src/TcpConnection/Tests.antt =====
-- Small connections.
use yy.Event.{has_event}
use yy.EventHandler.{EventHandler, added, is_writing}
use yy.Prelude.{ℕ, ◌≡◌, refl, true, false, none, some, List, [], ◌∷◌, ◌++◌, arith, ◌>>=◌, Bytes}
use yy.TcpBuffer.{TcpBuffer, contents}
use yy.TcpConnection.Close.{disconnect_forgets, disconnect_in_loop_closes}
use yy.TcpConnection.Drain.{writes, drain, IsDrained}
use yy.TcpConnection.Read.{IsRead, gather, reaches, handle_et_read_lem}
use yy.TcpConnection.Send.{IsSound, stream, send_in_order}
use yy.TcpConnection.{
  TcpConnection, Services, Result, ok, fail, eintr, other, connected, disconnecting, send_in_loop,
  disconnect, disconnect_in_loop, handle_et_read, max_read_num,
}

-- two bytes of prepend space, and room for six
abbrev empty : TcpBuffer
empty = record {
  buffer = 0 ∷ 0 ∷ 0 ∷ 0 ∷ 0 ∷ 0 ∷ 0 ∷ 0 ∷ [];
  prepend_size = 2;
  read_index = 2;
  write_index = 2;
}

-- with "abc"
abbrev three : TcpBuffer
three = record {
  buffer = 0 ∷ 0 ∷ b'a' ∷ b'b' ∷ b'c' ∷ 0 ∷ 0 ∷ 0 ∷ [];
  prepend_size = 2;
  read_index = 2;
  write_index = 5;
}

abbrev handler_of : ℕ → EventHandler
handler_of events = record { status = added; events = events; watched = some events }

-- Nothing waits.
abbrev idle : TcpConnection
idle = record {
  status = connected;
  handler = handler_of 1;
  is_et = true;
  recv_buffer = empty;
  send_buffer = empty;
  errno = other 0;
  wire = [];
  shut = false;
  pending = [];
}

-- Three bytes wait.
abbrev busy : TcpConnection
busy = record idle { handler = handler_of 5; send_buffer = three }

-- An application that does nothing.
abbrev app : Services
app = record {
  destruct = some (λ c. some c);
  message = λ c. some c;
  close = none;
  except = none;
  error = none;
}

idle-IsSound : IsSound idle
idle-IsSound = record {
  valid = omega arith;
  listening = record { is_added = refl; watches = refl; valid = omega arith };
  waits = λ h. absurd (omega arith);
}

busy-IsSound : IsSound busy
unfolding has_event
busy-IsSound = record {
  valid = omega arith;
  listening = record { is_added = refl; watches = refl; valid = omega arith };
  waits = λ h. refl;
}

abbrev hello : Bytes
hello = b'h' ∷ b'i' ∷ []

abbrev rooms : List ℕ
rooms = 1 ∷ 9 ∷ 1 ∷ []

drain_example : (c' : TcpConnection) × (writes rooms app busy ≡ some c') × IsDrained busy c'
drain_example =
    drain rooms app busy busy-IsSound (busy-IsSound.waits (omega arith)) (omega arith) (omega arith)
      (omega arith)

send_in_order_example :
    (c' : TcpConnection) × (send_in_loop (ok 1) app idle hello ≡ some c')
    × IsSound c'
    × (stream c' ≡ stream idle ++ hello)
send_in_order_example =
    send_in_order app idle hello true 1 idle-IsSound (omega arith) (omega arith) refl

disconnect_forgets_example :
    (c' : TcpConnection) × ((disconnect true busy >>= writes rooms app) ≡ some c')
    × (contents c'.send_buffer ≡ [])
    × (is_writing c'.handler ≡ false)
    × (c'.status ≡ connected)
    × (c'.shut ≡ false)
disconnect_forgets_example =
    disconnect_forgets rooms app busy busy-IsSound (omega arith) refl (omega arith) (omega arith)

disconnect_in_loop_closes_example :
    (c' : TcpConnection) × ((disconnect_in_loop busy >>= writes rooms app) ≡ some c')
    × (c'.wire ≡ contents three)
    × (c'.status ≡ disconnecting)
    × (c'.shut ≡ true)
disconnect_in_loop_closes_example =
    disconnect_in_loop_closes rooms app busy busy-IsSound refl (λ e. cc e) (omega arith)
      (omega arith)

abbrev answers : List (Result Bytes)
answers = ok hello ∷ fail eintr ∷ ok (b'!' ∷ []) ∷ []

handle_et_read_lem_example :
    IsRead
      (handle_et_read answers app idle)
      idle
      (gather answers max_read_num)
      (reaches answers max_read_num)
unfolding gather
handle_et_read_lem_example =
    handle_et_read_lem app (λ d. refl) answers idle (omega arith) (omega arith) (omega arith)
