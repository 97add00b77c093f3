-- ===== src/TcpConPool/Tests.antt =====
-- A connection that was closed while it waited to write three bytes.
use yy.EventHandler.{deleted}
use yy.Prelude.{ℕ, ◌≡◌, refl, false, some, none, [], ◌∷◌, arith}
use yy.TcpBuffer.{TcpBuffer, contents}
use yy.TcpBuffer.Inv.{IsValid}
use yy.TcpConnection.{TcpConnection, connected, disconnected, other}
use yy.TcpConPool.Reuse.{release-acquire, holding_none}
use yy.TcpConPool.{acquire, release}

abbrev buffer_of : ℕ → TcpBuffer
buffer_of n = record {
  buffer = 0 ∷ 0 ∷ 0 ∷ 0 ∷ 0 ∷ 0 ∷ 0 ∷ 0 ∷ b'a' ∷ b'b' ∷ b'c' ∷ [];
  prepend_size = 8;
  read_index = 8;
  write_index = n;
}

abbrev closed_busy : TcpConnection
closed_busy = record {
  status = disconnected;
  handler = record { status = deleted; events = 5; watched = none };
  is_et = false;
  recv_buffer = buffer_of 8;
  send_buffer = buffer_of 11;
  errno = other 0;
  wire = [];
  shut = false;
  pending = [];
}

release-acquire_example :
    (c' : TcpConnection) × (acquire (buffer_of 8) (release closed_busy (holding_none 1))
      ≡ some (c', holding_none 1))
    × (c'.status ≡ connected)
    × (c'.handler.events ≡ 5)
    × (c'.handler.watched ≡ some 5)
    × IsValid c'.recv_buffer
    × IsValid c'.send_buffer
    × (contents c'.recv_buffer ≡ [])
    × (contents c'.send_buffer ≡ [])
release-acquire_example =
    release-acquire (buffer_of 8) closed_busy 1 refl refl (omega arith) (omega arith) refl refl
