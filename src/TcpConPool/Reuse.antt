-- ===== src/TcpConPool/Reuse.antt =====
-- A connection that comes back from the pool.
use yy.Event.{LogicEvent}
use yy.EventHandler
use yy.EventHandler.{deleted, added}
use yy.Prelude.{◌≡◌, refl, some, none, [], arith, false}
use yy.TcpBuffer.{TcpBuffer, contents}
use yy.TcpBuffer.Inv.{IsValid}
use yy.TcpConnection
use yy.TcpConnection.{TcpConnection, connected, reset_buffer}
use yy.TcpConPool.{TcpConPool, acquire, release, take_first}

abbrev pub holding_none : LogicEvent → TcpConPool
holding_none event = record { event = event; free_list = [] }

-- A connection that was taken from the loop, with buffers that have the usual prepend space, goes into
-- an empty pool and is used again: it is connected, both buffers are valid and have no readable byte,
-- whatever was in them. But the poller watches for what the old connection asked for last, and not for
-- what the pool is configured with.
pub release-acquire :
    (empty : TcpBuffer) (c : TcpConnection) (event : LogicEvent)
    → c.handler.status ≡ deleted
    → c.handler.watched ≡ none
    → IsValid c.recv_buffer
    → IsValid c.send_buffer
    → c.recv_buffer.prepend_size ≡ 8
    → c.send_buffer.prepend_size ≡ 8
    → (c' : TcpConnection) × (acquire empty (release c (holding_none event))
        ≡ some (c', holding_none event))
      × (c'.status ≡ connected)
      × (c'.handler.events ≡ c.handler.events)
      × (c'.handler.watched ≡ some c.handler.events)
      × IsValid c'.recv_buffer
      × IsValid c'.send_buffer
      × (contents c'.recv_buffer ≡ [])
      × (contents c'.send_buffer ≡ [])
unfolding acquire release take_first TcpConnection.init TcpConnection.reset EventHandler.init
    EventHandler.add_listen reset_buffer
release-acquire empty c event gone unwatched v w pr ps = (
  record c {
    status = connected;
    handler = record (c.handler) { status = added; watched = some c.handler.events };
    recv_buffer = reset_buffer c.recv_buffer;
    send_buffer = reset_buffer c.send_buffer;
    wire = [];
    shut = false;
  },
  rw (gone, unwatched) refl,
  refl,
  refl,
  refl,
  record {
    prepend_le = omega arith;
    read_le = omega arith;
    write_le = omega arith;
    fits = omega arith;
  },
  record {
    prepend_le = omega arith;
    read_le = omega arith;
    write_le = omega arith;
    fits = omega arith;
  },
  refl,
  refl,
)
