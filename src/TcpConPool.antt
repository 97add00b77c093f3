-- ===== src/TcpConPool.antt =====
-- Net/include/TcpConPool.h: connections that are made before they are needed and used again. What the
-- configuration gives to each, its callbacks and its data, is not part of a connection here.
pub mod Reuse
mod Tests
use yy.Event.{LogicEvent, edge_event, has_event}
use yy.EventHandler.{new_handler}
use yy.Prelude.{ℕ, zero, suc, false, Option, some, none, List, [], ◌∷◌, ◌++◌, ◌>>=◌}
use yy.TcpBuffer.{TcpBuffer}
use yy.TcpConnection
use yy.TcpConnection.{TcpConnection, connecting, other}

pub record TcpConPool : Type 0 where
  pub event : LogicEvent
  pub free_list : List TcpConnection

abbrev pub expend_num : ℕ
expend_num = 1000

-- `TcpConnection(Event)`; `empty` is a new buffer.
unfoldable pub new_connection : TcpBuffer → LogicEvent → TcpConnection
unfolding has_event new_handler
new_connection empty events = record {
  status = connecting;
  handler = new_handler events;
  is_et = has_event events edge_event;
  recv_buffer = empty;
  send_buffer = empty;
  errno = other 0;
  wire = [];
  shut = false;
  pending = [];
}

unfoldable pub expend : TcpBuffer → ℕ → TcpConPool → TcpConPool
unfolding new_connection
expend empty zero p = p
expend empty (suc n) p =
    expend empty n (record p { free_list = p.free_list ++ (new_connection empty p.event ∷ []) })

-- What follows the test for an empty list.
unfoldable pub take_first : TcpConPool → Option (TcpConnection × TcpConPool)
take_first p = elim p.free_list [
  | [] ↦ none
  | c ∷ rest ↦ (TcpConnection.init c >>= λ c'. some (c', record p { free_list = rest }))
]

unfoldable pub acquire : TcpBuffer → TcpConPool → Option (TcpConnection × TcpConPool)
unfolding take_first expend
acquire empty p = elim p.free_list [
  | [] ↦ take_first (expend empty expend_num p)
  | c ∷ rest ↦ take_first p
]

unfoldable pub release : TcpConnection → TcpConPool → TcpConPool
release c p = record p { free_list = p.free_list ++ (TcpConnection.reset c ∷ []) }
