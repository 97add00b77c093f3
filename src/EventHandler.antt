-- ===== src/EventHandler.antt =====
-- Net/include/EventHandler.h and Net/src/EventHandler.cpp, with the part of Net/Poller/Epoll.cpp and
-- Net/include/Poller.h that a handler's calls reach, in the loop thread. `watched` is what the table
-- of the poller and the kernel hold for the descriptor of the handler: its entry is there exactly if
-- it is not `none`, and `epoll_ctl` is taken to succeed. `none` is a failed assertion. A callback is a
-- function on the state of its owner, of any type.
pub mod Laws
mod Tests
use Prim.Native.Nat.{bit_or}
use yy.Event.{
  LogicEvent, no_event, read_event, except_event, write_event, error_event, hup_event, nval_event,
  rd_hup_event, has_event, validate, add, remove,
}
use yy.Prelude.{
  Bool, true, false, not, ◌&&◌, ◌||◌, Option, none, some, if◌then◌else◌, ◌>>=◌, ◌>>◌, assert,
}

-- `New`, `Added` and `Delete` of the poller
pub data Status : Type 0 where
  fresh added deleted : Status

pub record EventHandler : Type 0 where
  pub status : Status
  pub events : LogicEvent
  pub watched : Option LogicEvent

abbrev pub is_added : Status → Bool
is_added fresh = false
is_added added = true
is_added deleted = false

abbrev pub has_handler : Option LogicEvent → Bool
has_handler none = false
has_handler (some e) = true

-- `EventHandler(Event events)`
unfoldable pub new_handler : LogicEvent → EventHandler
new_handler events = record { status = fresh; events = events; watched = none }

-- Epoll
unfoldable pub add_listen : EventHandler → Option EventHandler
add_listen h = do
  assert (not (is_added h.status))
  assert (not (has_handler h.watched))
  some (record h { status = added; watched = some h.events })

unfoldable pub update_listen : EventHandler → Option EventHandler
update_listen h = do
  assert (is_added h.status)
  assert (has_handler h.watched)
  some (record h { watched = some h.events })

unfoldable pub remove_listen : EventHandler → Option EventHandler
remove_listen h = do
  assert (is_added h.status)
  assert (has_handler h.watched)
  some (record h { status = deleted; watched = none })

-- EventHandler
unfoldable pub init : EventHandler → Option EventHandler
unfolding add_listen
init h = add_listen h

unfoldable pub update : EventHandler → Option EventHandler
unfolding update_listen
update h = update_listen h

unfoldable pub set_event : EventHandler → LogicEvent → Option EventHandler
unfolding update
set_event h event = update (record h { events = event })

abbrev pub is_writing : EventHandler → Bool
is_writing h = has_event h.events write_event

abbrev pub is_reading : EventHandler → Bool
is_reading h = has_event h.events read_event

abbrev pub is_except : EventHandler → Bool
is_except h = has_event h.events except_event

abbrev pub is_reading_and_except : EventHandler → Bool
is_reading_and_except h = has_event h.events (bit_or read_event except_event)

-- `events_.add(flag);update();` and `events_.remove(flag);update();`
unfoldable pub set_flag : LogicEvent → EventHandler → Option EventHandler
unfolding update add
set_flag flag h = do e ← add h.events flag; update (record h { events = e })

unfoldable pub cancel_flag : LogicEvent → EventHandler → Option EventHandler
unfolding update remove
cancel_flag flag h = do e ← remove h.events flag; update (record h { events = e })

unfoldable pub set_reading : EventHandler → Option EventHandler
unfolding set_flag
set_reading h = set_flag read_event h

unfoldable pub cancel_reading : EventHandler → Option EventHandler
unfolding cancel_flag
cancel_reading h = cancel_flag read_event h

unfoldable pub set_writing : EventHandler → Option EventHandler
unfolding set_flag
set_writing h = set_flag write_event h

unfoldable pub cancel_writing : EventHandler → Option EventHandler
unfolding cancel_flag
cancel_writing h = cancel_flag write_event h

unfoldable pub set_except : EventHandler → Option EventHandler
unfolding set_flag
set_except h = set_flag except_event h

unfoldable pub cancel_except : EventHandler → Option EventHandler
unfolding cancel_flag
cancel_except h = cancel_flag except_event h

unfoldable pub set_reading_and_except : EventHandler → Option EventHandler
unfolding set_except set_reading
set_reading_and_except h = set_except h >>= set_reading

unfoldable pub cancel_reading_and_except : EventHandler → Option EventHandler
unfolding cancel_except cancel_reading
cancel_reading_and_except h = cancel_except h >>= cancel_reading

unfoldable pub disable_all : EventHandler → Option EventHandler
unfolding update
disable_all h = update (record h { events = no_event })

-- The five callbacks; `none` is an empty `std::function`.
pub record Callbacks (S : Type 0) : Type 0 where
  pub close : Option (S → Option S)
  pub error : Option (S → Option S)
  pub except : Option (S → Option S)
  pub read : Option (S → Option S)
  pub write : Option (S → Option S)

abbrev pub call : {S : Type 0} → Option (S → Option S) → S → Option S
call none s = some s
call (some f) s = f s

abbrev pub call_if : {S : Type 0} → Bool → Option (S → Option S) → S → Option S
call_if test f s = if test then call f s else some s

unfoldable pub handler_revent : {S : Type 0} → LogicEvent → Callbacks S → S → Option S
unfolding has_event
handler_revent revents cb s = do
  s1 ← call_if (has_event revents hup_event && not (has_event revents read_event)) cb.close s
  s2 ← call_if (has_event revents nval_event) cb.error s1
  s3 ← call_if (has_event revents error_event) cb.error s2
  s4 ← call_if (has_event revents except_event) cb.except s3
  s5 ← call_if (has_event revents read_event || has_event revents rd_hup_event) cb.read s4
  call_if (has_event revents write_event) cb.write s5
