-- ===== src/Event.antt =====
-- Net/include/Event.h: the events of a handler, an `enum class LogicEvent : uint32_t` of flags. A
-- value is the number with those bits; `none` is the failed assertion of `validate`.
pub mod Laws
mod Tests
use Prim.Native.Nat.{bit_and, bit_or}
use yy.Prelude.{ℕ, ◌-◌, ◌^◌, Bool, not, Option, some, ◌==◌, ◌>>=◌, ◌>>◌, assert}

abbrev pub LogicEvent : Type 0
LogicEvent = ℕ

-- the enumerators
abbrev pub no_event : LogicEvent
no_event = 0

abbrev pub read_event : LogicEvent
read_event = 1

abbrev pub except_event : LogicEvent
except_event = 2

abbrev pub write_event : LogicEvent
write_event = 4

abbrev pub error_event : LogicEvent
error_event = 8

abbrev pub hup_event : LogicEvent
hup_event = 16

abbrev pub nval_event : LogicEvent
nval_event = 32

abbrev pub rd_hup_event : LogicEvent
rd_hup_event = 64

abbrev pub edge_event : LogicEvent
edge_event = 128

abbrev pub one_shot_event : LogicEvent
one_shot_event = 256

abbrev pub all_events : LogicEvent
all_events = 127

-- `operator~` on 32 bits
unfoldable pub complement : LogicEvent → LogicEvent
complement e = 2 ^ 32 - 1 - e

unfoldable pub has_event : LogicEvent → LogicEvent → Bool
has_event lhs rhs = not (bit_and lhs rhs == 0)

-- `valid_mask` is `AllEvents | Edge | OneShot`
unfoldable pub validate : LogicEvent → Bool
unfolding complement
validate events =
    bit_and events (complement (bit_or (bit_or all_events edge_event) one_shot_event)) == 0

-- The constructor, and the assignment of an event.
pub new_event : LogicEvent → Option LogicEvent
new_event events = do assert (validate events); some events

unfoldable pub add : LogicEvent → LogicEvent → Option LogicEvent
unfolding validate
add events event = do assert (validate event); some (bit_or events event)

unfoldable pub remove : LogicEvent → LogicEvent → Option LogicEvent
unfolding validate complement
remove events event = do assert (validate event); some (bit_and events (complement event))
