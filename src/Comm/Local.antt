-- ===== src/Comm/Local.antt =====
-- A buffer of src/utils/communication_buffer.hpp between two blocks of one rank, as a channel that
-- holds at most one message.
use parthenon.Base.{ℕ, if◌then◌else◌, Bool, true, false, Option, ok, ◌≡◌, arith}
use parthenon.Comm.Buffer.{
  BufferState, stale, sending, sending_null, received, received_null, both, CommBuffer, send,
  try_receive, make_stale, receive_local, is_available_for_write, is_stale, is_received, send_null,
}

-- The data of a block that is allocated, or the notice that it has none.
pub data Message : Type 0 where
  full empty : Message

-- A message may lie in the channel unread, or read and not yet cleared.
pub data Channel : Type 0 where
  vacant : Channel
  unread seen : Message → Channel

unfoldable pub channel : BufferState → Channel
channel stale = vacant
channel sending = unread full
channel sending_null = unread empty
channel received = seen full
channel received_null = seen empty

abbrev pub message : Bool → Message
message true = full
message false = empty

abbrev pub read : Channel → Channel × Bool
read vacant = (vacant, false)
read (unread m) = (seen m, true)
read (seen m) = (seen m, true)

abbrev after : CommBuffer → CommBuffer × Bool
after b = if is_received b.state then (b, true) else receive_local b

-- The operations of a local buffer are those of a channel that holds at most one message: a send
-- from a buffer that is stale, as debug builds require of it, puts the message; a receive, whatever
-- the state, marks it read and says whether there is one, a stale clears it, and a write is allowed
-- just when the channel is vacant. None of these fails.
pub local_refines :
    (b writable : CommBuffer) (sent : Bool) (probe test : Option ℕ)
    → b.comm_type ≡ both
    → writable.comm_type ≡ both
    → writable.state ≡ stale
    → ((c : CommBuffer) × (send writable ≡ ok c)
        × (channel c.state ≡ unread (message writable.active)))
      × ((c : CommBuffer) × (d : Bool) × (try_receive probe test b ≡ ok (c, d))
          × ((channel c.state, d) ≡ read (channel b.state)))
      × ((c : CommBuffer) × (make_stale b ≡ ok c) × (channel c.state ≡ vacant))
      × ((d : Bool) × (is_available_for_write sent b ≡ ok (b, d))
          × (d ≡ true → channel b.state ≡ vacant)
          × (channel b.state ≡ vacant → d ≡ true))
unfolding channel send send_null try_receive receive_local make_stale is_available_for_write
local_refines b writable sent probe test h same vacant_state = (
  (
    record writable { state = if writable.active then sending else sending_null },
    ground arith,
    ground arith,
  ),
  ((after b).0, (after b).1, ground arith, ground arith),
  (record b { state = stale }, ground arith, ground arith),
  (is_stale b.state, ground arith, (λ e. ground arith), (λ e. ground arith)),
)
