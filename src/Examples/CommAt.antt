-- ===== src/Examples/CommAt.antt =====
-- Concrete buffers for the theorems on src/utils/communication_buffer.hpp.
use parthenon.Base.{Bool, true, false, none, some, List, [], ◌∷◌, ok, ◌≡◌, refl}
use parthenon.Comm.Buffer.{
  stale, received, both, null, irecv, receiver, CommBuffer, comm_type_of, make, allocate, send,
  try_receive, make_stale, is_available_for_write, try_start_receive, receive_remote,
  finish_receive,
}
use parthenon.Comm.Invariant.{IsWell, Operation, receives, perform, perform_all, reachable-IsWell}
use parthenon.Comm.Local.{channel, message, read, vacant, unread, local_refines}

-- A receiving buffer on rank 1, which polls once without an answer and then takes 8 numbers.
abbrev polls : List Operation
polls = receives none none ∷ receives none (some 8) ∷ []

abbrev filled : CommBuffer
filled = record {
  state = received;
  comm_type = receiver;
  started_irecv = false;
  nrecv_tries = 0;
  request = null;
  active = true;
  size = 8;
  resource = 8;
  log = irecv 8 ∷ [];
}

polled : perform_all polls (make 8 1 0 1 false) ≡ ok filled
unfolding perform_all perform make comm_type_of try_receive receive_remote try_start_receive
    finish_receive allocate
polled = refl

reachable-IsWell_example : IsWell filled
reachable-IsWell_example = reachable-IsWell 8 1 0 1 false polls filled polled

abbrev shared : CommBuffer
shared = record {
  state = stale;
  comm_type = both;
  started_irecv = false;
  nrecv_tries = 0;
  request = null;
  active = true;
  size = 8;
  resource = 8;
  log = [];
}

local_refines_example :
    ((c : CommBuffer) × (send shared ≡ ok c) × (channel c.state ≡ unread (message shared.active)))
    × ((c : CommBuffer) × (d : Bool) × (try_receive none none shared ≡ ok (c, d))
        × ((channel c.state, d) ≡ read (channel shared.state)))
    × ((c : CommBuffer) × (make_stale shared ≡ ok c) × (channel c.state ≡ vacant))
    × ((d : Bool) × (is_available_for_write true shared ≡ ok (shared, d))
        × (d ≡ true → channel shared.state ≡ vacant)
        × (channel shared.state ≡ vacant → d ≡ true))
local_refines_example = local_refines shared shared true none none refl refl refl
