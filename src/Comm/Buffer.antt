-- ===== src/Comm/Buffer.antt =====
-- CommBuffer of src/utils/communication_buffer.hpp, in a build with MPI and without the debug checks.
-- MPI itself is not modelled: an operation that asks it something takes the answer as an argument,
-- and the calls that start or await a message are kept in a log, oldest first.
use parthenon.Base.{
  ℕ, ◌+◌, ◌^◌, ltb, ◌==◌, if◌then◌else◌, Bool, true, false, not, Option, none, some, List, [], ◌∷◌,
  ◌++◌, Result, ok, err, ◌>>=◌,
}

pub data BufferState : Type 0 where
  stale sending sending_null received received_null : BufferState

pub data BuffCommType : Type 0 where
  sender receiver both sparse_receiver : BuffCommType

pub data Request : Type 0 where
  null pending : Request

pub data MpiCall : Type 0 where
  wait : MpiCall
  isend : ℕ → MpiCall
  irecv : ℕ → MpiCall

-- `resource` is the size of what `get_resource_` gives, and `size` that of `buf_`.
pub record CommBuffer : Type 0 where
  pub state : BufferState
  pub comm_type : BuffCommType
  pub started_irecv : Bool
  pub nrecv_tries : ℕ
  pub request : Request
  pub active : Bool
  pub size : ℕ
  pub resource : ℕ
  pub log : List MpiCall

pub data Error : Type 0 where
  zero_size_send send_from_receiver write_to_receiver pending_request hanging : Error
  receive_on_sender unfinished_request stale_sender : Error

abbrev pub is_received : BufferState → Bool
is_received received = true
is_received received_null = true
is_received s = false

abbrev pub is_null : Request → Bool
is_null null = true
is_null pending = false

-- In the constructor. Where neither rank is this one, the source only reports it, and the type stays
-- `both`.
unfoldable pub comm_type_of : ℕ → ℕ → ℕ → Bool → BuffCommType
comm_type_of my_rank send_rank recv_rank sparse =
    if send_rank == recv_rank
    then both
    else (if my_rank == send_rank
        then sender
        else (if my_rank == recv_rank
            then (if sparse then sparse_receiver else receiver)
            else both))

unfoldable pub make : ℕ → ℕ → ℕ → ℕ → Bool → CommBuffer
make resource my_rank send_rank recv_rank sparse = record {
  state = stale;
  comm_type = comm_type_of my_rank send_rank recv_rank sparse;
  started_irecv = false;
  nrecv_tries = 0;
  request = null;
  active = false;
  size = 0;
  resource = resource;
  log = [];
}

unfoldable pub allocate : CommBuffer → CommBuffer
allocate b = if b.active then b else record b { size = b.resource; active = true }

unfoldable pub free : CommBuffer → CommBuffer
free b = record b { size = 0; active = false }

-- MPI_Wait, then MPI_Isend of that many items.
abbrev pub post_send : ℕ → CommBuffer → CommBuffer
post_send n b = record b { request = pending; log = b.log ++ wait ∷ isend n ∷ [] }

abbrev pub post_receive : ℕ → CommBuffer → CommBuffer
post_receive n b = record b { request = pending; started_irecv = true; log = b.log ++ irecv n ∷ [] }

unfoldable pub send_null : CommBuffer → Result Error CommBuffer
send_null b =
    let b' = record b { state = sending_null } in
    elim b.comm_type [
      | sender ↦ ok (post_send 0 b')
      | receiver ↦ err send_from_receiver
      | both ↦ ok b'
      | sparse_receiver ↦ ok b'
    ]

unfoldable pub send : CommBuffer → Result Error CommBuffer
send b =
    let b' = record b { state = sending } in
    if not b.active then send_null b else elim b.comm_type [
      | sender ↦ if ltb 0 b.size then ok (post_send b.size b') else err zero_size_send
      | receiver ↦ err send_from_receiver
      | both ↦ ok b'
      | sparse_receiver ↦ ok b'
    ]

abbrev pub is_stale : BufferState → Bool
is_stale stale = true
is_stale s = false

-- `sent` is what MPI_Test answers about the send.
unfoldable pub is_available_for_write : Bool → CommBuffer → Result Error (CommBuffer × Bool)
is_available_for_write sent b = elim b.comm_type [
  | sender ↦
      if is_stale b.state
      then ok (b, true)
      else (if is_null b.request
          then ok (b, true)
          else (if sent
              then ok (record b { state = stale; request = null }, true)
              else ok (b, false)))
  | both ↦ ok (b, is_stale b.state)
  | receiver ↦ err write_to_receiver
  | sparse_receiver ↦ err write_to_receiver
]

unfoldable pub is_safe_to_delete : Bool → CommBuffer → Result Error (CommBuffer × Bool)
is_safe_to_delete sent b = elim b.comm_type [
  | sparse_receiver ↦ ok (b, is_stale b.state)
  | receiver ↦ ok (b, is_stale b.state)
  | sender ↦ is_available_for_write sent b
  | both ↦ is_available_for_write sent b
]

-- `probe` is what MPI_Iprobe and MPI_Get_count answer: the size of the message that has come.
unfoldable pub try_start_receive : Option ℕ → CommBuffer → Result Error CommBuffer
try_start_receive probe b = if b.started_irecv then ok b else elim b.comm_type [
  | receiver ↦
      if is_null b.request
      then (let a = allocate b in ok (post_receive a.size a))
      else err pending_request
  | sparse_receiver ↦ elim probe [
    | none ↦ ok b
    | some n ↦
        if ltb 0 n
        then (let a = allocate b in ok (post_receive a.size a))
        else (let f = if b.active then free b else b in ok (post_receive 0 f))
  ]
  | sender ↦ ok b
  | both ↦ ok b
]

-- The receive has been started; `test` is the size of the finished message, if it has finished.
unfoldable pub finish_receive : Option ℕ → CommBuffer → CommBuffer × Bool
finish_receive test b =
    if b.started_irecv
    then elim test [
      | none ↦ (b, false)
      | some n ↦ (
        record b {
          request = null;
          started_irecv = false;
          nrecv_tries = 0;
          state = if ltb 0 n then received else received_null;
        },
        true,
      )
    ]
    else (b, false)

abbrev pub max_tries : ℕ
max_tries = 10 ^ 8

unfoldable pub receive_remote : Option ℕ → Option ℕ → CommBuffer → Result Error (CommBuffer × Bool)
receive_remote probe test b =
    let b' = record b { nrecv_tries = b.nrecv_tries + 1 } in
    if ltb (b.nrecv_tries + 1) max_tries
    then (try_start_receive probe b' >>= λ c. ok (finish_receive test c))
    else err hanging

unfoldable pub receive_local : CommBuffer → CommBuffer × Bool
receive_local b = elim b.state [
  | sending ↦ (record b { state = received }, true)
  | sending_null ↦ (record b { state = received_null }, true)
  | stale ↦ (b, false)
  | received ↦ (b, false)
  | received_null ↦ (b, false)
]

unfoldable pub try_receive : Option ℕ → Option ℕ → CommBuffer → Result Error (CommBuffer × Bool)
try_receive probe test b = if is_received b.state then ok (b, true) else elim b.comm_type [
  | receiver ↦ receive_remote probe test b
  | sparse_receiver ↦ receive_remote probe test b
  | both ↦ ok (receive_local b)
  | sender ↦ err receive_on_sender
]

-- Stale: the two warnings of the source change nothing.
unfoldable pub make_stale : CommBuffer → Result Error CommBuffer
make_stale b = elim b.comm_type [
  | sender ↦ err stale_sender
  | receiver ↦ ok (record b { state = stale })
  | both ↦ ok (record b { state = stale })
  | sparse_receiver ↦ ok (record b { state = stale })
]
