-- ===== src/Comm/Invariant.antt =====
-- What holds of every buffer of src/utils/communication_buffer.hpp, whatever MPI answers.
use parthenon.Base.{
  ℕ, ◌+◌, ltb, Bool, false, not, Option, List, [], ◌∷◌, Result, ok, err, ◌>>=◌, ◌≡◌, ◌≢◌, ◌⊎◌,
  arith, if-elim, >>=-eq-ok,
}
use parthenon.Comm.Buffer.{
  BufferState, sending, sending_null, received, received_null, BuffCommType, sender, receiver, both,
  sparse_receiver, Request, null, pending, CommBuffer, Error, comm_type_of, make, allocate, free,
  send, send_null, is_available_for_write, try_start_receive, finish_receive, receive_remote,
  receive_local, try_receive, make_stale, is_stale, max_tries, is_null, pending_request,
}

-- The states that each kind of buffer can be in.
abbrev pub Allowed : BuffCommType → BufferState → Type 0
Allowed sender received = ⊥
Allowed sender received_null = ⊥
Allowed receiver sending = ⊥
Allowed receiver sending_null = ⊥
Allowed t s = Unit

abbrev pub Requested : BuffCommType → Bool → Request → BufferState → Type 0
Requested sender started pending s = (started ≡ false) × (is_stale s ≡ false)
Requested sender started null s = started ≡ false
Requested both started r s = (started ≡ false) × (r ≡ null)
Requested receiver started r s = started ≡ not (is_null r)
Requested sparse_receiver started r s = started ≡ not (is_null r)

pub record IsWell (b : CommBuffer) : Type 0 where
  pub allowed : Allowed b.comm_type b.state
  pub requested : Requested b.comm_type b.started_irecv b.request b.state
  pub sized : (b.active ≡ false) ⊎ (b.size ≡ b.resource)

abbrev pub Keeps : Result Error CommBuffer → Type 0
Keeps (ok b) = IsWell b
Keeps (err e) = Unit

abbrev pub KeepsPair : Result Error (CommBuffer × Bool) → Type 0
KeepsPair (ok r) = IsWell r.0
KeepsPair (err e) = Unit

make-IsWell : (n my_rank s r : ℕ) (sparse : Bool) → IsWell (make n my_rank s r sparse)
unfolding make comm_type_of
make-IsWell n my_rank s r sparse = ground arith

send-Keeps : (b : CommBuffer) → IsWell b → Keeps (send b)
unfolding send send_null
send-Keeps b w = ground arith

-- The receiving operations keep the kind of a buffer too.
abbrev KeepsAt : BuffCommType → Result Error CommBuffer → Type 0
KeepsAt t (ok b) = IsWell b × (b.comm_type ≡ t)
KeepsAt t (err e) = Unit

try_start_receive-KeepsAt :
    (probe : Option ℕ) (b : CommBuffer) → IsWell b → KeepsAt b.comm_type (try_start_receive probe b)
unfolding try_start_receive allocate free
try_start_receive-KeepsAt probe b w = ground arith

finish_receive-IsWell :
    (test : Option ℕ) (b : CommBuffer)
    → b.comm_type ≢ sender
    → b.comm_type ≢ both
    → IsWell b
    → IsWell (finish_receive test b).0
unfolding finish_receive
finish_receive-IsWell test b h k w = ground arith

started-KeepsPair :
    (test : Option ℕ) (t : BuffCommType) (r : Result Error CommBuffer)
    → t ≢ sender
    → t ≢ both
    → KeepsAt t r
    → KeepsPair (r >>= λ c. ok (finish_receive test c))
started-KeepsPair test t (err e) h k w = tt
started-KeepsPair test t (ok b) h k w = finish_receive-IsWell test b (λ e. h (cc)) (λ e. k (cc)) w.0

receive_remote-KeepsPair :
    (probe test : Option ℕ) (b : CommBuffer)
    → b.comm_type ≢ sender
    → b.comm_type ≢ both
    → IsWell b
    → KeepsPair (receive_remote probe test b)
unfolding receive_remote
receive_remote-KeepsPair probe test b h k w =
    if-elim KeepsPair (ltb (b.nrecv_tries + 1) max_tries) _ _
      (started-KeepsPair test b.comm_type _ h k (
        try_start_receive-KeepsAt probe (record b { nrecv_tries = b.nrecv_tries + 1 })
          (record { allowed = w.allowed; requested = w.requested; sized = w.sized })))
      tt

try_receive-KeepsPair :
    (probe test : Option ℕ) (b : CommBuffer) → IsWell b → KeepsPair (try_receive probe test b)
unfolding try_receive receive_local
try_receive-KeepsPair probe test b w = ground (arith, receive_remote-KeepsPair probe test b)

is_available-KeepsPair :
    (sent : Bool) (b : CommBuffer) → IsWell b → KeepsPair (is_available_for_write sent b)
unfolding is_available_for_write
is_available-KeepsPair sent b w = ground arith

make_stale-Keeps : (b : CommBuffer) → IsWell b → Keeps (make_stale b)
unfolding make_stale
make_stale-Keeps b w = ground arith

-- What a program may do with a buffer; the answers of MPI come with the operation.
pub data Operation : Type 0 where
  allocates frees sends sends_null stales : Operation
  asks_write : Bool → Operation
  starts_receive : Option ℕ → Operation
  receives : Option ℕ → Option ℕ → Operation

abbrev first : Result Error (CommBuffer × Bool) → Result Error CommBuffer
first r = r >>= λ c. ok c.0

unfoldable pub perform : Operation → CommBuffer → Result Error CommBuffer
perform allocates b = ok (allocate b)
perform frees b = ok (free b)
perform sends b = send b
perform sends_null b = send_null b
perform stales b = make_stale b
perform (asks_write sent) b = first (is_available_for_write sent b)
perform (starts_receive probe) b = try_start_receive probe b
perform (receives probe test) b = first (try_receive probe test b)

unfoldable pub perform_all : List Operation → CommBuffer → Result Error CommBuffer
perform_all [] b = ok b
perform_all (o ∷ os) b = perform o b >>= perform_all os

first-Keeps : (r : Result Error (CommBuffer × Bool)) → KeepsPair r → Keeps (first r)
first-Keeps (ok r) h = h
first-Keeps (err e) h = tt

weaken : (t : BuffCommType) (r : Result Error CommBuffer) → KeepsAt t r → Keeps r
weaken t (ok b) h = h.0
weaken t (err e) h = tt

perform-Keeps : (o : Operation) (b : CommBuffer) → IsWell b → Keeps (perform o b)
unfolding perform allocate free send_null
perform-Keeps allocates b w = ground arith
perform-Keeps frees b w = ground arith
perform-Keeps sends b w = send-Keeps b w
perform-Keeps sends_null b w = ground arith
perform-Keeps stales b w = make_stale-Keeps b w
perform-Keeps (asks_write sent) b w = first-Keeps _ (is_available-KeepsPair sent b w)
perform-Keeps (starts_receive probe) b w =
    weaken b.comm_type _ (try_start_receive-KeepsAt probe b w)
perform-Keeps (receives probe test) b w = first-Keeps _ (try_receive-KeepsPair probe test b w)

perform_all-IsWell :
    (os : List Operation) (b c : CommBuffer) → IsWell b → perform_all os b ≡ ok c → IsWell c
unfolding perform_all
perform_all-IsWell [] b c w e = let same : b ≡ c = cc in rw same at w
perform_all-IsWell (o ∷ os) b c w e =
    let (d, here, rest) = >>=-eq-ok (perform o b) (perform_all os) e in
    perform_all-IsWell os d c (rw here at (perform-Keeps o b w)) rest

-- From the constructor, whatever is called in whatever order and whatever MPI answers, as long as
-- no call ends the program, a buffer stays well formed: its state is one that its kind can be in, a
-- started receive and a pending request agree, and allocated memory has the size of the resource.
pub reachable-IsWell :
    (n my_rank s r : ℕ) (sparse : Bool) (os : List Operation) (c : CommBuffer)
    → perform_all os (make n my_rank s r sparse) ≡ ok c
    → IsWell c
reachable-IsWell n my_rank s r sparse os c =
    perform_all-IsWell os _ c (make-IsWell n my_rank s r sparse)

-- On a well-formed buffer the check for a pending request never fails.
try_start_receive-ne-pending :
    (probe : Option ℕ) (b : CommBuffer) → IsWell b → try_start_receive probe b ≢ err pending_request
unfolding try_start_receive
try_start_receive-ne-pending probe b w e = ground arith
