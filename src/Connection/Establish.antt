-- ===== src/Connection/Establish.antt =====
-- src/connection/mod.rs: establishing a connection. The transport's answers to the writes and to the
-- reads are lists, its answer to a shutdown is an argument, and `none` is a call that still waits for one.
pub mod Chunks
pub mod Request
pub mod InForce
pub mod Ready
mod Tests
use rp1_rust.Base.{
  ℕ, Bool, true, false, not, ◌||◌, Option, some, none, List, [], ◌∷◌, ◌++◌, ◌==◌, ltb, leb,
  if◌then◌else◌, length, min, contains,
}
use rp1_rust.Base.Bytes.{Bytes}
use rp1_rust.Base.Result.{Result, ok, err, ◌>>=◌, ◌>>◌, fail_if, map_err}
use rp1_rust.Protocol.Types.{
  ConnectionState, Limits, Admission, Role, Kind, Failure, max_frame_size, handshake_opcode,
  pre_negotiation_limits,
}
use rp1_rust.Protocol.Failure
use rp1_rust.Protocol.Frame.{Step, Outgoing, OutgoingPayload}
use rp1_rust.Protocol.Encode.{encode}
use rp1_rust.Protocol.Decode.{decode}
use rp1_rust.Protocol.Handshake
use rp1_rust.Dispatch.{
  Allocator, Registry, RegistryError, new_allocator, new_registry, allocate, insert, retire,
  is_empty,
}
use rp1_rust.Lifecycle.{Lifecycle}
use rp1_rust.Transport.{IoError, WriteAnswer, ReadAnswer, WriteEnd, Written, write_all}
use rp1_rust.Driver.{Driver, new_driver}
use rp1_rust.Connection.{Caps, Negotiated, ConnectError, interpret_response}
use rp1_rust.Connection.Config.{ConnectionConfig, validate}

-- `HANDSHAKE_REQUEST_ID`
abbrev pub handshake_request_id : ℕ
handshake_request_id = 1

abbrev pub handshake_outgoing : ConnectionConfig → ℕ → Outgoing
handshake_outgoing config request_id = record {
  kind = Kind.request;
  code = handshake_opcode;
  request_id = request_id;
  metadata = [];
  payload =
      OutgoingPayload.opaque
        (Handshake.encode_request (Handshake.new_request 0 0 config.desired_maximum_frame_size []));
}

unfoldable pub build_handshake_request : ConnectionConfig → ℕ → Result Bytes ConnectError
build_handshake_request config request_id =
    map_err (λ error. ConnectError.handshake_failure Failure.resource_limit)
      (encode (handshake_outgoing config request_id))

abbrev pub handshake_admission : ℕ → Admission
handshake_admission handshake_id = record {
  role = Role.client;
  state = ConnectionState.pre_negotiation;
  limits = pre_negotiation_limits;
  in_flight = handshake_id ∷ [];
}

-- What a decoded answer decides: `some` returns, `none` reads on.
unfoldable pub handshake_step : Caps → Bytes → Step → Option (Result Negotiated ConnectError)
unfolding interpret_response
handshake_step caps buffer (Step.frame frame) = some (interpret_response frame caps)
handshake_step caps buffer (Step.failed failure consumed) =
    some (err (ConnectError.handshake_failure failure))
handshake_step caps buffer (Step.need required) =
    let bound = min caps.local_maximum_frame_size max_frame_size in
    if ltb bound required || leb bound (length buffer)
    then some (err (ConnectError.handshake_failure Failure.resource_limit))
    else none

-- One read, and what follows on it.
unfoldable pub after_read :
    ReadAnswer
    → (Bytes → Option (Result Negotiated ConnectError))
    → Option (Result Negotiated ConnectError)
after_read (ReadAnswer.read_failed error) go = some (err ConnectError.transport)
after_read (ReadAnswer.read []) go = some (err ConnectError.closed_during_handshake)
after_read (ReadAnswer.read (byte ∷ bytes)) go = go (byte ∷ bytes)

unfoldable pub read_on :
    Option (Result Negotiated ConnectError)
    → ReadAnswer
    → (Bytes → Option (Result Negotiated ConnectError))
    → Option (Result Negotiated ConnectError)
unfolding after_read
read_on (some result) answer go = some result
read_on none answer go = after_read answer go

-- The loop, from the buffer that the reads have filled.
unfoldable pub read_loop :
    Caps → ℕ → Bytes → List ReadAnswer → Option (Result Negotiated ConnectError)
unfolding handshake_step read_on
read_loop caps handshake_id buffer [] =
    handshake_step caps buffer (decode buffer (handshake_admission handshake_id))
read_loop caps handshake_id buffer (answer ∷ answers) =
    read_on (handshake_step caps buffer (decode buffer (handshake_admission handshake_id))) answer
      (λ part. read_loop caps handshake_id (buffer ++ part) answers)

unfoldable pub read_handshake_response :
    Caps → ℕ → List ReadAnswer → Option (Result Negotiated ConnectError)
unfolding read_loop
read_handshake_response caps handshake_id answers = read_loop caps handshake_id [] answers

-- `Shared`: what the handles of one connection share, with the task that `driver::spawn` starts,
-- the limits it is given, and the permits of the semaphore.
pub record Shared : Type 0 where
  pub negotiated : Negotiated
  pub maximum_in_flight : ℕ
  pub permits : ℕ
  pub allocator : Allocator
  pub limits : Limits
  pub driver : Driver

unfoldable pub shared_of : ConnectionConfig → Negotiated → Shared
unfolding allocate
shared_of config negotiated = record {
  negotiated = negotiated;
  maximum_in_flight = config.maximum_in_flight;
  permits = config.maximum_in_flight;
  allocator = (allocate new_allocator).1;
  limits = record {
    frame_size = min negotiated.maximum_frame_size config.caps.local_maximum_frame_size;
    metadata_size = min negotiated.maximum_metadata_size config.caps.local_maximum_metadata_size;
  };
  driver = new_driver;
}

-- A local refusal, behind the shutdown of the transport, whose answer is ignored.
unfoldable pub refuse :
    Option (Result (Unit {0}) IoError) → ConnectError → Option (Result Shared ConnectError)
refuse none error = none
refuse (some shut) error = some (err error)

-- The local refusals of what the handshake negotiated. `shut` is what the shutdown of the transport
-- answers.
unfoldable pub within_caps :
    Option (Result (Unit {0}) IoError)
    → ConnectionConfig
    → Negotiated
    → Option (Result Shared ConnectError)
unfolding shared_of refuse
within_caps shut config negotiated =
    if ltb config.caps.local_maximum_frame_size negotiated.maximum_frame_size
    then refuse shut (
        ConnectError.negotiated_frame_size_above_local negotiated.maximum_frame_size
          config.caps.local_maximum_frame_size)
    else if ltb config.caps.local_maximum_metadata_size negotiated.maximum_metadata_size
    then refuse shut (
        ConnectError.negotiated_metadata_size_above_local negotiated.maximum_metadata_size
          config.caps.local_maximum_metadata_size)
    else some (ok (shared_of config negotiated))

-- The registry of the handshake is empty once its id is retired.
unfoldable pub settle :
    Option (Result (Unit {0}) IoError)
    → Registry
    → ℕ
    → ConnectionConfig
    → Negotiated
    → Option (Result Shared ConnectError)
unfolding within_caps retire is_empty
settle shut in_flight handshake_id config negotiated =
    let retired = (retire in_flight handshake_id).1 in
    if contains retired.live handshake_id || not (is_empty retired)
    then some (err (ConnectError.handshake_failure Failure.protocol_violation))
    else within_caps shut config negotiated

unfoldable pub after_response :
    Option (Result (Unit {0}) IoError)
    → Registry
    → ℕ
    → ConnectionConfig
    → Option (Result Negotiated ConnectError)
    → Option (Result Shared ConnectError)
unfolding settle
after_response shut in_flight handshake_id config none = none
after_response shut in_flight handshake_id config (some (err error)) = some (err error)
after_response shut in_flight handshake_id config (some (ok negotiated)) =
    settle shut in_flight handshake_id config negotiated

-- The write of the request decides whether a response is read.
unfoldable pub after_request :
    WriteEnd → Option (Result Shared ConnectError) → Option (Result Shared ConnectError)
after_request WriteEnd.done rest = rest
after_request WriteEnd.pending rest = none
after_request (WriteEnd.broken error) rest = some (err ConnectError.transport)

-- From the request that `build_handshake_request` makes.
unfoldable pub exchange :
    Registry
    → ℕ
    → ConnectionConfig
    → List WriteAnswer
    → List ReadAnswer
    → Option (Result (Unit {0}) IoError)
    → Result Bytes ConnectError
    → Option (Result Shared ConnectError)
unfolding after_request after_response write_all read_handshake_response
exchange in_flight id config writes reads shut (err error) = some (err error)
exchange in_flight id config writes reads shut (ok frame) =
    after_request (write_all frame writes).end
      (after_response shut in_flight id config (read_handshake_response config.caps id reads))

-- By the answer of `in_flight.insert`.
unfoldable pub registered :
    ℕ
    → ConnectionConfig
    → List WriteAnswer
    → List ReadAnswer
    → Option (Result (Unit {0}) IoError)
    → Result Registry RegistryError
    → Option (Result Shared ConnectError)
unfolding exchange build_handshake_request
registered id config writes reads shut (err refused) =
    some (err (ConnectError.handshake_failure Failure.protocol_violation))
registered id config writes reads shut (ok in_flight) =
    exchange in_flight id config writes reads shut (build_handshake_request config id)

unfoldable pub establish :
    ConnectionConfig
    → List WriteAnswer
    → List ReadAnswer
    → Option (Result (Unit {0}) IoError)
    → Option (Result Shared ConnectError)
unfolding registered allocate insert
establish config writes reads shut =
    let handshake_id = (allocate new_allocator).0 in
    if handshake_id == handshake_request_id
    then registered handshake_id config writes reads shut (insert new_registry handshake_id)
    else some (err (ConnectError.handshake_failure Failure.protocol_violation))

-- `Connection::connect`, by the answer of `TokioTransport::connect`.
unfoldable pub connect :
    ConnectionConfig
    → Bool
    → List WriteAnswer
    → List ReadAnswer
    → Option (Result (Unit {0}) IoError)
    → Option (Result Shared ConnectError)
unfolding validate establish
connect config opened writes reads shut = elim (validate config) [
  | err error ↦ some (err (ConnectError.invalid_configuration error))
  | ok u ↦ if opened then establish config writes reads shut else some (err ConnectError.transport)
]

-- The stricter of the negotiated bound and the local cap.
unfoldable pub effective_maximum_frame_size : Shared → ℕ
effective_maximum_frame_size shared =
    if ltb shared.negotiated.maximum_frame_size
      shared.negotiated.local_caps.local_maximum_frame_size
    then shared.negotiated.maximum_frame_size
    else shared.negotiated.local_caps.local_maximum_frame_size

unfoldable pub effective_maximum_metadata_size : Shared → ℕ
effective_maximum_metadata_size shared =
    if ltb shared.negotiated.maximum_metadata_size
      shared.negotiated.local_caps.local_maximum_metadata_size
    then shared.negotiated.maximum_metadata_size
    else shared.negotiated.local_caps.local_maximum_metadata_size
