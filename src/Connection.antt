-- ===== src/Connection.antt =====
-- src/connection/mod.rs: the errors of a command, the encoding of a request, and the answer to the
-- handshake. An error of the transport is its kind alone here: the text and the cause are dropped.
pub mod Requests
pub mod Handshaken
pub mod Config
pub mod Establish
pub mod Client
pub mod Close
mod Tests
use rp1_rust.Base.{
  ℕ, ◌-◌, Bool, true, false, Option, some, none, List, [], ◌∷◌, ◌==◌, if◌then◌else◌, length, map,
}
use rp1_rust.Base.Bytes.{Bytes, checked_add, u64_end}
use rp1_rust.Base.Result.{Result, ok, err, ◌>>=◌, map_err}
use rp1_rust.Protocol.Types.{
  Kind, ErrorClass, error_class_from_wire, scope_of_class, FailureScope, Failure, header_length,
}
use rp1_rust.Protocol.Failure
use rp1_rust.Protocol.Region.{Entry}
use rp1_rust.Protocol.Frame.{Frame, Payload, Outgoing, OutgoingPayload, EncodeError}
use rp1_rust.Protocol.Encode.{encode_with_max}
use rp1_rust.Protocol.Handshake.{HandshakeOffer, HandshakeResponse, decode_response}
use rp1_rust.Session.{DriverError}

pub data CommandError : Type 0 where
  local_limit_exceeded : ℕ → ℕ → CommandError
  invalid_request unsupported_operation invalid_argument overloaded wrong_type : CommandError
  internal_error protocol_violation malformed_request resource_limit : CommandError
  unsupported_protocol_version transport closed unusable : CommandError

unfoldable pub from_class : ErrorClass → CommandError
from_class ErrorClass.malformed_request = CommandError.malformed_request
from_class ErrorClass.unsupported_protocol_version = CommandError.unsupported_protocol_version
from_class ErrorClass.unsupported_operation = CommandError.unsupported_operation
from_class ErrorClass.invalid_argument = CommandError.invalid_argument
from_class ErrorClass.resource_limit = CommandError.resource_limit
from_class ErrorClass.overloaded = CommandError.overloaded
from_class ErrorClass.internal_error = CommandError.internal_error
from_class ErrorClass.protocol_violation = CommandError.protocol_violation
from_class ErrorClass.wrong_type = CommandError.wrong_type

-- `CommandError::scope`
unfoldable pub scope_of_error : CommandError → Option FailureScope
scope_of_error CommandError.unsupported_operation = some FailureScope.request_scoped
scope_of_error CommandError.invalid_argument = some FailureScope.request_scoped
scope_of_error CommandError.overloaded = some FailureScope.request_scoped
scope_of_error CommandError.wrong_type = some FailureScope.request_scoped
scope_of_error CommandError.internal_error = some FailureScope.request_scoped
scope_of_error CommandError.protocol_violation = some FailureScope.connection_fatal
scope_of_error CommandError.malformed_request = some FailureScope.connection_fatal
scope_of_error CommandError.resource_limit = some FailureScope.connection_fatal
scope_of_error CommandError.unsupported_protocol_version = some FailureScope.connection_fatal
scope_of_error (CommandError.local_limit_exceeded requested limit) = none
scope_of_error CommandError.invalid_request = none
scope_of_error CommandError.transport = none
scope_of_error CommandError.closed = none
scope_of_error CommandError.unusable = none

unfoldable pub from_driver : DriverError → CommandError
unfolding from_class
from_driver (DriverError.request_failed failure) = from_class failure.class
from_driver (DriverError.connection_fatal failure) = from_class failure.class
from_driver DriverError.transport = CommandError.transport
from_driver DriverError.closed = CommandError.closed
from_driver DriverError.unusable = CommandError.unusable

-- `None` saturates.
unfoldable pub wire_size : ℕ → ℕ
unfolding checked_add
wire_size payload_len = elim (checked_add header_length payload_len) [
  | none ↦ u64_end - 1
  | some size ↦ size
]

abbrev pub request_of : ℕ → Bytes → ℕ → Outgoing
request_of opcode payload id = record {
  kind = Kind.request;
  code = opcode;
  request_id = id;
  metadata = [];
  payload = OutgoingPayload.opaque payload;
}

-- The closure of `map_err`.
unfoldable pub request_error : Bytes → ℕ → EncodeError → CommandError
unfolding wire_size
request_error payload effective_frame EncodeError.frame_too_large =
    CommandError.local_limit_exceeded (wire_size (length payload)) effective_frame
request_error payload effective_frame EncodeError.metadata_too_large =
    CommandError.local_limit_exceeded (wire_size (length payload)) effective_frame
request_error payload effective_frame EncodeError.metadata_not_ascending =
    CommandError.invalid_request

unfoldable pub encode_request : ℕ → Bytes → ℕ → ℕ → ℕ → Result Bytes CommandError
unfolding request_error encode_with_max
encode_request opcode payload id effective_frame effective_metadata =
    map_err (request_error payload effective_frame)
      (encode_with_max (request_of opcode payload id) effective_frame effective_metadata)

-- `OFFER`
abbrev pub this_offer : HandshakeOffer
this_offer = record {
  minimum_protocol_version = 0;
  maximum_protocol_version = 0;
  capability_ids = [];
}

pub data ConnectionConfigError : Type 0 where
  empty_endpoint : ConnectionConfigError
  frame_size_below_floor local_frame_size_below_floor : ℕ → ConnectionConfigError
  local_metadata_size_below_floor in_flight_bound_below_minimum : ℕ → ConnectionConfigError

pub data ConnectError : Type 0 where
  invalid_configuration : ConnectionConfigError → ConnectError
  handshake_failure : Failure → ConnectError
  negotiated_frame_size_above_local negotiated_metadata_size_above_local : ℕ → ℕ → ConnectError
  transport closed_during_handshake unexpected_frame : ConnectError

-- The two local caps of `ConnectionConfig`.
pub record Caps : Type 0 where
  pub local_maximum_frame_size : ℕ
  pub local_maximum_metadata_size : ℕ

pub record Negotiated : Type 0 where
  pub protocol_version : ℕ
  pub maximum_frame_size : ℕ
  pub maximum_metadata_size : ℕ
  pub accepted_capabilities : List ℕ
  pub local_caps : Caps

abbrev pub negotiated_of : Caps → HandshakeResponse → Negotiated
negotiated_of caps response = record {
  protocol_version = response.negotiated_protocol_version;
  maximum_frame_size = response.negotiated_maximum_frame_size;
  maximum_metadata_size = response.negotiated_maximum_metadata_size;
  accepted_capabilities =
      map (λ (entry : Entry). entry.identifier) response.accepted_capability_entries;
  local_caps = caps;
}

-- A success response, by its payload.
unfoldable pub interpret_success : Payload → Caps → Result Negotiated ConnectError
unfolding decode_response
interpret_success (Payload.opaque payload) caps =
    map_err ConnectError.handshake_failure (decode_response payload this_offer) >>= λ response.
    ok (negotiated_of caps response)
interpret_success (Payload.warm logical_length) caps = err ConnectError.unexpected_frame
interpret_success (Payload.error detail text) caps = err ConnectError.unexpected_frame

unfoldable pub failure_of_class : Option ErrorClass → Failure
unfolding scope_of_class
failure_of_class none = Failure.protocol_violation
failure_of_class (some class) = record { class = class; scope = scope_of_class class }

unfoldable pub interpret_kind : Kind → Frame → Caps → Result Negotiated ConnectError
unfolding interpret_success failure_of_class error_class_from_wire
interpret_kind Kind.response frame caps =
    if frame.header.code == 0
    then interpret_success frame.payload caps
    else err ConnectError.unexpected_frame
interpret_kind Kind.error frame caps =
    err
      (ConnectError.handshake_failure (failure_of_class (error_class_from_wire frame.header.code)))
interpret_kind Kind.request frame caps = err ConnectError.unexpected_frame

unfoldable pub interpret_response : Frame → Caps → Result Negotiated ConnectError
unfolding interpret_kind
interpret_response frame caps = interpret_kind frame.header.kind frame caps
