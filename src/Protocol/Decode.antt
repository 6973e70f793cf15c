-- ===== src/Protocol/Decode.antt =====
-- src/protocol.rs: `decode` and the checks that it runs, in their order.
pub mod Admit
pub mod Checked
pub mod Bounds
pub mod Stream
pub mod Front
pub mod Rules
use rp1_rust.Base.{
  ℕ, ◌<◌, Bool, true, false, not, ◌&&◌, ◌||◌, Option, some, none, List, [], ◌∷◌, ◌==◌, ltb, leb,
  if◌then◌else◌, length, contains,
}
use rp1_rust.Base.Bytes.{Bytes, checked_add, get_from, get_range, u64_end}
use rp1_rust.Base.Result.{Result, ok, err, ◌>>=◌, ◌>>◌, fail_if, ok_or}
use rp1_rust.Protocol.Read.{read_u16_le, read_u32_le, read_u64_le}
use rp1_rust.Protocol.Types.{
  ConnectionState, Limits, Admission, Role, role_eq, Kind, kind_from_wire, sender, ResultCode,
  result_code_from_wire, error_class_from_wire, scope_of_class, FailureScope, Failure,
  handshake_opcode, ping_opcode, set_opcode, is_assigned, header_length,
}
use rp1_rust.Protocol.Failure
use rp1_rust.Protocol.Region.{parse_entries, check_metadata_order}
use rp1_rust.Protocol.Frame.{Payload, Header, Frame, Step, Correlation, RawHeader, Admitted}
use rp1_rust.Protocol.Header.{parse_header, total_length}

-- `usize::try_from` of a `u64`, on a 64-bit target.
unfoldable pub usize_from : ℕ → Option ℕ
usize_from n = if ltb n u64_end then some n else none

-- From the header through the direction check. The error is the step that `decode` returns.
unfoldable pub admit : Bytes → Role → Limits → Result Admitted Step
admit input role limits = do
  raw ← ok_or (parse_header input) (Step.need header_length)
  fail_if (not (raw.version == 0)) (Step.failed Failure.unsupported_protocol_version (length input))
  kind ← ok_or (kind_from_wire raw.kind) (Step.failed Failure.protocol_violation (length input))
  frame_total ←
      ok_or (total_length raw.metadata_length raw.payload_length)
        (Step.failed Failure.resource_limit (length input))
  fail_if (ltb limits.frame_size frame_total) (Step.failed Failure.resource_limit (length input))
  fail_if (not (raw.flags == 0)) (Step.failed Failure.protocol_violation (length input))
  fail_if (ltb limits.metadata_size raw.metadata_length)
      (Step.failed Failure.malformed_request (length input))
  total_len ← ok_or (usize_from frame_total) (Step.failed Failure.resource_limit (length input))
  fail_if (ltb (length input) total_len) (Step.need total_len)
  metadata_end ←
      ok_or (checked_add header_length raw.metadata_length)
        (Step.failed Failure.malformed_request (length input))
  metadata_bytes ←
      ok_or (get_range input header_length metadata_end)
        (Step.failed Failure.malformed_request (length input))
  metadata ←
      ok_or (parse_entries metadata_bytes) (Step.failed Failure.malformed_request (length input))
  fail_if (role_eq (sender kind) role) (Step.failed Failure.protocol_violation (length input))
  ok (record {
    raw = raw;
    kind = kind;
    metadata = metadata;
    total_len = total_len;
    metadata_end = metadata_end;
  })

-- A failure with the number of bytes that its frame occupies.
unfoldable pub step_for : Failure → ℕ → ℕ → Step
step_for failure total_len input_len = Step.failed failure (elim failure.scope [
  | FailureScope.request_scoped ↦ total_len
  | FailureScope.connection_fatal ↦ input_len
])

unfoldable pub is_handshake : Kind → ℕ → Bool
is_handshake Kind.request code = code == handshake_opcode
is_handshake Kind.response code = false
is_handshake Kind.error code = false

unfoldable pub responder_terminal : Kind → ℕ → Bool
responder_terminal Kind.request code = false
responder_terminal Kind.response code = code == 0
responder_terminal Kind.error code = true

-- The connection-state rule.
unfoldable pub check_connection_state : ConnectionState → Kind → ℕ → Result (Unit {0}) Failure
unfolding is_handshake responder_terminal
check_connection_state ConnectionState.pre_negotiation kind code =
    if is_handshake kind code || responder_terminal kind code
    then ok tt
    else err Failure.protocol_violation
check_connection_state ConnectionState.negotiated kind code =
    if is_handshake kind code then err Failure.protocol_violation else ok tt
check_connection_state ConnectionState.terminal kind code = err Failure.protocol_violation

-- The id test of an error frame, which only a request-scoped class has.
unfoldable pub check_error_id : FailureScope → ℕ → List ℕ → Result (Unit {0}) Failure
check_error_id FailureScope.request_scoped request_id in_flight = do
  fail_if (request_id == 0) Failure.protocol_violation
  fail_if (not (contains in_flight request_id)) Failure.protocol_violation
check_error_id FailureScope.connection_fatal request_id in_flight = ok tt

-- The code and correlation checks.
unfoldable pub correlate : Kind → ℕ → ℕ → List ℕ → Result Correlation Failure
unfolding check_error_id
correlate Kind.request code request_id in_flight = do
  fail_if (request_id == 0) Failure.protocol_violation
  fail_if (contains in_flight request_id) Failure.protocol_violation
  if code == handshake_opcode
      then ok Correlation.handshake_request
      else if is_assigned code
      then ok (Correlation.operation_request code)
      else err Failure.unsupported_operation
correlate Kind.response code request_id in_flight = do
  fail_if (request_id == 0) Failure.protocol_violation
  fail_if (not (contains in_flight request_id)) Failure.protocol_violation
  result ← ok_or (result_code_from_wire code) Failure.protocol_violation
  ok (Correlation.response result)
correlate Kind.error code request_id in_flight = do
  class ← ok_or (error_class_from_wire code) Failure.protocol_violation
  check_error_id (scope_of_class class) request_id in_flight
  ok (Correlation.error (scope_of_class class))

-- The request payload of one of the five operations.
unfoldable pub check_operation_request : ℕ → ℕ → Bytes → Result Payload Failure
unfolding read_u32_le usize_from checked_add
check_operation_request opcode payload_length payload =
    if opcode == ping_opcode
    then (do fail_if (not (payload_length == 0)) Failure.malformed_request; ok (Payload.opaque []))
    else if opcode == set_opcode
    then (do
      fail_if (ltb (length payload) 4) Failure.malformed_request
      key_length ← ok_or (read_u32_le payload 0) Failure.malformed_request
      key_size ← ok_or (usize_from key_length) Failure.malformed_request
      head ← ok_or (checked_add 4 key_size) Failure.malformed_request
      fail_if (ltb (length payload) head) Failure.malformed_request
      ok (Payload.opaque payload))
    else ok (Payload.opaque payload)

-- The payload layout of an admitted frame.
unfoldable pub read_payload : Correlation → ℕ → Bytes → Result Payload Failure
unfolding check_operation_request read_u16_le read_u64_le checked_add get_range get_from
read_payload Correlation.handshake_request payload_length payload = ok (Payload.opaque payload)
read_payload (Correlation.response ResultCode.success) payload_length payload =
    ok (Payload.opaque payload)
read_payload (Correlation.operation_request opcode) payload_length payload =
    check_operation_request opcode payload_length payload
read_payload (Correlation.response ResultCode.absent) payload_length payload = do
  fail_if (not (payload_length == 0)) Failure.malformed_request
  ok (Payload.opaque [])
read_payload (Correlation.response ResultCode.value_held_outside_memory) payload_length payload = do
  fail_if (not (payload_length == 8)) Failure.malformed_request
  logical_length ← ok_or (read_u64_le payload 0) Failure.malformed_request
  ok (Payload.warm logical_length)
read_payload (Correlation.error scope) payload_length payload = do
  fail_if (ltb payload_length 2) Failure.malformed_request
  detail_length ← ok_or (read_u16_le payload 0) Failure.malformed_request
  detail_end ← ok_or (checked_add detail_length 2) Failure.malformed_request
  detail ← ok_or (get_range payload 2 detail_end) Failure.malformed_request
  text ← ok_or (get_from payload detail_end) Failure.malformed_request
  ok (Payload.error detail text)

-- The request id that an admitted frame retires.
unfoldable pub retires_for : Kind → Correlation → ℕ → ℕ
retires_for Kind.response correlation request_id = request_id
retires_for Kind.error (Correlation.error FailureScope.request_scoped) request_id = request_id
retires_for Kind.error _ request_id = 0
retires_for Kind.request correlation request_id = 0

-- The checks of `decode` behind `admit`, up to the frame.
unfoldable pub check_admitted : Bytes → Admission → Admitted → Result Frame Failure
unfolding get_range
check_admitted input admission admitted = do
  let raw = admitted.raw
  let kind = admitted.kind
  check_connection_state admission.state kind raw.code
  correlation ← correlate kind raw.code raw.request_id admission.in_flight
  check_metadata_order admitted.metadata
  payload_bytes ←
      ok_or (get_range input admitted.metadata_end admitted.total_len) Failure.malformed_request
  payload ← read_payload correlation raw.payload_length payload_bytes
  ok (record {
    header = record {
      version = raw.version;
      kind = kind;
      flags = raw.flags;
      code = raw.code;
      metadata_length = raw.metadata_length;
      payload_length = raw.payload_length;
      request_id = raw.request_id;
    };
    metadata = admitted.metadata;
    payload = payload;
    retires = retires_for kind correlation raw.request_id;
  })

-- The step for the outcome of those checks.
unfoldable pub conclude : Result Frame Failure → ℕ → ℕ → Step
unfolding step_for
conclude (ok frame) total_len input_len = Step.frame frame
conclude (err failure) total_len input_len = step_for failure total_len input_len

-- The two ways on from `admit`.
unfoldable pub decode_from : Result Admitted Step → Bytes → Admission → Step
unfolding conclude
decode_from (err step) input admission = step
decode_from (ok admitted) input admission =
    conclude (check_admitted input admission admitted) admitted.total_len (length input)

unfoldable pub decode : Bytes → Admission → Step
unfolding decode_from
decode input admission = decode_from (admit input admission.role admission.limits) input admission
