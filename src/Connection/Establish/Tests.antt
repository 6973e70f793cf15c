-- ===== src/Connection/Establish/Tests.antt =====
-- src/connection/mod.rs: runs of establishing a connection.
use rp1_rust.Base.{
  ℕ, ◌≡◌, ◌≢◌, ◌<◌, ◌↔◌, refl, ap, some, none, [], ◌∷◌, ◌++◌, List, All, arith, length, false,
}
use rp1_rust.Base.Bytes.{Bytes}
use rp1_rust.Base.Result.{ok, err}
use rp1_rust.Protocol.Types.{Kind}
use rp1_rust.Protocol.Frame.{Frame, Step, Payload}
use rp1_rust.Protocol.Decode.{decode}
use rp1_rust.Protocol.Handshake.{decode_request, new_request}
use rp1_rust.Transport.{WriteAnswer, ReadAnswer}
use rp1_rust.Connection.{Negotiated, ConnectionConfigError, interpret_response}
use rp1_rust.Connection.Config.{
  ConnectionConfig, new_config, set_maximum_in_flight, validate, IsConfig, validate-exact,
}
use rp1_rust.Connection.Establish.{
  shared_of, establish, build_handshake_request, handshake_request_id, handshake_admission,
  read_handshake_response,
}
use rp1_rust.Connection.Establish.Chunks.{joined, reads_of, IsPart, read_handshake_response-chunks}
use rp1_rust.Connection.Establish.Request.{new_server, build_handshake_request-served}
use rp1_rust.Connection.Establish.Ready.{IsReady, establish-IsReady}

abbrev local_config : ConnectionConfig
local_config = new_config (97 ∷ [])

local-named : validate local_config ≡ ok tt
unfolding validate
local-named = refl

validate-exact_example : (validate local_config ≡ ok tt) ↔ IsConfig local_config
validate-exact_example = validate-exact local_config

blank-refused : validate (new_config (32 ∷ 9 ∷ [])) ≡ err ConnectionConfigError.empty_endpoint
unfolding validate
blank-refused = refl

idle-refused :
    validate (set_maximum_in_flight local_config 0)
    ≡ err (ConnectionConfigError.in_flight_bound_below_minimum 0)
unfolding validate
idle-refused = refl

build_handshake_request-served_example :
    (bytes : Bytes) × (build_handshake_request local_config handshake_request_id ≡ ok bytes)
    × (length bytes ≡ 30)
    × (frame : Frame) × (decode (bytes ++ (9 ∷ [])) new_server ≡ Step.frame frame)
    × (payload : Bytes) × (frame.payload ≡ Payload.opaque payload)
    × (frame.header.request_id ≡ handshake_request_id)
    × (decode_request payload ≡ ok (new_request 0 0 65536 []))
build_handshake_request-served_example =
    build_handshake_request-served local_config (9 ∷ []) (omega arith)

-- The answer of a server at the floors, cut in two, with a byte of a later frame.
abbrev answer_front : Bytes
answer_front = 0 ∷ 2 ∷ 0 ∷ 0 ∷ 0 ∷ 0 ∷ 0 ∷ []

abbrev answer_back : Bytes
answer_back =
    0 ∷ 10 ∷ 0 ∷ 0 ∷ 0 ∷ 1 ∷ 0 ∷ 0 ∷ 0 ∷ 0 ∷ 0 ∷ 0 ∷ 0 ∷ 0 ∷ 0 ∷ 0 ∷ 0 ∷ 1 ∷ 0 ∷ 0 ∷ 16 ∷ 0 ∷ 0 ∷ 77
    ∷ []

abbrev answer_parts : List Bytes
answer_parts = answer_front ∷ answer_back ∷ []

abbrev answer_frame : Frame
answer_frame = record {
  header = record {
    version = 0;
    kind = Kind.response;
    flags = 0;
    code = 0;
    metadata_length = 0;
    payload_length = 10;
    request_id = 1;
  };
  metadata = [];
  payload = Payload.opaque (0 ∷ 0 ∷ 0 ∷ 0 ∷ 1 ∷ 0 ∷ 0 ∷ 16 ∷ 0 ∷ 0 ∷ []);
  retires = 1;
}

answer-decodes :
    decode (joined answer_parts) (handshake_admission handshake_request_id)
    ≡ Step.frame answer_frame
unfolding decode rp1_rust.Protocol.Decode.admit rp1_rust.Protocol.Header.parse_header
    rp1_rust.Protocol.Types.kind_from_wire rp1_rust.Protocol.Header.total_length
    rp1_rust.Protocol.Decode.usize_from rp1_rust.Protocol.Region.parse_entries
    rp1_rust.Protocol.Region.parse_loop rp1_rust.Protocol.Types.sender
    rp1_rust.Protocol.Decode.check_admitted rp1_rust.Protocol.Decode.check_connection_state
    rp1_rust.Protocol.Decode.correlate rp1_rust.Base.contains
    rp1_rust.Protocol.Types.result_code_from_wire rp1_rust.Protocol.Region.check_metadata_order
    rp1_rust.Protocol.Region.check_metadata_order_from rp1_rust.Protocol.Decode.read_payload
    rp1_rust.Base.Bytes.checked_add rp1_rust.Base.Bytes.get_from rp1_rust.Base.Bytes.get_range
    rp1_rust.Base.Bytes.get_to rp1_rust.Base.Bytes.u16_from_le rp1_rust.Base.Bytes.u32_from_le
    rp1_rust.Base.Bytes.u64_from_le rp1_rust.Protocol.Decode.check_error_id
    rp1_rust.Protocol.Decode.check_operation_request rp1_rust.Protocol.Decode.conclude
    rp1_rust.Protocol.Decode.decode_from rp1_rust.Protocol.Decode.is_handshake
    rp1_rust.Protocol.Decode.responder_terminal rp1_rust.Protocol.Decode.retires_for
    rp1_rust.Protocol.Decode.step_for rp1_rust.Protocol.Header.get_byte
    rp1_rust.Protocol.Read.read_u16_le rp1_rust.Protocol.Read.read_u32_le
    rp1_rust.Protocol.Read.read_u64_le rp1_rust.Protocol.Region.is_required
    rp1_rust.Protocol.Region.parse_entry rp1_rust.Protocol.Types.error_class_from_wire
    rp1_rust.Protocol.Types.is_assigned rp1_rust.Protocol.Types.scope_of_class
answer-decodes = refl

parts-real : All IsPart answer_parts
parts-real = (λ e. cc (ap length e), (λ e. cc (ap length e), tt))

read_handshake_response-chunks_example :
    read_handshake_response local_config.caps handshake_request_id
      (reads_of answer_parts ++ (ReadAnswer.read [] ∷ []))
    ≡ some (interpret_response answer_frame local_config.caps)
read_handshake_response-chunks_example =
    read_handshake_response-chunks local_config.caps handshake_request_id answer_parts
      (ReadAnswer.read [] ∷ []) answer_frame (omega arith) parts-real answer-decodes

abbrev at_floors : Negotiated
at_floors = record {
  protocol_version = 0;
  maximum_frame_size = 65536;
  maximum_metadata_size = 4096;
  accepted_capabilities = [];
  local_caps = local_config.caps;
}

abbrev two_writes : List WriteAnswer
two_writes = WriteAnswer.wrote 12 ∷ WriteAnswer.wrote 18 ∷ []

establishes :
    establish local_config two_writes (reads_of answer_parts) none
    ≡ some (ok (shared_of local_config at_floors))
unfolding establish rp1_rust.Base.contains rp1_rust.Protocol.Encode.encode
    rp1_rust.Protocol.Encode.checked_metadata_length rp1_rust.Protocol.Encode.encode_payload
    rp1_rust.Protocol.Handshake.encode_request rp1_rust.Protocol.Region.encode_entries new_request
    rp1_rust.Protocol.Encode.write_metadata decode rp1_rust.Protocol.Decode.admit
    rp1_rust.Protocol.Header.parse_header rp1_rust.Protocol.Types.kind_from_wire
    rp1_rust.Protocol.Header.total_length rp1_rust.Protocol.Decode.usize_from
    rp1_rust.Protocol.Region.parse_entries rp1_rust.Protocol.Region.parse_loop
    rp1_rust.Protocol.Types.sender rp1_rust.Protocol.Decode.check_admitted
    rp1_rust.Protocol.Decode.check_connection_state rp1_rust.Protocol.Decode.correlate
    rp1_rust.Protocol.Types.result_code_from_wire rp1_rust.Protocol.Region.check_metadata_order
    rp1_rust.Protocol.Region.check_metadata_order_from rp1_rust.Protocol.Decode.read_payload
    rp1_rust.Protocol.Region.check_ascending rp1_rust.Protocol.Region.check_ascending_from
    rp1_rust.Protocol.Handshake.contains_version rp1_rust.Protocol.Handshake.check_offered
establishes = refl

establish-IsReady_example :
    IsReady local_config (reads_of answer_parts) (shared_of local_config at_floors)
establish-IsReady_example =
    establish-IsReady local_config two_writes (reads_of answer_parts) none
      (shared_of local_config at_floors) establishes
