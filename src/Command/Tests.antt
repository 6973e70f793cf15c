-- ===== src/Command/Tests.antt =====
-- src/command.rs: runs of the payloads and of the interpretations.
use rp1_rust.Base.{ℕ, refl, List, [], ◌∷◌, ◌++◌, ◌+◌, ◌≡◌, ◌⊎◌, ◌≤◌, ◌<◌, length, true}
use rp1_rust.Base.Bytes.{Bytes, u32_end, u32_to_le}
use rp1_rust.Base.Result.{ok, err}
use rp1_rust.Protocol.Types.{
  Kind, Role, ConnectionState, Admission, pre_negotiation_limits, set_opcode,
}
use rp1_rust.Protocol.Frame.{Frame, Payload, Step}
use rp1_rust.Protocol.Decode.{decode, check_operation_request}
use rp1_rust.Command.{
  SetEncodeError, GetOutcome, encode_set, interpret_get, interpret_del, interpret_ping,
  interpret_exists, interpret_set,
}
use rp1_rust.Command.Payloads.{encode_set-cases, encode_set-injective}
use rp1_rust.Command.Answers.{IsAnswered, interpret-IsAnswered}

abbrev key : Bytes
key = 107 ∷ []

abbrev value : Bytes
value = 1 ∷ 2 ∷ []

abbrev set_bytes : Bytes
set_bytes = 1 ∷ 0 ∷ 0 ∷ 0 ∷ 107 ∷ 1 ∷ 2 ∷ []

set_encodes : encode_set key value ≡ ok set_bytes
unfolding encode_set
set_encodes = refl

encode_set-cases_example :
    ((4 + length key + length value < u32_end)
      × (encode_set key value ≡ ok (u32_to_le (length key) ++ (key ++ value))))
    ⊎ ((u32_end ≤ length key)
        × (encode_set key value ≡ err (SetEncodeError.key_too_long (length key))))
    ⊎ ((length key < u32_end)
        × (u32_end ≤ 4 + length key + length value)
        × (encode_set key value ≡ err SetEncodeError.payload_too_large))
encode_set-cases_example = encode_set-cases key value

encode_set-injective_example : (key ≡ 107 ∷ []) × (value ≡ 1 ∷ 2 ∷ [])
encode_set-injective_example =
    encode_set-injective key value (107 ∷ []) (1 ∷ 2 ∷ []) set_bytes set_encodes set_encodes

-- The answer "held outside memory" to request 9: a value of 258 bytes.
abbrev held_bytes : Bytes
held_bytes =
    0 ∷ 2 ∷ 0 ∷ 0 ∷ 4 ∷ 0 ∷ 0 ∷ 0 ∷ 8 ∷ 0 ∷ 0 ∷ 0 ∷ 9 ∷ 0 ∷ 0 ∷ 0 ∷ 0 ∷ 0 ∷ 0 ∷ 0 ∷ 2 ∷ 1 ∷ 0 ∷ 0
    ∷ 0 ∷ 0 ∷ 0 ∷ 0 ∷ []

abbrev at_client : Admission
at_client = record {
  role = Role.client;
  state = ConnectionState.negotiated;
  limits = pre_negotiation_limits;
  in_flight = 9 ∷ [];
}

abbrev held_frame : Frame
held_frame = record {
  header = record {
    version = 0;
    kind = Kind.response;
    flags = 0;
    code = 4;
    metadata_length = 0;
    payload_length = 8;
    request_id = 9;
  };
  metadata = [];
  payload = Payload.warm 258;
  retires = 9;
}

held_decodes : decode held_bytes at_client ≡ Step.frame held_frame
unfolding decode rp1_rust.Protocol.Decode.admit rp1_rust.Protocol.Header.parse_header
    rp1_rust.Protocol.Types.kind_from_wire rp1_rust.Protocol.Header.total_length
    rp1_rust.Protocol.Decode.usize_from rp1_rust.Protocol.Region.parse_entries
    rp1_rust.Protocol.Region.parse_loop rp1_rust.Protocol.Types.sender
    rp1_rust.Protocol.Decode.check_admitted rp1_rust.Protocol.Decode.check_connection_state
    rp1_rust.Protocol.Decode.correlate rp1_rust.Base.contains
    rp1_rust.Protocol.Types.result_code_from_wire rp1_rust.Protocol.Region.check_metadata_order
    rp1_rust.Protocol.Region.check_metadata_order_from rp1_rust.Protocol.Decode.read_payload
    rp1_rust.Base.Bytes.checked_add rp1_rust.Base.Bytes.get_from rp1_rust.Base.Bytes.get_range
    rp1_rust.Base.Bytes.get_to rp1_rust.Base.Bytes.u16_from_le rp1_rust.Base.Bytes.u32_from_le
    rp1_rust.Base.Bytes.u64_from_le rp1_rust.Protocol.Decode.check_error_id check_operation_request
    rp1_rust.Protocol.Decode.conclude rp1_rust.Protocol.Decode.decode_from
    rp1_rust.Protocol.Decode.is_handshake rp1_rust.Protocol.Decode.responder_terminal
    rp1_rust.Protocol.Decode.retires_for rp1_rust.Protocol.Decode.step_for
    rp1_rust.Protocol.Header.get_byte rp1_rust.Protocol.Read.read_u16_le
    rp1_rust.Protocol.Read.read_u32_le rp1_rust.Protocol.Read.read_u64_le
    rp1_rust.Protocol.Region.is_required rp1_rust.Protocol.Region.parse_entry
    rp1_rust.Protocol.Types.error_class_from_wire rp1_rust.Protocol.Types.is_assigned
    rp1_rust.Protocol.Types.scope_of_class
held_decodes = refl

interpret-IsAnswered_example :
    IsAnswered Kind.response 4
      (Payload.warm 258)
      (interpret_get held_frame)
      (interpret_del held_frame)
      (interpret_ping held_frame)
    × (interpret_exists held_frame ≡ interpret_del held_frame)
    × (interpret_set held_frame ≡ interpret_ping held_frame)
interpret-IsAnswered_example =
    interpret-IsAnswered held_bytes at_client held_frame refl held_decodes

get-held : interpret_get held_frame ≡ ok (GetOutcome.held_outside_memory 258)
unfolding interpret_get
get-held = refl
