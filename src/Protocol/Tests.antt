-- ===== src/Protocol/Tests.antt =====
-- src/protocol.rs: runs of the frame codec.
mod Handshakes
mod Regions
use rp1_rust.Base.{ℕ, refl, List, [], ◌∷◌, ◌++◌, ◌≡◌, ◌⊎◌, inl, inr, arith, ◌≤◌, ◌<◌}
use rp1_rust.Base.Bytes.{Bytes}
use rp1_rust.Base.Result.{Result, ok, err}
use rp1_rust.Protocol.Types.{Kind, Role, ConnectionState, Admission, pre_negotiation_limits}
use rp1_rust.Protocol.Region.{Entry}
use rp1_rust.Protocol.Region.Order.{IsOptional}
use rp1_rust.Protocol.Frame.{Frame, Header, Step, Payload, Outgoing, OutgoingPayload, Correlation}
use rp1_rust.Protocol.Decode.{decode, correlate, check_connection_state}
use rp1_rust.Protocol.Decode.Bounds.{IsOutcome, decode-IsOutcome}
use rp1_rust.Protocol.Decode.Stream.{IsSettled, decode-append, decode-prefix}
use rp1_rust.Protocol.Decode.Rules.{IsCorrelated, IsAllowed, decode-IsCorrelated, decode-IsAllowed}
use rp1_rust.Protocol.Encode.{encode_with_max, encode}
use rp1_rust.Protocol.RoundTrip.{decode-encode_with_max, IsReceived, IsSendable}
use rp1_rust.Protocol.RoundTrip.Layouts.{Carries}

-- A read of the key "k", with one metadata entry.
abbrev read_request : Outgoing
read_request = record {
  kind = Kind.request;
  code = 3;
  request_id = 7;
  metadata = record { identifier = 1; value = 9 ∷ [] } ∷ [];
  payload = OutgoingPayload.opaque (107 ∷ []);
}

abbrev read_bytes : Bytes
read_bytes =
    0 ∷ 1 ∷ 0 ∷ 0 ∷ 3 ∷ 0 ∷ 5 ∷ 0 ∷ 1 ∷ 0 ∷ 0 ∷ 0 ∷ 7 ∷ 0 ∷ 0 ∷ 0 ∷ 0 ∷ 0 ∷ 0 ∷ 0 ∷ 1 ∷ 0 ∷ 1 ∷ 0
    ∷ 9 ∷ 107 ∷ []

abbrev at_server : Admission
at_server = record {
  role = Role.server;
  state = ConnectionState.negotiated;
  limits = pre_negotiation_limits;
  in_flight = 5 ∷ [];
}

encode-read_request : encode read_request ≡ ok read_bytes
unfolding encode rp1_rust.Protocol.Encode.checked_metadata_length
    rp1_rust.Protocol.Encode.encode_payload rp1_rust.Protocol.Encode.write_metadata
    rp1_rust.Protocol.Types.kind_value
encode-read_request = refl

decode-empty : decode [] at_server ≡ Step.need 20
unfolding decode rp1_rust.Protocol.Decode.admit rp1_rust.Protocol.Header.parse_header
decode-empty = refl

-- The same buffer, cut after the header.
abbrev read_front : Bytes
read_front = 0 ∷ 1 ∷ 0 ∷ 0 ∷ 3 ∷ 0 ∷ 5 ∷ 0 ∷ 1 ∷ 0 ∷ 0 ∷ 0 ∷ 7 ∷ 0 ∷ 0 ∷ 0 ∷ 0 ∷ 0 ∷ 0 ∷ 0 ∷ []

abbrev read_back : Bytes
read_back = 1 ∷ 0 ∷ 1 ∷ 0 ∷ 9 ∷ 107 ∷ []

abbrev read_frame : Frame
read_frame = record {
  header = record {
    version = 0;
    kind = Kind.request;
    flags = 0;
    code = 3;
    metadata_length = 5;
    payload_length = 1;
    request_id = 7;
  };
  metadata = record { identifier = 1; value = 9 ∷ [] } ∷ [];
  payload = Payload.opaque (107 ∷ []);
  retires = 0;
}

read_encodes : encode_with_max read_request 65536 4096 ≡ ok read_bytes
unfolding encode_with_max rp1_rust.Protocol.Encode.checked_metadata_length
    rp1_rust.Protocol.Encode.encode_payload rp1_rust.Protocol.Encode.write_metadata
    rp1_rust.Protocol.Types.kind_value
read_encodes = refl

read_decodes : decode read_bytes at_server ≡ Step.frame read_frame
unfolding decode rp1_rust.Protocol.Decode.admit rp1_rust.Protocol.Header.parse_header
    rp1_rust.Protocol.Types.kind_from_wire rp1_rust.Protocol.Header.total_length
    rp1_rust.Protocol.Decode.usize_from rp1_rust.Protocol.Region.parse_entries
    rp1_rust.Protocol.Region.parse_loop rp1_rust.Protocol.Region.parse_entry
    rp1_rust.Protocol.Types.sender rp1_rust.Protocol.Decode.check_admitted check_connection_state
    correlate rp1_rust.Base.contains rp1_rust.Protocol.Types.is_assigned
    rp1_rust.Protocol.Region.check_metadata_order rp1_rust.Protocol.Region.check_metadata_order_from
    rp1_rust.Base.Bytes.checked_add rp1_rust.Base.Bytes.get_from rp1_rust.Base.Bytes.get_range
    rp1_rust.Base.Bytes.get_to rp1_rust.Base.Bytes.u16_from_le rp1_rust.Base.Bytes.u32_from_le
    rp1_rust.Base.Bytes.u64_from_le rp1_rust.Protocol.Decode.check_error_id
    rp1_rust.Protocol.Decode.check_operation_request rp1_rust.Protocol.Decode.conclude
    rp1_rust.Protocol.Decode.decode_from rp1_rust.Protocol.Decode.is_handshake
    rp1_rust.Protocol.Decode.read_payload rp1_rust.Protocol.Decode.responder_terminal
    rp1_rust.Protocol.Decode.retires_for rp1_rust.Protocol.Decode.step_for
    rp1_rust.Protocol.Header.get_byte rp1_rust.Protocol.Read.read_u16_le
    rp1_rust.Protocol.Read.read_u32_le rp1_rust.Protocol.Read.read_u64_le
    rp1_rust.Protocol.Region.is_required rp1_rust.Protocol.Types.error_class_from_wire
    rp1_rust.Protocol.Types.result_code_from_wire rp1_rust.Protocol.Types.scope_of_class
read_decodes = refl

read_allowed : check_connection_state ConnectionState.negotiated Kind.request 3 ≡ ok tt
unfolding check_connection_state
read_allowed = refl

read_correlates : correlate Kind.request 3 7 (5 ∷ []) ≡ ok (Correlation.operation_request 3)
unfolding correlate rp1_rust.Base.contains rp1_rust.Protocol.Types.is_assigned
read_correlates = refl

entry-IsOptional : IsOptional (record { identifier = 1; value = 9 ∷ [] })
entry-IsOptional = omega arith

read_IsSendable : IsSendable read_request
read_IsSendable = record {
  code_fits = omega arith;
  id_fits = omega arith;
  identifiers_fit = (omega arith, tt);
  optional = (entry-IsOptional, tt);
}

decode-encode_with_max_example :
    (frame : Frame) × (decode (read_bytes ++ []) at_server ≡ Step.frame frame)
    × IsReceived read_request read_bytes
        (Correlation.operation_request 3)
        (Payload.opaque (107 ∷ []))
        frame
unfolding rp1_rust.Protocol.Types.sender
decode-encode_with_max_example =
    decode-encode_with_max read_request 65536 4096 read_bytes [] at_server
      (Correlation.operation_request 3) (Payload.opaque (107 ∷ [])) read_IsSendable read_encodes
      (omega arith) (omega arith) refl read_allowed read_correlates
      (Carries.key_alone 3 (107 ∷ []) (inl refl))

decode-IsOutcome_example : IsOutcome read_bytes at_server (decode read_bytes at_server)
decode-IsOutcome_example = decode-IsOutcome read_bytes at_server

read_IsSettled : IsSettled (decode read_bytes at_server)
read_IsSettled = rw read_decodes tt

decode-append_example : decode (read_bytes ++ read_bytes) at_server ≡ decode read_bytes at_server
decode-append_example = decode-append read_bytes read_bytes at_server read_IsSettled

decode-prefix_example : (n : ℕ) × (decode read_front at_server ≡ Step.need n) × (n ≤ 26)
decode-prefix_example =
    decode-prefix read_front read_back at_server read_frame read_decodes (omega arith)

decode-IsCorrelated_example : IsCorrelated (5 ∷ []) 3 7 0 Kind.request
decode-IsCorrelated_example = decode-IsCorrelated read_bytes at_server read_frame read_decodes

decode-IsAllowed_example : IsAllowed ConnectionState.negotiated Kind.request 3
decode-IsAllowed_example = decode-IsAllowed read_bytes at_server read_frame read_decodes
