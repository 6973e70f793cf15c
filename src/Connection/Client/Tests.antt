-- ===== src/Connection/Client/Tests.antt =====
-- src/connection/mod.rs: runs of the commands of a connection.
use rp1_rust.Base.{ℕ, ◌≡◌, refl, sym, ◌∙◌, some, none, [], ◌∷◌, ◌++◌, arith, length}
use rp1_rust.Base.Bytes.{Bytes}
use rp1_rust.Base.Result.{ok, err}
use rp1_rust.Protocol.Types.{Admission, Role, ConnectionState, Kind, pre_negotiation_limits}
use rp1_rust.Protocol.Frame.{Frame, Step, Payload}
use rp1_rust.Protocol.Decode.{decode}
use rp1_rust.Command.{GetOutcome, interpret_get}
use rp1_rust.Lifecycle.{Lifecycle}
use rp1_rust.Session.{Session, DrainStep, find, drain_one, admission_of}
use rp1_rust.Session.Invariant.{settled}
use rp1_rust.Driver.{new_driver}
use rp1_rust.Connection.{Negotiated, CommandError, encode_request}
use rp1_rust.Connection.Establish.{
  Shared, effective_maximum_frame_size, effective_maximum_metadata_size,
}
use rp1_rust.Connection.Client.{Completion, submit, execute, finish, get, ping, decode_own}
use rp1_rust.Connection.Client.Served.{
  IsServing, IsServer, next_id, moved_on, execute-submits, get-served,
}
use rp1_rust.Connection.Client.Delivered.{SameLimits, drain_one-decode_own}

abbrev at_floors : Negotiated
at_floors = record {
  protocol_version = 0;
  maximum_frame_size = 65536;
  maximum_metadata_size = 4096;
  accepted_capabilities = [];
  local_caps = record { local_maximum_frame_size = 65536; local_maximum_metadata_size = 4096 };
}

abbrev serving : Shared
serving = record {
  negotiated = at_floors;
  maximum_in_flight = 2;
  permits = 2;
  allocator = record { next = 9 };
  limits = pre_negotiation_limits;
  driver = new_driver;
}

-- The success response to request 9, with the payload byte 7.
abbrev response_nine : Bytes
response_nine =
    0 ∷ 2 ∷ 0 ∷ 0 ∷ 0 ∷ 0 ∷ 0 ∷ 0 ∷ 1 ∷ 0 ∷ 0 ∷ 0 ∷ 9 ∷ 0 ∷ 0 ∷ 0 ∷ 0 ∷ 0 ∷ 0 ∷ 0 ∷ 7 ∷ []

abbrev serve_nine : ℕ → Bytes → Completion
serve_nine id bytes = Completion.answered (ok response_nine)

serving-IsServing : IsServing serving 2
unfolding effective_maximum_frame_size
serving-IsServing = record {
  usable = refl;
  admits = refl;
  more_permits = 1;
  permits = refl;
  next_fits = omega arith;
  within = omega arith;
  size_fits = omega arith;
}

get-present :
    get serve_nine serving (107 ∷ 108 ∷ [])
    ≡ some (ok (GetOutcome.present (7 ∷ [])), record serving { allocator = record { next = 10 } })
unfolding get effective_maximum_frame_size rp1_rust.Command.encode_key
    rp1_rust.Protocol.Encode.checked_metadata_length effective_maximum_metadata_size
    rp1_rust.Protocol.Encode.encode_payload rp1_rust.Protocol.Encode.write_metadata decode
    rp1_rust.Protocol.Decode.admit rp1_rust.Protocol.Header.parse_header
    rp1_rust.Protocol.Types.kind_from_wire rp1_rust.Protocol.Header.total_length
    rp1_rust.Protocol.Decode.usize_from rp1_rust.Protocol.Region.parse_entries
    rp1_rust.Protocol.Region.parse_loop rp1_rust.Protocol.Types.sender
    rp1_rust.Protocol.Decode.check_admitted rp1_rust.Protocol.Decode.check_connection_state
    rp1_rust.Protocol.Decode.correlate rp1_rust.Base.contains
    rp1_rust.Protocol.Types.result_code_from_wire rp1_rust.Protocol.Region.check_metadata_order
    rp1_rust.Protocol.Region.check_metadata_order_from rp1_rust.Protocol.Decode.read_payload
    interpret_get
get-present = refl

ping-no_permit : ping serve_nine (record serving { permits = 0 }) ≡ none
unfolding ping effective_maximum_frame_size rp1_rust.Command.encode_ping
ping-no_permit = refl

abbrev closing_handle : Shared
closing_handle = record serving { driver = record new_driver { state = Lifecycle.closing } }

ping-closing : ping serve_nine closing_handle ≡ some (err CommandError.closed, closing_handle)
unfolding ping
ping-closing = refl

abbrev at_server : Admission
at_server = record {
  role = Role.server;
  state = ConnectionState.negotiated;
  limits = pre_negotiation_limits;
  in_flight = 4 ∷ [];
}

serving-IsServer : IsServer serving at_server
unfolding effective_maximum_frame_size effective_maximum_metadata_size rp1_rust.Base.contains
    rp1_rust.Dispatch.allocate
serving-IsServer = record {
  role = refl;
  state = refl;
  frame_bound = omega arith;
  metadata_bound = omega arith;
  id_free = refl;
}

execute-submits_example :
    (bytes : Bytes) × (encode_request 3
        (107 ∷ 108 ∷ [])
        (next_id serving)
        (effective_maximum_frame_size serving)
        (effective_maximum_metadata_size serving)
      ≡ ok bytes)
    × (execute serve_nine 3 (107 ∷ 108 ∷ []) serving
        ≡ some (record {
          result = submit (serve_nine (next_id serving) bytes);
          shared = moved_on serving;
        }))
execute-submits_example = execute-submits serve_nine 3 (107 ∷ 108 ∷ []) serving serving-IsServing

get-served_example :
    (bytes : Bytes) × (frame : Frame) × (decode (bytes ++ (5 ∷ [])) at_server ≡ Step.frame frame)
    × (frame.header.code ≡ 3)
    × (frame.header.request_id ≡ next_id serving)
    × (frame.payload ≡ Payload.opaque (107 ∷ 108 ∷ []))
    × (get serve_nine serving (107 ∷ 108 ∷ [])
        ≡ some (
          finish interpret_get (record {
            result = submit (serve_nine (next_id serving) bytes);
            shared = moved_on serving;
          }),
          moved_on serving,
        ))
get-served_example =
    get-served serve_nine serving (107 ∷ 108 ∷ []) (5 ∷ []) at_server serving-IsServing
      serving-IsServer

-- Two requests, 4 and 9, whose waiters are 40 and 90, and the response to 9 with a byte more.
abbrev two_waiting : Session
two_waiting = record {
  buffer = response_nine ++ (0 ∷ []);
  completions = (4, 40) ∷ (9, 90) ∷ [];
  live = record { live = 4 ∷ 9 ∷ [] };
  delivered = [];
}

abbrev frame_nine : Frame
frame_nine = record {
  header = record {
    version = 0;
    kind = Kind.response;
    flags = 0;
    code = 0;
    metadata_length = 0;
    payload_length = 1;
    request_id = 9;
  };
  metadata = [];
  payload = Payload.opaque (7 ∷ []);
  retires = 9;
}

nine-decodes :
    decode two_waiting.buffer (admission_of two_waiting pre_negotiation_limits)
    ≡ Step.frame frame_nine
unfolding decode rp1_rust.Protocol.Decode.admit rp1_rust.Protocol.Header.parse_header
    rp1_rust.Protocol.Types.kind_from_wire rp1_rust.Protocol.Header.total_length
    rp1_rust.Protocol.Decode.usize_from rp1_rust.Protocol.Region.parse_entries
    rp1_rust.Protocol.Region.parse_loop rp1_rust.Protocol.Types.sender
    rp1_rust.Protocol.Decode.check_admitted rp1_rust.Protocol.Decode.check_connection_state
    rp1_rust.Protocol.Decode.correlate rp1_rust.Base.contains
    rp1_rust.Protocol.Types.result_code_from_wire rp1_rust.Protocol.Region.check_metadata_order
    rp1_rust.Protocol.Region.check_metadata_order_from rp1_rust.Protocol.Decode.read_payload
    rp1_rust.Base.Bytes.checked_add rp1_rust.Base.Bytes.get_from rp1_rust.Base.Bytes.get_range
    rp1_rust.Base.Bytes.get_to rp1_rust.Base.Bytes.u16_from_le rp1_rust.Base.Bytes.u32_from_le
    rp1_rust.Base.Bytes.u64_from_le rp1_rust.Protocol.Decode.check_error_id
    rp1_rust.Protocol.Decode.check_operation_request rp1_rust.Protocol.Decode.conclude
    rp1_rust.Protocol.Decode.decode_from rp1_rust.Protocol.Decode.is_handshake
    rp1_rust.Protocol.Decode.responder_terminal rp1_rust.Protocol.Decode.retires_for
    rp1_rust.Protocol.Decode.step_for rp1_rust.Protocol.Header.get_byte
    rp1_rust.Protocol.Read.read_u16_le rp1_rust.Protocol.Read.read_u32_le
    rp1_rust.Protocol.Read.read_u64_le rp1_rust.Protocol.Region.is_required
    rp1_rust.Protocol.Region.parse_entry rp1_rust.Protocol.Types.error_class_from_wire
    rp1_rust.Protocol.Types.is_assigned rp1_rust.Protocol.Types.scope_of_class
nine-decodes = refl

nine-waits : find two_waiting.completions 9 ≡ some 90
unfolding find
nine-waits = refl

serving-SameLimits : SameLimits serving pre_negotiation_limits
unfolding effective_maximum_frame_size effective_maximum_metadata_size
serving-SameLimits = record { frame_size = refl; metadata_size = refl }

drain_one-decode_own_example :
    (taken rest : Bytes) × (two_waiting.buffer ≡ taken ++ rest)
    × (drain_one pre_negotiation_limits two_waiting
        ≡ DrainStep.again (settled (record two_waiting { buffer = rest }) 9 90 (ok taken)))
    × (decode_own serving taken ≡ ok frame_nine)
drain_one-decode_own_example =
    drain_one-decode_own serving pre_negotiation_limits two_waiting frame_nine 90 serving-SameLimits
      nine-decodes nine-waits
