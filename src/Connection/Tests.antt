-- ===== src/Connection/Tests.antt =====
-- src/connection/mod.rs: runs of the encoding of requests and of the answer to the handshake.
use rp1_rust.Base.{refl, [], ◌∷◌, ◌≡◌, arith, All}
use rp1_rust.Base.Bytes.{Bytes, IsByte}
use rp1_rust.Base.Result.{ok, err}
use rp1_rust.Protocol.Types.{Kind}
use rp1_rust.Protocol.Frame.{Frame, Payload}
use rp1_rust.Connection.{Caps, Negotiated, CommandError, encode_request, interpret_response}

abbrev two_bytes : Bytes
two_bytes = 107 ∷ 108 ∷ []

-- The same request under a bound of 21 bytes.
encode_request-bound :
    encode_request 3 two_bytes 7 21 4096 ≡ err (CommandError.local_limit_exceeded 22 21)
unfolding encode_request rp1_rust.Protocol.Encode.checked_metadata_length
    rp1_rust.Protocol.Encode.encode_payload
encode_request-bound = refl

-- Version 0, the floors, no capability.
abbrev floors : Bytes
floors = 0 ∷ 0 ∷ 0 ∷ 0 ∷ 1 ∷ 0 ∷ 0 ∷ 16 ∷ 0 ∷ 0 ∷ []

abbrev floors_frame : Frame
floors_frame = record {
  header = record {
    version = 0;
    kind = Kind.response;
    flags = 0;
    code = 0;
    metadata_length = 0;
    payload_length = 10;
    request_id = 1;
  };
  metadata = [];
  payload = Payload.opaque floors;
  retires = 1;
}

abbrev floor_caps : Caps
floor_caps = record { local_maximum_frame_size = 65536; local_maximum_metadata_size = 4096 }

abbrev at_floors : Negotiated
at_floors = record {
  protocol_version = 0;
  maximum_frame_size = 65536;
  maximum_metadata_size = 4096;
  accepted_capabilities = [];
  local_caps = floor_caps;
}

floors-IsByte : All IsByte floors
floors-IsByte = grind arith

floors_interpreted : interpret_response floors_frame floor_caps ≡ ok at_floors
unfolding interpret_response rp1_rust.Protocol.Region.parse_entries
    rp1_rust.Protocol.Region.parse_loop rp1_rust.Protocol.Region.check_ascending
    rp1_rust.Protocol.Region.check_ascending_from rp1_rust.Protocol.Handshake.contains_version
    rp1_rust.Protocol.Handshake.check_offered
floors_interpreted = refl
