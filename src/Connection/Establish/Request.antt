-- ===== src/Connection/Establish/Request.antt =====
-- src/connection/mod.rs: the handshake request, and how a server reads it.
use rp1_rust.Base.{
  ℕ, ◌+◌, ◌<◌, ◌≡◌, refl, arith, [], ◌∷◌, ◌++◌, length, length-append, some, inl, inr,
}
use rp1_rust.Base.Bytes.{Bytes, u32_end, u16_to_le, u32_to_le}
use rp1_rust.Base.Result.{ok}
use rp1_rust.Protocol.Types.{Admission, Role, ConnectionState, pre_negotiation_limits}
use rp1_rust.Protocol.Frame.{Frame, Step, Payload, Correlation}
use rp1_rust.Protocol.Encode.{encode, checked_metadata_length, encode_payload, write_metadata}
use rp1_rust.Protocol.Encode.Shape.{header_bytes}
use rp1_rust.Protocol.Handshake.{decode_request, new_request}
use rp1_rust.Protocol.Handshake
use rp1_rust.Protocol.Handshake.RequestExact.{IsRequest, decode_request-encode}
use rp1_rust.Protocol.Decode.{decode}
use rp1_rust.Protocol.Region.{encode_entries}
use rp1_rust.Protocol.RoundTrip.{decode-encode_with_max, length-header_bytes}
use rp1_rust.Protocol.RoundTrip.Layouts.{Carries}
use rp1_rust.Connection.Config.{ConnectionConfig}
use rp1_rust.Connection.Establish.{
  handshake_outgoing, handshake_request_id, build_handshake_request,
}

abbrev pub handshake_bytes : ConnectionConfig → ℕ → Bytes
handshake_bytes config id =
    header_bytes (handshake_outgoing config id) 0 10
    ++ Handshake.encode_request (new_request 0 0 config.desired_maximum_frame_size [])

handshake-encodes :
    (config : ConnectionConfig) (id : ℕ)
    → encode (handshake_outgoing config id) ≡ ok (handshake_bytes config id)
unfolding encode checked_metadata_length encode_payload write_metadata Handshake.encode_request
    new_request encode_entries
handshake-encodes config id = refl

pub handshake-builds :
    (config : ConnectionConfig) (id : ℕ)
    → build_handshake_request config id ≡ ok (handshake_bytes config id)
unfolding build_handshake_request
handshake-builds config id = rw (handshake-encodes config id) refl

-- `Admission::pre_negotiation` of a server.
abbrev pub new_server : Admission
new_server = record {
  role = Role.server;
  state = ConnectionState.pre_negotiation;
  limits = pre_negotiation_limits;
  in_flight = [];
}

abbrev pub offered : ConnectionConfig → Bytes
offered config = Handshake.encode_request (new_request 0 0 config.desired_maximum_frame_size [])

offered-IsRequest :
    (config : ConnectionConfig)
    → config.desired_maximum_frame_size < u32_end
    → IsRequest (new_request 0 0 config.desired_maximum_frame_size [])
unfolding new_request
offered-IsRequest config fits = record {
  maximum_fits = omega arith;
  minimum_fits = omega arith;
  desired_fits = fits;
  count_fits = omega arith;
  in_order = omega arith;
  counted = refl;
  ascending = tt;
  entries_fit = tt;
}

length-handshake_bytes :
    (config : ConnectionConfig) → length (handshake_bytes config handshake_request_id) ≡ 30
unfolding Handshake.encode_request new_request encode_entries u16_to_le u32_to_le
length-handshake_bytes config = omega (
  arith,
  length-append (header_bytes (handshake_outgoing config handshake_request_id) 0 10)
      (offered config),
  length-header_bytes (handshake_outgoing config handshake_request_id) 0 10,
)

-- The frame size that the configuration proposes fits its 32 bits. The client builds a handshake
-- request of 30 bytes that a server takes before the handshake is done, whatever follows it, and
-- whose payload the server decodes to version 0 alone, the proposed frame size and no capability.
pub build_handshake_request-served :
    (config : ConnectionConfig) (rest : Bytes)
    → config.desired_maximum_frame_size < u32_end
    → (bytes : Bytes) × (build_handshake_request config handshake_request_id ≡ ok bytes)
      × (length bytes ≡ 30)
      × (frame : Frame) × (decode (bytes ++ rest) new_server ≡ Step.frame frame)
      × (payload : Bytes) × (frame.payload ≡ Payload.opaque payload)
      × (frame.header.request_id ≡ handshake_request_id)
      × (decode_request payload ≡ ok (new_request 0 0 config.desired_maximum_frame_size []))
unfolding encode rp1_rust.Protocol.Types.sender rp1_rust.Protocol.Decode.check_connection_state
    rp1_rust.Protocol.Decode.correlate rp1_rust.Base.contains
build_handshake_request-served config rest fits =
    let encoded = handshake-encodes config handshake_request_id in
    let (frame, decoded, received) =
      decode-encode_with_max (handshake_outgoing config handshake_request_id) 65536 4096
        (handshake_bytes config handshake_request_id) rest new_server Correlation.handshake_request
        (Payload.opaque (offered config))
        (record {
          code_fits = omega arith;
          id_fits = omega arith;
          identifiers_fit = tt;
          optional = tt;
        })
        encoded (omega arith) (omega arith) refl refl refl (Carries.handshake (offered config)) in
    (
      handshake_bytes config handshake_request_id,
      handshake-builds config handshake_request_id,
      length-handshake_bytes config,
      frame,
      decoded,
      offered config,
      received.payload_same,
      received.request_id,
      decode_request-encode (new_request 0 0 config.desired_maximum_frame_size [])
          (offered-IsRequest config fits),
    )
