-- ===== src/Protocol/RoundTrip/Layouts.antt =====
-- src/protocol.rs: the payload layouts, as written and as read.
use rp1_rust.Base.{ℕ, ◌+◌, ◌<◌, ◌≡◌, ◌⊎◌, refl, [], ◌++◌, arith, length, length-append}
use rp1_rust.Base.Bytes.{Bytes, u32_end, u64_end, u32_to_le}
use rp1_rust.Base.Result.{ok}
use rp1_rust.Protocol.Types.{
  ResultCode, FailureScope, ping_opcode, set_opcode, get_opcode, del_opcode, exists_opcode,
}
use rp1_rust.Base.Slices.{get_from-append, get_to-append}
use rp1_rust.Protocol.Frame.{Payload, OutgoingPayload, Correlation}
use rp1_rust.Protocol.Encode.{encode_payload}
use rp1_rust.Protocol.Decode.{read_payload, check_operation_request}

-- The payload that a receiver reads where a sender wrote another, by the correlation of the frame.
pub data Carries : Correlation → OutgoingPayload → Payload → Type 0 where
  handshake :
      (bytes : Bytes)
      → Carries Correlation.handshake_request (OutgoingPayload.opaque bytes) (Payload.opaque bytes)
  success :
      (bytes : Bytes)
      → Carries
          (Correlation.response ResultCode.success)
          (OutgoingPayload.opaque bytes)
          (Payload.opaque bytes)
  absent :
      Carries
        (Correlation.response ResultCode.absent)
        (OutgoingPayload.opaque [])
        (Payload.opaque [])
  held :
      (n : ℕ)
      → n < u64_end
      → Carries
          (Correlation.response ResultCode.value_held_outside_memory)
          (OutgoingPayload.warm n)
          (Payload.warm n)
  error :
      (scope : FailureScope) (detail text : Bytes)
      → Carries
          (Correlation.error scope)
          (OutgoingPayload.error detail text)
          (Payload.error detail text)
  ping :
      (opcode : ℕ)
      → opcode ≡ ping_opcode
      → Carries
          (Correlation.operation_request opcode)
          (OutgoingPayload.opaque [])
          (Payload.opaque [])
  key_alone :
      (opcode : ℕ) (bytes : Bytes)
      → (opcode ≡ get_opcode) ⊎ (opcode ≡ del_opcode) ⊎ (opcode ≡ exists_opcode)
      → Carries
          (Correlation.operation_request opcode)
          (OutgoingPayload.opaque bytes)
          (Payload.opaque bytes)
  key_value :
      (opcode : ℕ) (bytes key value : Bytes)
      → opcode ≡ set_opcode
      → length key < u32_end
      → bytes ≡ u32_to_le (length key) ++ (key ++ value)
      → Carries
          (Correlation.operation_request opcode)
          (OutgoingPayload.opaque bytes)
          (Payload.opaque bytes)

pub set-read :
    (key value : Bytes)
    → length key < u32_end
    → check_operation_request set_opcode
        (4 + length (key ++ value))
        (u32_to_le (length key) ++ (key ++ value))
      ≡ ok (Payload.opaque (u32_to_le (length key) ++ (key ++ value)))
unfolding check_operation_request u32_to_le
set-read key value h = ground (arith, length-append key value)

error-read :
    (scope : FailureScope) (detail text bytes : Bytes)
    → encode_payload (OutgoingPayload.error detail text) ≡ ok bytes
    → read_payload (Correlation.error scope) (length bytes) bytes ≡ ok (Payload.error detail text)
unfolding encode_payload read_payload
error-read scope detail text bytes h = ground (
  arith,
  get_to-append detail text (length detail) refl,
  get_from-append detail text (length detail) refl,
)

pub Carries-read :
    {c : Correlation} {o : OutgoingPayload} {p : Payload} (bytes : Bytes)
    → Carries c o p
    → encode_payload o ≡ ok bytes
    → read_payload c (length bytes) bytes ≡ ok p
unfolding read_payload
Carries-read bytes (handshake b) h = unfold encode_payload in ground arith
Carries-read bytes (success b) h = unfold encode_payload in ground arith
Carries-read bytes absent h = unfold encode_payload in ground arith
Carries-read bytes (held n fits) h = unfold encode_payload u32_to_le in ground arith
Carries-read bytes (error scope detail text) h = error-read scope detail text bytes h
Carries-read bytes (ping opcode e) h = unfold encode_payload in ground arith
Carries-read bytes (key_alone opcode b e) h = unfold encode_payload in ground arith
Carries-read bytes (key_value opcode b key value e fits whole) h =
    unfold encode_payload in ground (arith, set-read key value fits)
