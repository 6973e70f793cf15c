-- ===== src/Protocol/Handshake.antt =====
-- src/protocol.rs: the handshake payloads. A region of capability entries is its list of entries.
pub mod Bytes10
pub mod RequestExact
pub mod ResponseExact
pub mod ResponseRefusals
pub mod Versions
use rp1_rust.Base.{
  ℕ, ◌<◌, Bool, true, false, not, ◌&&◌, Option, some, none, List, [], ◌∷◌, ◌++◌, ◌==◌, ltb, leb,
  if◌then◌else◌, length, contains,
}
use rp1_rust.Base.Bytes.{Bytes, get_from, u16_to_le, u32_to_le, saturate_u16}
use rp1_rust.Base.Result.{Result, ok, err, ◌>>=◌, ◌>>◌, fail_if, ok_or}
use rp1_rust.Protocol.Read.{read_u16_le, read_u32_le}
use rp1_rust.Protocol.Types.{
  Failure, Limits, highest_header_version, minimum_negotiated_frame_size,
  minimum_negotiated_metadata_size,
}
use rp1_rust.Protocol.Failure
use rp1_rust.Protocol.Region.{Entry, parse_entries, encode_entries, check_ascending}

-- The versions and capabilities that an offerer proposes.
pub record HandshakeOffer : Type 0 where
  pub minimum_protocol_version : ℕ
  pub maximum_protocol_version : ℕ
  pub capability_ids : List ℕ

unfoldable pub contains_version : HandshakeOffer → ℕ → Bool
contains_version offer version =
    leb offer.minimum_protocol_version version && leb version offer.maximum_protocol_version

unfoldable pub offers_capability : HandshakeOffer → ℕ → Bool
offers_capability offer identifier = contains offer.capability_ids identifier

pub record HandshakeRequest : Type 0 where
  pub client_maximum_protocol_version : ℕ
  pub client_minimum_protocol_version : ℕ
  pub client_desired_maximum_frame_size : ℕ
  pub capability_count : ℕ
  pub capability_entries : List Entry

-- `HEAD_LENGTH` of the request and of the response.
abbrev pub head_length : ℕ
head_length = 10

-- `HandshakeRequest::new`
unfoldable pub new_request : ℕ → ℕ → ℕ → List Entry → HandshakeRequest
unfolding saturate_u16
new_request maximum minimum desired entries = record {
  client_maximum_protocol_version = maximum;
  client_minimum_protocol_version = minimum;
  client_desired_maximum_frame_size = desired;
  capability_count = saturate_u16 (length entries);
  capability_entries = entries;
}

-- `HandshakeRequest::decode`
unfoldable pub decode_request : Bytes → Result HandshakeRequest Failure
unfolding read_u16_le read_u32_le get_from
decode_request payload = do
  fail_if (ltb (length payload) head_length) Failure.malformed_request
  maximum ← ok_or (read_u16_le payload 0) Failure.malformed_request
  minimum ← ok_or (read_u16_le payload 2) Failure.malformed_request
  desired ← ok_or (read_u32_le payload 4) Failure.malformed_request
  count ← ok_or (read_u16_le payload 8) Failure.malformed_request
  fail_if (ltb maximum minimum) Failure.malformed_request
  tail ← ok_or (get_from payload head_length) Failure.malformed_request
  entries ← ok_or (parse_entries tail) Failure.malformed_request
  check_ascending entries
  fail_if (not (count == length entries)) Failure.malformed_request
  ok (record {
    client_maximum_protocol_version = maximum;
    client_minimum_protocol_version = minimum;
    client_desired_maximum_frame_size = desired;
    capability_count = count;
    capability_entries = entries;
  })

-- `HandshakeRequest::encode`
unfoldable pub encode_request : HandshakeRequest → Bytes
unfolding u16_to_le u32_to_le saturate_u16
encode_request request =
    u16_to_le request.client_maximum_protocol_version
    ++ (u16_to_le request.client_minimum_protocol_version
        ++ (u32_to_le request.client_desired_maximum_frame_size
            ++ (u16_to_le (saturate_u16 (length request.capability_entries))
                ++ encode_entries request.capability_entries)))

-- `Iterator::max` on numbers.
unfoldable pub max_of : List ℕ → Option ℕ
max_of [] = none
max_of (x ∷ xs) = elim (max_of xs) [
  | none ↦ some x
  | some best ↦ some (if leb best x then x else best)
]

unfoldable pub in_range : HandshakeRequest → List ℕ → List ℕ
in_range request [] = []
in_range request (version ∷ versions) =
    let rest = in_range request versions in
    if leb request.client_minimum_protocol_version version
      && leb version request.client_maximum_protocol_version
    then version ∷ rest
    else rest

-- The highest version that the request names and that `supported` has.
unfoldable pub highest_mutual_version : HandshakeRequest → List ℕ → Option ℕ
unfolding max_of in_range
highest_mutual_version request supported = max_of (in_range request supported)

pub record HandshakeResponse : Type 0 where
  pub negotiated_protocol_version : ℕ
  pub negotiated_maximum_frame_size : ℕ
  pub negotiated_maximum_metadata_size : ℕ
  pub accepted_capability_count : ℕ
  pub accepted_capability_entries : List Entry

-- `for entry in entries { if !offer.offers_capability(..) { return Err(..) } }`
unfoldable pub check_offered : HandshakeOffer → List Entry → Result (Unit {0}) Failure
unfolding offers_capability
check_offered offer [] = ok tt
check_offered offer (entry ∷ entries) =
    let rest = check_offered offer entries in
    if not (offers_capability offer entry.identifier) then err Failure.protocol_violation else rest

-- `HandshakeResponse::decode`
unfoldable pub decode_response : Bytes → HandshakeOffer → Result HandshakeResponse Failure
unfolding read_u16_le read_u32_le get_from
decode_response payload offer = do
  fail_if (ltb (length payload) head_length) Failure.malformed_request
  version ← ok_or (read_u16_le payload 0) Failure.malformed_request
  frame_size ← ok_or (read_u32_le payload 2) Failure.malformed_request
  metadata_size ← ok_or (read_u16_le payload 6) Failure.malformed_request
  count ← ok_or (read_u16_le payload 8) Failure.malformed_request
  tail ← ok_or (get_from payload head_length) Failure.malformed_request
  entries ← ok_or (parse_entries tail) Failure.malformed_request
  check_ascending entries
  fail_if (not (count == length entries)) Failure.malformed_request
  fail_if (ltb highest_header_version version) Failure.malformed_request
  fail_if (not (contains_version offer version)) Failure.malformed_request
  fail_if (ltb frame_size minimum_negotiated_frame_size) Failure.malformed_request
  fail_if (ltb metadata_size minimum_negotiated_metadata_size) Failure.malformed_request
  check_offered offer entries
  ok (record {
    negotiated_protocol_version = version;
    negotiated_maximum_frame_size = frame_size;
    negotiated_maximum_metadata_size = metadata_size;
    accepted_capability_count = count;
    accepted_capability_entries = entries;
  })

-- `HandshakeResponse::encode`
unfoldable pub encode_response : HandshakeResponse → Bytes
unfolding u16_to_le u32_to_le saturate_u16
encode_response response =
    u16_to_le response.negotiated_protocol_version
    ++ (u32_to_le response.negotiated_maximum_frame_size
        ++ (u16_to_le response.negotiated_maximum_metadata_size
            ++ (u16_to_le (saturate_u16 (length response.accepted_capability_entries))
                ++ encode_entries response.accepted_capability_entries)))

-- `HandshakeResponse::limits`
unfoldable pub response_limits : HandshakeResponse → Limits
response_limits response = record {
  frame_size = response.negotiated_maximum_frame_size;
  metadata_size = response.negotiated_maximum_metadata_size;
}
