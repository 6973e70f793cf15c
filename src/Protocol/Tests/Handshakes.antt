-- ===== src/Protocol/Tests/Handshakes.antt =====
-- src/protocol.rs: runs of the handshake payloads.
use rp1_rust.Base.{
  ℕ, refl, List, [], ◌∷◌, ◌++◌, ◌≡◌, ◌⊎◌, ◌↔◌, inl, inr, All, arith, ◌≤◌, ◌<◌, Option, some, none,
}
use rp1_rust.Base.Bytes.{Bytes, IsByte}
use rp1_rust.Base.Result.{ok, err}
use rp1_rust.Protocol.Types.{Failure}
use rp1_rust.Protocol.Failure
use rp1_rust.Protocol.Region.{Entry}
use rp1_rust.Protocol.Handshake.{
  HandshakeOffer, HandshakeRequest, HandshakeResponse, decode_request, encode_request,
  decode_response, encode_response, new_request, highest_mutual_version,
}
use rp1_rust.Protocol.Handshake.RequestExact.{IsRequest, decode_request-exact}
use rp1_rust.Protocol.Handshake.ResponseExact.{IsResponse, decode_response-exact}
use rp1_rust.Protocol.Handshake.ResponseRefusals.{IsUnoffered, decode_response-refuses}
use rp1_rust.Protocol.Handshake.Versions.{IsIn, Names, highest_mutual_version-greatest}

-- Versions 0 to 2, and one capability.
abbrev two_versions : HandshakeRequest
two_versions = record {
  client_maximum_protocol_version = 2;
  client_minimum_protocol_version = 0;
  client_desired_maximum_frame_size = 65536;
  capability_count = 1;
  capability_entries = record { identifier = 3; value = 8 ∷ [] } ∷ [];
}

abbrev request_bytes : Bytes
request_bytes = 2 ∷ 0 ∷ 0 ∷ 0 ∷ 0 ∷ 0 ∷ 1 ∷ 0 ∷ 1 ∷ 0 ∷ 3 ∷ 0 ∷ 1 ∷ 0 ∷ 8 ∷ []

abbrev offer : HandshakeOffer
offer = record {
  minimum_protocol_version = 0;
  maximum_protocol_version = 2;
  capability_ids = 3 ∷ [];
}

abbrev agreed : HandshakeResponse
agreed = record {
  negotiated_protocol_version = 1;
  negotiated_maximum_frame_size = 65536;
  negotiated_maximum_metadata_size = 4096;
  accepted_capability_count = 1;
  accepted_capability_entries = record { identifier = 3; value = 8 ∷ [] } ∷ [];
}

abbrev response_bytes : Bytes
response_bytes = 1 ∷ 0 ∷ 0 ∷ 0 ∷ 1 ∷ 0 ∷ 0 ∷ 16 ∷ 1 ∷ 0 ∷ 3 ∷ 0 ∷ 1 ∷ 0 ∷ 8 ∷ []

request_bytes-IsByte : All IsByte request_bytes
request_bytes-IsByte = grind arith

response_bytes-IsByte : All IsByte response_bytes
response_bytes-IsByte = grind arith

request_decodes : decode_request request_bytes ≡ ok two_versions
unfolding decode_request rp1_rust.Protocol.Region.parse_entries rp1_rust.Protocol.Region.parse_loop
    rp1_rust.Protocol.Region.parse_entry rp1_rust.Protocol.Region.check_ascending
    rp1_rust.Protocol.Region.check_ascending_from
request_decodes = refl

response_decodes : decode_response response_bytes offer ≡ ok agreed
unfolding decode_response rp1_rust.Protocol.Region.parse_entries rp1_rust.Protocol.Region.parse_loop
    rp1_rust.Protocol.Region.parse_entry rp1_rust.Protocol.Region.check_ascending
    rp1_rust.Protocol.Region.check_ascending_from rp1_rust.Protocol.Handshake.contains_version
    rp1_rust.Protocol.Handshake.check_offered rp1_rust.Base.contains
response_decodes = refl

decode_request-exact_example :
    (decode_request request_bytes ≡ ok two_versions)
    ↔ ((request_bytes ≡ encode_request two_versions) × IsRequest two_versions)
decode_request-exact_example = decode_request-exact request_bytes two_versions request_bytes-IsByte

decode_response-exact_example :
    (decode_response response_bytes offer ≡ ok agreed)
    ↔ ((response_bytes ≡ encode_response agreed) × IsResponse offer agreed)
decode_response-exact_example =
    decode_response-exact response_bytes offer agreed response_bytes-IsByte

-- An offer without a capability.
abbrev bare_offer : HandshakeOffer
bare_offer = record offer { capability_ids = [] }

decode_response-refuses_example :
    ((decode_response response_bytes bare_offer ≡ err Failure.protocol_violation) ↔ (
      (response : HandshakeResponse) × (response_bytes ≡ encode_response response)
      × IsUnoffered bare_offer response))
    × ((failure : Failure)
        → decode_response response_bytes bare_offer ≡ err failure
        → (failure ≡ Failure.malformed_request) ⊎ (failure ≡ Failure.protocol_violation))
decode_response-refuses_example =
    decode_response-refuses response_bytes bare_offer response_bytes-IsByte

two_versions_best : highest_mutual_version two_versions (0 ∷ 2 ∷ 3 ∷ []) ≡ some 2
unfolding highest_mutual_version
two_versions_best = refl

highest_mutual_version-greatest_example :
    IsIn 2 (0 ∷ 2 ∷ 3 ∷ [])
    × Names two_versions 2
    × ((version : ℕ) → IsIn version (0 ∷ 2 ∷ 3 ∷ []) → Names two_versions version → version ≤ 2)
highest_mutual_version-greatest_example =
    highest_mutual_version-greatest two_versions (0 ∷ 2 ∷ 3 ∷ []) 2 two_versions_best
