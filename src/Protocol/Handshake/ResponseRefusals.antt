-- ===== src/Protocol/Handshake/ResponseRefusals.antt =====
-- The handshake response of src/protocol.rs: what its decoder refuses, and with which failure.
use rp1_rust.Base.{
  ℕ, ◌≤◌, ◌<◌, ◌≡◌, ◌↔◌, refl, some, List, [], ◌∷◌, All, arith, Option-cases, inl, inr, sym, ap,
  ◌∙◌, length, ◌⊎◌,
}
use rp1_rust.Base.Bytes.{Bytes, IsByte, u16_end, u32_end}
use rp1_rust.Base.Result.{ok, err, FailsWith, fails_rules}
use rp1_rust.Protocol.Types.{
  Failure, highest_header_version, minimum_negotiated_frame_size, minimum_negotiated_metadata_size,
}
use rp1_rust.Protocol.Failure
use rp1_rust.Protocol.Region.{Entry, parse_entries, check_ascending}
use rp1_rust.Protocol.Region.RoundTrip.{IsEntry, parse_entries-exact, parse_entries-encode}
use rp1_rust.Protocol.Region.Order.{IsAscending, check_ascending_iff, check_ascending-fails}
use rp1_rust.Protocol.Handshake.{
  HandshakeOffer, HandshakeResponse, decode_response, encode_response, contains_version,
  check_offered,
}
use rp1_rust.Protocol.Handshake.Bytes10.{Head, Head-of}
use rp1_rust.Base.Result.{Result-cases}
use rp1_rust.Protocol.Handshake.ResponseExact.{
  IsOffered, check_offered_iff, spelled, encode_response-spelled,
}

check_offered-fails :
    (offer : HandshakeOffer) (entries : List Entry) (failure : Failure)
    → check_offered offer entries ≡ err failure
    → failure ≡ Failure.protocol_violation
unfolding check_offered
check_offered-fails offer [] failure h = cc
check_offered-fails offer (x ∷ xs) failure h = ground (arith, check_offered-fails offer xs failure)

-- The two failures that the decoder knows.
abbrev pub IsRefusal : Failure → Type 0
IsRefusal failure = (failure ≡ Failure.malformed_request) ⊎ (failure ≡ Failure.protocol_violation)

refuses_malformed : IsRefusal Failure.malformed_request
refuses_malformed = inl refl

ascending-IsRefusal : (entries : List Entry) → FailsWith IsRefusal (check_ascending entries)
ascending-IsRefusal entries = record { at = λ e h. inl (check_ascending-fails entries e h) }

offered-IsRefusal :
    (offer : HandshakeOffer) (entries : List Entry)
    → FailsWith IsRefusal (check_offered offer entries)
offered-IsRefusal offer entries = record { at = λ e h. inr (check_offered-fails offer entries e h) }

decode_response-IsRefusal :
    (payload : Bytes) (offer : HandshakeOffer) → FailsWith IsRefusal (decode_response payload offer)
unfolding decode_response
decode_response-IsRefusal payload offer =
    search (fails_rules, refuses_malformed, ascending-IsRefusal, offered-IsRefusal) depth 30

-- A response that names a capability outside the offer, and is in order otherwise.
pub record IsUnoffered (offer : HandshakeOffer) (response : HandshakeResponse) : Type 0 where
  pub version_offered_low : offer.minimum_protocol_version ≤ response.negotiated_protocol_version
  pub version_offered_high : response.negotiated_protocol_version ≤ offer.maximum_protocol_version
  pub version_in_header : response.negotiated_protocol_version ≤ highest_header_version
  pub frame_size_fits : response.negotiated_maximum_frame_size < u32_end
  pub frame_size_floor : minimum_negotiated_frame_size ≤ response.negotiated_maximum_frame_size
  pub metadata_size_fits : response.negotiated_maximum_metadata_size < u16_end
  pub metadata_size_floor :
      minimum_negotiated_metadata_size ≤ response.negotiated_maximum_metadata_size
  pub count_fits : response.accepted_capability_count < u16_end
  pub counted : response.accepted_capability_count ≡ length response.accepted_capability_entries
  pub ascending : IsAscending response.accepted_capability_entries
  pub entries_fit : All IsEntry response.accepted_capability_entries
  pub unoffered : ¬ All (IsOffered offer) response.accepted_capability_entries

-- What the tests of the decoder leave where the offer is the only one that fails.
record Refused (offer : HandshakeOffer) (entries : List Entry) (response : HandshakeResponse)
    : Type 0 where
  sorted : check_ascending entries ≡ ok tt
  refused : check_offered offer entries ≡ err Failure.protocol_violation
  count : response.accepted_capability_count ≡ length entries
  low : offer.minimum_protocol_version ≤ response.negotiated_protocol_version
  high : response.negotiated_protocol_version ≤ offer.maximum_protocol_version
  header : response.negotiated_protocol_version ≤ highest_header_version
  frame_floor : minimum_negotiated_frame_size ≤ response.negotiated_maximum_frame_size
  metadata_floor : minimum_negotiated_metadata_size ≤ response.negotiated_maximum_metadata_size

violation_tests :
    (a b c d e f g h i j : ℕ) (tail : Bytes) (offer : HandshakeOffer)
    → decode_response (a ∷ b ∷ c ∷ d ∷ e ∷ f ∷ g ∷ h ∷ i ∷ j ∷ tail) offer
      ≡ err Failure.protocol_violation
    → (entries : List Entry) × (parse_entries tail ≡ some entries)
      × Refused offer entries (spelled a b c d e f g h i j entries)
unfolding decode_response contains_version
violation_tests a b c d e f g h i j tail offer refused = elim (Option-cases (parse_entries tail)) [
  | inl n ↦ ground arith
  | inr (entries, p) ↦ elim (Result-cases (check_ascending entries)) [
    | inr (failure, s) ↦ let other = check_ascending-fails entries failure s in ground arith
    | inl (u, s) ↦ elim (Result-cases (check_offered offer entries)) [
      | inl (v, o) ↦ ground arith
      | inr (failure, o) ↦
          let same = check_offered-fails offer entries failure o in (entries, p, ground arith)
    ]
  ]
]

refused-long :
    (payload : Bytes) (offer : HandshakeOffer)
    → decode_response payload offer ≡ err Failure.protocol_violation
    → 10 ≤ length payload
unfolding decode_response
refused-long payload offer refused = ground arith

check_offered-refuses :
    (offer : HandshakeOffer) (entries : List Entry)
    → ¬ All (IsOffered offer) entries
    → check_offered offer entries ≡ err Failure.protocol_violation
check_offered-refuses offer entries unoffered = elim (Result-cases (check_offered offer entries)) [
  | inl (u, o) ↦ absurd (unoffered ((check_offered_iff offer entries).0 o))
  | inr (failure, o) ↦ o ∙ ap err (check_offered-fails offer entries failure o)
]

refused-unoffered :
    (offer : HandshakeOffer) (entries : List Entry)
    → check_offered offer entries ≡ err Failure.protocol_violation
    → ¬ All (IsOffered offer) entries
refused-unoffered offer entries refused all =
    let passed = (check_offered_iff offer entries).1 all in cc

spelled-IsUnoffered :
    (a b c d e f g h i j : ℕ) (tail : Bytes) (entries : List Entry) (offer : HandshakeOffer)
    → All IsByte (a ∷ b ∷ c ∷ d ∷ e ∷ f ∷ g ∷ h ∷ i ∷ j ∷ tail)
    → Refused offer entries (spelled a b c d e f g h i j entries)
    → All IsEntry entries
    → IsUnoffered offer (spelled a b c d e f g h i j entries)
spelled-IsUnoffered a b c d e f g h i j tail entries offer bytes tests fit = record {
  version_offered_low = tests.low;
  version_offered_high = tests.high;
  version_in_header = tests.header;
  frame_size_fits = omega arith;
  frame_size_floor = tests.frame_floor;
  metadata_size_fits = omega arith;
  metadata_size_floor = tests.metadata_floor;
  count_fits = omega arith;
  counted = tests.count;
  ascending = (check_ascending_iff entries).0 tests.sorted;
  entries_fit = fit;
  unoffered = refused-unoffered offer entries tests.refused;
}

refused-inv :
    (payload : Bytes) (offer : HandshakeOffer)
    → All IsByte payload
    → Head payload
    → decode_response payload offer ≡ err Failure.protocol_violation
    → (response : HandshakeResponse) × (payload ≡ encode_response response)
      × IsUnoffered offer response
refused-inv payload offer bytes head refused =
    let record {
      a = a;
      b = b;
      c = c;
      d = d;
      e = e;
      f = f;
      g = g;
      h = h;
      i = i;
      j = j;
      tail = tail;
      whole = whole;
    } =
      head in
    let spelled_bytes : All IsByte (a ∷ b ∷ c ∷ d ∷ e ∷ f ∷ g ∷ h ∷ i ∷ j ∷ tail) =
      rw whole at bytes in
    let (entries, parsed, tests) =
      violation_tests a b c d e f g h i j tail offer (rw whole at refused) in
    let (encoded, fit) =
      (parse_entries-exact tail entries spelled_bytes.1.1.1.1.1.1.1.1.1.1).0 parsed in
    (
      spelled a b c d e f g h i j entries,
      whole
          ∙ sym (
              encode_response-spelled a b c d e f g h i j tail entries spelled_bytes encoded
                tests.count),
      spelled-IsUnoffered a b c d e f g h i j tail entries offer spelled_bytes tests fit,
    )

unoffered-refused :
    (offer : HandshakeOffer) (response : HandshakeResponse)
    → IsUnoffered offer response
    → decode_response (encode_response response) offer ≡ err Failure.protocol_violation
unfolding decode_response encode_response contains_version
unoffered-refused offer response h = ground (
  arith,
  h.counted,
  parse_entries-encode response.accepted_capability_entries h.entries_fit,
  (check_ascending_iff response.accepted_capability_entries).1 h.ascending,
  check_offered-refuses offer response.accepted_capability_entries h.unoffered,
)

-- On bytes, the decoder refuses as a protocol violation exactly the encodings of responses that name a
-- capability outside the offer and are in order otherwise: their fields fit their widths, their
-- version lies in the offered range and in the header's width, their bounds are not below their
-- floors, their count is that of the entries and their identifiers strictly ascend. Whatever else it
-- refuses is a malformed request.
pub decode_response-refuses :
    (payload : Bytes) (offer : HandshakeOffer)
    → All IsByte payload
    → ((decode_response payload offer ≡ err Failure.protocol_violation) ↔ (
        (response : HandshakeResponse) × (payload ≡ encode_response response)
        × IsUnoffered offer response))
      × ((failure : Failure)
          → decode_response payload offer ≡ err failure
          → (failure ≡ Failure.malformed_request) ⊎ (failure ≡ Failure.protocol_violation))
decode_response-refuses payload offer bytes = (
  (
    λ refused.
        refused-inv payload offer bytes (Head-of payload (refused-long payload offer refused))
          refused,
    λ (response, same, h). rw same (unoffered-refused offer response h),
  ),
  λ failure refused. (decode_response-IsRefusal payload offer).at failure refused,
)
