-- ===== src/Protocol/Handshake/ResponseExact.antt =====
-- The handshake response of src/protocol.rs: what its decoder accepts, against the offer.
use rp1_rust.Base.{
  ℕ, ◌≤◌, ◌<◌, ◌≡◌, ◌↔◌, refl, true, some, List, [], ◌∷◌, All, arith, Option-cases, inl, inr, ◌+◌,
  ◌*◌, ◌^◌, sym, length,
}
use rp1_rust.Base.Bytes.{Bytes, IsByte, u16_end, u32_end}
use rp1_rust.Base.Result.{ok}
use rp1_rust.Protocol.Types.{
  highest_header_version, minimum_negotiated_frame_size, minimum_negotiated_metadata_size,
}
use rp1_rust.Protocol.Region.{Entry, parse_entries, encode_entries, check_ascending}
use rp1_rust.Protocol.Region.RoundTrip.{IsEntry, parse_entries-exact, parse_entries-encode}
use rp1_rust.Protocol.Region.Order.{IsAscending, check_ascending_iff}
use rp1_rust.Protocol.Handshake.{
  HandshakeOffer, HandshakeResponse, decode_response, encode_response, offers_capability,
  contains_version, check_offered,
}
use rp1_rust.Protocol.Handshake.Bytes10.{Head, Head-of}

abbrev pub IsOffered : HandshakeOffer → Entry → Type 0
IsOffered offer entry = offers_capability offer entry.identifier ≡ true

-- What a response on the wire can say to an offer.
pub record IsResponse (offer : HandshakeOffer) (response : HandshakeResponse) : Type 0 where
  pub version_offered_low : offer.minimum_protocol_version ≤ response.negotiated_protocol_version
  pub version_offered_high : response.negotiated_protocol_version ≤ offer.maximum_protocol_version
  pub version_in_header : response.negotiated_protocol_version ≤ highest_header_version
  pub frame_size_fits : response.negotiated_maximum_frame_size < u32_end
  pub frame_size_floor : minimum_negotiated_frame_size ≤ response.negotiated_maximum_frame_size
  pub metadata_size_fits : response.negotiated_maximum_metadata_size < u16_end
  pub metadata_size_floor :
      minimum_negotiated_metadata_size ≤ response.negotiated_maximum_metadata_size
  pub count_fits : response.accepted_capability_count < u16_end
  pub counted : response.accepted_capability_count ≡ length response.accepted_capability_entries
  pub ascending : IsAscending response.accepted_capability_entries
  pub entries_fit : All IsEntry response.accepted_capability_entries
  pub offered : All (IsOffered offer) response.accepted_capability_entries

pub check_offered_iff :
    (offer : HandshakeOffer) (entries : List Entry)
    → (check_offered offer entries ≡ ok tt) ↔ All (IsOffered offer) entries
unfolding check_offered
check_offered_iff offer [] = (λ h. tt, λ h. refl)
check_offered_iff offer (x ∷ xs) = (
  λ h. (ground arith, (check_offered_iff offer xs).0 (ground arith)),
  λ h. ground (arith, (check_offered_iff offer xs).1 h.1),
)

decode_response-encode :
    (offer : HandshakeOffer) (response : HandshakeResponse)
    → IsResponse offer response
    → decode_response (encode_response response) offer ≡ ok response
unfolding decode_response encode_response contains_version
decode_response-encode offer response h = ground (
  arith,
  h.counted,
  parse_entries-encode response.accepted_capability_entries h.entries_fit,
  (check_ascending_iff response.accepted_capability_entries).1 h.ascending,
  (check_offered_iff offer response.accepted_capability_entries).1 h.offered,
)

-- The response that ten bytes and a list of entries spell.
abbrev pub spelled : (a b c d e f g h i j : ℕ) → List Entry → HandshakeResponse
spelled a b c d e f g h i j entries = record {
  negotiated_protocol_version = a + 256 * b;
  negotiated_maximum_frame_size = c + 256 * d + 2 ^ 16 * e + 2 ^ 24 * f;
  negotiated_maximum_metadata_size = g + 256 * h;
  accepted_capability_count = i + 256 * j;
  accepted_capability_entries = entries;
}

-- What each test of the decoder leaves when it passes.
record Passed (offer : HandshakeOffer) (entries : List Entry) (response : HandshakeResponse)
    : Type 0 where
  sorted : check_ascending entries ≡ ok tt
  offered : check_offered offer entries ≡ ok tt
  count : response.accepted_capability_count ≡ length entries
  low : offer.minimum_protocol_version ≤ response.negotiated_protocol_version
  high : response.negotiated_protocol_version ≤ offer.maximum_protocol_version
  header : response.negotiated_protocol_version ≤ highest_header_version
  frame_floor : minimum_negotiated_frame_size ≤ response.negotiated_maximum_frame_size
  metadata_floor : minimum_negotiated_metadata_size ≤ response.negotiated_maximum_metadata_size

decode_response-tests :
    (a b c d e f g h i j : ℕ) (tail : Bytes) (offer : HandshakeOffer) (response : HandshakeResponse)
    → decode_response (a ∷ b ∷ c ∷ d ∷ e ∷ f ∷ g ∷ h ∷ i ∷ j ∷ tail) offer ≡ ok response
    → (entries : List Entry) × (parse_entries tail ≡ some entries)
      × Passed offer entries (spelled a b c d e f g h i j entries)
      × (spelled a b c d e f g h i j entries ≡ response)
unfolding decode_response contains_version
decode_response-tests a b c d e f g h i j tail offer response decoded =
    elim (Option-cases (parse_entries tail)) [
      | inl n ↦ ground arith
      | inr (entries, p) ↦ (entries, p, ground arith, ground arith)
    ]

pub encode_response-spelled :
    (a b c d e f g h i j : ℕ) (tail : Bytes) (entries : List Entry)
    → All IsByte (a ∷ b ∷ c ∷ d ∷ e ∷ f ∷ g ∷ h ∷ i ∷ j ∷ tail)
    → tail ≡ encode_entries entries
    → i + 256 * j ≡ length entries
    → encode_response (spelled a b c d e f g h i j entries)
      ≡ a ∷ b ∷ c ∷ d ∷ e ∷ f ∷ g ∷ h ∷ i ∷ j ∷ tail
unfolding encode_response
encode_response-spelled a b c d e f g h i j tail entries bytes same count = ground arith

spelled-IsResponse :
    (a b c d e f g h i j : ℕ) (tail : Bytes) (entries : List Entry) (offer : HandshakeOffer)
    → All IsByte (a ∷ b ∷ c ∷ d ∷ e ∷ f ∷ g ∷ h ∷ i ∷ j ∷ tail)
    → Passed offer entries (spelled a b c d e f g h i j entries)
    → All IsEntry entries
    → IsResponse offer (spelled a b c d e f g h i j entries)
spelled-IsResponse a b c d e f g h i j tail entries offer bytes passed fit = record {
  version_offered_low = passed.low;
  version_offered_high = passed.high;
  version_in_header = passed.header;
  frame_size_fits = omega arith;
  frame_size_floor = passed.frame_floor;
  metadata_size_fits = omega arith;
  metadata_size_floor = passed.metadata_floor;
  count_fits = omega arith;
  counted = passed.count;
  ascending = (check_ascending_iff entries).0 passed.sorted;
  entries_fit = fit;
  offered = (check_offered_iff offer entries).0 passed.offered;
}

decode_response-inv :
    (payload : Bytes) (offer : HandshakeOffer) (response : HandshakeResponse)
    → All IsByte payload
    → Head payload
    → decode_response payload offer ≡ ok response
    → (payload ≡ encode_response response) × IsResponse offer response
decode_response-inv payload offer response bytes head decoded =
    let record {
      a = a;
      b = b;
      c = c;
      d = d;
      e = e;
      f = f;
      g = g;
      h = h;
      i = i;
      j = j;
      tail = tail;
      whole = whole;
    } =
      head in
    let spelled_bytes : All IsByte (a ∷ b ∷ c ∷ d ∷ e ∷ f ∷ g ∷ h ∷ i ∷ j ∷ tail) =
      rw whole at bytes in
    let (entries, parsed, passed, same) =
      decode_response-tests a b c d e f g h i j tail offer response (rw whole at decoded) in
    let (encoded, fit) =
      (parse_entries-exact tail entries spelled_bytes.1.1.1.1.1.1.1.1.1.1).0 parsed in
    rw (← same, whole)
      (
        sym (
            encode_response-spelled a b c d e f g h i j tail entries spelled_bytes encoded
              passed.count),
        spelled-IsResponse a b c d e f g h i j tail entries offer spelled_bytes passed fit,
      )

decode_response-long :
    (payload : Bytes) (offer : HandshakeOffer) (response : HandshakeResponse)
    → decode_response payload offer ≡ ok response
    → 10 ≤ length payload
unfolding decode_response
decode_response-long payload offer response decoded = ground arith

-- On bytes, the decoder accepts the encodings of responses whose fields fit their widths, whose
-- version lies in the offered range and in the header's width, whose bounds are not below their
-- floors, whose count is that of the entries, whose identifiers strictly ascend and were all
-- offered; it accepts no other payload, and returns the response that was encoded.
pub decode_response-exact :
    (payload : Bytes) (offer : HandshakeOffer) (response : HandshakeResponse)
    → All IsByte payload
    → (decode_response payload offer ≡ ok response)
      ↔ ((payload ≡ encode_response response) × IsResponse offer response)
decode_response-exact payload offer response bytes = (
  λ h.
      decode_response-inv payload offer response bytes
        (Head-of payload (decode_response-long payload offer response h)) h,
  λ h. rw h.0 (decode_response-encode offer response h.1),
)
