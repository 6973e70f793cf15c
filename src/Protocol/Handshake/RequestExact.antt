-- ===== src/Protocol/Handshake/RequestExact.antt =====
-- The handshake request of src/protocol.rs: decoding against encoding.
use rp1_rust.Base.{
  ℕ, ◌≤◌, ◌<◌, ◌≡◌, ◌↔◌, some, List, ◌∷◌, All, arith, Option-cases, inl, inr, ◌+◌, ◌*◌, ◌^◌, sym,
  length,
}
use rp1_rust.Base.Bytes.{Bytes, IsByte, u16_end, u32_end}
use rp1_rust.Base.Result.{ok}
use rp1_rust.Protocol.Region.{Entry, parse_entries, encode_entries, check_ascending}
use rp1_rust.Protocol.Region.RoundTrip.{IsEntry, parse_entries-exact, parse_entries-encode}
use rp1_rust.Protocol.Region.Order.{IsAscending, check_ascending_iff}
use rp1_rust.Protocol.Handshake.{HandshakeRequest, decode_request, encode_request}
use rp1_rust.Protocol.Handshake.Bytes10.{Head, Head-of}

-- What a request on the wire can say.
pub record IsRequest (request : HandshakeRequest) : Type 0 where
  pub maximum_fits : request.client_maximum_protocol_version < u16_end
  pub minimum_fits : request.client_minimum_protocol_version < u16_end
  pub desired_fits : request.client_desired_maximum_frame_size < u32_end
  pub count_fits : request.capability_count < u16_end
  pub in_order : request.client_minimum_protocol_version ≤ request.client_maximum_protocol_version
  pub counted : request.capability_count ≡ length request.capability_entries
  pub ascending : IsAscending request.capability_entries
  pub entries_fit : All IsEntry request.capability_entries

pub decode_request-encode :
    (request : HandshakeRequest)
    → IsRequest request
    → decode_request (encode_request request) ≡ ok request
unfolding decode_request encode_request
decode_request-encode request h = ground (
  arith,
  h.counted,
  parse_entries-encode request.capability_entries h.entries_fit,
  (check_ascending_iff request.capability_entries).1 h.ascending,
)

-- The request that ten bytes and a list of entries spell.
abbrev spelled : (a b c d e f g h i j : ℕ) → List Entry → HandshakeRequest
spelled a b c d e f g h i j entries = record {
  client_maximum_protocol_version = a + 256 * b;
  client_minimum_protocol_version = c + 256 * d;
  client_desired_maximum_frame_size = e + 256 * f + 2 ^ 16 * g + 2 ^ 24 * h;
  capability_count = i + 256 * j;
  capability_entries = entries;
}

-- What each test of the decoder leaves when it passes.
decode_request-tests :
    (a b c d e f g h i j : ℕ) (tail : Bytes) (request : HandshakeRequest)
    → decode_request (a ∷ b ∷ c ∷ d ∷ e ∷ f ∷ g ∷ h ∷ i ∷ j ∷ tail) ≡ ok request
    → (entries : List Entry) × (parse_entries tail ≡ some entries)
      × (check_ascending entries ≡ ok tt)
      × (c + 256 * d ≤ a + 256 * b)
      × (i + 256 * j ≡ length entries)
      × (spelled a b c d e f g h i j entries ≡ request)
unfolding decode_request
decode_request-tests a b c d e f g h i j tail request decoded =
    elim (Option-cases (parse_entries tail)) [
      | inl n ↦ ground arith
      | inr (entries, p) ↦ (entries, p, ground arith, ground arith, ground arith, ground arith)
    ]

encode_request-spelled :
    (a b c d e f g h i j : ℕ) (tail : Bytes) (entries : List Entry)
    → All IsByte (a ∷ b ∷ c ∷ d ∷ e ∷ f ∷ g ∷ h ∷ i ∷ j ∷ tail)
    → tail ≡ encode_entries entries
    → i + 256 * j ≡ length entries
    → encode_request (spelled a b c d e f g h i j entries)
      ≡ a ∷ b ∷ c ∷ d ∷ e ∷ f ∷ g ∷ h ∷ i ∷ j ∷ tail
unfolding encode_request
encode_request-spelled a b c d e f g h i j tail entries bytes same count = ground arith

spelled-IsRequest :
    (a b c d e f g h i j : ℕ) (tail : Bytes) (entries : List Entry)
    → All IsByte (a ∷ b ∷ c ∷ d ∷ e ∷ f ∷ g ∷ h ∷ i ∷ j ∷ tail)
    → c + 256 * d ≤ a + 256 * b
    → i + 256 * j ≡ length entries
    → IsAscending entries
    → All IsEntry entries
    → IsRequest (spelled a b c d e f g h i j entries)
spelled-IsRequest a b c d e f g h i j tail entries bytes order count sorted fit = record {
  maximum_fits = omega arith;
  minimum_fits = omega arith;
  desired_fits = omega arith;
  count_fits = omega arith;
  in_order = order;
  counted = count;
  ascending = sorted;
  entries_fit = fit;
}

decode_request-inv :
    (payload : Bytes) (request : HandshakeRequest)
    → All IsByte payload
    → Head payload
    → decode_request payload ≡ ok request
    → (payload ≡ encode_request request) × IsRequest request
decode_request-inv payload request bytes head decoded =
    let record {
      a = a;
      b = b;
      c = c;
      d = d;
      e = e;
      f = f;
      g = g;
      h = h;
      i = i;
      j = j;
      tail = tail;
      whole = whole;
    } =
      head in
    let spelled_bytes : All IsByte (a ∷ b ∷ c ∷ d ∷ e ∷ f ∷ g ∷ h ∷ i ∷ j ∷ tail) =
      rw whole at bytes in
    let (entries, parsed, sorted, order, count, same) =
      decode_request-tests a b c d e f g h i j tail request (rw whole at decoded) in
    let (encoded, fit) =
      (parse_entries-exact tail entries (spelled_bytes.1.1.1.1.1.1.1.1.1.1)).0 parsed in
    rw (← same, whole)
      (
        sym (encode_request-spelled a b c d e f g h i j tail entries spelled_bytes encoded count),
        spelled-IsRequest a b c d e f g h i j tail entries spelled_bytes order count
            ((check_ascending_iff entries).0 sorted) fit,
      )

decode_request-long :
    (payload : Bytes) (request : HandshakeRequest)
    → decode_request payload ≡ ok request
    → 10 ≤ length payload
unfolding decode_request
decode_request-long payload request decoded = ground arith

-- On bytes, the decoder accepts the encodings of requests whose fields fit their widths, whose
-- version range is not empty, whose count is that of the entries, and whose identifiers strictly
-- ascend; it accepts no other payload, and returns the request that was encoded.
pub decode_request-exact :
    (payload : Bytes) (request : HandshakeRequest)
    → All IsByte payload
    → (decode_request payload ≡ ok request)
      ↔ ((payload ≡ encode_request request) × IsRequest request)
decode_request-exact payload request bytes = (
  λ h.
      decode_request-inv payload request bytes
        (Head-of payload (decode_request-long payload request h)) h,
  λ h. rw h.0 (decode_request-encode request h.1),
)
