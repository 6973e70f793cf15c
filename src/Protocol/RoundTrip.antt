-- ===== src/Protocol/RoundTrip.antt =====
-- src/protocol.rs: `encode_with_max`, and `decode` of what it writes.
mod Head
pub mod Layouts
pub use Head.{IsSendable, length-header_bytes}
use rp1_rust.Base.{
  ℕ, zero, suc, ◌+◌, ◌-◌, ◌≤◌, ◌<◌, ◌≡◌, ◌⊎◌, inl, inr, refl, sym, ap, ◌∙◌, Bool, true, false,
  Option, some, none, List, [], ◌∷◌, ◌++◌, All, arith, length, length-append, append_assoc,
  append-nil, contains, le→leb, ◌==◌,
}
use rp1_rust.Base.Bytes.{
  Bytes, u16_end, u32_end, u64_end, u16_to_le, u32_to_le, u64_to_le, get_range, get_from, get_to,
}
use rp1_rust.Base.Result.{Result, ok, err}
use rp1_rust.Protocol.Types.{
  Kind, kind_value, kind_from_wire, sender, role_eq, Role, Limits, Admission, ResultCode,
  FailureScope, ping_opcode, set_opcode, get_opcode, del_opcode, exists_opcode,
}
use rp1_rust.Protocol.Types.Laws.{kind_from_wire-value}
use rp1_rust.Protocol.Region.{Entry, encode_entries, parse_entries, check_metadata_order}
use rp1_rust.Base.Slices.{get_range-append, get_from-append, get_to-append}
use rp1_rust.Protocol.Region.RoundTrip.{IsEntry, parse_entries-encode}
use rp1_rust.Protocol.Region.Order.{IsOptional, check_metadata_order_iff}
use rp1_rust.Protocol.Frame.{
  Payload, OutgoingPayload, Outgoing, Header, Frame, Step, Correlation, RawHeader, Admitted,
}
use rp1_rust.Protocol.Header.{parse_header}
use rp1_rust.Protocol.Encode.{encode_with_max, encode_payload, u16_try_from}
use rp1_rust.Protocol.Encode.Shape.{Encoded, IsShort, header_bytes, encode_with_max-Encoded}
use rp1_rust.Protocol.Decode.{
  decode, read_payload, check_operation_request, retires_for, correlate, check_connection_state,
}
use rp1_rust.Protocol.Decode.Admit.{Passed}
use rp1_rust.Protocol.Decode.Checked.{Checked, Decoded, Decoded-decode, header_of}
use rp1_rust.Protocol.RoundTrip.Head.{
  IsSendable, raw_of, parse_header-bytes, entries_IsEntry, length-header_bytes,
}
use rp1_rust.Protocol.RoundTrip.Layouts.{Carries, Carries-read}

length-Encoded :
    (outgoing : Outgoing) (max_frame max_metadata : ℕ) (bytes : Bytes)
    (e : Encoded outgoing max_frame max_metadata bytes)
    → 20 + length (encode_entries outgoing.metadata) + length e.payload ≡ length bytes
unfolding u16_to_le u32_to_le u64_to_le
length-Encoded outgoing max_frame max_metadata bytes e =
    rw e.whole (omega (arith, length-append (encode_entries outgoing.metadata) e.payload))

-- The frame that a receiver gets.
module _ (outgoing : Outgoing) (max_frame max_metadata : ℕ) (bytes rest : Bytes)
    (sendable : IsSendable outgoing) (e : Encoded outgoing max_frame max_metadata bytes) where
  abbrev region : Bytes
  region = encode_entries outgoing.metadata

  abbrev admitted_of : Admitted
  admitted_of = record {
    raw = raw_of outgoing (length region) (length e.payload);
    kind = outgoing.kind;
    metadata = outgoing.metadata;
    total_len = 20 + length region + length e.payload;
    metadata_end = 20 + length region;
  }

  abbrev front : Bytes
  front = header_bytes outgoing (length region) (length e.payload)

  whole-rest : bytes ++ rest ≡ front ++ (region ++ (e.payload ++ rest))
  unfolding u16_to_le u32_to_le u64_to_le
  whole-rest = rw (e.whole, append_assoc region e.payload rest)

  encoded-Passed :
      (role : Role) (limits : Limits)
      → max_frame ≤ limits.frame_size
      → max_metadata ≤ limits.metadata_size
      → role_eq (sender outgoing.kind) role ≡ false
      → Passed (bytes ++ rest) role limits admitted_of
  encoded-Passed role limits hf hm hd = rw whole-rest (record {
    parsed =
        parse_header-bytes outgoing _ _ (region ++ (e.payload ++ rest)) sendable.code_fits
          sendable.id_fits e.metadata_fits e.payload_fits;
    version_zero = refl;
    kind_assigned = kind_from_wire-value outgoing.kind;
    flags_zero = refl;
    total = refl;
    representable = omega (arith, e.metadata_fits, e.payload_fits);
    within_frame = omega (arith, e.within_frame);
    within_metadata = omega (arith, e.within_metadata);
    complete = omega (
      arith,
      length-append front (region ++ (e.payload ++ rest)),
      length-header_bytes outgoing (length region) (length e.payload),
      length-append region (e.payload ++ rest),
      length-append e.payload rest,
    );
    region_end = refl;
    region = region;
    region_bytes =
        get_range-append front region (e.payload ++ rest) 20 _
          (length-header_bytes outgoing (length region) (length e.payload)) refl;
    region_parsed =
        parse_entries-encode outgoing.metadata
          (entries_IsEntry outgoing.metadata sendable.identifiers_fit e.short);
    direction = hd;
  })

  payload-range :
      get_range (bytes ++ rest) (20 + length region) (20 + length region + length e.payload)
      ≡ some e.payload
  payload-range =
      rw (whole-rest, ← append_assoc front region (e.payload ++ rest))
        (get_range-append (front ++ region) e.payload rest (20 + length region) _
          (length-append front region
            ∙ ap (λ (n : ℕ). n + length region)
                (length-header_bytes outgoing (length region) (length e.payload)))
          refl)

  -- The frame that a receiver makes of `outgoing`.
  abbrev pub frame_of : Correlation → Payload → Frame
  frame_of correlation payload = record {
    header = header_of admitted_of;
    metadata = outgoing.metadata;
    payload = payload;
    retires = retires_for outgoing.kind correlation outgoing.request_id;
  }

  encoded-Decoded :
      (admission : Admission) (correlation : Correlation) (payload : Payload)
      → max_frame ≤ admission.limits.frame_size
      → max_metadata ≤ admission.limits.metadata_size
      → role_eq (sender outgoing.kind) admission.role ≡ false
      → check_connection_state admission.state outgoing.kind outgoing.code ≡ ok tt
      → correlate outgoing.kind outgoing.code outgoing.request_id admission.in_flight
        ≡ ok correlation
      → Carries correlation outgoing.payload payload
      → Decoded (bytes ++ rest) admission (frame_of correlation payload)
  encoded-Decoded admission correlation payload hf hm hd hs hc carries = record {
    admitted = admitted_of;
    passed = encoded-Passed admission.role admission.limits hf hm hd;
    checked = record {
      state_allows = hs;
      correlation = correlation;
      correlated = hc;
      ordered = (check_metadata_order_iff outgoing.metadata).1 (e.ascending, sendable.optional);
      payload_bytes = e.payload;
      payload_range = payload-range;
      payload_read = Carries-read e.payload carries e.payload_encoded;
      header = refl;
      metadata = refl;
      retires = refl;
    };
  }

-- What a receiver gets of a frame that was sent: its parts, and the length of its encoding.
pub record IsReceived (outgoing : Outgoing) (bytes : Bytes) (correlation : Correlation)
    (payload : Payload) (frame : Frame) : Type 0 where
  pub kind : frame.header.kind ≡ outgoing.kind
  pub code : frame.header.code ≡ outgoing.code
  pub request_id : frame.header.request_id ≡ outgoing.request_id
  pub metadata : frame.metadata ≡ outgoing.metadata
  pub payload_same : frame.payload ≡ payload
  pub length_same : 20 + frame.header.metadata_length + frame.header.payload_length ≡ length bytes
  pub retires_same : frame.retires ≡ retires_for outgoing.kind correlation outgoing.request_id

-- The encoder is given a frame whose code and id fit their widths, and whose metadata identifiers fit
-- 16 bits and are below 0x8000, and it writes bytes. They reach a receiver of the other role, whose
-- bounds are no stricter, whose state allows the frame and who correlates it; and the payload has the
-- layout that this correlation asks for, which `Carries` lists: for a request anything (handshake), nothing (ping), a key
-- (get, del, exists) or a key's length, the key and the value (set); for a response anything
-- (success), nothing (absent) or the length of a value held outside memory; for an error its detail
-- and text. Then
-- the receiver reads from these bytes, and whatever follows them, a frame with the same kind, code, id
-- and metadata, with the payload that was sent and as long as the bytes, which retires the id that the
-- correlation says.
pub decode-encode_with_max :
    (outgoing : Outgoing) (max_frame max_metadata : ℕ) (bytes rest : Bytes) (admission : Admission)
    (correlation : Correlation) (payload : Payload)
    → IsSendable outgoing
    → encode_with_max outgoing max_frame max_metadata ≡ ok bytes
    → max_frame ≤ admission.limits.frame_size
    → max_metadata ≤ admission.limits.metadata_size
    → role_eq (sender outgoing.kind) admission.role ≡ false
    → check_connection_state admission.state outgoing.kind outgoing.code ≡ ok tt
    → correlate outgoing.kind outgoing.code outgoing.request_id admission.in_flight ≡ ok correlation
    → Carries correlation outgoing.payload payload
    → (frame : Frame) × (decode (bytes ++ rest) admission ≡ Step.frame frame)
      × IsReceived outgoing bytes correlation payload frame
decode-encode_with_max outgoing max_frame max_metadata bytes rest admission correlation payload
      sendable encoded hf hm hd hs hc carries =
    let e = encode_with_max-Encoded outgoing max_frame max_metadata bytes encoded in
    let frame =
      frame_of outgoing max_frame max_metadata bytes rest sendable e correlation payload in
    (
      frame,
      Decoded-decode (bytes ++ rest) admission frame (
          encoded-Decoded outgoing max_frame max_metadata bytes rest sendable e admission
            correlation payload hf hm hd hs hc carries),
      record {
        kind = refl;
        code = refl;
        request_id = refl;
        metadata = refl;
        payload_same = refl;
        length_same = length-Encoded outgoing max_frame max_metadata bytes e;
        retires_same = refl;
      },
    )
