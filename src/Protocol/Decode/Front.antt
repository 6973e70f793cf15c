-- ===== src/Protocol/Decode/Front.antt =====
-- `decode` of src/protocol.rs on the bytes of one frame, cut off the stream they arrived on.
use rp1_rust.Base.{
  ℕ, ◌+◌, ◌≤◌, ◌≡◌, sym, ap, ◌∙◌, some, [], ◌∷◌, ◌++◌, arith, length, Option-cases, contains, inl,
  inr, ==_refl, false,
}
use rp1_rust.Base.Bytes.{Bytes, get_range}
use rp1_rust.Base.Result.{ok}
use rp1_rust.Protocol.Types.{Admission, Limits, Role, Kind, role_eq, sender}
use rp1_rust.Protocol.Frame.{Frame, Header, Step, Admitted, RawHeader, Correlation}
use rp1_rust.Protocol.Header.{parse_header}
use rp1_rust.Protocol.Header.Length.{parse_header-none, parse_header-append}
use rp1_rust.Protocol.Decode.{decode, correlate, check_error_id}
use rp1_rust.Protocol.Decode.Admit.{Passed}
use rp1_rust.Protocol.Decode.Checked.{Checked, Decoded, decode-Decoded, Decoded-decode}
use rp1_rust.Protocol.Decode.Stream.{get_range-more, get_range-total}

module _ (front back : Bytes) where
  parse_header-front :
      {raw : RawHeader}
      → parse_header (front ++ back) ≡ some raw
      → 20 ≤ length front
      → parse_header front ≡ some raw
  parse_header-front h long = elim (Option-cases (parse_header front)) [
    | inl missing ↦ absurd (omega (arith, parse_header-none front missing))
    | inr (raw', e) ↦ e ∙ sym (parse_header-append front back e) ∙ h
  ]

  get_range-front :
      (a b : ℕ) {ys : Bytes}
      → get_range (front ++ back) a b ≡ some ys
      → a ≤ b
      → b ≤ length front
      → get_range front a b ≡ some ys
  get_range-front a b h low high =
      let (ys', e) = get_range-total front a b low high in
      e ∙ sym (get_range-more front back a b e) ∙ h

  Passed-front :
      (role : Role) (limits : Limits) (admitted : Admitted)
      → Passed (front ++ back) role limits admitted
      → admitted.total_len ≤ length front
      → Passed front role limits admitted
  Passed-front role limits admitted p whole = record {
    parsed = parse_header-front p.parsed (omega (arith, p.total));
    version_zero = p.version_zero;
    kind_assigned = p.kind_assigned;
    flags_zero = p.flags_zero;
    total = p.total;
    representable = p.representable;
    within_frame = p.within_frame;
    within_metadata = p.within_metadata;
    complete = whole;
    region_end = p.region_end;
    region = p.region;
    region_bytes =
        get_range-front 20 admitted.metadata_end p.region_bytes (omega (arith, p.region_end))
          (omega (arith, p.region_end, p.total));
    region_parsed = p.region_parsed;
    direction = p.direction;
  }

  Checked-front :
      (admission : Admission) (admitted : Admitted) (frame : Frame)
      → Passed front admission.role admission.limits admitted
      → Checked (front ++ back) admission admitted frame
      → Checked front admission admitted frame
  Checked-front admission admitted frame p c = record {
    state_allows = c.state_allows;
    correlation = c.correlation;
    correlated = c.correlated;
    ordered = c.ordered;
    payload_bytes = c.payload_bytes;
    payload_range =
        get_range-front admitted.metadata_end admitted.total_len c.payload_range
          (omega (arith, p.region_end, p.total)) p.complete;
    payload_read = c.payload_read;
    header = c.header;
    metadata = c.metadata;
    retires = c.retires;
  }

  Decoded-front :
      (admission : Admission) (frame : Frame)
      → Decoded (front ++ back) admission frame
      → 20 + frame.header.metadata_length + frame.header.payload_length ≤ length front
      → Decoded front admission frame
  Decoded-front admission frame d whole =
      let passed =
        Passed-front admission.role admission.limits d.admitted d.passed
          (ground (arith, d.passed.total, d.checked.header)) in
      record {
        admitted = d.admitted;
        passed = passed;
        checked = Checked-front admission d.admitted frame passed d.checked;
      }

-- Where `decode` admits a frame, it admits the same frame on each front of the input that has the
-- whole of it.
pub decode-front :
    (front back : Bytes) (admission : Admission) (frame : Frame)
    → decode (front ++ back) admission ≡ Step.frame frame
    → 20 + frame.header.metadata_length + frame.header.payload_length ≤ length front
    → decode front admission ≡ Step.frame frame
decode-front front back admission frame h whole = Decoded-decode front admission frame (
    Decoded-front front back admission frame (decode-Decoded (front ++ back) admission frame h)
      whole)

-- An answer that is correlated among the live ids is correlated by its own.
correlate-own :
    (kind : Kind) (code id : ℕ) (admission : Admission) {correlation : Correlation}
    → role_eq (sender kind) Role.client ≡ false
    → correlate kind code id admission.in_flight ≡ ok correlation
    → correlate kind code id (id ∷ []) ≡ ok correlation
unfolding correlate contains check_error_id sender
correlate-own Kind.request code id admission from_peer h = cc
correlate-own Kind.response code id admission from_peer h = ground (arith, ==_refl id)
correlate-own Kind.error code id admission from_peer h = ground (arith, ==_refl id)

-- The admission of a client that waits for one answer.
abbrev pub only : ℕ → Admission → Admission
only id admission = record admission { role = Role.client; in_flight = id ∷ [] }

Decoded-only :
    (input : Bytes) (admission : Admission) (frame : Frame) (id : ℕ)
    (d : Decoded input admission frame)
    → id ≡ d.admitted.raw.request_id
    → admission.role ≡ Role.client
    → Decoded input (only id admission) frame
Decoded-only input admission frame id d own client = record {
  admitted = d.admitted;
  passed = rw (← client) d.passed;
  checked = record {
    state_allows = d.checked.state_allows;
    correlation = d.checked.correlation;
    correlated = rw own (
        correlate-own d.admitted.kind d.admitted.raw.code d.admitted.raw.request_id admission
          (rw client at d.passed.direction) d.checked.correlated);
    ordered = d.checked.ordered;
    payload_bytes = d.checked.payload_bytes;
    payload_range = d.checked.payload_range;
    payload_read = d.checked.payload_read;
    header = d.checked.header;
    metadata = d.checked.metadata;
    retires = d.checked.retires;
  };
}

-- A client that takes a frame among its live ids takes the same frame where its id is the only one.
pub decode-only :
    (input : Bytes) (admission : Admission) (frame : Frame)
    → admission.role ≡ Role.client
    → decode input admission ≡ Step.frame frame
    → decode input (only frame.header.request_id admission) ≡ Step.frame frame
decode-only input admission frame client h =
    let d = decode-Decoded input admission frame h in
    Decoded-decode input (only frame.header.request_id admission) frame (
      Decoded-only input admission frame frame.header.request_id d
        (ap (λ (header : Header). header.request_id) d.checked.header) client)
