-- ===== src/Protocol/Decode/Checked.antt =====
-- What the checks of src/protocol.rs behind `admit` leave when they pass.
use rp1_rust.Base.{ℕ, ◌≡◌, inl, inr, sym, ◌∙◌, some, arith, length, Option-cases}
use rp1_rust.Base.Bytes.{Bytes, get_range}
use rp1_rust.Base.Result.{ok, err, Result-cases}
use rp1_rust.Protocol.Types.{Admission, Limits, Failure}
use rp1_rust.Protocol.Region.{check_metadata_order}
use rp1_rust.Protocol.Frame.{Header, Frame, Step, Correlation, Admitted}
use rp1_rust.Protocol.Decode.{
  check_connection_state, correlate, read_payload, retires_for, check_admitted, admit, decode,
  conclude, step_for,
}
use rp1_rust.Protocol.Decode.Admit.{Passed, IsStop, admit-IsStop, admit-Passed, Passed-admit}

abbrev pub header_of : Admitted → Header
header_of admitted = record {
  version = admitted.raw.version;
  kind = admitted.kind;
  flags = admitted.raw.flags;
  code = admitted.raw.code;
  metadata_length = admitted.raw.metadata_length;
  payload_length = admitted.raw.payload_length;
  request_id = admitted.raw.request_id;
}

pub record Checked (input : Bytes) (admission : Admission) (admitted : Admitted) (frame : Frame)
    : Type 0 where
  pub state_allows : check_connection_state admission.state admitted.kind admitted.raw.code ≡ ok tt
  pub correlation : Correlation
  pub correlated :
      correlate admitted.kind admitted.raw.code admitted.raw.request_id admission.in_flight
      ≡ ok correlation
  pub ordered : check_metadata_order admitted.metadata ≡ ok tt
  pub payload_bytes : Bytes
  pub payload_range : get_range input admitted.metadata_end admitted.total_len ≡ some payload_bytes
  pub payload_read :
      read_payload correlation admitted.raw.payload_length payload_bytes ≡ ok frame.payload
  pub header : frame.header ≡ header_of admitted
  pub metadata : frame.metadata ≡ admitted.metadata
  pub retires : frame.retires ≡ retires_for admitted.kind correlation admitted.raw.request_id

module _ (input : Bytes) (admission : Admission) (admitted : Admitted) (frame : Frame) where
  pub check_admitted-Checked :
      check_admitted input admission admitted ≡ ok frame → Checked input admission admitted frame
  unfolding check_admitted
  check_admitted-Checked h =
      elim (Result-cases
        (correlate admitted.kind admitted.raw.code admitted.raw.request_id admission.in_flight)) [
          | inr (f, e) ↦ ground arith
          | inl (correlation, c) ↦
              elim (Option-cases (get_range input admitted.metadata_end admitted.total_len)) [
                | inl n ↦ ground arith
                | inr (bytes, r) ↦ record {
                  state_allows = ground arith;
                  correlation = correlation;
                  correlated = ground arith;
                  ordered = ground arith;
                  payload_bytes = bytes;
                  payload_range = ground arith;
                  payload_read = ground arith;
                  header = ground arith;
                  metadata = ground arith;
                  retires = ground arith;
                }
              ]
        ]

  pub Checked-check_admitted :
      Checked input admission admitted frame → check_admitted input admission admitted ≡ ok frame
  unfolding check_admitted
  Checked-check_admitted h = ground arith

module _ (input : Bytes) (admission : Admission) where
  pub decode-stop :
      (step : Step)
      → admit input admission.role admission.limits ≡ err step
      → decode input admission ≡ step
  unfolding decode
  decode-stop step h = rw h

  pub decode-conclude :
      (admitted : Admitted)
      → admit input admission.role admission.limits ≡ ok admitted
      → decode input admission
        ≡ conclude (check_admitted input admission admitted) admitted.total_len (length input)
  unfolding decode
  decode-conclude admitted h = rw h

  pub decode-frame :
      (admitted : Admitted) (frame : Frame)
      → admit input admission.role admission.limits ≡ ok admitted
      → check_admitted input admission admitted ≡ ok frame
      → decode input admission ≡ Step.frame frame
  unfolding decode
  decode-frame admitted frame h k = rw h (rw k)

  pub decode-failed :
      (admitted : Admitted) (failure : Failure)
      → admit input admission.role admission.limits ≡ ok admitted
      → check_admitted input admission admitted ≡ err failure
      → decode input admission ≡ step_for failure admitted.total_len (length input)
  unfolding decode
  decode-failed admitted failure h k = rw h (rw k)

-- A frame has passed both stages.
pub record Decoded (input : Bytes) (admission : Admission) (frame : Frame) : Type 0 where
  pub admitted : Admitted
  pub passed : Passed input admission.role admission.limits admitted
  pub checked : Checked input admission admitted frame

IsStop-not-frame :
    (input : Bytes) (limits : Limits) (step : Step) (frame : Frame)
    → IsStop input limits step
    → step ≡ Step.frame frame
    → ⊥
IsStop-not-frame input limits (Step.need n) frame h e = cc
IsStop-not-frame input limits (Step.failed failure consumed) frame h e = cc
IsStop-not-frame input limits (Step.frame f) frame h e = h

not_failed :
    (failure : Failure) (total len : ℕ) (frame : Frame)
    → step_for failure total len ≡ Step.frame frame
    → ⊥
unfolding step_for
not_failed failure total len frame e = cc

pub decode-Decoded :
    (input : Bytes) (admission : Admission) (frame : Frame)
    → decode input admission ≡ Step.frame frame
    → Decoded input admission frame
decode-Decoded input admission frame h =
    elim (Result-cases (admit input admission.role admission.limits)) [
      | inr (step, e) ↦ absurd (
          IsStop-not-frame input admission.limits step frame
            (admit-IsStop input admission.role admission.limits step e)
            (sym (decode-stop input admission step e) ∙ h))
      | inl (admitted, e) ↦ elim (Result-cases (check_admitted input admission admitted)) [
        | inr (failure, c) ↦ absurd (
            not_failed failure admitted.total_len (length input) frame
              (sym (decode-failed input admission admitted failure e c) ∙ h))
        | inl (found, c) ↦
            let same : found ≡ frame = cc (decode-frame input admission admitted found e c) in
            record {
              admitted = admitted;
              passed = admit-Passed input admission.role admission.limits admitted e;
              checked = check_admitted-Checked input admission admitted frame (rw same at c);
            }
      ]
    ]

pub Decoded-decode :
    (input : Bytes) (admission : Admission) (frame : Frame)
    → Decoded input admission frame
    → decode input admission ≡ Step.frame frame
Decoded-decode input admission frame d =
    decode-frame input admission d.admitted frame
      (Passed-admit input admission.role admission.limits d.admitted d.passed)
      (Checked-check_admitted input admission d.admitted frame d.checked)
