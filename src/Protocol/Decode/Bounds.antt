-- ===== src/Protocol/Decode/Bounds.antt =====
-- What each answer of `decode` of src/protocol.rs promises about lengths and bounds.
use rp1_rust.Base.{◌+◌, ◌≤◌, ◌≡◌, ◌⊎◌, inl, inr, false, All, arith, length}
use rp1_rust.Base.Bytes.{Bytes}
use rp1_rust.Base.Result.{Result-cases}
use rp1_rust.Protocol.Types.{Admission, role_eq, sender, FailureScope, Failure}
use rp1_rust.Protocol.Region.Order.{IsAscending, IsOptional, check_metadata_order_iff}
use rp1_rust.Protocol.Frame.{Frame, Step, Admitted}
use rp1_rust.Protocol.Decode.{decode, admit, check_admitted, step_for}
use rp1_rust.Protocol.Decode.Admit.{Passed, admit-Passed, IsStop, admit-IsStop}
use rp1_rust.Protocol.Decode.Checked.{
  Checked, check_admitted-Checked, decode-stop, decode-frame, decode-failed,
}

-- The frame lies within the input and the bounds in force, and its metadata is in order.
pub record IsWithin (input : Bytes) (admission : Admission) (frame : Frame) : Type 0 where
  pub version_zero : frame.header.version ≡ 0
  pub flags_zero : frame.header.flags ≡ 0
  pub from_peer : role_eq (sender frame.header.kind) admission.role ≡ false
  pub complete : 20 + frame.header.metadata_length + frame.header.payload_length ≤ length input
  pub within_frame :
      20 + frame.header.metadata_length + frame.header.payload_length ≤ admission.limits.frame_size
  pub within_metadata : frame.header.metadata_length ≤ admission.limits.metadata_size
  pub ascending : IsAscending frame.metadata
  pub optional : All IsOptional frame.metadata

-- What an answer promises, by its kind.
abbrev pub IsOutcome : Bytes → Admission → Step → Type 0
IsOutcome input admission (Step.need n) = IsStop input admission.limits (Step.need n)
IsOutcome input admission (Step.failed failure consumed) =
    ((failure.scope ≡ FailureScope.connection_fatal) × (consumed ≡ length input))
    ⊎ ((failure.scope ≡ FailureScope.request_scoped)
        × (20 ≤ consumed)
        × (consumed ≤ length input)
        × (consumed ≤ admission.limits.frame_size))
IsOutcome input admission (Step.frame frame) = IsWithin input admission frame

IsStop-IsOutcome :
    (input : Bytes) (admission : Admission) (step : Step)
    → IsStop input admission.limits step
    → IsOutcome input admission step
IsStop-IsOutcome input admission (Step.need n) h = h
IsStop-IsOutcome input admission (Step.failed failure consumed) h = inl h
IsStop-IsOutcome input admission (Step.frame frame) h = absurd h

admitted-IsWithin :
    (input : Bytes) (admission : Admission) (admitted : Admitted) (frame : Frame)
    → Passed input admission.role admission.limits admitted
    → Checked input admission admitted frame
    → IsWithin input admission frame
admitted-IsWithin input admission admitted frame p c =
    let (sorted, optional) = (check_metadata_order_iff admitted.metadata).0 c.ordered in
    record {
      version_zero = ground (arith, c.header, p.version_zero);
      flags_zero = ground (arith, c.header, p.flags_zero);
      from_peer = ground (arith, c.header, p.direction);
      complete = ground (arith, c.header, p.complete, p.total);
      within_frame = ground (arith, c.header, p.within_frame, p.total);
      within_metadata = ground (arith, c.header, p.within_metadata);
      ascending = rw c.metadata sorted;
      optional = rw c.metadata optional;
    }

failed-IsOutcome :
    (input : Bytes) (admission : Admission) (admitted : Admitted) (failure : Failure)
    → Passed input admission.role admission.limits admitted
    → IsOutcome input admission (step_for failure admitted.total_len (length input))
unfolding step_for
failed-IsOutcome input admission admitted failure p =
    ground (arith, p.total, p.complete, p.within_frame)

-- Every answer of `decode` keeps to its bounds: a need is more than the input has, is no less than
-- the header, and past the header stays within the frame bound; a failure that is fatal to the
-- connection consumes the input, and one of a single request consumes at least a header, at most
-- the input and at most the frame bound; a frame lies within the input and both bounds, has version
-- and flags zero and comes from the peer, and its metadata strictly ascends outside the required
-- range.
pub decode-IsOutcome :
    (input : Bytes) (admission : Admission) → IsOutcome input admission (decode input admission)
decode-IsOutcome input admission =
    elim (Result-cases (admit input admission.role admission.limits)) [
      | inr (step, e) ↦ rw (decode-stop input admission step e) (
          IsStop-IsOutcome input admission step
            (admit-IsStop input admission.role admission.limits step e))
      | inl (admitted, e) ↦
          let p = admit-Passed input admission.role admission.limits admitted e in
          elim (Result-cases (check_admitted input admission admitted)) [
            | inl (frame, c) ↦ rw (decode-frame input admission admitted frame e c) (
                admitted-IsWithin input admission admitted frame p
                  (check_admitted-Checked input admission admitted frame c))
            | inr (failure, c) ↦
                rw (decode-failed input admission admitted failure e c)
                  (failed-IsOutcome input admission admitted failure p)
          ]
    ]
