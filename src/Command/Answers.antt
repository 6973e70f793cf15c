-- ===== src/Command/Answers.antt =====
-- src/command.rs: what the interpretations make of a frame that the codec has admitted.
use rp1_rust.Base.{
  ℕ, ◌≡◌, ◌⊎◌, inl, inr, refl, sym, ap, Bool, true, false, some, List, arith, Option-cases,
}
use rp1_rust.Base.Bytes.{Bytes}
use rp1_rust.Base.Result.{Result, ok, err}
use rp1_rust.Protocol.Types.{
  Kind, Admission, ErrorClass, ResultCode, result_code_from_wire, result_code_value,
  error_class_from_wire, error_class_value,
}
use rp1_rust.Protocol.Frame.{Frame, Header, Payload, Step, Correlation}
use rp1_rust.Protocol.Decode.{decode, correlate, read_payload}
use rp1_rust.Protocol.Decode.Checked.{decode-Decoded}
use rp1_rust.Protocol.Types.{Role, role_eq, sender}
use rp1_rust.Protocol.Types.Laws.{error_class_value-from_wire}
use rp1_rust.Command.{
  GetOutcome, error_of, interpret_exists, interpret_set, interpret_get, interpret_del,
  interpret_ping, interpret_done, interpret_get_of, interpret_del_of,
}

-- What the three interpretations answer, by the kind, the code and the payload of the frame.
abbrev pub IsAnswered :
    Kind
    → ℕ
    → Payload
    → Result GetOutcome ErrorClass
    → Result Bool ErrorClass
    → Result (Unit {0}) ErrorClass
    → Type 0
IsAnswered Kind.request code payload get del done = ⊥
IsAnswered Kind.response code payload get del done =
    ((code ≡ 0)
      × (bytes : Bytes) × (payload ≡ Payload.opaque bytes)
      × (get ≡ ok (GetOutcome.present bytes))
      × (del ≡ ok true)
      × (done ≡ ok tt))
    ⊎ ((code ≡ 1)
        × (get ≡ ok GetOutcome.absent)
        × (del ≡ ok false)
        × (done ≡ err ErrorClass.protocol_violation))
    ⊎ ((code ≡ 4)
        × (n : ℕ) × (payload ≡ Payload.warm n)
        × (get ≡ ok (GetOutcome.held_outside_memory n))
        × (del ≡ err ErrorClass.protocol_violation)
        × (done ≡ err ErrorClass.protocol_violation))
IsAnswered Kind.error code payload get del done =
    (class : ErrorClass) × (code ≡ error_class_value class)
    × (get ≡ err class)
    × (del ≡ err class)
    × (done ≡ err class)

correlate-response :
    (code request_id : ℕ) (in_flight : List ℕ) (correlation : Correlation)
    → correlate Kind.response code request_id in_flight ≡ ok correlation
    → (result : ResultCode) × (correlation ≡ Correlation.response result)
      × (result_code_from_wire code ≡ some result)
      × (code ≡ result_code_value result)
unfolding correlate result_code_from_wire result_code_value
correlate-response code request_id in_flight correlation h = ground arith

correlate-error :
    (code request_id : ℕ) (in_flight : List ℕ) (correlation : Correlation)
    → correlate Kind.error code request_id in_flight ≡ ok correlation
    → (class : ErrorClass) × (error_class_from_wire code ≡ some class)
      × (code ≡ error_class_value class)
unfolding correlate
correlate-error code request_id in_flight correlation h =
    elim (Option-cases (error_class_from_wire code)) [
      | inl n ↦ ground arith
      | inr (class, e) ↦ (class, e, sym (error_class_value-from_wire code class e))
    ]

read_payload-held :
    (n : ℕ) (bytes : Bytes) (payload : Payload)
    → read_payload (Correlation.response ResultCode.value_held_outside_memory) n bytes ≡ ok payload
    → (m : ℕ) × (payload ≡ Payload.warm m)
unfolding read_payload
read_payload-held n bytes payload h = ground arith

module _ (frame : Frame) (payload_bytes : Bytes) (n : ℕ) where
  answered_result :
      (result : ResultCode)
      → result_code_from_wire frame.header.code ≡ some result
      → frame.header.code ≡ result_code_value result
      → read_payload (Correlation.response result) n payload_bytes ≡ ok frame.payload
      → IsAnswered Kind.response frame.header.code frame.payload
          (interpret_get_of Kind.response frame)
          (interpret_del_of Kind.response frame)
          (interpret_done Kind.response frame)
  unfolding read_payload interpret_get_of interpret_del_of interpret_done result_code_value
  answered_result ResultCode.success e v r =
      let opened : frame.payload ≡ Payload.opaque payload_bytes = cc in
      inl (v, payload_bytes, opened, rw (e, opened) refl, rw e refl, rw e refl)
  answered_result ResultCode.absent e v r = inr (inl (v, rw e refl, rw e refl, rw e refl))
  answered_result ResultCode.value_held_outside_memory e v r =
      let (m, opened) = read_payload-held n payload_bytes frame.payload r in
      inr (inr (v, m, opened, rw (e, opened) refl, rw e refl, rw e refl))

  answered_error :
      (class : ErrorClass)
      → error_class_from_wire frame.header.code ≡ some class
      → frame.header.code ≡ error_class_value class
      → IsAnswered Kind.error frame.header.code frame.payload
          (interpret_get_of Kind.error frame)
          (interpret_del_of Kind.error frame)
          (interpret_done Kind.error frame)
  unfolding interpret_get_of interpret_del_of interpret_done error_of
  answered_error class e v = (class, v, rw e refl, rw e refl, rw e refl)

  answered :
      (kind : Kind) (in_flight : List ℕ) (correlation : Correlation)
      → role_eq (sender kind) Role.client ≡ false
      → correlate kind frame.header.code frame.header.request_id in_flight ≡ ok correlation
      → read_payload correlation n payload_bytes ≡ ok frame.payload
      → IsAnswered kind frame.header.code frame.payload
          (interpret_get_of kind frame)
          (interpret_del_of kind frame)
          (interpret_done kind frame)
  answered Kind.request in_flight correlation client h r = unfold sender in cc
  answered Kind.response in_flight correlation client h r =
      let (result, c, e, v) =
        correlate-response frame.header.code frame.header.request_id in_flight correlation h in
      answered_result result e v (rw c at r)
  answered Kind.error in_flight correlation client h r =
      let (class, e, v) =
        correlate-error frame.header.code frame.header.request_id in_flight correlation h in
      answered_error class e v

-- Each frame that the codec admits for a client has one of these meanings to `GET`, `DEL`,
-- `EXISTS`, `PING` and `SET`: a success is the value, present and done; an absence is absent, not
-- present and a violation; a value held outside memory is its length to `GET` and a violation to
-- the others; an error is its class to all. None is a request; `EXISTS` answers as `DEL`, and `SET`
-- as `PING`.
pub interpret-IsAnswered :
    (input : Bytes) (admission : Admission) (frame : Frame)
    → admission.role ≡ Role.client
    → decode input admission ≡ Step.frame frame
    → IsAnswered frame.header.kind frame.header.code frame.payload
        (interpret_get frame)
        (interpret_del frame)
        (interpret_ping frame)
      × (interpret_exists frame ≡ interpret_del frame)
      × (interpret_set frame ≡ interpret_ping frame)
unfolding interpret_get interpret_del interpret_ping interpret_exists interpret_set
interpret-IsAnswered input admission frame client h =
    let d = decode-Decoded input admission frame h in
    let c = d.checked in
    let kind : frame.header.kind ≡ d.admitted.kind =
      ap (λ (header : Header). header.kind) c.header in
    let code : frame.header.code ≡ d.admitted.raw.code =
      ap (λ (header : Header). header.code) c.header in
    let id : frame.header.request_id ≡ d.admitted.raw.request_id =
      ap (λ (header : Header). header.request_id) c.header in
    (
      answered frame c.payload_bytes d.admitted.raw.payload_length frame.header.kind
          admission.in_flight c.correlation (rw (kind, ← client) d.passed.direction)
          (rw (kind, code, id) c.correlated) c.payload_read,
      refl,
      refl,
    )
