-- ===== src/Protocol/Decode/Rules.antt =====
-- Which frames src/protocol.rs admits, by connection state, kind, code and request id.
use rp1_rust.Base.{
  ℕ, ◌≡◌, ◌≢◌, ◌⊎◌, inl, inr, refl, true, false, some, List, arith, contains, Option-cases, subst,
  sym,
}
use rp1_rust.Base.Bytes.{Bytes}
use rp1_rust.Base.Result.{ok}
use rp1_rust.Protocol.Types.{
  ConnectionState, Admission, Kind, ResultCode, result_code_from_wire, ErrorClass,
  error_class_from_wire, scope_of_class, FailureScope, is_assigned, handshake_opcode,
}
use rp1_rust.Protocol.Frame.{Header, Frame, Step, Correlation}
use rp1_rust.Protocol.Decode.{decode, check_connection_state, correlate, retires_for}
use rp1_rust.Protocol.Decode.Checked.{decode-Decoded}

-- The id of a request is new, that of a response is live, and that of an error is live if the class
-- is of one request. A frame retires the id of a live request that it ends, and no other.
abbrev pub IsCorrelated : List ℕ → ℕ → ℕ → ℕ → Kind → Type 0
IsCorrelated in_flight code request_id retires Kind.request =
    (request_id ≢ 0)
    × (contains in_flight request_id ≡ false)
    × (is_assigned code ≡ true)
    × (retires ≡ 0)
IsCorrelated in_flight code request_id retires Kind.response =
    (request_id ≢ 0)
    × (contains in_flight request_id ≡ true)
    × ((result : ResultCode) × (result_code_from_wire code ≡ some result))
    × (retires ≡ request_id)
IsCorrelated in_flight code request_id retires Kind.error =
    (class : ErrorClass) × (error_class_from_wire code ≡ some class)
    × (((scope_of_class class ≡ FailureScope.request_scoped)
          × (request_id ≢ 0)
          × (contains in_flight request_id ≡ true)
          × (retires ≡ request_id))
        ⊎ ((scope_of_class class ≡ FailureScope.connection_fatal) × (retires ≡ 0)))

correlate-IsCorrelated :
    (kind : Kind) (code request_id : ℕ) (in_flight : List ℕ) (correlation : Correlation)
    → correlate kind code request_id in_flight ≡ ok correlation
    → IsCorrelated in_flight code request_id (retires_for kind correlation request_id) kind
unfolding correlate retires_for is_assigned
correlate-IsCorrelated Kind.request code request_id in_flight correlation h = ground arith
correlate-IsCorrelated Kind.response code request_id in_flight correlation h =
    elim (Option-cases (result_code_from_wire code)) [
      | inl n ↦ ground arith
      | inr (result, e) ↦ (ground arith, ground arith, (result, e), refl)
    ]
correlate-IsCorrelated Kind.error code request_id in_flight correlation h =
    elim (Option-cases (error_class_from_wire code)) [
      | inl n ↦ ground arith
      | inr (class, e) ↦ (class, e, ground arith)
    ]

-- Of each frame that `decode` admits: a request has an id that is neither 0 nor live and an
-- assigned opcode, and retires nothing; a response has a live id, which it retires, and an assigned
-- result code; an error has an assigned class, and if the class is of one request it has a live id,
-- which it retires, and otherwise it retires nothing.
pub decode-IsCorrelated :
    (input : Bytes) (admission : Admission) (frame : Frame)
    → decode input admission ≡ Step.frame frame
    → IsCorrelated admission.in_flight frame.header.code frame.header.request_id frame.retires
        frame.header.kind
decode-IsCorrelated input admission frame h =
    let d = decode-Decoded input admission frame h in
    let c = d.checked in
    subst
      (λ (header : Header).
        IsCorrelated admission.in_flight header.code header.request_id frame.retires header.kind)
      (sym c.header)
      (rw c.retires (
        correlate-IsCorrelated d.admitted.kind d.admitted.raw.code d.admitted.raw.request_id
          admission.in_flight c.correlation c.correlated))

-- The kinds and codes that a connection state lets through.
abbrev pub IsAllowed : ConnectionState → Kind → ℕ → Type 0
IsAllowed ConnectionState.pre_negotiation kind code =
    ((kind ≡ Kind.request) × (code ≡ handshake_opcode))
    ⊎ ((kind ≡ Kind.response) × (code ≡ 0))
    ⊎ (kind ≡ Kind.error)
IsAllowed ConnectionState.negotiated kind code =
    ¬ ((kind ≡ Kind.request) × (code ≡ handshake_opcode))
IsAllowed ConnectionState.terminal kind code = ⊥

check_state-IsAllowed :
    (state : ConnectionState) (kind : Kind) (code : ℕ)
    → check_connection_state state kind code ≡ ok tt
    → IsAllowed state kind code
unfolding check_connection_state
check_state-IsAllowed ConnectionState.pre_negotiation kind code h = ground arith
check_state-IsAllowed ConnectionState.negotiated kind code h = ground arith
check_state-IsAllowed ConnectionState.terminal kind code h = cc

-- Of the frames that `decode` admits: before negotiation each is a handshake request, a success
-- response or an error; in the negotiated state none is a handshake request; and in the terminal
-- state there is none.
pub decode-IsAllowed :
    (input : Bytes) (admission : Admission) (frame : Frame)
    → decode input admission ≡ Step.frame frame
    → IsAllowed admission.state frame.header.kind frame.header.code
decode-IsAllowed input admission frame h =
    let d = decode-Decoded input admission frame h in
    subst (λ (header : Header). IsAllowed admission.state header.kind header.code)
      (sym d.checked.header)
      (check_state-IsAllowed admission.state d.admitted.kind d.admitted.raw.code
        d.checked.state_allows)
