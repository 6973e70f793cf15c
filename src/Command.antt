-- ===== src/Command.antt =====
-- src/command.rs: the payloads of the requests, and what the answers mean.
-- The source's `CommandFailure` wraps one class and is that class here.
pub mod Payloads
pub mod Answers
mod Tests
use rp1_rust.Base.{
  ℕ, ◌≤◌, ◌-◌, Bool, true, false, Option, some, none, List, [], ◌∷◌, ◌++◌, ltb, if◌then◌else◌,
  length,
}
use rp1_rust.Base.Bytes.{Bytes, u32_end, u32_to_le, checked_add}
use rp1_rust.Base.Result.{Result, ok, err, ◌>>=◌, ◌>>◌, fail_if, ok_or}
use rp1_rust.Protocol.Types.{
  Kind, ErrorClass, ResultCode, result_code_from_wire, error_class_from_wire,
}
use rp1_rust.Protocol.Frame.{Frame, Payload}

pub data SetEncodeError : Type 0 where
  key_too_long : ℕ → SetEncodeError
  payload_too_large : SetEncodeError

pub data GetOutcome : Type 0 where
  present : Bytes → GetOutcome
  absent : GetOutcome
  held_outside_memory : ℕ → GetOutcome

unfoldable pub encode_ping : Bytes
encode_ping = []

unfoldable pub encode_key : Bytes → Bytes
encode_key key = key

-- `4usize.checked_add(key.len()).and_then(|total| total.checked_add(value.len()))`
unfoldable pub set_total : Bytes → Bytes → Option ℕ
unfolding checked_add
set_total key value = elim (checked_add 4 (length key)) [
  | none ↦ none
  | some head ↦ checked_add head (length value)
]

unfoldable pub encode_set : Bytes → Bytes → Result Bytes SetEncodeError
unfolding u32_to_le set_total
encode_set key value = do
  fail_if (ltb (u32_end - 1) (length key)) (SetEncodeError.key_too_long (length key))
  total ← ok_or (set_total key value) SetEncodeError.payload_too_large
  fail_if (ltb (u32_end - 1) total) SetEncodeError.payload_too_large
  ok (u32_to_le (length key) ++ (key ++ value))

unfoldable pub result_code_of : Frame → Result ResultCode ErrorClass
unfolding result_code_from_wire
result_code_of frame = ok_or (result_code_from_wire frame.header.code) ErrorClass.protocol_violation

-- `.map_or_else(CommandFailure::protocol_violation, CommandFailure::new)`
unfoldable pub class_or_violation : Option ErrorClass → ErrorClass
class_or_violation none = ErrorClass.protocol_violation
class_or_violation (some class) = class

unfoldable pub error_of : Frame → ErrorClass
unfolding class_or_violation error_class_from_wire
error_of frame = class_or_violation (error_class_from_wire frame.header.code)

-- The answer of `PING` and `SET` to a result code.
unfoldable pub done_of : ResultCode → Result (Unit {0}) ErrorClass
done_of ResultCode.success = ok tt
done_of ResultCode.absent = err ErrorClass.protocol_violation
done_of ResultCode.value_held_outside_memory = err ErrorClass.protocol_violation

-- By the kind of the frame.
unfoldable pub interpret_done : Kind → Frame → Result (Unit {0}) ErrorClass
unfolding done_of result_code_of error_of
interpret_done Kind.response frame = result_code_of frame >>= λ code. done_of code
interpret_done Kind.error frame = err (error_of frame)
interpret_done Kind.request frame = err ErrorClass.protocol_violation

unfoldable pub interpret_ping : Frame → Result (Unit {0}) ErrorClass
unfolding interpret_done
interpret_ping frame = interpret_done frame.header.kind frame

unfoldable pub interpret_set : Frame → Result (Unit {0}) ErrorClass
unfolding interpret_done
interpret_set frame = interpret_done frame.header.kind frame

-- `let Payload::Opaque(payload) = frame.payload() else ..`
unfoldable pub present_of : Payload → Result GetOutcome ErrorClass
present_of (Payload.opaque bytes) = ok (GetOutcome.present bytes)
present_of (Payload.warm logical_length) = err ErrorClass.protocol_violation
present_of (Payload.error detail text) = err ErrorClass.protocol_violation

-- `let Payload::Warm { logical_length } = frame.payload() else ..`
unfoldable pub held_of : Payload → Result GetOutcome ErrorClass
held_of (Payload.opaque bytes) = err ErrorClass.protocol_violation
held_of (Payload.warm logical_length) = ok (GetOutcome.held_outside_memory logical_length)
held_of (Payload.error detail text) = err ErrorClass.protocol_violation

unfoldable pub get_of : ResultCode → Frame → Result GetOutcome ErrorClass
unfolding present_of held_of
get_of ResultCode.success frame = present_of frame.payload
get_of ResultCode.absent frame = ok GetOutcome.absent
get_of ResultCode.value_held_outside_memory frame = held_of frame.payload

unfoldable pub interpret_get_of : Kind → Frame → Result GetOutcome ErrorClass
unfolding get_of result_code_of error_of
interpret_get_of Kind.response frame = result_code_of frame >>= λ code. get_of code frame
interpret_get_of Kind.error frame = err (error_of frame)
interpret_get_of Kind.request frame = err ErrorClass.protocol_violation

unfoldable pub interpret_get : Frame → Result GetOutcome ErrorClass
unfolding interpret_get_of
interpret_get frame = interpret_get_of frame.header.kind frame

unfoldable pub presence_of : ResultCode → Result Bool ErrorClass
presence_of ResultCode.success = ok true
presence_of ResultCode.absent = ok false
presence_of ResultCode.value_held_outside_memory = err ErrorClass.protocol_violation

unfoldable pub interpret_del_of : Kind → Frame → Result Bool ErrorClass
unfolding presence_of result_code_of error_of
interpret_del_of Kind.response frame = result_code_of frame >>= λ code. presence_of code
interpret_del_of Kind.error frame = err (error_of frame)
interpret_del_of Kind.request frame = err ErrorClass.protocol_violation

unfoldable pub interpret_del : Frame → Result Bool ErrorClass
unfolding interpret_del_of
interpret_del frame = interpret_del_of frame.header.kind frame

unfoldable pub interpret_exists : Frame → Result Bool ErrorClass
unfolding interpret_del
interpret_exists frame = interpret_del frame
