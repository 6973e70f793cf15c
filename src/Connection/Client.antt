-- ===== src/Connection/Client.antt =====
-- src/connection/mod.rs: the commands of an established connection. What the driver's task answers
-- to a submission is an argument, a function of the id and the bytes submitted.
pub mod Served
pub mod Delivered
mod Tests
use rp1_rust.Base.{
  ℕ, zero, suc, Bool, true, false, Option, some, none, List, [], ◌∷◌, ◌==◌, ltb, if◌then◌else◌,
  length,
}
use rp1_rust.Base.Bytes.{Bytes}
use rp1_rust.Base.Result.{Result, ok, err, ◌>>=◌, ◌>>◌, fail_if, map_err}
use rp1_rust.Protocol.Types.{
  ConnectionState, Limits, Admission, Role, ErrorClass, ping_opcode, get_opcode, set_opcode,
  del_opcode, exists_opcode,
}
use rp1_rust.Protocol.Frame.{Frame, Step}
use rp1_rust.Protocol.Decode.{decode}
use rp1_rust.Command.{
  GetOutcome, SetEncodeError, encode_ping, encode_key, encode_set, interpret_ping, interpret_get,
  interpret_set, interpret_del, interpret_exists,
}
use rp1_rust.Dispatch.{allocate}
use rp1_rust.Lifecycle.{Lifecycle, is_usable}
use rp1_rust.Session.{DriverError, Outcome, header_request_id}
use rp1_rust.Connection.{CommandError, from_class, from_driver, wire_size, encode_request}
use rp1_rust.Connection.Establish.{
  Shared, effective_maximum_frame_size, effective_maximum_metadata_size,
}

-- The error for a state in which no work is taken.
unfoldable pub completion_lost : Lifecycle → CommandError
completion_lost Lifecycle.closed = CommandError.closed
completion_lost Lifecycle.closing = CommandError.closed
completion_lost Lifecycle.failed = CommandError.transport
completion_lost Lifecycle.usable = CommandError.unusable
completion_lost Lifecycle.unusable = CommandError.unusable

-- The match of `check_usable` has the arms of `completion_lost`.
unfoldable pub check_usable : Shared → Result (Unit {0}) CommandError
unfolding is_usable completion_lost
check_usable shared =
    if is_usable shared.driver.state then ok tt else err (completion_lost shared.driver.state)

-- `none` waits for a permit.
unfoldable pub take_permit : Bool → ℕ → Shared → Option (Result Shared CommandError)
unfolding completion_lost
take_permit false permits shared = some (err (completion_lost shared.driver.state))
take_permit true zero shared = none
take_permit true (suc permits) shared = some (ok (record shared { permits = permits }))

unfoldable pub acquire_permit : Shared → Option (Result Shared CommandError)
unfolding take_permit
acquire_permit shared = take_permit shared.driver.admission_open shared.permits shared

unfoldable pub allocate_id : Shared → Result ℕ CommandError × Shared
unfolding allocate
allocate_id shared =
    let (id, allocator) = allocate shared.allocator in
    (if id == 0 then err CommandError.unusable else ok id, record shared { allocator = allocator })

-- What became of a submission: the channel is closed or gone, the completion was dropped, or the
-- task answered.
pub data Completion : Type 0 where
  no_channel : Completion
  dropped : Lifecycle → Completion
  answered : Outcome → Completion

-- `submit`
unfoldable pub submit : Completion → Result Bytes CommandError
unfolding completion_lost from_driver
submit Completion.no_channel = err CommandError.unusable
submit (Completion.dropped state) = err (completion_lost state)
submit (Completion.answered (ok bytes)) = ok bytes
submit (Completion.answered (err error)) = err (from_driver error)

-- How a command ends, and what the handles share then. The permit is back.
pub record Executed : Type 0 where
  pub result : Result Bytes CommandError
  pub shared : Shared

abbrev release : Shared → Shared
release shared = record shared { permits = suc shared.permits }

-- From the id on.
unfoldable pub execute_with :
    (ℕ → Bytes → Completion)
    → ℕ
    → Bytes
    → Shared
    → Result ℕ CommandError
    → Result Bytes CommandError
unfolding encode_request submit
execute_with serve opcode payload shared (err error) = err error
execute_with serve opcode payload shared (ok id) =
    encode_request opcode payload id (effective_maximum_frame_size shared)
      (effective_maximum_metadata_size shared)
    >>= λ bytes. submit (serve id bytes)

-- From the permit on.
unfoldable pub execute_permitted :
    (ℕ → Bytes → Completion)
    → ℕ
    → Bytes
    → Shared
    → Option (Result Shared CommandError)
    → Option Executed
unfolding execute_with allocate_id
execute_permitted serve opcode payload shared none = none
execute_permitted serve opcode payload shared (some (err error)) =
    some (record { result = err error; shared = shared })
execute_permitted serve opcode payload shared (some (ok holding)) =
    let (id, allocated) = allocate_id holding in
    some (record {
      result = execute_with serve opcode payload allocated id;
      shared = release allocated;
    })

-- The checks that come before a permit is asked for.
unfoldable pub admit_command : Bytes → Shared → Result (Unit {0}) CommandError
unfolding check_usable wire_size
admit_command payload shared = do
  check_usable shared
  fail_if (ltb (effective_maximum_frame_size shared) (wire_size (length payload))) (
      CommandError.local_limit_exceeded (wire_size (length payload))
        (effective_maximum_frame_size shared))

unfoldable pub execute_admitted :
    (ℕ → Bytes → Completion) → ℕ → Bytes → Shared → Result (Unit {0}) CommandError → Option Executed
unfolding execute_permitted acquire_permit
execute_admitted serve opcode payload shared (err error) =
    some (record { result = err error; shared = shared })
execute_admitted serve opcode payload shared (ok u) =
    execute_permitted serve opcode payload shared (acquire_permit shared)

unfoldable pub execute : (ℕ → Bytes → Completion) → ℕ → Bytes → Shared → Option Executed
unfolding admit_command execute_admitted
execute serve opcode payload shared =
    execute_admitted serve opcode payload shared (admit_command payload shared)

-- `.map_or(0, u64::from_le_bytes)`
unfoldable pub own_id : Option ℕ → ℕ
own_id none = 0
own_id (some id) = id

abbrev pub own_admission : Shared → ℕ → Admission
own_admission shared id = record {
  role = Role.client;
  state = ConnectionState.negotiated;
  limits = record {
    frame_size = effective_maximum_frame_size shared;
    metadata_size = effective_maximum_metadata_size shared;
  };
  in_flight = id ∷ [];
}

unfoldable pub own_frame : Step → Result Frame CommandError
unfolding from_class
own_frame (Step.frame frame) = ok frame
own_frame (Step.failed failure consumed) = err (from_class failure.class)
own_frame (Step.need required) = err CommandError.protocol_violation

unfoldable pub decode_own : Shared → Bytes → Result Frame CommandError
unfolding own_frame own_id header_request_id
decode_own shared frame_bytes =
    own_frame (decode frame_bytes (own_admission shared (own_id (header_request_id frame_bytes))))

-- The end that the five commands share.
unfoldable pub finish {ℓ} :
    {A : Type ℓ} → (Frame → Result A ErrorClass) → Executed → Result A CommandError
unfolding decode_own
finish interpret executed = executed.result >>= λ frame_bytes.
    decode_own executed.shared frame_bytes >>= λ frame. map_err from_class (interpret frame)

-- The answer of a command, with what the handles share then.
abbrev pub Answer : Type 0 → Type 0
Answer A = Option (Result A CommandError × Shared)

abbrev finished : {A : Type 0} → (Frame → Result A ErrorClass) → Option Executed → Answer A
finished interpret none = none
finished interpret (some executed) = some (finish interpret executed, executed.shared)

module _ (serve : ℕ → Bytes → Completion) (shared : Shared) where
  unfoldable pub ping : Answer (Unit {0})
  unfolding finish execute
  ping = finished interpret_ping (execute serve ping_opcode encode_ping shared)

  unfoldable pub get : Bytes → Answer GetOutcome
  unfolding finish execute
  get key = finished interpret_get (execute serve get_opcode (encode_key key) shared)

  -- By the answer of `encode_set`.
  unfoldable pub set_encoded : Result Bytes SetEncodeError → Answer (Unit {0})
  unfolding finish execute
  set_encoded (err refused) = some (err CommandError.invalid_request, shared)
  set_encoded (ok payload) = finished interpret_set (execute serve set_opcode payload shared)

  unfoldable pub set : Bytes → Bytes → Answer (Unit {0})
  unfolding set_encoded
  set key value = set_encoded (encode_set key value)

  unfoldable pub del : Bytes → Answer Bool
  unfolding finish execute
  del key = finished interpret_del (execute serve del_opcode (encode_key key) shared)

  unfoldable pub exists : Bytes → Answer Bool
  unfolding finish execute
  exists key = finished interpret_exists (execute serve exists_opcode (encode_key key) shared)
