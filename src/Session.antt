-- ===== src/Session.antt =====
-- src/connection/driver.rs: the bookkeeping of an established session, and the drain of its buffer.
-- A completion channel is a number that names its waiter, and sending on it appends the waiter and
-- the outcome to `delivered`. The hash map of completions is the list of its entries.
pub mod Waiters
pub mod Invariant
pub mod FailAll
pub mod Drain
pub mod Attribution
pub mod Extend
pub mod Chunks
use rp1_rust.Base.{
  ℕ, zero, suc, ◌+◌, Bool, true, false, ◌&&◌, Option, some, none, List, [], ◌∷◌, ◌++◌, ◌==◌, ltb,
  if◌then◌else◌, length, map, min, drop,
}
use rp1_rust.Base.Bytes.{
  Bytes, checked_add, get_to, get_range, u16_from_le, u32_from_le, u64_from_le,
}
use rp1_rust.Base.Maybe.{◌>>=◌}
use rp1_rust.Base.Result.{Result, ok, err}
use rp1_rust.Protocol.Types.{
  ConnectionState, Limits, Admission, Role, Failure, FailureScope, header_length,
}
use rp1_rust.Protocol.Failure
use rp1_rust.Protocol.Frame.{Step}
use rp1_rust.Protocol.Header.{get_byte}
use rp1_rust.Protocol.Decode.{decode}
use rp1_rust.Dispatch.{Registry, RegistryError, insert, retire, new_registry}
use rp1_rust.Lifecycle.{Lifecycle, mark_state}

pub data DriverError : Type 0 where
  request_failed connection_fatal : Failure → DriverError
  transport closed unusable : DriverError

abbrev pub Outcome : Type 0
Outcome = Result Bytes DriverError

-- `HashMap<u64, oneshot::Sender<..>>`
abbrev pub Completions : Type 0
Completions = List (ℕ × ℕ)

unfoldable pub find : Completions → ℕ → Option ℕ
find [] id = none
find ((key, waiter) ∷ entries) id = if key == id then some waiter else find entries id

unfoldable pub drop_key : Completions → ℕ → Completions
drop_key [] id = []
drop_key ((key, waiter) ∷ entries) id =
    let rest = drop_key entries id in if key == id then rest else (key, waiter) ∷ rest

abbrev pub keys : Completions → List ℕ
keys [] = []
keys ((key, waiter) ∷ entries) = key ∷ keys entries

-- The state that the loop of `run_driver` owns, and what it has sent on the completion channels.
pub record Session : Type 0 where
  pub buffer : Bytes
  pub completions : Completions
  pub live : Registry
  pub delivered : List (ℕ × Outcome)

-- One round of `fail_all`.
unfoldable pub fail_one : DriverError → Session → ℕ → Session
unfolding find drop_key retire
fail_one error session id = record session {
  completions = drop_key session.completions id;
  live = (retire session.live id).1;
  delivered = elim (find session.completions id) [
    | none ↦ session.delivered
    | some waiter ↦ session.delivered ++ (waiter, err error) ∷ []
  ];
}

unfoldable pub fail_each : DriverError → List ℕ → Session → Session
unfolding fail_one
fail_each error [] session = session
fail_each error (id ∷ ids) session = fail_each error ids (fail_one error session id)

unfoldable pub fail_all : DriverError → Session → Session
unfolding fail_each
fail_all error session = fail_each error (keys session.completions) session

unfoldable pub header_request_id : Bytes → Option ℕ
unfolding get_range u64_from_le
header_request_id buffer = do slice ← get_range buffer 12 20; u64_from_le slice

unfoldable pub frame_total_len : Bytes → Option ℕ
unfolding get_byte u16_from_le u32_from_le checked_add
frame_total_len buffer = if ltb (length buffer) header_length then none else do
  b6 ← get_byte buffer 6
  b7 ← get_byte buffer 7
  metadata_length ← u16_from_le (b6 ∷ b7 ∷ [])
  b8 ← get_byte buffer 8
  b9 ← get_byte buffer 9
  b10 ← get_byte buffer 10
  b11 ← get_byte buffer 11
  payload_length ← u32_from_le (b8 ∷ b9 ∷ b10 ∷ b11 ∷ [])
  head ← checked_add header_length metadata_length
  checked_add head payload_length

-- What one round of `drain_frames` decides.
pub data DrainStep : Type 0 where
  waiting : DrainStep
  fatal : Failure → Session → DrainStep
  again : Session → DrainStep

-- `completions.remove(&id)`, and what follows on either answer.
unfoldable pub resolve : ℕ → Outcome → Session → DrainStep
unfolding find drop_key retire
resolve id outcome session = elim (find session.completions id) [
  | none ↦ DrainStep.fatal Failure.protocol_violation session
  | some waiter ↦ DrainStep.again (record session {
    completions = drop_key session.completions id;
    live = (retire session.live id).1;
    delivered = session.delivered ++ (waiter, outcome) ∷ [];
  })
]

-- `buffer.drain(..n.min(buffer.len()))`
unfoldable pub drain_buffer : Session → ℕ → Session
drain_buffer session n = record session {
  buffer = drop (min n (length session.buffer)) session.buffer;
}

-- `buffer.get(..total).unwrap_or(&[])`
unfoldable pub frame_bytes : Bytes → ℕ → Bytes
frame_bytes buffer total = elim (get_to buffer total) [ none ↦ [] | some bytes ↦ bytes ]

unfoldable pub dispatch_frame : ℕ → Option ℕ → Session → DrainStep
unfolding resolve frame_bytes
dispatch_frame retiring none session = DrainStep.fatal Failure.protocol_violation session
dispatch_frame retiring (some total) session =
    resolve retiring (ok (frame_bytes session.buffer total)) (drain_buffer session total)

unfoldable pub dispatch_refusal : Failure → ℕ → Option ℕ → Session → DrainStep
unfolding resolve
dispatch_refusal failure consumed none session = DrainStep.fatal Failure.protocol_violation session
dispatch_refusal failure consumed (some id) session =
    resolve id (err (DriverError.request_failed failure)) (drain_buffer session consumed)

-- The scope of the failure decides between the request and the session.
unfoldable pub dispatch_failed : FailureScope → Failure → ℕ → Session → DrainStep
unfolding dispatch_refusal header_request_id
dispatch_failed FailureScope.request_scoped failure consumed session =
    dispatch_refusal failure consumed (header_request_id session.buffer) session
dispatch_failed FailureScope.connection_fatal failure consumed session =
    DrainStep.fatal failure session

-- The match on the answer of `decode`.
unfoldable pub drain_step : Step → Session → DrainStep
unfolding dispatch_frame dispatch_failed frame_total_len
drain_step (Step.need n) session = DrainStep.waiting
drain_step (Step.frame frame) session =
    dispatch_frame frame.header.request_id (frame_total_len session.buffer) session
drain_step (Step.failed failure consumed) session =
    dispatch_failed failure.scope failure consumed session

abbrev pub admission_of : Session → Limits → Admission
admission_of session limits = record {
  role = Role.client;
  state = ConnectionState.negotiated;
  limits = limits;
  in_flight = session.live.live;
}

unfoldable pub drain_one : Limits → Session → DrainStep
unfolding drain_step
drain_one limits session = drain_step (decode session.buffer (admission_of session limits)) session

-- How `drain_frames` returns. `stuck` is no answer of the code: the fuel ran out.
pub data Drained : Type 0 where
  usable : Session → Drained
  fatal : Failure → Session → Drained
  stuck : Drained

unfoldable pub drain_on : DrainStep → Session → (Session → Drained) → Drained
drain_on DrainStep.waiting session go = Drained.usable session
drain_on (DrainStep.fatal failure session') session go = Drained.fatal failure session'
drain_on (DrainStep.again session') session go = go session'

unfoldable pub drain_loop : ℕ → Limits → Session → Drained
unfolding drain_on
drain_loop zero limits session = Drained.stuck
drain_loop (suc fuel) limits session =
    drain_on (drain_one limits session) session (drain_loop fuel limits)

-- The fuel is one round more than the buffer is long.
unfoldable pub drain_frames : Limits → Session → Drained
unfolding drain_loop
drain_frames limits session = drain_loop (suc (length session.buffer)) limits session
