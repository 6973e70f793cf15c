-- ===== src/Driver.antt =====
-- src/connection/driver.rs: the task that owns the transport of an established session. What tokio
-- decides (which branch of `select!` is ready, what the transport answers) is an `Event`.
pub mod Rounds
pub mod Run
pub mod Marks
pub mod Exits
pub mod Chunks
mod Tests
use rp1_rust.Base.{
  ℕ, zero, suc, ◌+◌, Bool, true, false, ◌&&◌, Option, some, none, List, [], ◌∷◌, ◌++◌, ◌==◌, ltb,
  if◌then◌else◌, length, map, min, drop,
}
use rp1_rust.Base.Bytes.{
  Bytes, checked_add, get_to, get_range, u16_from_le, u32_from_le, u64_from_le,
}
use rp1_rust.Base.Maybe.{◌>>=◌}
use rp1_rust.Base.Result.{Result, ok, err}
use rp1_rust.Protocol.Types.{
  ConnectionState, Limits, Admission, Role, Failure, FailureScope, header_length,
}
use rp1_rust.Protocol.Failure
use rp1_rust.Protocol.Frame.{Step}
use rp1_rust.Protocol.Header.{get_byte}
use rp1_rust.Protocol.Decode.{decode}
use rp1_rust.Dispatch.{Registry, RegistryError, insert, retire, new_registry}
use rp1_rust.Lifecycle.{Lifecycle, mark_state}
use rp1_rust.Session.{
  DriverError, Outcome, Completions, find, drop_key, keys, Session, fail_one, fail_each, fail_all,
  header_request_id, frame_total_len, DrainStep, resolve, drain_buffer, frame_bytes, dispatch_frame,
  dispatch_refusal, dispatch_failed, drain_step, admission_of, drain_one, Drained, drain_on,
  drain_loop, drain_frames,
}

pub record Submit : Type 0 where
  pub id : ℕ
  pub bytes : Bytes
  pub completion : ℕ

pub data DriverExit : Type 0 where
  closed failed unusable : DriverExit

-- The task's state, with the lifecycle state and the semaphore that it shares with the handles.
pub record Driver : Type 0 where
  pub session : Session
  pub submit_closed : Bool
  pub state : Lifecycle
  pub admission_open : Bool

-- What the task can be woken by, with the answer that the transport gives.
pub data Event : Type 0 where
  shutdown : Bool → Event
  submitted : Submit → Bool → Event
  submit_end : Event
  read_end : Event
  read_chunk : Bytes → Event

pub data Next : Type 0 where
  running : Driver → Next
  exited : DriverExit → Driver → Next
  stuck : Next

abbrev pub no_completions : Session → Bool
no_completions session = length session.completions == 0

-- Every failing exit: the waiters, the lifecycle state, the semaphore.
unfoldable pub stop : DriverError → Lifecycle → Driver → Driver
unfolding fail_all mark_state
stop error next driver = record driver {
  session = fail_all error driver.session;
  state = mark_state driver.state next;
  admission_open = false;
}

abbrev pub deliver : Session → ℕ → Outcome → Session
deliver session waiter outcome = record session {
  delivered = session.delivered ++ (waiter, outcome) ∷ [];
}

-- `if submit_closed && completions.is_empty() { break; }`
unfoldable pub end_of_round : Driver → Next
end_of_round driver =
    if driver.submit_closed && no_completions driver.session
    then Next.exited DriverExit.closed driver
    else Next.running driver

unfoldable pub accept : Submit → Bool → Registry → Driver → Next
unfolding stop end_of_round drop_key
accept submit written live driver =
    let session = record driver.session {
      live = live;
      completions = (submit.id, submit.completion) ∷ drop_key driver.session.completions submit.id;
    } in
    if written
    then end_of_round (record driver { session = session })
    else Next.exited DriverExit.failed
        (stop DriverError.transport Lifecycle.failed (record driver { session = session }))

unfoldable pub after_drain : Drained → Driver → Next
unfolding stop end_of_round
after_drain (Drained.usable session) driver = end_of_round (record driver { session = session })
after_drain (Drained.fatal failure session) driver = Next.exited DriverExit.unusable (
    stop (DriverError.connection_fatal failure) Lifecycle.unusable
      (record driver { session = session }))
after_drain Drained.stuck driver = Next.stuck

-- The two answers of `live.insert`.
unfoldable pub admit_submit : Result Registry RegistryError → Submit → Bool → Driver → Next
admit_submit (err refused) submit written driver = Next.exited DriverExit.unusable (
    stop DriverError.unusable Lifecycle.unusable (record driver {
      session = deliver driver.session submit.completion (err DriverError.unusable);
    }))
admit_submit (ok live) submit written driver = accept submit written live driver

-- A submission is not received once the channel is closed.
unfoldable pub receive : Bool → Submit → Bool → Driver → Next
receive true submit written driver = Next.running driver
receive false submit written driver =
    admit_submit (insert driver.session.live submit.id) submit written driver

-- The transport failed, or ended: by whether no completion is left, and whether the channel of
-- submissions is closed.
unfoldable pub end_of_stream : Bool → Bool → Driver → Next
end_of_stream true true driver = Next.exited DriverExit.closed driver
end_of_stream true false driver = Next.running driver
end_of_stream false submit_closed driver =
    Next.exited DriverExit.failed (stop DriverError.transport Lifecycle.failed driver)

-- The shutdown signal, with the answer of the transport's own shutdown.
unfoldable pub shut_down : Bool → Driver → Next
unfolding mark_state
shut_down true driver =
    Next.exited DriverExit.closed (stop DriverError.closed Lifecycle.closed driver)
shut_down false driver =
    let stopped = stop DriverError.closed Lifecycle.closed driver in
    Next.exited DriverExit.failed
      (record stopped { state = mark_state stopped.state Lifecycle.failed })

-- One round of the loop of `run_driver`.
unfoldable pub step : Limits → Driver → Event → Next
step limits driver (Event.shutdown transport_ok) = shut_down transport_ok driver
step limits driver (Event.submitted submit written) =
    receive driver.submit_closed submit written driver
step limits driver Event.submit_end = end_of_round (record driver { submit_closed = true })
step limits driver Event.read_end =
    end_of_stream (no_completions driver.session) driver.submit_closed driver
step limits driver (Event.read_chunk chunk) =
    let session = record driver.session { buffer = driver.session.buffer ++ chunk } in
    after_drain (drain_frames limits session) (record driver { session = session })

-- What follows a round.
unfoldable pub continue : Next → (Driver → Next) → Next
continue (Next.running driver) go = go driver
continue (Next.exited exit driver) go = Next.exited exit driver
continue Next.stuck go = Next.stuck

-- The task over a sequence of events, up to its exit.
unfoldable pub run : Limits → Driver → List Event → Next
run limits driver [] = Next.running driver
run limits driver (event ∷ events) =
    continue (step limits driver event) (λ driver'. run limits driver' events)

abbrev pub new_session : Session
new_session = record { buffer = []; completions = []; live = new_registry; delivered = [] }

-- The task as `spawn` starts it, on a connection that has just become usable.
abbrev pub new_driver : Driver
new_driver = record {
  session = new_session;
  submit_closed = false;
  state = Lifecycle.usable;
  admission_open = true;
}
