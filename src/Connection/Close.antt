-- ===== src/Connection/Close.antt =====
-- src/connection/mod.rs: closing a connection. What the driver's task does between the two locks that
-- `close` takes on the state, and what it does while `close` waits for it, are runs of Driver on lists
-- of events; the task does not look at the semaphore, so that what it does before that is shut counts
-- to the second list.
pub mod Ends
mod Tests
use rp1_rust.Base.{
  ◌≡◌, ◌⊎◌, inl, inr, refl, sym, ap, ◌∙◌, Bool, true, false, Option, some, none, List, [], ◌∷◌,
  if◌then◌else◌, Bool-cases, arith,
}
use rp1_rust.Base.Result.{Result, ok, err}
use rp1_rust.Protocol.Types.{Limits}
use rp1_rust.Lifecycle.{Lifecycle, mark_state}
use rp1_rust.Transport.{IoError}
use rp1_rust.Driver.{Driver, DriverExit, Event, Next, run}
use rp1_rust.Driver.Marks.{IsMarkedFrom, IsServingFrom, run-IsMarkedFrom}

-- How `close` ends, and what it leaves.
pub record Closed : Type 0 where
  pub answer : Result (Unit {0}) IoError
  pub after : Driver

unfoldable pub is_terminal : Lifecycle → Bool
is_terminal Lifecycle.usable = false
is_terminal Lifecycle.closing = false
is_terminal Lifecycle.closed = true
is_terminal Lifecycle.failed = true
is_terminal Lifecycle.unusable = true

abbrev pub begin_closing : Driver → Driver
begin_closing driver = record driver { state = Lifecycle.closing }

unfoldable pub finish_close : Lifecycle → Lifecycle → Lifecycle
finish_close Lifecycle.closing next = next
finish_close Lifecycle.usable next = Lifecycle.usable
finish_close Lifecycle.closed next = Lifecycle.closed
finish_close Lifecycle.failed next = Lifecycle.failed
finish_close Lifecycle.unusable next = Lifecycle.unusable

-- What the wait for the task comes to: `panics` if the task panics behind its last event, and `none`
-- if it runs on.
unfoldable pub close_with_driver : Bool → Next → Option Closed
unfolding finish_close
close_with_driver false (Next.running driver) = none
close_with_driver true (Next.running driver) = some (record { answer = ok tt; after = driver })
close_with_driver panics Next.stuck = none
close_with_driver panics (Next.exited DriverExit.closed driver) = some (record {
  answer = ok tt;
  after = record driver { state = finish_close driver.state Lifecycle.closed };
})
close_with_driver panics (Next.exited DriverExit.failed driver) = some (record {
  answer = err IoError.broken_pipe;
  after = record driver { state = finish_close driver.state Lifecycle.failed };
})
close_with_driver panics (Next.exited DriverExit.unusable driver) =
    some (record { answer = ok tt; after = driver })

-- By the transport, which is gone where the task had it, and by the answer of its shutdown.
unfoldable pub close_without_driver : Option (Result (Unit {0}) IoError) → Driver → Closed
close_without_driver none driver = record {
  answer = ok tt;
  after = record driver { state = Lifecycle.closed };
}
close_without_driver (some (ok u)) driver = record {
  answer = ok tt;
  after = record driver { state = Lifecycle.closed };
}
close_without_driver (some (err error)) driver = record {
  answer = err error;
  after = record driver { state = Lifecycle.failed };
}

-- How the handle reaches what it closes: through the task, which sees these events and may panic;
-- through a task that another call has taken meanwhile; or, where no task is there, by itself.
pub data Route : Type 0 where
  through_driver : Bool → List Event → Route
  taken : Route
  alone : Option (Result (Unit {0}) IoError) → Route

-- With the state and the semaphore as `close` has set them.
abbrev pub closing_off : Driver → Driver
closing_off driver = record (begin_closing driver) { admission_open = false }

-- From the lock of `begin_closing` on, by where the task is then.
unfoldable pub close_by : Limits → Route → Next → Option Closed
unfolding close_with_driver close_without_driver run
close_by limits route Next.stuck = none
close_by limits (Route.through_driver panics events) (Next.running driver) =
    close_with_driver panics (run limits (closing_off driver) events)
close_by limits (Route.through_driver panics events) (Next.exited exit driver) =
    close_with_driver panics (Next.exited exit (closing_off driver))
close_by limits Route.taken (Next.running driver) =
    some (record { answer = ok tt; after = closing_off driver })
close_by limits Route.taken (Next.exited exit driver) =
    some (record { answer = ok tt; after = closing_off driver })
close_by limits (Route.alone shut) (Next.running driver) =
    some (close_without_driver shut (closing_off driver))
close_by limits (Route.alone shut) (Next.exited exit driver) =
    some (close_without_driver shut (closing_off driver))

-- `meanwhile` is what the task sees between `is_terminal` and `begin_closing`.
unfoldable pub close : Limits → List Event → Route → Driver → Option Closed
unfolding is_terminal close_by
close limits meanwhile route driver =
    if is_terminal driver.state
    then some (record { answer = ok tt; after = driver })
    else close_by limits route (run limits driver meanwhile)
