-- ===== src/Connection/Close/Ends.antt =====
-- src/connection/mod.rs: how `close` leaves the state and the semaphore.
use rp1_rust.Base.{◌≡◌, ◌⊎◌, Bool, true, false, Option, some, none}
use rp1_rust.Base.Result.{Result, ok, err}
use rp1_rust.Lifecycle.{Lifecycle}
use rp1_rust.Transport.{IoError}
use rp1_rust.Driver.{Driver, DriverExit, Next}
use rp1_rust.Connection.Close.{Closed, Route}

-- How a connection stands behind a wait for a task that ran on when `close` began.
abbrev pub IsSettled : Bool → Result (Unit {0}) IoError → Lifecycle → Type 0
IsSettled panics (ok u) state =
    (state ≡ Lifecycle.closed)
    ⊎ ((state ≡ Lifecycle.unusable) ⊎ ((panics ≡ true) × (state ≡ Lifecycle.closing)))
IsSettled panics (err error) state =
    (error ≡ IoError.broken_pipe) × ((state ≡ Lifecycle.failed) ⊎ (state ≡ Lifecycle.closed))

-- And behind one for a task that had exited by then.
abbrev pub IsOvertaken : DriverExit → Result (Unit {0}) IoError → Lifecycle → Type 0
IsOvertaken DriverExit.closed answer state = (answer ≡ ok tt) × (state ≡ Lifecycle.closed)
IsOvertaken DriverExit.failed answer state =
    (answer ≡ err IoError.broken_pipe) × (state ≡ Lifecycle.failed)
IsOvertaken DriverExit.unusable answer state = (answer ≡ ok tt) × (state ≡ Lifecycle.closing)

-- And where no task is waited for.
abbrev pub IsAlone :
    Option (Result (Unit {0}) IoError) → Result (Unit {0}) IoError → Lifecycle → Type 0
IsAlone none answer state = (answer ≡ ok tt) × (state ≡ Lifecycle.closed)
IsAlone (some (ok u)) answer state = (answer ≡ ok tt) × (state ≡ Lifecycle.closed)
IsAlone (some (err error)) answer state = (answer ≡ err error) × (state ≡ Lifecycle.failed)

-- The answer and the state that `close` ends with, by its route and by where the task is when it sets
-- the state.
abbrev pub EndsAs : Route → Next → Result (Unit {0}) IoError → Lifecycle → Type 0
EndsAs route Next.stuck answer state = ⊥
EndsAs (Route.through_driver panics events) (Next.running driver) answer state =
    IsSettled panics answer state
EndsAs (Route.through_driver panics events) (Next.exited exit driver) answer state =
    IsOvertaken exit answer state
EndsAs Route.taken (Next.running driver) answer state =
    (answer ≡ ok tt) × (state ≡ Lifecycle.closing)
EndsAs Route.taken (Next.exited exit driver) answer state =
    (answer ≡ ok tt) × (state ≡ Lifecycle.closing)
EndsAs (Route.alone shut) (Next.running driver) answer state = IsAlone shut answer state
EndsAs (Route.alone shut) (Next.exited exit driver) answer state = IsAlone shut answer state

-- Of what ends, a statement on the answer and the state, and that the semaphore is shut.
abbrev Leaves : (Result (Unit {0}) IoError → Lifecycle → Type 0) → Option Closed → Type 0
Leaves P none = Unit
Leaves P (some closed) = P closed.answer closed.after.state × (closed.after.admission_open ≡ false)
