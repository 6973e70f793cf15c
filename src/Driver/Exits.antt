-- ===== src/Driver/Exits.antt =====
-- src/connection/driver.rs: the lifecycle state over a run, and how a run exits.
use rp1_rust.Base.{◌≡◌, refl, true, false, List}
use rp1_rust.Protocol.Types.{Limits}
use rp1_rust.Lifecycle.{Lifecycle, mark_state}
use rp1_rust.Session.{DriverError}
use rp1_rust.Driver.{DriverExit, Driver, Event, Next, step, run, shut_down}
use rp1_rust.Driver.Marks.{IsMarkedFrom, IsServingFrom, stop-state, run-IsMarkedFrom}

-- How the state and the semaphore stand after a round from a usable state with an open semaphore.
abbrev pub IsMarked : Next → Type 0
IsMarked next = IsMarkedFrom Lifecycle.usable true next

-- A usable state, with an open semaphore.
abbrev pub IsServing : Driver → Type 0
IsServing driver = IsServingFrom Lifecycle.usable true driver

usable-unset : (next : Lifecycle) → mark_state Lifecycle.usable next ≡ next
unfolding mark_state
usable-unset next = refl

-- From a usable state with an open semaphore, and on any events: while the task runs, both stay; an
-- exit that reports a failure has shut the semaphore and has marked the state failed, or closed;
-- one that reports unusable has shut it and marked the state unusable; and one that reports closed
-- has shut it and marked the state closed, or leaves both as they were once the channel of
-- submissions is closed.
pub run-IsMarked :
    (limits : Limits) (driver : Driver) (events : List Event)
    → IsServing driver
    → IsMarked (run limits driver events)
run-IsMarked limits driver events h =
    run-IsMarkedFrom Lifecycle.usable true usable-unset limits driver events h

-- From a usable state with an open semaphore, a shutdown whose transport fails exits as failed, yet
-- leaves the state closed, as one whose transport succeeds does.
pub shutdown-state :
    (limits : Limits) (driver : Driver)
    → IsServing driver
    → (done failing : Driver) × (step limits driver (Event.shutdown true)
        ≡ Next.exited DriverExit.closed done)
      × (step limits driver (Event.shutdown false) ≡ Next.exited DriverExit.failed failing)
      × (done.state ≡ Lifecycle.closed)
      × (failing.state ≡ Lifecycle.closed)
unfolding step shut_down
shutdown-state limits driver h =
    let closed =
      (stop-state Lifecycle.usable true usable-unset DriverError.closed Lifecycle.closed driver
        h).0 in
    (_, _, refl, refl, closed, rw closed (unfold mark_state in refl))
