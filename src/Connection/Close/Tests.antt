-- ===== src/Connection/Close/Tests.antt =====
-- src/connection/mod.rs: runs of closing a connection.
use rp1_rust.Base.{◌≡◌, refl, true, false, some, List, [], ◌∷◌}
use rp1_rust.Base.Result.{err}
use rp1_rust.Protocol.Types.{pre_negotiation_limits}
use rp1_rust.Lifecycle.{Lifecycle}
use rp1_rust.Transport.{IoError}
use rp1_rust.Session.{DriverError}
use rp1_rust.Driver.{Driver, Event, new_driver, new_session}
use rp1_rust.Connection.Close.{Route, close}

-- The task is shut down, and its transport fails to.
abbrev failing : Route
failing = Route.through_driver false (Event.shutdown false ∷ [])

abbrev shut_driver : Driver
shut_driver = record new_driver { state = Lifecycle.closed; admission_open = false }

close-failing :
    close pre_negotiation_limits [] failing new_driver
    ≡ some (record { answer = err IoError.broken_pipe; after = shut_driver })
unfolding close rp1_rust.Driver.continue rp1_rust.Driver.step rp1_rust.Driver.shut_down
    rp1_rust.Driver.stop
close-failing = refl

-- The id 0 of a submission ends the task as unusable after `is_terminal` was asked.
abbrev overtaking : List Event
overtaking = Event.submitted (record { id = 0; bytes = []; completion = 60 }) true ∷ []

abbrev overtaken_driver : Driver
overtaken_driver = record new_driver {
  session = record new_session { delivered = (60, err DriverError.unusable) ∷ [] };
  state = Lifecycle.closing;
  admission_open = false;
}
