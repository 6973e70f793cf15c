-- ===== src/Driver/Marks.antt =====
-- src/connection/driver.rs: the lifecycle state and the semaphore over the rounds of a run.
use rp1_rust.Base.{◌≡◌, ◌⊎◌, inl, inr, refl, ap, ◌∙◌, Bool, true, false, List, [], ◌∷◌, ◌++◌, arith}
use rp1_rust.Base.Result.{Result, ok, err}
use rp1_rust.Protocol.Types.{Limits}
use rp1_rust.Dispatch.{Registry, RegistryError}
use rp1_rust.Lifecycle.{Lifecycle, mark_state}
use rp1_rust.Session.{Session, DriverError, Drained, drop_key, drain_frames}
use rp1_rust.Driver.{
  Submit, DriverExit, Driver, Event, Next, deliver, step, run, continue, accept, admit_submit,
  receive, after_drain, end_of_round, end_of_stream, shut_down, stop,
}

-- How the state and the semaphore stand after a round, where they stood at `before` and `admits`.
abbrev pub IsMarkedFrom : Lifecycle → Bool → Next → Type 0
IsMarkedFrom before admits (Next.running driver) =
    (driver.state ≡ before) × (driver.admission_open ≡ admits)
IsMarkedFrom before admits (Next.exited DriverExit.closed driver) =
    ((driver.state ≡ Lifecycle.closed) × (driver.admission_open ≡ false))
    ⊎ ((driver.state ≡ before) × (driver.admission_open ≡ admits) × (driver.submit_closed ≡ true))
IsMarkedFrom before admits (Next.exited DriverExit.failed driver) =
    ((driver.state ≡ Lifecycle.failed) ⊎ (driver.state ≡ Lifecycle.closed))
    × (driver.admission_open ≡ false)
IsMarkedFrom before admits (Next.exited DriverExit.unusable driver) =
    (driver.state ≡ Lifecycle.unusable) × (driver.admission_open ≡ false)
IsMarkedFrom before admits Next.stuck = Unit

abbrev pub IsServingFrom : Lifecycle → Bool → Driver → Type 0
IsServingFrom before admits driver = (driver.state ≡ before) × (driver.admission_open ≡ admits)

-- `before` is a state that the first mark replaces.
module _ (before : Lifecycle) (admits : Bool)
    (unset : (next : Lifecycle) → mark_state before next ≡ next) where
  end_of_round-IsMarkedFrom :
      (driver : Driver)
      → IsServingFrom before admits driver
      → IsMarkedFrom before admits (end_of_round driver)
  unfolding end_of_round
  end_of_round-IsMarkedFrom driver h = ground (arith, h.0, h.1)

  pub stop-state :
      (error : DriverError) (next : Lifecycle) (driver : Driver)
      → IsServingFrom before admits driver
      → ((stop error next driver).state ≡ next) × ((stop error next driver).admission_open ≡ false)
  unfolding stop mark_state
  stop-state error next driver h =
      (ap (λ (t : Lifecycle). mark_state t next) h.0 ∙ unset next, refl)

  abbrev accepted : Submit → Registry → Driver → Session
  accepted submit live driver = record driver.session {
    live = live;
    completions = (submit.id, submit.completion) ∷ drop_key driver.session.completions submit.id;
  }

  accept-IsMarkedFrom :
      (submit : Submit) (written : Bool) (live : Registry) (driver : Driver)
      → IsServingFrom before admits driver
      → IsMarkedFrom before admits (accept submit written live driver)
  unfolding accept
  accept-IsMarkedFrom submit true live driver h =
      end_of_round-IsMarkedFrom (record driver { session = accepted submit live driver }) h
  accept-IsMarkedFrom submit false live driver h =
      let (failed, shut) =
        stop-state DriverError.transport Lifecycle.failed
          (record driver { session = accepted submit live driver }) h in
      (inl failed, shut)

  admit_submit-IsMarkedFrom :
      (answer : Result Registry RegistryError) (submit : Submit) (written : Bool) (driver : Driver)
      → IsServingFrom before admits driver
      → IsMarkedFrom before admits (admit_submit answer submit written driver)
  unfolding admit_submit
  admit_submit-IsMarkedFrom (ok live) submit written driver h =
      accept-IsMarkedFrom submit written live driver h
  admit_submit-IsMarkedFrom (err e) submit written driver h =
      stop-state DriverError.unusable Lifecycle.unusable
        (record driver {
          session = deliver driver.session submit.completion (err DriverError.unusable);
        })
        h

  receive-IsMarkedFrom :
      (closed : Bool) (submit : Submit) (written : Bool) (driver : Driver)
      → IsServingFrom before admits driver
      → IsMarkedFrom before admits (receive closed submit written driver)
  unfolding receive
  receive-IsMarkedFrom true submit written driver h = h
  receive-IsMarkedFrom false submit written driver h =
      admit_submit-IsMarkedFrom _ submit written driver h

  end_of_stream-IsMarkedFrom :
      (empty closed : Bool) (driver : Driver)
      → driver.submit_closed ≡ closed
      → IsServingFrom before admits driver
      → IsMarkedFrom before admits (end_of_stream empty closed driver)
  unfolding end_of_stream
  end_of_stream-IsMarkedFrom true true driver e h = inr (h.0, h.1, e)
  end_of_stream-IsMarkedFrom true false driver e h = h
  end_of_stream-IsMarkedFrom false closed driver e h =
      let (failed, shut) = stop-state DriverError.transport Lifecycle.failed driver h in
      (inl failed, shut)

  after_drain-IsMarkedFrom :
      (drained : Drained) (driver : Driver)
      → IsServingFrom before admits driver
      → IsMarkedFrom before admits (after_drain drained driver)
  unfolding after_drain
  after_drain-IsMarkedFrom (Drained.usable session) driver h =
      end_of_round-IsMarkedFrom (record driver { session = session }) h
  after_drain-IsMarkedFrom (Drained.fatal failure session) driver h =
      stop-state (DriverError.connection_fatal failure) Lifecycle.unusable
        (record driver { session = session }) h
  after_drain-IsMarkedFrom Drained.stuck driver h = tt

  shut_down-IsMarkedFrom :
      (transport_ok : Bool) (driver : Driver)
      → IsServingFrom before admits driver
      → IsMarkedFrom before admits (shut_down transport_ok driver)
  unfolding shut_down
  shut_down-IsMarkedFrom true driver h =
      inl (stop-state DriverError.closed Lifecycle.closed driver h)
  shut_down-IsMarkedFrom false driver h =
      let (closed, shut) = stop-state DriverError.closed Lifecycle.closed driver h in
      (inr (rw closed (unfold mark_state in refl)), shut)

  step-IsMarkedFrom :
      (limits : Limits) (driver : Driver) (event : Event)
      → IsServingFrom before admits driver
      → IsMarkedFrom before admits (step limits driver event)
  unfolding step
  step-IsMarkedFrom limits driver (Event.shutdown transport_ok) h =
      shut_down-IsMarkedFrom transport_ok driver h
  step-IsMarkedFrom limits driver (Event.submitted submit written) h =
      receive-IsMarkedFrom _ submit written driver h
  step-IsMarkedFrom limits driver Event.submit_end h =
      end_of_round-IsMarkedFrom (record driver { submit_closed = true }) h
  step-IsMarkedFrom limits driver Event.read_end h = end_of_stream-IsMarkedFrom _ _ driver refl h
  step-IsMarkedFrom limits driver (Event.read_chunk chunk) h =
      let session = record driver.session { buffer = driver.session.buffer ++ chunk } in
      after_drain-IsMarkedFrom (drain_frames limits session) (record driver { session = session }) h

  continue-IsMarkedFrom :
      (next : Next) (go : Driver → Next)
      → IsMarkedFrom before admits next
      → ((driver : Driver)
          → IsServingFrom before admits driver
          → IsMarkedFrom before admits (go driver))
      → IsMarkedFrom before admits (continue next go)
  unfolding continue
  continue-IsMarkedFrom (Next.running driver) go h rest = rest driver h
  continue-IsMarkedFrom (Next.exited exit driver) go h rest = h
  continue-IsMarkedFrom Next.stuck go h rest = h

  pub run-IsMarkedFrom :
      (limits : Limits) (driver : Driver) (events : List Event)
      → IsServingFrom before admits driver
      → IsMarkedFrom before admits (run limits driver events)
  unfolding run
  run-IsMarkedFrom limits driver [] h = h
  run-IsMarkedFrom limits driver (event ∷ events) h =
      continue-IsMarkedFrom _ _ (step-IsMarkedFrom limits driver event h)
        (λ next serving. run-IsMarkedFrom limits next events serving)
