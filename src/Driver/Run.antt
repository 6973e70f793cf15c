-- ===== src/Driver/Run.antt =====
-- src/connection/driver.rs: the waiters over a run of the driver.
use rp1_rust.Base.{
  ℕ, ◌+◌, ◌≡◌, inl, inr, refl, ◌∙◌, ap, Bool, true, false, List, [], ◌∷◌, ◌++◌, ◌==◌, if◌then◌else◌,
  arith,
}
use rp1_rust.Base.Result.{err}
use rp1_rust.Protocol.Types.{Limits}
use rp1_rust.Dispatch.{insert, RegistryError}
use rp1_rust.Dispatch.Live.{insert_lem}
use rp1_rust.Lifecycle.{Lifecycle}
use rp1_rust.Session.{Session, Outcome, DriverError, drain_frames}
use rp1_rust.Driver.{
  Submit, DriverExit, Driver, Event, Next, deliver, step, run, admit_submit, receive, end_of_stream,
  shut_down, continue,
}
use rp1_rust.Session.Waiters.{answered, answered-snoc}
use rp1_rust.Session.Invariant.{IsSession, tally}
use rp1_rust.Session.Drain.{drain_frames-KeepsDrained}
use rp1_rust.Driver.Rounds.{
  received, handed_in, closed_by, KeepsNext, stop-all, none-left, answered-tally,
  end_of_round-KeepsNext, admitted-IsSession, accept-KeepsNext, after_drain-KeepsNext,
}

deliver-IsSession :
    (session : Session) (waiter : ℕ) (outcome : Outcome)
    → IsSession session
    → IsSession (deliver session waiter outcome)
      × ((other : ℕ)
          → tally other (deliver session waiter outcome)
            ≡ tally other session + (if waiter == other then 1 else 0))
unfolding tally
deliver-IsSession session waiter outcome h = (
  record { registry = h.registry; distinct = h.distinct; matched = h.matched },
  λ other. omega (arith, answered-snoc other session.delivered waiter outcome),
)

buffered-IsSession :
    (session : Session) (buffer : List ℕ)
    → IsSession session
    → IsSession (record session { buffer = buffer })
buffered-IsSession session buffer h = record {
  registry = h.registry;
  distinct = h.distinct;
  matched = h.matched;
}

refused-KeepsNext :
    (driver : Driver) (submit : Submit) (written : Bool) (e : RegistryError)
    → IsSession driver.session
    → KeepsNext driver.session
        (handed_in false submit.completion)
        driver.submit_closed
        (admit_submit (err e) submit written driver)
unfolding admit_submit
refused-KeepsNext driver submit written e h =
    let (session, tallied) =
      deliver-IsSession driver.session submit.completion (err DriverError.unusable) h in
    let (empty, all) =
      stop-all DriverError.unusable Lifecycle.unusable
        (record driver {
          session = deliver driver.session submit.completion (err DriverError.unusable);
        })
        session in
    (empty, λ waiter. all waiter ∙ tallied waiter)

admitted-KeepsNext :
    (driver : Driver) (submit : Submit) (written : Bool)
    → IsSession driver.session
    → KeepsNext driver.session
        (handed_in false submit.completion)
        driver.submit_closed
        (admit_submit (insert driver.session.live submit.id) submit written driver)
unfolding admit_submit
admitted-KeepsNext driver submit written h =
    elim (insert_lem driver.session.live submit.id h.registry) [
      | inl (e, z) ↦ rw e (refused-KeepsNext driver submit written RegistryError.reserved h)
      | inr (inl (e, live)) ↦
          rw e (refused-KeepsNext driver submit written RegistryError.live_reuse h)
      | inr (inr (registry, e, nonzero, fresh, valid, all)) ↦
          let (session, tallied) =
            admitted-IsSession driver.session submit registry h valid fresh all in
          rw e (accept-KeepsNext driver submit written registry session tallied)
    ]

receive-KeepsNext :
    (closed : Bool) (driver : Driver) (submit : Submit) (written : Bool)
    → IsSession driver.session
    → KeepsNext driver.session
        (received closed (Event.submitted submit written))
        driver.submit_closed
        (receive closed submit written driver)
unfolding receive
receive-KeepsNext true driver submit written h = (h, λ waiter. omega arith, refl)
receive-KeepsNext false driver submit written h = admitted-KeepsNext driver submit written h

end_of_stream-KeepsNext :
    (empty closed : Bool) (driver : Driver)
    → (empty ≡ true → driver.session.completions ≡ [])
    → driver.submit_closed ≡ closed
    → IsSession driver.session
    → KeepsNext driver.session (λ waiter. 0) closed (end_of_stream empty closed driver)
unfolding end_of_stream
end_of_stream-KeepsNext true true driver e c h =
    (e refl, λ waiter. omega (arith, answered-tally driver.session waiter (e refl)))
end_of_stream-KeepsNext true false driver e c h = (h, λ waiter. omega arith, c)
end_of_stream-KeepsNext false closed driver e c h =
    let (empty, all) = stop-all DriverError.transport Lifecycle.failed driver h in
    (empty, λ waiter. omega (arith, all waiter))

shut_down-KeepsNext :
    (transport_ok : Bool) (driver : Driver)
    → IsSession driver.session
    → KeepsNext driver.session (λ waiter. 0) driver.submit_closed (shut_down transport_ok driver)
unfolding shut_down
shut_down-KeepsNext true driver h =
    let (empty, all) = stop-all DriverError.closed Lifecycle.closed driver h in
    (empty, λ waiter. omega (arith, all waiter))
shut_down-KeepsNext false driver h =
    let (empty, all) = stop-all DriverError.closed Lifecycle.closed driver h in
    (empty, λ waiter. omega (arith, all waiter))

-- From a session in order a round does not run out of fuel. If the task goes on, the session is in
-- order, each waiter has been answered or is pending as often as before, and once more if the round
-- took it in, and the channel of submissions is closed if it was or if the round closed it; if the
-- task exits, no waiter is pending and each has been answered as often.
pub step-KeepsNext :
    (limits : Limits) (driver : Driver) (event : Event)
    → IsSession driver.session
    → KeepsNext driver.session
        (received driver.submit_closed event)
        (closed_by driver.submit_closed event)
        (step limits driver event)
unfolding step tally
step-KeepsNext limits driver (Event.shutdown transport_ok) h =
    shut_down-KeepsNext transport_ok driver h
step-KeepsNext limits driver (Event.submitted submit written) h =
    receive-KeepsNext driver.submit_closed driver submit written h
step-KeepsNext limits driver Event.submit_end h =
    end_of_round-KeepsNext driver.session _ (record driver { submit_closed = true }) h
      (λ waiter. omega arith)
step-KeepsNext limits driver Event.read_end h =
    end_of_stream-KeepsNext _ driver.submit_closed driver (none-left driver.session.completions)
      refl h
step-KeepsNext limits driver (Event.read_chunk chunk) h =
    let session = record driver.session { buffer = driver.session.buffer ++ chunk } in
    after_drain-KeepsNext driver.session (record driver { session = session }) session
      (drain_frames limits session)
      (drain_frames-KeepsDrained limits session
        (buffered-IsSession driver.session (driver.session.buffer ++ chunk) h))
      (λ waiter. refl)

-- How often the events hand `waiter` in, from the channel's state on.
abbrev pub asked : Bool → List Event → ℕ → ℕ
asked closed [] waiter = 0
asked closed (event ∷ events) waiter =
    received closed event waiter + asked (closed_by closed event) events waiter

-- How a run exits: on the last of the events that it took.
pub record IsExit (limits : Limits) (driver : Driver) (closed : Bool) (events : List Event)
    (exit : DriverExit) (last : Driver) : Type 0 where
  pub front : List Event
  pub event : Event
  pub unused : List Event
  pub before : Driver
  pub taken : events ≡ front ++ event ∷ unused
  pub runs : run limits driver front ≡ Next.running before
  pub exits : step limits before event ≡ Next.exited exit last
  pub empty : last.session.completions ≡ []
  pub all :
      (waiter : ℕ)
      → answered waiter last.session.delivered
        ≡ tally waiter driver.session + asked closed (front ++ event ∷ []) waiter

-- What a run on `events` owes to the waiters: `tally` counts the answers that a waiter has had and
-- those still to come.
abbrev pub Accounts : Limits → Driver → Bool → List Event → Next → Type 0
Accounts limits driver closed events (Next.running last) =
    IsSession last.session
    × ((waiter : ℕ)
        → tally waiter last.session ≡ tally waiter driver.session + asked closed events waiter)
Accounts limits driver closed events (Next.exited exit last) =
    IsExit limits driver closed events exit last
Accounts limits driver closed events Next.stuck = ⊥

Accounts-cons :
    (limits : Limits) (driver : Driver) (closed : Bool) (event : Event) (events : List Event)
    (later : Driver) (next : Next)
    → step limits driver event ≡ Next.running later
    → ((waiter : ℕ)
        → tally waiter later.session ≡ tally waiter driver.session + received closed event waiter)
    → Accounts limits later (closed_by closed event) events next
    → Accounts limits driver closed (event ∷ events) next
unfolding run continue
Accounts-cons limits driver closed event events later (Next.running last) e t k =
    (k.0, λ waiter. omega (arith, t waiter, k.1 waiter))
Accounts-cons limits driver closed event events later (Next.exited exit last) e t k = record {
  front = event ∷ k.front;
  event = k.event;
  unused = k.unused;
  before = k.before;
  taken = ap (λ (es : List Event). event ∷ es) k.taken;
  runs = ap (λ (next : Next). continue next (λ driver'. run limits driver' k.front)) e ∙ k.runs;
  exits = k.exits;
  empty = k.empty;
  all = λ waiter. omega (arith, t waiter, k.all waiter);
}
Accounts-cons limits driver closed event events later Next.stuck e t k = k

continue-Accounts :
    (limits : Limits) (driver : Driver) (closed : Bool) (event : Event) (events : List Event)
    (next : Next) (go : Driver → Next)
    → step limits driver event ≡ next
    → KeepsNext driver.session (received closed event) (closed_by closed event) next
    → ((later : Driver)
        → IsSession later.session
        → later.submit_closed ≡ closed_by closed event
        → Accounts limits later (closed_by closed event) events (go later))
    → Accounts limits driver closed (event ∷ events) (continue next go)
unfolding continue run
continue-Accounts limits driver closed event events (Next.running later) go e k rest =
    Accounts-cons limits driver closed event events later (go later) e k.1 (rest later k.0 k.2)
continue-Accounts limits driver closed event events (Next.exited exit last) go e k rest = record {
  front = [];
  event = event;
  unused = events;
  before = driver;
  taken = refl;
  runs = refl;
  exits = e;
  empty = k.0;
  all = λ waiter. omega (arith, k.1 waiter);
}
continue-Accounts limits driver closed event events Next.stuck go e k rest = k

-- From a session in order, and on any events: while the task runs, the session is in order, and
-- each waiter has been answered or is pending as often as it was pending, answered or handed in;
-- the task exits on the first event whose round ends it, and then no waiter is pending, and each
-- has been answered as often as it was answered, pending or handed in by the events up to that
-- one, which counts. The fuel of the drain never runs out.
pub run-Accounts :
    (limits : Limits) (driver : Driver) (closed : Bool) (events : List Event)
    → IsSession driver.session
    → driver.submit_closed ≡ closed
    → Accounts limits driver closed events (run limits driver events)
unfolding run
run-Accounts limits driver closed [] h c = (h, λ waiter. omega arith)
run-Accounts limits driver closed (event ∷ events) h c =
    continue-Accounts limits driver closed event events (step limits driver event) _ refl
      (rw (← c) (step-KeepsNext limits driver event h))
      (λ next valid e. run-Accounts limits next (closed_by closed event) events valid e)
