-- ===== src/Driver/Rounds.antt =====
-- src/connection/driver.rs: the waiters over the parts of a round of `run_driver`.
use rp1_rust.Base.{
  ℕ, ◌+◌, ◌≡◌, inl, inr, refl, sym, ◌∙◌, Bool, true, false, ◌||◌, ◌&&◌, [], ◌∷◌, ◌==◌,
  if◌then◌else◌, contains, arith, Bool-cases, length,
}
use rp1_rust.Dispatch.{Registry}
use rp1_rust.Dispatch.Live.{IsRegistry}
use rp1_rust.Lifecycle.{Lifecycle}
use rp1_rust.Session.{Session, Completions, DriverError, Drained, drop_key, keys, fail_all}
use rp1_rust.Driver.{Submit, Driver, Event, Next, stop, accept, end_of_round, after_drain}
use rp1_rust.Session.Waiters.{pending, answered, drop_key-absent}
use rp1_rust.Session.Invariant.{IsSession, tally}
use rp1_rust.Session.FailAll.{fail_all-Keeps}
use rp1_rust.Session.Drain.{KeepsDrained}

-- How often an event hands `waiter` in. Once the channel is closed nothing is handed in.
abbrev pub handed_in : Bool → ℕ → ℕ → ℕ
handed_in true completion waiter = 0
handed_in false completion waiter = if completion == waiter then 1 else 0

abbrev pub received : Bool → Event → ℕ → ℕ
received closed (Event.submitted submit written) waiter = handed_in closed submit.completion waiter
received closed (Event.shutdown transport_ok) waiter = 0
received closed Event.submit_end waiter = 0
received closed Event.read_end waiter = 0
received closed (Event.read_chunk chunk) waiter = 0

abbrev pub closed_by : Bool → Event → Bool
closed_by closed Event.submit_end = true
closed_by closed _ = closed

-- What a round from `session` owes to the waiters. `more` is how often the round has taken a waiter in.
abbrev pub KeepsNext : Session → (ℕ → ℕ) → Bool → Next → Type 0
KeepsNext session more closed (Next.running driver) =
    IsSession driver.session
    × ((waiter : ℕ) → tally waiter driver.session ≡ tally waiter session + more waiter)
    × (driver.submit_closed ≡ closed)
KeepsNext session more closed (Next.exited exit driver) =
    (driver.session.completions ≡ [])
    × ((waiter : ℕ) → answered waiter driver.session.delivered ≡ tally waiter session + more waiter)
KeepsNext session more closed Next.stuck = ⊥

pub answered-tally :
    (session : Session) (waiter : ℕ)
    → session.completions ≡ []
    → tally waiter session ≡ answered waiter session.delivered
unfolding tally
answered-tally session waiter e = rw e (unfold pending in omega arith)

pub stop-all :
    (error : DriverError) (next : Lifecycle) (driver : Driver)
    → IsSession driver.session
    → ((stop error next driver).session.completions ≡ [])
      × ((waiter : ℕ)
          → answered waiter (stop error next driver).session.delivered
            ≡ tally waiter driver.session)
unfolding stop
stop-all error next driver h =
    let (empty, keeps) = fail_all-Keeps error driver.session h in
    (
      empty,
      λ waiter.
          sym (answered-tally (fail_all error driver.session) waiter empty) ∙ keeps.tallied waiter,
    )

pub none-left : (entries : Completions) → (length entries == 0) ≡ true → entries ≡ []
none-left [] h = refl
none-left (x ∷ xs) h = ground arith

pub end_of_round-KeepsNext :
    (session : Session) (more : ℕ → ℕ) (driver : Driver)
    → IsSession driver.session
    → ((waiter : ℕ) → tally waiter driver.session ≡ tally waiter session + more waiter)
    → KeepsNext session more driver.submit_closed (end_of_round driver)
unfolding end_of_round
end_of_round-KeepsNext session more driver h t =
    elim (Bool-cases (driver.submit_closed && (length driver.session.completions == 0))) [
      | inr go ↦ rw (go, KeepsNext) (h, t, refl)
      | inl done ↦
          let empty = none-left driver.session.completions (ground arith) in
          rw (done, KeepsNext)
            (empty, λ waiter. sym (answered-tally driver.session waiter empty) ∙ t waiter)
    ]

-- The session that a submission makes.
abbrev pub admitted : Session → Submit → Registry → Session
admitted session submit live = record session {
  live = live;
  completions = (submit.id, submit.completion) ∷ drop_key session.completions submit.id;
}

pub admitted-IsSession :
    (session : Session) (submit : Submit) (live : Registry)
    → IsSession session
    → IsRegistry live
    → contains session.live.live submit.id ≡ false
    → ((other : ℕ)
        → contains live.live other ≡ (submit.id == other || contains session.live.live other))
    → IsSession (admitted session submit live)
      × ((waiter : ℕ)
          → tally waiter (admitted session submit live)
            ≡ tally waiter session + (if submit.completion == waiter then 1 else 0))
unfolding tally pending
admitted-IsSession session submit live h r fresh all =
    let new : contains (keys session.completions) submit.id ≡ false =
      sym (h.matched submit.id) ∙ fresh in
    rw (drop_key-absent session.completions submit.id new) (
      record {
        registry = r;
        distinct = (new, h.distinct);
        matched = λ other. unfold contains in ground (arith, all other, h.matched other);
      },
      λ waiter. omega arith,
    )

pub accept-KeepsNext :
    (driver : Driver) (submit : Submit) (written : Bool) (live : Registry)
    → IsSession (admitted driver.session submit live)
    → ((waiter : ℕ)
        → tally waiter (admitted driver.session submit live)
          ≡ tally waiter driver.session + (if submit.completion == waiter then 1 else 0))
    → KeepsNext driver.session
        (λ waiter. if submit.completion == waiter then 1 else 0)
        driver.submit_closed
        (accept submit written live driver)
unfolding accept
accept-KeepsNext driver submit true live h t =
    end_of_round-KeepsNext driver.session _
      (record driver { session = admitted driver.session submit live }) h t
accept-KeepsNext driver submit false live h t =
    let (empty, all) =
      stop-all DriverError.transport Lifecycle.failed
        (record driver { session = admitted driver.session submit live }) h in
    (empty, λ waiter. all waiter ∙ t waiter)

pub after_drain-KeepsNext :
    (start : Session) (driver : Driver) (base : Session) (drained : Drained)
    → KeepsDrained base drained
    → ((waiter : ℕ) → tally waiter base ≡ tally waiter start)
    → KeepsNext start (λ waiter. 0) driver.submit_closed (after_drain drained driver)
unfolding after_drain
after_drain-KeepsNext start driver base (Drained.usable session) k t =
    end_of_round-KeepsNext start _ (record driver { session = session }) k.valid
      (λ waiter. omega (arith, k.tallied waiter, t waiter))
after_drain-KeepsNext start driver base (Drained.fatal failure session) k t =
    let (empty, all) =
      stop-all (DriverError.connection_fatal failure) Lifecycle.unusable
        (record driver { session = session }) k.valid in
    (empty, λ waiter. omega (arith, all waiter, k.tallied waiter, t waiter))
after_drain-KeepsNext start driver base Drained.stuck k t = k
