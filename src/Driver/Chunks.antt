-- ===== src/Driver/Chunks.antt =====
-- src/connection/driver.rs: the task on a stream that arrives in parts.
use rp1_rust.Base.{
  ◌≡◌, inl, inr, refl, sym, ap, ◌∙◌, ◌&&◌, ◌++◌, append_assoc, length, ◌==◌, Bool-cases,
}
use rp1_rust.Base.Bytes.{Bytes}
use rp1_rust.Protocol.Types.{Limits}
use rp1_rust.Session.{Session, Drained, drain_frames}
use rp1_rust.Session.Invariant.{IsSession}
use rp1_rust.Session.Extend.{extend}
use rp1_rust.Session.Chunks.{drain_frames-extend}
use rp1_rust.Driver.{Driver, Event, Next, step, after_drain, end_of_round}

abbrev with_session : Session → Driver → Driver
with_session session driver = record driver { session = session }

end_of_round-running :
    (driver next : Driver) → end_of_round driver ≡ Next.running next → driver ≡ next
unfolding end_of_round
end_of_round-running driver next h =
    elim (Bool-cases (driver.submit_closed && (length driver.session.completions == 0))) [
      | inl ends ↦ cc (rw ends at h)
      | inr on ↦ let same = rw on at h in cc
    ]

after_drain-session :
    (drained : Drained) (session session' : Session) (driver : Driver)
    → after_drain drained (with_session session driver)
      ≡ after_drain drained (with_session session' driver)
unfolding after_drain
after_drain-session (Drained.usable s) session session' driver = refl
after_drain-session (Drained.fatal failure s) session session' driver = refl
after_drain-session Drained.stuck session session' driver = refl

-- What a chunk drains to, where the task runs on.
chunk-usable :
    (drained : Drained) (driver next : Driver)
    → after_drain drained driver ≡ Next.running next
    → (session : Session) × (drained ≡ Drained.usable session)
      × (with_session session driver ≡ next)
unfolding after_drain
chunk-usable (Drained.usable session) driver next h =
    (session, refl, end_of_round-running (with_session session driver) next h)
chunk-usable (Drained.fatal failure session) driver next h = cc
chunk-usable Drained.stuck driver next h = cc

-- Where the task, with its session in order, runs on after a chunk of the stream, its round on the
-- next chunk is its round on both chunks at once: the same answers, state and exit.
pub step-chunks :
    (limits : Limits) (driver next : Driver) (first second : Bytes)
    → IsSession driver.session
    → step limits driver (Event.read_chunk first) ≡ Next.running next
    → step limits next (Event.read_chunk second)
      ≡ step limits driver (Event.read_chunk (first ++ second))
unfolding step
step-chunks limits driver next first second h runs =
    let start = extend first driver.session in
    let (session, drains, same) = chunk-usable (drain_frames limits start) _ next runs in
    let valid : IsSession start = record {
      registry = h.registry;
      distinct = h.distinct;
      matched = h.matched;
    } in
    let together = drain_frames-extend limits start session second valid drains in
    let joined =
      ap (λ (buffer : Bytes). record driver.session { buffer = buffer })
        (append_assoc driver.session.buffer first second) in
    rw (← same) (
      after_drain-session (drain_frames limits (extend second session)) (extend second session)
        (extend second start) driver
      ∙ ap (λ (drained : Drained). after_drain drained (with_session (extend second start) driver))
          (sym together)
      ∙ ap (λ (s : Session). after_drain (drain_frames limits s) (with_session s driver)) joined)
