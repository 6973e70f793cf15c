-- ===== src/Session/Drain.antt =====
-- src/connection/driver.rs: `drain_frames`, its rounds and its end.
use rp1_rust.Base.{
  ℕ, zero, suc, ◌≡◌, ◌<◌, ◌≤◌, inl, inr, refl, Option, some, none, arith, Option-cases, length, min,
  length-drop,
}
use rp1_rust.Base.Bytes.{Bytes}
use rp1_rust.Protocol.Types.{Limits, Failure, FailureScope}
use rp1_rust.Protocol.Frame.{Step}
use rp1_rust.Protocol.Decode.Bounds.{IsOutcome, decode-IsOutcome}
use rp1_rust.Session.{
  Session, Outcome, DrainStep, Drained, find, resolve, drain_buffer, frame_total_len,
  dispatch_frame, dispatch_refusal, dispatch_failed, drain_step, drain_one, drain_on, drain_loop,
  drain_frames, admission_of,
}
use rp1_rust.Session.Invariant.{
  IsSession, Keeps, Keeps-refl, Keeps-trans, drain_buffer-Keeps, settled-Keeps,
}

-- A round keeps the session, and drains a byte at least if it goes on.
abbrev pub KeepsStep : Session → DrainStep → Type 0
KeepsStep session DrainStep.waiting = Unit
KeepsStep session (DrainStep.fatal failure session') = Keeps session session'
KeepsStep session (DrainStep.again session') =
    Keeps session session' × (length session'.buffer < length session.buffer)

resolve-KeepsStep :
    (session drained : Session) (id : ℕ) (outcome : Outcome)
    → Keeps session drained
    → length drained.buffer < length session.buffer
    → KeepsStep session (resolve id outcome drained)
unfolding resolve
resolve-KeepsStep session drained id outcome kept less =
    elim (Option-cases (find drained.completions id)) [
      | inl n ↦ rw (n, KeepsStep) kept
      | inr (waiter, f) ↦
          rw (f, KeepsStep)
            (Keeps-trans kept (settled-Keeps drained id waiter outcome kept.valid f), less)
    ]

drain_buffer-less :
    (session : Session) (n : ℕ)
    → 0 < n
    → 0 < length session.buffer
    → length (drain_buffer session n).buffer < length session.buffer
unfolding drain_buffer
drain_buffer-less session n h k =
    omega (arith, length-drop (min n (length session.buffer)) session.buffer)

-- A total length is read from a whole header, and counts it.
frame_total_len-bounds :
    (buffer : Bytes) (total : ℕ)
    → frame_total_len buffer ≡ some total
    → (20 ≤ total) × (20 ≤ length buffer)
unfolding frame_total_len
frame_total_len-bounds buffer total h = ground arith

frame-KeepsStep :
    (session : Session) (retiring : ℕ) (total : Option ℕ)
    → frame_total_len session.buffer ≡ total
    → IsSession session
    → KeepsStep session (dispatch_frame retiring total session)
unfolding dispatch_frame
frame-KeepsStep session retiring none e h = Keeps-refl h
frame-KeepsStep session retiring (some total) e h =
    let (pos, long) = frame_total_len-bounds session.buffer total e in
    resolve-KeepsStep session (drain_buffer session total) retiring _
      (drain_buffer-Keeps session total h)
      (drain_buffer-less session total (omega arith) (omega arith))

refusal-KeepsStep :
    (session : Session) (failure : Failure) (consumed : ℕ) (id : Option ℕ)
    → 20 ≤ consumed
    → consumed ≤ length session.buffer
    → IsSession session
    → KeepsStep session (dispatch_refusal failure consumed id session)
unfolding dispatch_refusal
refusal-KeepsStep session failure consumed none lo hi h = Keeps-refl h
refusal-KeepsStep session failure consumed (some id) lo hi h =
    resolve-KeepsStep session (drain_buffer session consumed) id _
      (drain_buffer-Keeps session consumed h)
      (drain_buffer-less session consumed (omega arith) (omega arith))

failed-KeepsStep :
    (session : Session) (limits : Limits) (scope : FailureScope) (failure : Failure) (consumed : ℕ)
    → scope ≡ failure.scope
    → IsOutcome session.buffer (admission_of session limits) (Step.failed failure consumed)
    → IsSession session
    → KeepsStep session (dispatch_failed scope failure consumed session)
unfolding dispatch_failed
failed-KeepsStep session limits FailureScope.connection_fatal failure consumed e o h = Keeps-refl h
failed-KeepsStep session limits FailureScope.request_scoped failure consumed e (inl fatal) h =
    cc (fatal.0)
failed-KeepsStep session limits FailureScope.request_scoped failure consumed e (inr one) h =
    refusal-KeepsStep session failure consumed _ one.1 one.2 h

step-KeepsStep :
    (session : Session) (limits : Limits) (step : Step)
    → IsOutcome session.buffer (admission_of session limits) step
    → IsSession session
    → KeepsStep session (drain_step step session)
unfolding drain_step
step-KeepsStep session limits (Step.need n) o h = tt
step-KeepsStep session limits (Step.frame frame) o h =
    frame-KeepsStep session frame.header.request_id _ refl h
step-KeepsStep session limits (Step.failed failure consumed) o h =
    failed-KeepsStep session limits failure.scope failure consumed refl o h

pub drain_one-KeepsStep :
    (limits : Limits) (session : Session)
    → IsSession session
    → KeepsStep session (drain_one limits session)
unfolding drain_one
drain_one-KeepsStep limits session h =
    step-KeepsStep session limits _ (decode-IsOutcome session.buffer (admission_of session limits))
      h

-- How a drain ends: not by running out of fuel.
abbrev pub KeepsDrained : Session → Drained → Type 0
KeepsDrained session (Drained.usable session') = Keeps session session'
KeepsDrained session (Drained.fatal failure session') = Keeps session session'
KeepsDrained session Drained.stuck = ⊥

KeepsDrained-trans : (a b : Session) (r : Drained) → Keeps a b → KeepsDrained b r → KeepsDrained a r
KeepsDrained-trans a b (Drained.usable c) h k = Keeps-trans h k
KeepsDrained-trans a b (Drained.fatal failure c) h k = Keeps-trans h k
KeepsDrained-trans a b Drained.stuck h k = k

drain_on-KeepsDrained :
    (session : Session) (step : DrainStep) (go : Session → Drained)
    → IsSession session
    → KeepsStep session step
    → ((next : Session)
        → IsSession next
        → length next.buffer < length session.buffer
        → KeepsDrained next (go next))
    → KeepsDrained session (drain_on step session go)
unfolding drain_on
drain_on-KeepsDrained session DrainStep.waiting go h k rest = Keeps-refl h
drain_on-KeepsDrained session (DrainStep.fatal failure s) go h k rest = k
drain_on-KeepsDrained session (DrainStep.again s) go h k rest =
    KeepsDrained-trans session s (go s) k.0 (rest s k.0.valid k.1)

drain_loop-KeepsDrained :
    (fuel : ℕ) (limits : Limits) (session : Session)
    → length session.buffer < fuel
    → IsSession session
    → KeepsDrained session (drain_loop fuel limits session)
unfolding drain_loop
drain_loop-KeepsDrained zero limits session less h = elim less [ ]
drain_loop-KeepsDrained (suc fuel) limits session less h =
    drain_on-KeepsDrained session (drain_one limits session) (drain_loop fuel limits) h
      (drain_one-KeepsStep limits session h)
      (λ next valid shorter. drain_loop-KeepsDrained fuel limits next (omega arith) valid)

-- From a session in order `drain_frames` ends without running out of fuel, leaves a session in
-- order, and loses no waiter and answers none twice.
pub drain_frames-KeepsDrained :
    (limits : Limits) (session : Session)
    → IsSession session
    → KeepsDrained session (drain_frames limits session)
unfolding drain_frames
drain_frames-KeepsDrained limits session h =
    drain_loop-KeepsDrained (suc (length session.buffer)) limits session (omega arith) h
