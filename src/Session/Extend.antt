-- ===== src/Session/Extend.antt =====
-- src/connection/driver.rs: a round of `drain_frames` with more bytes behind its buffer.
use rp1_rust.Base.{
  ℕ, zero, suc, ◌≡◌, ◌≤◌, inl, inr, refl, ap, ◌∙◌, Option, some, none, [], ◌∷◌, ◌++◌, arith,
  Option-cases, length, length-append, min, drop,
}
use rp1_rust.Base.Bytes.{Bytes}
use rp1_rust.Base.Result.{ok, err}
use rp1_rust.Protocol.Types.{Limits, Failure, FailureScope}
use rp1_rust.Protocol.Frame.{Step}
use rp1_rust.Protocol.Decode.{decode}
use rp1_rust.Protocol.Decode.Bounds.{IsOutcome, decode-IsOutcome}
use rp1_rust.Protocol.Decode.Stream.{
  IsSettled, decode-append, get_range-more, get_range-total, get_to-more, get_to-total,
}
use rp1_rust.Session.{
  DriverError, Session, Outcome, DrainStep, find, resolve, drain_buffer, frame_bytes,
  header_request_id, dispatch_frame, dispatch_refusal, dispatch_failed, drain_step, drain_one,
  admission_of,
}
use rp1_rust.Session.Attribution.{frame-total}

abbrev pub extend : Bytes → Session → Session
extend more session = record session { buffer = session.buffer ++ more }

abbrev extend_step : Bytes → DrainStep → DrainStep
extend_step more DrainStep.waiting = DrainStep.waiting
extend_step more (DrainStep.fatal failure session) = DrainStep.fatal failure (extend more session)
extend_step more (DrainStep.again session) = DrainStep.again (extend more session)

drop-append : (n : ℕ) (xs ys : Bytes) → n ≤ length xs → drop n (xs ++ ys) ≡ drop n xs ++ ys
drop-append zero xs ys h = refl
drop-append (suc n) [] ys h = elim h [ ]
drop-append (suc n) (x ∷ xs) ys h = drop-append n xs ys (omega arith)

module _ (more : Bytes) where
  resolve-extend :
      (id : ℕ) (outcome : Outcome) (session : Session)
      → resolve id outcome (extend more session) ≡ extend_step more (resolve id outcome session)
  unfolding resolve
  resolve-extend id outcome session = elim (Option-cases (find session.completions id)) [
    | inl n ↦ rw (n, resolve) refl
    | inr (waiter, f) ↦ rw (f, resolve) refl
  ]

  drain_buffer-extend :
      (session : Session) (n : ℕ)
      → n ≤ length session.buffer
      → drain_buffer (extend more session) n ≡ extend more (drain_buffer session n)
  unfolding drain_buffer
  drain_buffer-extend session n within =
      let here : min n (length session.buffer) ≡ n = omega arith in
      let there : min n (length (session.buffer ++ more)) ≡ n =
        omega (arith, length-append session.buffer more) in
      ap (λ (buffer : Bytes). record session { buffer = buffer })
        (rw (here, there) (drop-append n session.buffer more within))

  frame_bytes-extend :
      (buffer : Bytes) (n : ℕ)
      → n ≤ length buffer
      → frame_bytes (buffer ++ more) n ≡ frame_bytes buffer n
  unfolding frame_bytes
  frame_bytes-extend buffer n within =
      let (ys, e) = get_to-total buffer n within in
      rw (e, get_to-more buffer more n e, frame_bytes) refl

  dispatch_frame-extend :
      (session : Session) (id total : ℕ)
      → total ≤ length session.buffer
      → dispatch_frame id (some total) (extend more session)
        ≡ extend_step more (dispatch_frame id (some total) session)
  unfolding dispatch_frame
  dispatch_frame-extend session id total within =
      ap (λ (bytes : Bytes). resolve id (ok bytes) (drain_buffer (extend more session) total))
        (frame_bytes-extend session.buffer total within)
      ∙ ap (resolve id (ok (frame_bytes session.buffer total)))
          (drain_buffer-extend session total within)
      ∙ resolve-extend id (ok (frame_bytes session.buffer total)) (drain_buffer session total)

  refusal-extend :
      (session : Session) (failure : Failure) (consumed : ℕ) (id : Option ℕ)
      → consumed ≤ length session.buffer
      → dispatch_refusal failure consumed id (extend more session)
        ≡ extend_step more (dispatch_refusal failure consumed id session)
  unfolding dispatch_refusal
  refusal-extend session failure consumed none within = refl
  refusal-extend session failure consumed (some id) within =
      ap (resolve id (err (DriverError.request_failed failure)))
        (drain_buffer-extend session consumed within)
      ∙ resolve-extend id (err (DriverError.request_failed failure)) (drain_buffer session consumed)

  header_request_id-extend :
      (buffer : Bytes)
      → 20 ≤ length buffer
      → header_request_id (buffer ++ more) ≡ header_request_id buffer
  unfolding header_request_id
  header_request_id-extend buffer long =
      let (slice, e) = get_range-total buffer 12 20 (omega arith) long in
      rw (e, get_range-more buffer more 12 20 e) refl

  failed-extend :
      (session : Session) (scope : FailureScope) (failure : Failure) (consumed : ℕ)
      → 20 ≤ consumed
      → consumed ≤ length session.buffer
      → dispatch_failed scope failure consumed (extend more session)
        ≡ extend_step more (dispatch_failed scope failure consumed session)
  unfolding dispatch_failed
  failed-extend session FailureScope.connection_fatal failure consumed low within = refl
  failed-extend session FailureScope.request_scoped failure consumed low within =
      ap (λ (id : Option ℕ). dispatch_refusal failure consumed id (extend more session))
        (header_request_id-extend session.buffer (omega arith))
      ∙ refusal-extend session failure consumed (header_request_id session.buffer) within

  failed-again :
      (scope : FailureScope) (failure : Failure) (consumed : ℕ) (session next : Session)
      → dispatch_failed scope failure consumed session ≡ DrainStep.again next
      → scope ≡ FailureScope.request_scoped
  unfolding dispatch_failed
  failed-again FailureScope.connection_fatal failure consumed session next h = cc
  failed-again FailureScope.request_scoped failure consumed session next h = refl

  step-extend :
      (session : Session) (limits : Limits) (step : Step)
      → decode session.buffer (admission_of session limits) ≡ step
      → IsOutcome session.buffer (admission_of session limits) step
      → IsSettled step
      → drain_step step (extend more session) ≡ extend_step more (drain_step step session)
  unfolding drain_step dispatch_failed
  step-extend session limits (Step.need n) d o h = absurd h
  step-extend session limits (Step.frame frame) d o h =
      let (total, fits, complete) =
        frame-total session.buffer (admission_of session limits) frame d in
      let (total', fits', complete') =
        frame-total (session.buffer ++ more) (admission_of session limits) frame
          (decode-append session.buffer more (admission_of session limits) (rw d tt) ∙ d) in
      rw (total, total') (dispatch_frame-extend session frame.header.request_id _ complete)
  step-extend session limits (Step.failed failure consumed) d (inl fatal) h = cc (fatal.0)
  step-extend session limits (Step.failed failure consumed) d (inr one) h =
      failed-extend session failure.scope failure consumed one.1 one.2

  again-IsSettled :
      (step : Step) (session next : Session)
      → drain_step step session ≡ DrainStep.again next
      → IsSettled step
  unfolding drain_step dispatch_failed
  again-IsSettled (Step.need n) session next h = cc
  again-IsSettled (Step.frame frame) session next h = tt
  again-IsSettled (Step.failed failure consumed) session next h =
      failed-again failure.scope failure consumed session next h

  -- A round that goes on goes on the same with more bytes behind the buffer.
  pub drain_one-extend :
      (limits : Limits) (session next : Session)
      → drain_one limits session ≡ DrainStep.again next
      → drain_one limits (extend more session) ≡ DrainStep.again (extend more next)
  unfolding drain_one
  drain_one-extend limits session next h =
      let settled = again-IsSettled _ session next h in
      ap (λ (step : Step). drain_step step (extend more session))
        (decode-append session.buffer more (admission_of session limits) settled)
      ∙ step-extend session limits _ refl
          (decode-IsOutcome session.buffer (admission_of session limits)) settled
      ∙ ap (extend_step more) h
