-- ===== src/Session/Chunks.antt =====
-- src/connection/driver.rs: `drain_frames` on a stream that arrives in parts.
use rp1_rust.Base.{ℕ, zero, suc, ◌≡◌, ◌<◌, refl, ap, ◌∙◌, ◌++◌, arith, subst, length, length-append}
use rp1_rust.Base.Bytes.{Bytes}
use rp1_rust.Protocol.Types.{Limits}
use rp1_rust.Session.{Session, DrainStep, Drained, drain_one, drain_on, drain_loop, drain_frames}
use rp1_rust.Session.Invariant.{IsSession}
use rp1_rust.Session.Drain.{KeepsStep, drain_one-KeepsStep}
use rp1_rust.Session.Extend.{extend, drain_one-extend}

drain_on-same :
    (step : DrainStep) (session : Session) (go go' : Session → Drained)
    → KeepsStep session step
    → ((next : Session)
        → IsSession next
        → length next.buffer < length session.buffer
        → go next ≡ go' next)
    → drain_on step session go ≡ drain_on step session go'
unfolding drain_on
drain_on-same DrainStep.waiting session go go' k rest = refl
drain_on-same (DrainStep.fatal failure s) session go go' k rest = refl
drain_on-same (DrainStep.again s) session go go' k rest = rest s k.0.valid k.1

-- With fuel for each byte and one round more, the fuel does not count.
drain_loop-fuel :
    (f g : ℕ) (limits : Limits) (session : Session)
    → IsSession session
    → length session.buffer < f
    → length session.buffer < g
    → drain_loop f limits session ≡ drain_loop g limits session
unfolding drain_loop
drain_loop-fuel zero g limits session h less less' = absurd (omega arith)
drain_loop-fuel (suc f) zero limits session h less less' = absurd (omega arith)
drain_loop-fuel (suc f) (suc g) limits session h less less' =
    drain_on-same (drain_one limits session) session (drain_loop f limits) (drain_loop g limits)
      (drain_one-KeepsStep limits session h)
      (λ next valid shorter. drain_loop-fuel f g limits next valid (omega arith) (omega arith))

extend-IsSession :
    (more : Bytes) (session : Session) → IsSession session → IsSession (extend more session)
extend-IsSession more session h = record {
  registry = h.registry;
  distinct = h.distinct;
  matched = h.matched;
}

module _ (limits : Limits) (more : Bytes) where
  on-extend :
      (f g : ℕ) (session drained : Session) (step : DrainStep)
      → drain_one limits session ≡ step
      → KeepsStep session step
      → IsSession session
      → length (session.buffer ++ more) < suc g
      → drain_on step session (drain_loop f limits) ≡ Drained.usable drained
      → ((next : Session)
          → IsSession next
          → length next.buffer < length session.buffer
          → length (next.buffer ++ more) < g
          → drain_loop f limits next ≡ Drained.usable drained
          → drain_loop g limits (extend more next) ≡ drain_frames limits (extend more drained))
      → drain_loop (suc g) limits (extend more session) ≡ drain_frames limits (extend more drained)
  unfolding drain_on drain_loop drain_frames
  on-extend f g session drained DrainStep.waiting d k h less e rest =
      let same : session ≡ drained = cc in
      subst
        (λ (s : Session).
          drain_loop (suc g) limits (extend more session)
          ≡ drain_loop (suc (length (s.buffer ++ more))) limits (extend more s))
        same
        (drain_loop-fuel (suc g) (suc (length (session.buffer ++ more))) limits
          (extend more session) (extend-IsSession more session h) less (omega arith))
  on-extend f g session drained (DrainStep.fatal failure s) d k h less e rest = cc
  on-extend f g session drained (DrainStep.again s) d k h less e rest =
      ap (λ (step : DrainStep). drain_on step (extend more session) (drain_loop g limits))
        (drain_one-extend more limits session s d)
      ∙ rest s k.0.valid k.1
          (omega (arith, k.1, length-append session.buffer more, length-append s.buffer more)) e

  loop-extend :
      (f g : ℕ) (session drained : Session)
      → IsSession session
      → length session.buffer < f
      → length (session.buffer ++ more) < g
      → drain_loop f limits session ≡ Drained.usable drained
      → drain_loop g limits (extend more session) ≡ drain_frames limits (extend more drained)
  unfolding drain_loop
  loop-extend zero g session drained h less less' e = absurd (omega arith)
  loop-extend (suc f) zero session drained h less less' e = absurd (omega arith)
  loop-extend (suc f) (suc g) session drained h less less' e =
      on-extend f g session drained (drain_one limits session) refl
        (drain_one-KeepsStep limits session h) h less' e
        (λ next valid shorter shorter' e'.
          loop-extend f g next drained valid (omega arith) shorter' e')

-- Where the drain of a session in order leaves the session usable, the bytes that arrive next are
-- drained from what it leaves as they are when they arrive at once with the first.
pub drain_frames-extend :
    (limits : Limits) (session drained : Session) (more : Bytes)
    → IsSession session
    → drain_frames limits session ≡ Drained.usable drained
    → drain_frames limits (extend more session) ≡ drain_frames limits (extend more drained)
unfolding drain_frames
drain_frames-extend limits session drained more h e =
    loop-extend limits more (suc (length session.buffer)) (suc (length (session.buffer ++ more)))
      session drained h (omega arith) (omega arith) e
