-- ===== src/Session/Attribution.antt =====
-- src/connection/driver.rs: whom a frame on the wire answers.
use rp1_rust.Base.{
  ℕ, ◌+◌, ◌<◌, ◌≡◌, ◌⊎◌, ◌≤◌, inl, inr, refl, ap, ◌∙◌, some, none, [], ◌∷◌, ◌++◌, arith,
  Option-cases, length, length-append, drop, min,
}
use rp1_rust.Base.Bytes.{Bytes, u64_end}
use rp1_rust.Base.Result.{ok}
use rp1_rust.Protocol.Types.{Limits}
use rp1_rust.Protocol.Failure
use rp1_rust.Protocol.Frame.{Frame, Header, Step, RawHeader}
use rp1_rust.Protocol.Header.{parse_header}
use rp1_rust.Protocol.Types.{Admission}
use rp1_rust.Base.Slices.{split_at, get_to-append}
use rp1_rust.Protocol.Decode.{decode}
use rp1_rust.Protocol.Decode.Checked.{decode-Decoded}
use rp1_rust.Session.{
  Session, Outcome, DrainStep, find, drain_one, drain_step, drain_buffer, dispatch_frame, resolve,
  frame_bytes, frame_total_len, admission_of,
}
use rp1_rust.Session.Invariant.{settled}

resolve-cases :
    (id : ℕ) (outcome : Outcome) (session : Session)
    → ((find session.completions id ≡ none)
        × (resolve id outcome session ≡ DrainStep.fatal Failure.protocol_violation session))
      ⊎ ((waiter : ℕ) × (find session.completions id ≡ some waiter)
          × (resolve id outcome session ≡ DrainStep.again (settled session id waiter outcome)))
unfolding resolve
resolve-cases id outcome session = elim (Option-cases (find session.completions id)) [
  | inl n ↦ inl (n, rw (n, resolve) refl)
  | inr (waiter, e) ↦ inr (waiter, e, rw (e, resolve) refl)
]

header-total :
    (buffer : Bytes) (raw : RawHeader)
    → parse_header buffer ≡ some raw
    → 20 + raw.metadata_length + raw.payload_length < u64_end
    → frame_total_len buffer ≡ some (20 + raw.metadata_length + raw.payload_length)
unfolding parse_header frame_total_len
header-total
      (b0 ∷ b1 ∷ b2 ∷ b3 ∷ b4 ∷ b5 ∷ b6 ∷ b7 ∷ b8 ∷ b9 ∷ b10 ∷ b11 ∷ b12 ∷ b13 ∷ b14 ∷ b15 ∷ b16
        ∷ b17 ∷ b18 ∷ b19 ∷ tail)
      raw h fits =
    ground arith
header-total _ raw h fits = cc

pub frame-total :
    (input : Bytes) (admission : Admission) (frame : Frame)
    → decode input admission ≡ Step.frame frame
    → (frame_total_len input
        ≡ some (20 + frame.header.metadata_length + frame.header.payload_length))
      × (20 + frame.header.metadata_length + frame.header.payload_length < u64_end)
      × (20 + frame.header.metadata_length + frame.header.payload_length ≤ length input)
frame-total input admission frame h =
    let d = decode-Decoded input admission frame h in
    let p = d.passed in
    let m : frame.header.metadata_length ≡ d.admitted.raw.metadata_length =
      ap (λ (header : Header). header.metadata_length) d.checked.header in
    let n : frame.header.payload_length ≡ d.admitted.raw.payload_length =
      ap (λ (header : Header). header.payload_length) d.checked.header in
    (
      rw (m, n)
          (header-total input d.admitted.raw p.parsed (omega (arith, p.total, p.representable))),
      omega (arith, p.total, p.representable, m, n),
      omega (arith, p.total, p.complete, m, n),
    )

frame_bytes-front :
    (xs front back : Bytes) (n : ℕ)
    → xs ≡ front ++ back
    → length front ≡ n
    → frame_bytes xs n ≡ front
unfolding frame_bytes
frame_bytes-front xs front back n e l = rw (e, get_to-append front back n l, frame_bytes) refl

drop-front : (front back : Bytes) → drop (length front) (front ++ back) ≡ back
drop-front [] back = refl
drop-front (x ∷ xs) back = drop-front xs back

drain_buffer-rest :
    (session : Session) (front back : Bytes) (n : ℕ)
    → session.buffer ≡ front ++ back
    → length front ≡ n
    → drain_buffer session n ≡ record session { buffer = back }
unfolding drain_buffer
drain_buffer-rest session front back n e l =
    let all : min n (length session.buffer) ≡ length front =
      omega (arith, ap length e, length-append front back) in
    ap (λ (buffer : Bytes). record session { buffer = buffer })
      (rw (all, e) (drop-front front back))

drained-frame :
    (limits : Limits) (session : Session) (frame : Frame) (taken rest : Bytes)
    → decode session.buffer (admission_of session limits) ≡ Step.frame frame
    → frame_total_len session.buffer
      ≡ some (20 + frame.header.metadata_length + frame.header.payload_length)
    → session.buffer ≡ taken ++ rest
    → length taken ≡ 20 + frame.header.metadata_length + frame.header.payload_length
    → drain_one limits session
      ≡ resolve frame.header.request_id (ok taken) (record session { buffer = rest })
unfolding drain_one drain_step dispatch_frame
drained-frame limits session frame taken rest h total e l = rw h (
    rw total (
      rw
        (
          frame_bytes-front session.buffer taken rest _ e l,
          drain_buffer-rest session taken rest _ e l,
        )
        refl))

-- Where the codec admits a frame at the head of the buffer, a round drains exactly its bytes. If
-- the frame's request id has a waiter, it is answered with exactly those bytes and the session goes
-- on, whatever the kind and the class of the frame; if it has none, the session ends with a
-- protocol violation, whatever the class.
pub drain_one-frame :
    (limits : Limits) (session : Session) (frame : Frame)
    → decode session.buffer (admission_of session limits) ≡ Step.frame frame
    → (taken rest : Bytes) × (session.buffer ≡ taken ++ rest)
      × (length taken ≡ 20 + frame.header.metadata_length + frame.header.payload_length)
      × (((find session.completions frame.header.request_id ≡ none)
            × (drain_one limits session
                ≡ DrainStep.fatal Failure.protocol_violation (record session { buffer = rest })))
          ⊎ ((waiter : ℕ) × (find session.completions frame.header.request_id ≡ some waiter)
              × (drain_one limits session
                  ≡ DrainStep.again (
                      settled
                        (record session { buffer = rest })
                        frame.header.request_id
                        waiter
                        (ok taken)))))
drain_one-frame limits session frame h =
    let (total, fits, complete) =
      frame-total session.buffer (admission_of session limits) frame h in
    let (taken, rest, e, l) = split_at _ session.buffer complete in
    let step = drained-frame limits session frame taken rest h total e l in
    (
      taken,
      rest,
      e,
      l,
      elim (resolve-cases frame.header.request_id (ok taken) (record session { buffer = rest })) [
        | inl (n, r) ↦ inl (n, step ∙ r)
        | inr (waiter, f, r) ↦ inr (waiter, f, step ∙ r)
      ],
    )
