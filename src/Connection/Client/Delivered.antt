-- ===== src/Connection/Client/Delivered.antt =====
-- src/connection/driver.rs and src/connection/mod.rs: the bytes that the driver's task delivers, as
-- the handle that waits for them decodes them.
use rp1_rust.Base.{ℕ, ◌+◌, ◌≡◌, ◌≤◌, inl, inr, refl, sym, ap, ◌∙◌, some, ◌∷◌, ◌++◌, arith, length}
use rp1_rust.Base.Bytes.{Bytes, get_range, u64_from_le}
use rp1_rust.Base.Result.{ok}
use rp1_rust.Protocol.Types.{Limits, Admission}
use rp1_rust.Protocol.Frame.{Frame, Header, Step, RawHeader}
use rp1_rust.Protocol.Header.{parse_header}
use rp1_rust.Protocol.Decode.{decode}
use rp1_rust.Protocol.Decode.Checked.{decode-Decoded}
use rp1_rust.Protocol.Decode.Front.{decode-front, decode-only, only}
use rp1_rust.Session.{Session, DrainStep, find, drain_one, admission_of, header_request_id}
use rp1_rust.Session.Invariant.{settled}
use rp1_rust.Session.Attribution.{drain_one-frame}
use rp1_rust.Connection.Establish.{
  Shared, effective_maximum_frame_size, effective_maximum_metadata_size,
}
use rp1_rust.Connection.Client.{decode_own, own_frame, own_id, own_admission}

header-id :
    (buffer : Bytes) (raw : RawHeader)
    → parse_header buffer ≡ some raw
    → header_request_id buffer ≡ some raw.request_id
unfolding parse_header header_request_id get_range u64_from_le
header-id
      (b0 ∷ b1 ∷ b2 ∷ b3 ∷ b4 ∷ b5 ∷ b6 ∷ b7 ∷ b8 ∷ b9 ∷ b10 ∷ b11 ∷ b12 ∷ b13 ∷ b14 ∷ b15 ∷ b16
        ∷ b17 ∷ b18 ∷ b19 ∷ tail)
      raw h =
    ground arith
header-id _ raw h = cc

frame-id :
    (input : Bytes) (admission : Admission) (frame : Frame)
    → decode input admission ≡ Step.frame frame
    → header_request_id input ≡ some frame.header.request_id
frame-id input admission frame h =
    let d = decode-Decoded input admission frame h in
    header-id input d.admitted.raw d.passed.parsed
    ∙ ap some (sym (ap (λ (header : Header). header.request_id) d.checked.header))

-- The task was given the bounds of the handles.
pub record SameLimits (shared : Shared) (limits : Limits) : Type 0 where
  pub frame_size : limits.frame_size ≡ effective_maximum_frame_size shared
  pub metadata_size : limits.metadata_size ≡ effective_maximum_metadata_size shared

own-admitted :
    (shared : Shared) (session : Session) (limits : Limits) (id : ℕ)
    → SameLimits shared limits
    → only id (admission_of session limits) ≡ own_admission shared id
own-admitted shared session limits id same = rw (← same.frame_size, ← same.metadata_size) refl

-- The bytes of a frame that the task admitted are decoded by their handle to that frame.
decode_own-taken :
    (shared : Shared) (session : Session) (limits : Limits) (taken rest : Bytes) (frame : Frame)
    → SameLimits shared limits
    → decode (taken ++ rest) (admission_of session limits) ≡ Step.frame frame
    → 20 + frame.header.metadata_length + frame.header.payload_length ≤ length taken
    → decode_own shared taken ≡ ok frame
unfolding decode_own own_frame own_id
decode_own-taken shared session limits taken rest frame same h whole =
    let here = decode-front taken rest (admission_of session limits) frame h whole in
    let own = decode-only taken (admission_of session limits) frame refl here in
    rw (frame-id taken (admission_of session limits) frame here) (
      ap (λ (admission : Admission). own_frame (decode taken admission))
        (sym (own-admitted shared session limits frame.header.request_id same))
      ∙ rw own refl)

-- The task was given the bounds of the handles. Where it admits a frame at the head of the buffer and
-- the frame's id has a waiter, a round answers the waiter with bytes that its handle decodes to that
-- very frame, and goes on with the rest of the buffer.
pub drain_one-decode_own :
    (shared : Shared) (limits : Limits) (session : Session) (frame : Frame) (waiter : ℕ)
    → SameLimits shared limits
    → decode session.buffer (admission_of session limits) ≡ Step.frame frame
    → find session.completions frame.header.request_id ≡ some waiter
    → (taken rest : Bytes) × (session.buffer ≡ taken ++ rest)
      × (drain_one limits session
          ≡ DrainStep.again (
              settled (record session { buffer = rest }) frame.header.request_id waiter (ok taken)))
      × (decode_own shared taken ≡ ok frame)
drain_one-decode_own shared limits session frame waiter same h waits =
    let (taken, rest, whole, size, ends) = drain_one-frame limits session frame h in
    elim ends [
      | inl (missing, r) ↦ cc
      | inr (waiter', found, r) ↦
          let one : waiter' ≡ waiter = cc in
          (
            taken,
            rest,
            whole,
            rw (← one) r,
            decode_own-taken shared session limits taken rest frame same (rw whole at h)
                (omega arith),
          )
    ]
