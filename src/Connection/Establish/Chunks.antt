-- ===== src/Connection/Establish/Chunks.antt =====
-- src/connection/mod.rs: the answer to the handshake, in the parts that the stream cuts it into.
use rp1_rust.Base.{
  ℕ, ◌+◌, ◌≤◌, ◌<◌, ◌≡◌, ◌≢◌, ◌⊎◌, inl, inr, refl, some, none, List, [], ◌∷◌, ◌++◌, append-nil,
  append_assoc, All, arith, length, leb, Bool-cases, tests,
}
use rp1_rust.Base.Bytes.{Bytes}
use rp1_rust.Protocol.Frame.{Frame, Step}
use rp1_rust.Protocol.Decode.{decode}
use rp1_rust.Protocol.Decode.Bounds.{decode-IsOutcome}
use rp1_rust.Protocol.Decode.Stream.{decode-prefix}
use rp1_rust.Protocol.Decode.Front.{decode-front}
use rp1_rust.Transport.{ReadAnswer}
use rp1_rust.Connection.{Caps, interpret_response}
use rp1_rust.Connection.Establish.{
  handshake_admission, handshake_step, after_read, read_on, read_loop, read_handshake_response,
}

-- What the parts are when they are put together.
abbrev pub joined : List Bytes → Bytes
joined [] = []
joined (part ∷ parts) = part ++ joined parts

abbrev pub reads_of : List Bytes → List ReadAnswer
reads_of [] = []
reads_of (part ∷ parts) = ReadAnswer.read part ∷ reads_of parts

abbrev pub IsPart : Bytes → Type 0
IsPart part = part ≢ []

module _ (caps : Caps) (id : ℕ) (frame : Frame) where
  abbrev total : ℕ
  total = 20 + frame.header.metadata_length + frame.header.payload_length

  step-whole :
      (buffer : Bytes)
      → decode buffer (handshake_admission id) ≡ Step.frame frame
      → handshake_step caps buffer (decode buffer (handshake_admission id))
        ≡ some (interpret_response frame caps)
  unfolding handshake_step
  step-whole buffer h = rw h refl

  step-short :
      (buffer : Bytes) (n : ℕ)
      → decode buffer (handshake_admission id) ≡ Step.need n
      → n ≤ 65536
      → length buffer < 65536
      → 65536 ≤ caps.local_maximum_frame_size
      → handshake_step caps buffer (decode buffer (handshake_admission id)) ≡ none
  unfolding handshake_step
  step-short buffer n h small short floor = rw h (ground arith)

  total-bound :
      (input : Bytes) → decode input (handshake_admission id) ≡ Step.frame frame → total ≤ 65536
  total-bound input h =
      let bounds = decode-IsOutcome input (handshake_admission id) in
      let within = rw h at bounds in within.within_frame

  -- A front of the answer either is read as the whole answer, or reads on.
  step-front :
      (buffer rest : Bytes)
      → 65536 ≤ caps.local_maximum_frame_size
      → decode (buffer ++ rest) (handshake_admission id) ≡ Step.frame frame
      → (handshake_step caps buffer (decode buffer (handshake_admission id))
          ≡ some (interpret_response frame caps))
        ⊎ (handshake_step caps buffer (decode buffer (handshake_admission id)) ≡ none)
  step-front buffer rest floor h =
      let bound = total-bound (buffer ++ rest) h in
      elim (Bool-cases (leb total (length buffer))) [
        | inl whole ↦ inl (step-whole buffer (decode-front buffer rest _ frame h (omega tests)))
        | inr part ↦
            let (n, need, small) = decode-prefix buffer rest _ frame h (omega tests) in
            inr (step-short buffer n need (omega arith) (omega tests) floor)
      ]

  loop-chunks :
      (buffer : Bytes) (parts : List Bytes) (later : List ReadAnswer)
      → 65536 ≤ caps.local_maximum_frame_size
      → All IsPart parts
      → decode (buffer ++ joined parts) (handshake_admission id) ≡ Step.frame frame
      → read_loop caps id buffer (reads_of parts ++ later) ≡ some (interpret_response frame caps)
  unfolding read_loop read_on after_read
  loop-chunks buffer [] [] floor real h = step-whole buffer (rw (append-nil buffer) at h)
  loop-chunks buffer [] (answer ∷ later) floor real h =
      rw (step-whole buffer (rw (append-nil buffer) at h)) refl
  loop-chunks buffer ([] ∷ parts) later floor real h = absurd (real.0 refl)
  loop-chunks buffer ((byte ∷ bytes) ∷ parts) later floor real h =
      elim (step-front buffer (joined ((byte ∷ bytes) ∷ parts)) floor h) [
        | inl read_whole ↦ rw read_whole refl
        | inr reads_on ↦ rw reads_on (
            loop-chunks (buffer ++ (byte ∷ bytes)) parts later floor real.1
              (rw (append_assoc buffer (byte ∷ bytes) (joined parts)) h))
      ]

-- The client's cap is not below the protocol's floor. Into whatever parts the stream cuts bytes that
-- begin with a frame which the client takes before the handshake is done, none of them empty, and
-- whatever the reads behind them answer, the handshake ends with what the frame says.
pub read_handshake_response-chunks :
    (caps : Caps) (id : ℕ) (parts : List Bytes) (later : List ReadAnswer) (frame : Frame)
    → 65536 ≤ caps.local_maximum_frame_size
    → All IsPart parts
    → decode (joined parts) (handshake_admission id) ≡ Step.frame frame
    → read_handshake_response caps id (reads_of parts ++ later)
      ≡ some (interpret_response frame caps)
unfolding read_handshake_response
read_handshake_response-chunks caps id parts later frame floor real h =
    loop-chunks caps id frame [] parts later floor real h
