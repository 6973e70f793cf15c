-- ===== src/Connection/Establish/Ready.antt =====
-- src/connection/mod.rs: what is in force on a connection that `establish` returns.
use rp1_rust.Base.{
  ℕ, ◌≤◌, ◌≡◌, true, ap, ◌∙◌, append-nil, append_assoc, contains, inl, inr, refl, sym, Option, some,
  none, List, [], ◌∷◌, ◌++◌, ◌==◌, arith, Bool-cases, subst,
}
use rp1_rust.Base.Bytes.{Bytes}
use rp1_rust.Base.Result.{Result, ok, map_err, >>=-eq-ok}
use rp1_rust.Protocol.Types.{Kind}
use rp1_rust.Protocol.Frame.{Frame, Step, Payload}
use rp1_rust.Protocol.Handshake.{decode_response}
use rp1_rust.Protocol.Decode.{decode}
use rp1_rust.Dispatch.{allocate}
use rp1_rust.Transport.{IoError, WriteAnswer, ReadAnswer}
use rp1_rust.Driver.{new_driver}
use rp1_rust.Connection.{
  Caps, Negotiated, ConnectError, interpret_response, interpret_kind, interpret_success, this_offer,
  negotiated_of,
}
use rp1_rust.Connection.Config.{ConnectionConfig}
use rp1_rust.Connection.Establish.{
  Shared, shared_of, establish, handshake_request_id, handshake_admission, handshake_step,
  after_read, read_on, read_loop, read_handshake_response, effective_maximum_frame_size,
  effective_maximum_metadata_size,
}
use rp1_rust.Protocol.Decode.Rules.{IsCorrelated, decode-IsCorrelated}
use rp1_rust.Connection.Establish.Chunks.{joined, reads_of}
use rp1_rust.Connection.Establish.InForce.{establish_sound}

success-caps :
    (payload : Payload) (caps : Caps) {negotiated : Negotiated}
    → interpret_success payload caps ≡ ok negotiated
    → negotiated.local_caps ≡ caps
unfolding interpret_success
success-caps (Payload.opaque payload) caps {negotiated} h =
    let (response, d, e) =
      >>=-eq-ok (map_err ConnectError.handshake_failure (decode_response payload this_offer)) _ h in
    let same : negotiated_of caps response ≡ negotiated = cc in rw (← same) refl
success-caps (Payload.warm logical_length) caps h = cc
success-caps (Payload.error detail text) caps h = cc

kind-caps :
    (kind : Kind) (frame : Frame) (caps : Caps) {negotiated : Negotiated}
    → interpret_kind kind frame caps ≡ ok negotiated
    → negotiated.local_caps ≡ caps
unfolding interpret_kind
kind-caps Kind.request frame caps h = cc
kind-caps Kind.error frame caps h = cc
kind-caps Kind.response frame caps h = elim (Bool-cases (frame.header.code == 0)) [
  | inl success ↦ success-caps frame.payload caps (rw success at h)
  | inr other ↦ cc (rw other at h)
]

interpret_response-caps :
    (frame : Frame) (caps : Caps) {negotiated : Negotiated}
    → interpret_response frame caps ≡ ok negotiated
    → negotiated.local_caps ≡ caps
unfolding interpret_response
interpret_response-caps frame caps h = kind-caps frame.header.kind frame caps h

-- What the loop from `buffer` has read when it ends with `negotiated`: a frame in all the bytes that
-- the reads have put behind the buffer.
record IsRead (caps : Caps) (buffer : Bytes) (reads : List ReadAnswer) (negotiated : Negotiated)
    : Type 0 where
  parts : List Bytes
  later : List ReadAnswer
  read : reads ≡ reads_of parts ++ later
  frame : Frame
  taken :
      decode (buffer ++ joined parts) (handshake_admission handshake_request_id) ≡ Step.frame frame
  interpreted : interpret_response frame caps ≡ ok negotiated

step-IsRead :
    (caps : Caps) (buffer : Bytes) (reads : List ReadAnswer) (step : Step) {negotiated : Negotiated}
    → decode buffer (handshake_admission handshake_request_id) ≡ step
    → handshake_step caps buffer step ≡ some (ok negotiated)
    → IsRead caps buffer reads negotiated
unfolding handshake_step
step-IsRead caps buffer reads (Step.need required) d h = ground arith
step-IsRead caps buffer reads (Step.failed failure consumed) d h = cc
step-IsRead caps buffer reads (Step.frame frame) d h = record {
  parts = [];
  later = reads;
  read = refl;
  frame = frame;
  taken =
      ap (λ (input : Bytes). decode input (handshake_admission handshake_request_id))
        (append-nil buffer)
      ∙ d;
  interpreted = cc;
}

part-IsRead :
    (caps : Caps) (buffer part : Bytes) (reads : List ReadAnswer) {negotiated : Negotiated}
    → IsRead caps (buffer ++ part) reads negotiated
    → IsRead caps buffer (ReadAnswer.read part ∷ reads) negotiated
part-IsRead caps buffer part reads r = record {
  parts = part ∷ r.parts;
  later = r.later;
  read = ap (λ (answers : List ReadAnswer). ReadAnswer.read part ∷ answers) r.read;
  frame = r.frame;
  taken =
      ap (λ (input : Bytes). decode input (handshake_admission handshake_request_id))
        (sym (append_assoc buffer part (joined r.parts)))
      ∙ r.taken;
  interpreted = r.interpreted;
}

turn-IsRead :
    (caps : Caps) (buffer : Bytes) (answer : ReadAnswer) (answers : List ReadAnswer)
    (step : Option (Result Negotiated ConnectError)) {negotiated : Negotiated}
    → ((part : Bytes)
        → read_loop caps handshake_request_id (buffer ++ part) answers ≡ some (ok negotiated)
        → IsRead caps (buffer ++ part) answers negotiated)
    → (step ≡ some (ok negotiated) → IsRead caps buffer (answer ∷ answers) negotiated)
    → read_on step answer (λ part. read_loop caps handshake_request_id (buffer ++ part) answers)
      ≡ some (ok negotiated)
    → IsRead caps buffer (answer ∷ answers) negotiated
unfolding read_on after_read
turn-IsRead caps buffer answer answers (some result) later here h = here h
turn-IsRead caps buffer (ReadAnswer.read_failed error) answers none later here h = cc
turn-IsRead caps buffer (ReadAnswer.read []) answers none later here h = cc
turn-IsRead caps buffer (ReadAnswer.read (byte ∷ bytes)) answers none later here h =
    part-IsRead caps buffer (byte ∷ bytes) answers (later (byte ∷ bytes) h)

loop-IsRead :
    (caps : Caps) (buffer : Bytes) (answers : List ReadAnswer) {negotiated : Negotiated}
    → read_loop caps handshake_request_id buffer answers ≡ some (ok negotiated)
    → IsRead caps buffer answers negotiated
unfolding read_loop
loop-IsRead caps buffer [] h = step-IsRead caps buffer [] _ refl h
loop-IsRead caps buffer (answer ∷ answers) h =
    turn-IsRead caps buffer answer answers _ (λ part. loop-IsRead caps (buffer ++ part) answers)
      (step-IsRead caps buffer (answer ∷ answers) _ refl) h

-- The frame that the client was answered with: a response to its request, in the bytes that the first
-- reads have put together.
pub record IsAnswer (caps : Caps) (reads : List ReadAnswer) (negotiated : Negotiated) : Type 0 where
  pub parts : List Bytes
  pub later : List ReadAnswer
  pub read : reads ≡ reads_of parts ++ later
  pub frame : Frame
  pub taken : decode (joined parts) (handshake_admission handshake_request_id) ≡ Step.frame frame
  pub response : frame.header.kind ≡ Kind.response
  pub to_request : frame.header.request_id ≡ handshake_request_id
  pub interpreted : interpret_response frame caps ≡ ok negotiated

only-live : (id : ℕ) → contains (handshake_request_id ∷ []) id ≡ true → id ≡ handshake_request_id
unfolding contains
only-live id h = ground arith

kind-answers :
    (kind : Kind) (frame : Frame) (caps : Caps) (code id retires : ℕ) {negotiated : Negotiated}
    → interpret_kind kind frame caps ≡ ok negotiated
    → IsCorrelated (handshake_request_id ∷ []) code id retires kind
    → (kind ≡ Kind.response) × (id ≡ handshake_request_id)
unfolding interpret_kind
kind-answers Kind.request frame caps code id retires h c = cc
kind-answers Kind.error frame caps code id retires h c = cc
kind-answers Kind.response frame caps code id retires h (some_id, live, result, retired) =
    (refl, only-live id live)

loop-IsAnswer :
    (caps : Caps) (reads : List ReadAnswer) {negotiated : Negotiated}
    → read_loop caps handshake_request_id [] reads ≡ some (ok negotiated)
    → IsAnswer caps reads negotiated
unfolding interpret_response
loop-IsAnswer caps reads h =
    let r = loop-IsRead caps [] reads h in
    let (response, to_request) =
      kind-answers r.frame.header.kind r.frame caps r.frame.header.code r.frame.header.request_id
        r.frame.retires r.interpreted
        (decode-IsCorrelated (joined r.parts) (handshake_admission handshake_request_id) r.frame
          r.taken) in
    record {
      parts = r.parts;
      later = r.later;
      read = r.read;
      frame = r.frame;
      taken = r.taken;
      response = response;
      to_request = to_request;
      interpreted = r.interpreted;
    }

-- What is in force on a connection that was just established.
pub record IsReady (config : ConnectionConfig) (reads : List ReadAnswer) (shared : Shared)
    : Type 0 where
  pub answer : IsAnswer config.caps reads shared.negotiated
  pub frame_bound : effective_maximum_frame_size shared ≡ shared.negotiated.maximum_frame_size
  pub metadata_bound :
      effective_maximum_metadata_size shared ≡ shared.negotiated.maximum_metadata_size
  pub driver_frame_bound : shared.limits.frame_size ≡ effective_maximum_frame_size shared
  pub driver_metadata_bound : shared.limits.metadata_size ≡ effective_maximum_metadata_size shared
  pub all_permits : shared.permits ≡ config.maximum_in_flight
  pub new : shared.driver ≡ new_driver
  pub next_id : shared.allocator.next ≡ 2

shared_of-IsReady :
    (config : ConnectionConfig) (reads : List ReadAnswer) (negotiated : Negotiated)
    → IsAnswer config.caps reads negotiated
    → negotiated.maximum_frame_size ≤ config.caps.local_maximum_frame_size
    → negotiated.maximum_metadata_size ≤ config.caps.local_maximum_metadata_size
    → IsReady config reads (shared_of config negotiated)
unfolding shared_of effective_maximum_frame_size effective_maximum_metadata_size allocate
shared_of-IsReady config reads negotiated answer frame metadata =
    let kept = interpret_response-caps answer.frame config.caps answer.interpreted in
    record {
      answer = answer;
      frame_bound = rw kept (ground arith);
      metadata_bound = rw kept (ground arith);
      driver_frame_bound = rw kept (ground arith);
      driver_metadata_bound = rw kept (ground arith);
      all_permits = refl;
      new = refl;
      next_id = refl;
    }

-- A connection that `establish` returns negotiated by a frame that the first reads have put together
-- and that the client took, a response to the id of its request; the bounds in force are the
-- negotiated ones, for the handles as for the driver's task; every permit is there, the driver's
-- task is a new one, and the next id is not the handshake's.
pub establish-IsReady :
    (config : ConnectionConfig) (writes : List WriteAnswer) (reads : List ReadAnswer)
    (shut : Option (Result (Unit {0}) IoError)) (shared : Shared)
    → establish config writes reads shut ≡ some (ok shared)
    → IsReady config reads shared
unfolding read_handshake_response
establish-IsReady config writes reads shut shared h =
    let e = establish_sound config writes reads shut shared h in
    subst (IsReady config reads) (sym e.state) (
      shared_of-IsReady config reads shared.negotiated (loop-IsAnswer config.caps reads e.answered)
        e.frame_capped e.metadata_capped)
