-- ===== src/Connection/Establish/InForce.antt =====
-- src/connection/mod.rs: when a connection is established.
use rp1_rust.Base.{
  ℕ, ◌≤◌, ◌≡◌, inl, inr, refl, sym, ◌∙◌, Option, some, none, List, [], ◌∷◌, ◌++◌, ltb, min, arith,
  Bool-cases, tests, subst,
}
use rp1_rust.Base.Result.{Result, ok, err}
use rp1_rust.Dispatch.{insert, retire, is_empty, remove, allocate}
use rp1_rust.Transport.{IoError, WriteAnswer, ReadAnswer, WriteEnd, write_all}
use rp1_rust.Connection.{Negotiated, ConnectError}
use rp1_rust.Connection.Config.{ConnectionConfig}
use rp1_rust.Connection.Establish.{
  Shared, shared_of, within_caps, settle, after_response, after_request, exchange, registered,
  establish, handshake_request_id, read_handshake_response,
}
use rp1_rust.Connection.Establish.Request.{handshake_bytes, handshake-builds}

-- What an established connection rests on.
pub record IsEstablished (config : ConnectionConfig) (writes : List WriteAnswer)
    (reads : List ReadAnswer) (shared : Shared) : Type 0 where
  pub written : (write_all (handshake_bytes config handshake_request_id) writes).end ≡ WriteEnd.done
  pub answered :
      read_handshake_response config.caps handshake_request_id reads ≡ some (ok shared.negotiated)
  pub frame_capped : shared.negotiated.maximum_frame_size ≤ config.caps.local_maximum_frame_size
  pub metadata_capped :
      shared.negotiated.maximum_metadata_size ≤ config.caps.local_maximum_metadata_size
  pub state : shared ≡ shared_of config shared.negotiated

abbrev response_of : ConnectionConfig → List ReadAnswer → Option (Result Negotiated ConnectError)
response_of config reads = read_handshake_response config.caps handshake_request_id reads

-- What the handshake does after its request is built.
establish-steps :
    (config : ConnectionConfig) (writes : List WriteAnswer) (reads : List ReadAnswer)
    (shut : Option (Result (Unit {0}) IoError))
    → establish config writes reads shut
      ≡ after_request (write_all (handshake_bytes config handshake_request_id) writes).end (
          after_response shut
            (record { live = handshake_request_id ∷ [] })
            handshake_request_id
            config
            (response_of config reads))
unfolding establish registered exchange insert allocate rp1_rust.Base.contains
establish-steps config writes reads shut = rw (handshake-builds config handshake_request_id) refl

settle-within :
    (shut : Option (Result (Unit {0}) IoError)) (config : ConnectionConfig)
    (negotiated : Negotiated)
    → settle shut
        (record { live = handshake_request_id ∷ [] })
        handshake_request_id
        config
        negotiated
      ≡ within_caps shut config negotiated
unfolding settle retire is_empty remove rp1_rust.Base.contains
settle-within shut config negotiated = refl

within_caps_sound :
    (shut : Option (Result (Unit {0}) IoError)) (config : ConnectionConfig)
    (negotiated : Negotiated) {shared : Shared}
    → within_caps shut config negotiated ≡ some (ok shared)
    → (negotiated.maximum_frame_size ≤ config.caps.local_maximum_frame_size)
      × (negotiated.maximum_metadata_size ≤ config.caps.local_maximum_metadata_size)
      × (shared ≡ shared_of config negotiated)
unfolding within_caps
within_caps_sound shut config negotiated h = ground arith

response-within :
    (shut : Option (Result (Unit {0}) IoError)) (config : ConnectionConfig)
    (response : Option (Result Negotiated ConnectError)) {shared : Shared}
    → after_response shut
        (record { live = handshake_request_id ∷ [] })
        handshake_request_id
        config
        response
      ≡ some (ok shared)
    → (negotiated : Negotiated) × (response ≡ some (ok negotiated))
      × (within_caps shut config negotiated ≡ some (ok shared))
unfolding after_response
response-within shut config none h = cc
response-within shut config (some (err error)) h = cc
response-within shut config (some (ok negotiated)) h =
    (negotiated, refl, sym (settle-within shut config negotiated) ∙ h)

request-done :
    (end : WriteEnd) (rest : Option (Result Shared ConnectError)) {shared : Shared}
    → after_request end rest ≡ some (ok shared)
    → (end ≡ WriteEnd.done) × (rest ≡ some (ok shared))
unfolding after_request
request-done WriteEnd.done rest h = (refl, h)
request-done WriteEnd.pending rest h = cc
request-done (WriteEnd.broken error) rest h = cc

shared_of-IsEstablished :
    (config : ConnectionConfig) (writes : List WriteAnswer) (reads : List ReadAnswer)
    (negotiated : Negotiated)
    → (write_all (handshake_bytes config handshake_request_id) writes).end ≡ WriteEnd.done
    → response_of config reads ≡ some (ok negotiated)
    → negotiated.maximum_frame_size ≤ config.caps.local_maximum_frame_size
    → negotiated.maximum_metadata_size ≤ config.caps.local_maximum_metadata_size
    → IsEstablished config writes reads (shared_of config negotiated)
unfolding shared_of
shared_of-IsEstablished config writes reads negotiated written answered frame metadata = record {
  written = written;
  answered = answered;
  frame_capped = frame;
  metadata_capped = metadata;
  state = refl;
}

pub establish_sound :
    (config : ConnectionConfig) (writes : List WriteAnswer) (reads : List ReadAnswer)
    (shut : Option (Result (Unit {0}) IoError)) (shared : Shared)
    → establish config writes reads shut ≡ some (ok shared)
    → IsEstablished config writes reads shared
establish_sound config writes reads shut shared h =
    let (written, rest) = request-done _ _ (sym (establish-steps config writes reads shut) ∙ h) in
    let (negotiated, answered, within) = response-within shut config _ rest in
    let (frame, metadata, same) = within_caps_sound shut config negotiated within in
    subst (IsEstablished config writes reads) (sym same)
      (shared_of-IsEstablished config writes reads negotiated written answered frame metadata)
