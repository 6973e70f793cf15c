-- ===== src/Connection/Client/Served.antt =====
-- src/connection/mod.rs: what a command submits, and how a server reads it.
use rp1_rust.Base.{
  ℕ, suc, ◌+◌, ◌≤◌, ◌<◌, ◌≡◌, inl, inr, refl, sym, ap, ◌∙◌, true, false, some, List, ◌++◌, ◌==◌,
  ltb, arith, length, contains, if◌then◌else◌,
}
use rp1_rust.Base.Bytes.{Bytes, u32_end, u64_end, checked_add}
use rp1_rust.Base.Result.{Result, ok, err, map_err-eq-ok}
use rp1_rust.Protocol.Types.{Admission, Role, ConnectionState, Kind, get_opcode, sender}
use rp1_rust.Protocol.Frame.{Frame, Step, Payload, Correlation}
use rp1_rust.Protocol.Decode.{decode, correlate, check_connection_state}
use rp1_rust.Protocol.Encode.{encode_with_max}
use rp1_rust.Protocol.RoundTrip.{decode-encode_with_max}
use rp1_rust.Protocol.RoundTrip.Layouts.{Carries}
use rp1_rust.Command.{encode_key, interpret_get}
use rp1_rust.Dispatch.{allocate, skip_zero}
use rp1_rust.Lifecycle.{Lifecycle, is_usable}
use rp1_rust.Connection.{CommandError, encode_request, request_of, wire_size}
use rp1_rust.Connection.Requests.{encode_request-cases}
use rp1_rust.Connection.Establish.{
  Shared, effective_maximum_frame_size, effective_maximum_metadata_size,
}
use rp1_rust.Connection.Client.{
  Completion, submit, execute, execute_admitted, execute_permitted, execute_with, admit_command,
  allocate_id, acquire_permit, take_permit, check_usable, finish, get,
}

-- A connection on which a command with `size` bytes of payload is submitted at once.
pub record IsServing (shared : Shared) (size : ℕ) : Type 0 where
  pub usable : shared.driver.state ≡ Lifecycle.usable
  pub admits : shared.driver.admission_open ≡ true
  pub more_permits : ℕ
  pub permits : shared.permits ≡ suc more_permits
  pub next_fits : shared.allocator.next < u64_end
  pub within : 20 + size ≤ effective_maximum_frame_size shared
  pub size_fits : 20 + size < u32_end

-- The id that the next command gets.
abbrev pub next_id : Shared → ℕ
next_id shared = if shared.allocator.next == 0 then 1 else shared.allocator.next

-- The id behind one: 1 behind the greatest.
abbrev pub id_after : ℕ → ℕ
id_after id = if ltb (id + 1) u64_end then id + 1 else 1

-- The connection after a command: the allocator is at the id behind the one that was handed out.
abbrev pub moved_on : Shared → Shared
moved_on shared = record shared { allocator = record { next = id_after (next_id shared) } }

allocator-after :
    (shared : Shared)
    → shared.allocator.next < u64_end
    → (allocate shared.allocator).1.next ≡ id_after (next_id shared)
unfolding allocate skip_zero
allocator-after shared fits = ground arith

admitted-command :
    (payload : Bytes) (shared : Shared)
    → IsServing shared (length payload)
    → admit_command payload shared ≡ ok tt
unfolding admit_command check_usable is_usable wire_size checked_add
admitted-command payload shared h = ground (arith, h.usable, h.within, h.size_fits)

permitted :
    (shared : Shared) (size : ℕ) (h : IsServing shared size)
    → acquire_permit shared ≡ some (ok (record shared { permits = h.more_permits }))
unfolding acquire_permit take_permit
permitted shared size h = rw (h.admits, h.permits) refl

next_id-some : (shared : Shared) → shared.allocator.next < u64_end → (next_id shared == 0) ≡ false
unfolding allocate skip_zero
next_id-some shared fits = ground arith

encoded :
    (opcode : ℕ) (payload : Bytes) (shared : Shared)
    → IsServing shared (length payload)
    → (bytes : Bytes) × (encode_request opcode payload
          (next_id shared)
          (effective_maximum_frame_size shared)
          (effective_maximum_metadata_size shared)
        ≡ ok bytes)
encoded opcode payload shared h =
    elim (encode_request-cases opcode payload (next_id shared) (effective_maximum_frame_size shared)
      (effective_maximum_metadata_size shared) (omega (arith, h.size_fits))) [
        | inl (within, fits, bytes, e, size) ↦ (bytes, e)
        | inr (inl large, e) ↦ absurd (omega (arith, h.within))
        | inr (inr long, e) ↦ absurd (omega (arith, h.size_fits))
      ]

abbrev holding : Shared → ℕ → Shared
holding shared permits = record shared {
  permits = permits;
  allocator = (allocate shared.allocator).1;
}

executed :
    (serve : ℕ → Bytes → Completion) (opcode : ℕ) (payload bytes : Bytes) (shared : Shared)
    (permits : ℕ)
    → encode_request opcode payload
        (next_id shared)
        (effective_maximum_frame_size shared)
        (effective_maximum_metadata_size shared)
      ≡ ok bytes
    → shared.allocator.next < u64_end
    → execute_with serve opcode payload
        (holding shared permits)
        (if next_id shared == 0 then err CommandError.unusable else ok (next_id shared))
      ≡ submit (serve (next_id shared) bytes)
unfolding execute_with rp1_rust.Protocol.Encode.checked_metadata_length allocate
    effective_maximum_metadata_size rp1_rust.Protocol.Encode.encode_payload
    effective_maximum_frame_size
executed serve opcode payload bytes shared permits e fits = rw (next_id-some shared fits, e) refl

-- A command whose payload fits the bounds, on a connection that is usable and has a permit, submits
-- the request under the next id, ends as the submission does, and gives the permit back.
pub execute-submits :
    (serve : ℕ → Bytes → Completion) (opcode : ℕ) (payload : Bytes) (shared : Shared)
    → IsServing shared (length payload)
    → (bytes : Bytes) × (encode_request opcode payload
          (next_id shared)
          (effective_maximum_frame_size shared)
          (effective_maximum_metadata_size shared)
        ≡ ok bytes)
      × (execute serve opcode payload shared
          ≡ some
              (record { result = submit (serve (next_id shared) bytes); shared = moved_on shared }))
unfolding execute execute_admitted execute_permitted allocate_id
execute-submits serve opcode payload shared h =
    let (bytes, e) = encoded opcode payload shared h in
    (
      bytes,
      e,
      rw (admitted-command payload shared h) (
          rw (permitted shared (length payload) h) (
            ap
              (λ (t : Result Bytes CommandError).
                some (record { result = t; shared = holding shared (suc h.more_permits) }))
              (executed serve opcode payload bytes shared h.more_permits e h.next_fits)
            ∙ (ap
                  (λ (n : ℕ). some (record {
                    result = submit (serve (next_id shared) bytes);
                    shared = holding shared n;
                  }))
                  (sym h.permits)
                ∙ ap
                    (λ (n : ℕ). some (record {
                      result = submit (serve (next_id shared) bytes);
                      shared = record shared { allocator = record { next = n } };
                    }))
                    (allocator-after shared h.next_fits)))),
    )

encode_request-encodes :
    (opcode : ℕ) (payload : Bytes) (id frame_bound metadata_bound : ℕ) (bytes : Bytes)
    → encode_request opcode payload id frame_bound metadata_bound ≡ ok bytes
    → encode_with_max (request_of opcode payload id) frame_bound metadata_bound ≡ ok bytes
unfolding encode_request
encode_request-encodes opcode payload id frame_bound metadata_bound bytes e =
    map_err-eq-ok (encode_with_max (request_of opcode payload id) frame_bound metadata_bound) _ e

-- A server that takes requests, with the bounds of the connection or wider, on which `id` is free.
pub record IsServer (shared : Shared) (server : Admission) : Type 0 where
  pub role : server.role ≡ Role.server
  pub state : server.state ≡ ConnectionState.negotiated
  pub frame_bound : effective_maximum_frame_size shared ≤ server.limits.frame_size
  pub metadata_bound : effective_maximum_metadata_size shared ≤ server.limits.metadata_size
  pub id_free : contains server.in_flight (next_id shared) ≡ false

get_correlates :
    (id : ℕ) (live : List ℕ)
    → (id == 0) ≡ false
    → contains live id ≡ false
    → correlate Kind.request get_opcode id live ≡ ok (Correlation.operation_request get_opcode)
unfolding correlate rp1_rust.Protocol.Types.is_assigned
get_correlates id live some_id free = rw (some_id, free) refl

next_id-fits : (shared : Shared) → shared.allocator.next < u64_end → next_id shared < u64_end
unfolding allocate skip_zero
next_id-fits shared fits = ground arith

-- On a connection that serves it, `get` submits under the next id bytes that a server reads, whatever
-- follows them, as a `GET` of this id and exactly this key; it ends as that submission does, and leaves
-- the connection as it was, with every permit back, but for the allocator, which stands at the id
-- behind the one that was used.
pub get-served :
    (serve : ℕ → Bytes → Completion) (shared : Shared) (key rest : Bytes) (server : Admission)
    → IsServing shared (length key)
    → IsServer shared server
    → (bytes : Bytes) × (frame : Frame) × (decode (bytes ++ rest) server ≡ Step.frame frame)
      × (frame.header.code ≡ get_opcode)
      × (frame.header.request_id ≡ next_id shared)
      × (frame.payload ≡ Payload.opaque key)
      × (get serve shared key
          ≡ some (
            finish interpret_get (record {
              result = submit (serve (next_id shared) bytes);
              shared = moved_on shared;
            }),
            moved_on shared,
          ))
unfolding get encode_key
get-served serve shared key rest server h s =
    let (bytes, e, executes) = execute-submits serve get_opcode key shared h in
    let (frame, decoded, received) =
      decode-encode_with_max (request_of get_opcode key (next_id shared))
        (effective_maximum_frame_size shared) (effective_maximum_metadata_size shared) bytes rest
        server (Correlation.operation_request get_opcode) (Payload.opaque key)
        (record {
          code_fits = omega arith;
          id_fits = next_id-fits shared h.next_fits;
          identifiers_fit = tt;
          optional = tt;
        })
        (encode_request-encodes get_opcode key (next_id shared) _ _ bytes e) s.frame_bound
        s.metadata_bound (rw s.role (unfold sender in refl))
        (rw s.state (unfold check_connection_state in refl))
        (get_correlates (next_id shared) server.in_flight (next_id-some shared h.next_fits)
          s.id_free)
        (Carries.key_alone get_opcode key (inl refl)) in
    (
      bytes,
      frame,
      decoded,
      received.code,
      received.request_id,
      received.payload_same,
      rw executes refl,
    )
