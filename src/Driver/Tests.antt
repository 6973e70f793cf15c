-- ===== src/Driver/Tests.antt =====
-- src/connection/driver.rs: runs of the driver.
use rp1_rust.Base.{ℕ, refl, List, [], ◌∷◌, ◌++◌, ◌≡◌, true, false, arith, contains}
use rp1_rust.Base.Bytes.{Bytes}
use rp1_rust.Base.Result.{ok, err}
use rp1_rust.Protocol.Types.{Limits, pre_negotiation_limits}
use rp1_rust.Session.{Session, DriverError, drain_frames, fail_all}
use rp1_rust.Driver.{Submit, DriverExit, Driver, Event, Next, run, step, new_driver}
use rp1_rust.Session.Invariant.{IsSession, Keeps}
use rp1_rust.Session.FailAll.{fail_all-Keeps}
use rp1_rust.Session.Drain.{KeepsDrained, drain_frames-KeepsDrained}
use rp1_rust.Driver.Rounds.{KeepsNext, received}
use rp1_rust.Base.{◌+◌, ◌⊎◌, length, none, some}
use rp1_rust.Protocol.Types.{Kind}
use rp1_rust.Protocol.Failure
use rp1_rust.Protocol.Frame.{Frame, Payload, Step}
use rp1_rust.Protocol.Decode.{decode}
use rp1_rust.Lifecycle.{Lifecycle}
use rp1_rust.Session.{DrainStep, find, admission_of, drain_one}
use rp1_rust.Session.Invariant.{settled}
use rp1_rust.Driver.Exits.{IsMarked, run-IsMarked, shutdown-state}
use rp1_rust.Session.Attribution.{drain_one-frame}
use rp1_rust.Driver.Chunks.{step-chunks}
use rp1_rust.Driver.Run.{Accounts, step-KeepsNext, run-Accounts}

-- Two requests, 4 and 9, whose waiters are 40 and 90.
abbrev two_waiting : Session
two_waiting = record {
  buffer = [];
  completions = (4, 40) ∷ (9, 90) ∷ [];
  live = record { live = 4 ∷ 9 ∷ [] };
  delivered = [];
}

two_waiting-IsSession : IsSession two_waiting
unfolding contains
two_waiting-IsSession = record {
  registry = record { distinct = (refl, (refl, tt)); no_zero = refl };
  distinct = (refl, (refl, tt));
  matched = λ id. refl;
}

abbrev two_driver : Driver
two_driver = record new_driver { session = two_waiting }

-- The success response to request 9, with the payload byte 7.
abbrev response_nine : Bytes
response_nine =
    0 ∷ 2 ∷ 0 ∷ 0 ∷ 0 ∷ 0 ∷ 0 ∷ 0 ∷ 1 ∷ 0 ∷ 0 ∷ 0 ∷ 9 ∷ 0 ∷ 0 ∷ 0 ∷ 0 ∷ 0 ∷ 0 ∷ 0 ∷ 7 ∷ []

abbrev buffered : Session
buffered = record two_waiting { buffer = response_nine }

buffered-IsSession : IsSession buffered
buffered-IsSession = record {
  registry = two_waiting-IsSession.registry;
  distinct = two_waiting-IsSession.distinct;
  matched = two_waiting-IsSession.matched;
}

abbrev submit_six : Submit
submit_six = record { id = 6; bytes = 1 ∷ []; completion = 60 }

abbrev events : List Event
events =
    Event.submitted submit_six true
    ∷ Event.read_chunk response_nine
    ∷ Event.submit_end
    ∷ Event.read_end
    ∷ []

run-Accounts_example :
    Accounts pre_negotiation_limits two_driver false events
      (run pre_negotiation_limits two_driver events)
run-Accounts_example =
    run-Accounts pre_negotiation_limits two_driver false events two_waiting-IsSession refl

step-KeepsNext_example :
    KeepsNext two_waiting
      (received false (Event.read_chunk response_nine))
      false
      (step pre_negotiation_limits two_driver (Event.read_chunk response_nine))
step-KeepsNext_example =
    step-KeepsNext pre_negotiation_limits two_driver (Event.read_chunk response_nine)
      two_waiting-IsSession

fail_all-Keeps_example :
    ((fail_all DriverError.closed two_waiting).completions ≡ [])
    × Keeps two_waiting (fail_all DriverError.closed two_waiting)
fail_all-Keeps_example = fail_all-Keeps DriverError.closed two_waiting two_waiting-IsSession

drain_frames-KeepsDrained_example :
    KeepsDrained buffered (drain_frames pre_negotiation_limits buffered)
drain_frames-KeepsDrained_example =
    drain_frames-KeepsDrained pre_negotiation_limits buffered buffered-IsSession

-- Both waiters hear of it when the transport ends.
fail_all-two_waiting :
    (fail_all DriverError.transport two_waiting).delivered
    ≡ (40, err DriverError.transport) ∷ (90, err DriverError.transport) ∷ []
unfolding fail_all
fail_all-two_waiting = refl

run-IsMarked_example : IsMarked (run pre_negotiation_limits two_driver events)
run-IsMarked_example = run-IsMarked pre_negotiation_limits two_driver events (refl, refl)

shutdown-state_example :
    (done failing : Driver) × (step pre_negotiation_limits two_driver (Event.shutdown true)
      ≡ Next.exited DriverExit.closed done)
    × (step pre_negotiation_limits two_driver (Event.shutdown false)
        ≡ Next.exited DriverExit.failed failing)
    × (done.state ≡ Lifecycle.closed)
    × (failing.state ≡ Lifecycle.closed)
shutdown-state_example = shutdown-state pre_negotiation_limits two_driver (refl, refl)

-- An idle task takes no notice of the end of the stream.
idle-runs : step pre_negotiation_limits new_driver Event.read_end ≡ Next.running new_driver
unfolding step rp1_rust.Driver.end_of_stream
idle-runs = refl

-- A fatal error (resource limit) that names request 9.
abbrev fatal_nine : Bytes
fatal_nine =
    0 ∷ 3 ∷ 0 ∷ 0 ∷ 5 ∷ 0 ∷ 0 ∷ 0 ∷ 2 ∷ 0 ∷ 0 ∷ 0 ∷ 9 ∷ 0 ∷ 0 ∷ 0 ∷ 0 ∷ 0 ∷ 0 ∷ 0 ∷ 0 ∷ 0 ∷ []

abbrev fatal_frame : Frame
fatal_frame = record {
  header = record {
    version = 0;
    kind = Kind.error;
    flags = 0;
    code = 5;
    metadata_length = 0;
    payload_length = 2;
    request_id = 9;
  };
  metadata = [];
  payload = Payload.error [] [];
  retires = 0;
}

abbrev fatal_session : Session
fatal_session = record two_waiting { buffer = fatal_nine }

fatal_decodes :
    decode fatal_nine (admission_of fatal_session pre_negotiation_limits) ≡ Step.frame fatal_frame
unfolding decode rp1_rust.Protocol.Decode.admit rp1_rust.Protocol.Header.parse_header
    rp1_rust.Protocol.Types.kind_from_wire rp1_rust.Protocol.Header.total_length
    rp1_rust.Protocol.Decode.usize_from rp1_rust.Protocol.Region.parse_entries
    rp1_rust.Protocol.Region.parse_loop rp1_rust.Protocol.Types.sender
    rp1_rust.Protocol.Decode.check_admitted rp1_rust.Protocol.Decode.check_connection_state
    rp1_rust.Protocol.Decode.correlate rp1_rust.Protocol.Types.error_class_from_wire
    rp1_rust.Protocol.Types.scope_of_class rp1_rust.Protocol.Region.check_metadata_order
    rp1_rust.Protocol.Region.check_metadata_order_from rp1_rust.Protocol.Decode.read_payload
    rp1_rust.Base.Bytes.checked_add rp1_rust.Base.Bytes.get_from rp1_rust.Base.Bytes.get_range
    rp1_rust.Base.Bytes.get_to rp1_rust.Base.Bytes.u16_from_le rp1_rust.Base.Bytes.u32_from_le
    rp1_rust.Base.Bytes.u64_from_le contains rp1_rust.Protocol.Decode.check_error_id
    rp1_rust.Protocol.Decode.check_operation_request rp1_rust.Protocol.Decode.conclude
    rp1_rust.Protocol.Decode.decode_from rp1_rust.Protocol.Decode.is_handshake
    rp1_rust.Protocol.Decode.responder_terminal rp1_rust.Protocol.Decode.retires_for
    rp1_rust.Protocol.Decode.step_for rp1_rust.Protocol.Header.get_byte
    rp1_rust.Protocol.Read.read_u16_le rp1_rust.Protocol.Read.read_u32_le
    rp1_rust.Protocol.Read.read_u64_le rp1_rust.Protocol.Region.is_required
    rp1_rust.Protocol.Region.parse_entry rp1_rust.Protocol.Types.is_assigned
    rp1_rust.Protocol.Types.result_code_from_wire
fatal_decodes = refl

drain_one-frame_example :
    (taken rest : Bytes) × (fatal_nine ≡ taken ++ rest)
    × (length taken ≡ 20 + 0 + 2)
    × (((find fatal_session.completions 9 ≡ none)
          × (drain_one pre_negotiation_limits fatal_session
              ≡ DrainStep.fatal Failure.protocol_violation
                  (record fatal_session { buffer = rest })))
        ⊎ ((waiter : ℕ) × (find fatal_session.completions 9 ≡ some waiter)
            × (drain_one pre_negotiation_limits fatal_session
                ≡ DrainStep.again
                    (settled (record fatal_session { buffer = rest }) 9 waiter (ok taken)))))
drain_one-frame_example =
    drain_one-frame pre_negotiation_limits fatal_session fatal_frame fatal_decodes

abbrev nine_front : Bytes
nine_front = 0 ∷ 2 ∷ 0 ∷ 0 ∷ 0 ∷ 0 ∷ 0 ∷ []

abbrev nine_back : Bytes
nine_back = 0 ∷ 1 ∷ 0 ∷ 0 ∷ 0 ∷ 9 ∷ 0 ∷ 0 ∷ 0 ∷ 0 ∷ 0 ∷ 0 ∷ 0 ∷ 7 ∷ []

abbrev front_driver : Driver
front_driver = record two_driver { session = record two_waiting { buffer = nine_front } }

front-runs :
    step pre_negotiation_limits two_driver (Event.read_chunk nine_front) ≡ Next.running front_driver
unfolding step rp1_rust.Driver.after_drain drain_frames drain_one decode
    rp1_rust.Protocol.Decode.admit rp1_rust.Protocol.Header.parse_header
front-runs = refl

step-chunks_example :
    step pre_negotiation_limits front_driver (Event.read_chunk nine_back)
    ≡ step pre_negotiation_limits two_driver (Event.read_chunk (nine_front ++ nine_back))
step-chunks_example =
    step-chunks pre_negotiation_limits two_driver front_driver nine_front nine_back
      two_waiting-IsSession front-runs
