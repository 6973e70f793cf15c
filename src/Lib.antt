-- ===== src/Lib.antt =====
-- Verification library of rp1db, the asynchronous client of the RP1 protocol.
--
-- The program. A connection is established by a handshake, and then carries many requests at once
-- over one transport. A handle of the connection allocates a request id, encodes a frame and submits
-- it to the driver task; the driver alone owns the transport, writes the frames one after the other,
-- reads the bytes that come back, cuts them into frames and answers, by the request id, the handle
-- that waits. The handle decodes its frame again and interprets it as the answer of its command.
--
-- The parts, and the files that model them:
--   * src/protocol.rs, the codec. Protocol/Types.antt and Protocol/Failure.antt are its constants,
--     enums and failures (`Kind::from_wire` is `kind_from_wire`, `ErrorClass::scope` is
--     `scope_of_class`); Protocol/Read.antt the little-endian reads; Protocol/Region.antt the metadata
--     region and the capability region, whose parsers have one text; Protocol/Handshake.antt the
--     handshake payloads (`HandshakeRequest::decode` is `decode_request`, and so on);
--     Protocol/Frame.antt the frames; Protocol/Header.antt `RawHeader::parse` and `total_length`;
--     Protocol/Decode.antt `decode` with all its checks, in their order; Protocol/Encode.antt
--     `encode_with_max`, `encode` and what they call.
--   * src/command.rs, the payloads of the five operations and the meaning of the answers:
--     Command.antt.
--   * src/connection/dispatch.rs, `RequestIdAllocator` and `InFlightRegistry`: Dispatch.antt.
--   * src/connection/driver.rs, the driver: Session.antt has the bookkeeping of its loop
--     (`fail_all`, `drain_frames`), Driver.antt the loop itself (`run_driver`), Lifecycle.antt the
--     state that it shares with the handles (`ConnectionState` of src/connection/mod.rs, and
--     `mark_state`).
--   * src/transport/mod.rs: Transport.antt has the answers of a transport and the write loop of
--     src/connection/driver.rs.
--   * src/connection/mod.rs: Connection.antt has `CommandError` and its conversions, `encode_request`,
--     and `interpret_response`, the answer to the handshake; Connection/Config.antt the configuration;
--     Connection/Establish.antt `connect`, `establish` and the reading loop of the handshake;
--     Connection/Client.antt the five commands, from `check_usable` to `decode_own`;
--     Connection/Close.antt `close`.
--   * tools/validation-runner/src, the runner of validation campaigns: Runner/Segment.antt is
--     segment.rs, Runner/Campaign.antt campaign.rs with `seal_state`, the reuse of results and
--     `Campaign::execute`, Runner/Json.antt json.rs, Runner/Time.antt time.rs. Of record.rs,
--     Runner/Record.antt has the journal as a list of entries and Runner/Journal.antt as the text of
--     its file, with the lines that `Campaign::journal_entry` writes and `JournalEntry::parse` reads.
-- The children of these files have the proofs, and the files named Tests run the definitions.
-- Base.antt and its children are shared helpers.
--
-- How the code is read. A byte is a number below 256 and a slice a list of them; where a theorem
-- needs the bound it says so (`All IsByte`). A machine integer is a natural number, with the checks
-- and the wrap-around of the code written out; `usize` has 64 bits. An early return with an error is
-- `err` of a `Result`, and `?` is its bind. A `HashMap` or `HashSet` is a list: the order in which
-- Rust walks the keys is not known, and the theorems count for each waiter, whatever the order. A
-- `oneshot` channel is the number of its waiter, and what is sent on it is kept in `delivered`;
-- whether the waiter still listens makes no difference to the driver. What `select!` chooses and what
-- the transport answers is a sequence of events, and the theorems are about every sequence: the
-- priority of the shutdown signal that the code asks for only excludes some of them.
--
-- Fuel. The loop of the region parser has the length of the region as fuel, since a round takes four
-- bytes at least. The loop of `drain_frames` has one round more than the buffer is long, since a round
-- that goes on drains a byte at least; an end of the fuel would be the answer `stuck`. The loop of
-- `parse_flat_object` has one round more than the text has characters, since a field takes one at
-- least.
--
-- A command of a handle is one step: the locks that it takes one after the other are left out, and what
-- the driver does while it waits is an argument (`serve`). `close` takes the lock on the state twice,
-- and what the driver does between them and behind them is a run of the driver each. `none` is a call
-- that still waits. The runner's file system, clock and processes are arguments.
--
-- Not modelled: sockets and the operating system's side of src/transport, which are input and output
-- alone; what only tests compile (the test dispatcher of src/connection/dispatch.rs, the in-memory
-- transport and what serves it in src/connection/mod.rs); the abort of the driver's task on drop,
-- and a panic of the task but for what `close` makes of it; of tools/validation-runner the manifest and the summary, with the lists and the
-- nested objects that only the manifest has, the hash of the evidence identity, git, the processes,
-- the command line, and the directories of records; text for display.
pub mod Base
pub mod Protocol
pub mod Command
pub mod Dispatch
pub mod Lifecycle
pub mod Session
pub mod Transport
pub mod Driver
pub mod Connection
pub mod Runner
