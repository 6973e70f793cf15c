-- ===== src/Protocol/Frame.antt =====
-- src/protocol.rs: frames, the outcome of a decoding step, and what a caller asks the encoder for.
-- `Version`, `Flags` and `RequestId` are their numbers; a metadata region is its list of entries.
use rp1_rust.Base.{ℕ, List}
use rp1_rust.Base.Bytes.{Bytes}
use rp1_rust.Protocol.Types.{Kind, Failure, ResultCode, FailureScope}
use rp1_rust.Protocol.Region.{Entry}

-- The payload of an admitted frame.
pub data Payload : Type 0 where
  opaque : Bytes → Payload
  warm : ℕ → Payload
  error : Bytes → Bytes → Payload

pub record Header : Type 0 where
  pub version : ℕ
  pub kind : Kind
  pub flags : ℕ
  pub code : ℕ
  pub metadata_length : ℕ
  pub payload_length : ℕ
  pub request_id : ℕ

-- An admitted frame. `retires` is 0, the reserved id, for a frame that retires no request.
pub record Frame : Type 0 where
  pub header : Header
  pub metadata : List Entry
  pub payload : Payload
  pub retires : ℕ

-- The outcome of decoding at the head of a buffer.
pub data Step : Type 0 where
  need : ℕ → Step
  frame : Frame → Step
  failed : Failure → ℕ → Step

-- The payload that a caller asks the encoder to write.
pub data OutgoingPayload : Type 0 where
  opaque : Bytes → OutgoingPayload
  warm : ℕ → OutgoingPayload
  error : Bytes → Bytes → OutgoingPayload

-- A frame that a caller asks the encoder to write. The source's pairs of an identifier and a value
-- are entries here.
pub record Outgoing : Type 0 where
  pub kind : Kind
  pub code : ℕ
  pub request_id : ℕ
  pub metadata : List Entry
  pub payload : OutgoingPayload

pub data EncodeError : Type 0 where
  metadata_not_ascending frame_too_large metadata_too_large : EncodeError

-- The decision that the code and correlation checks produce for one frame.
pub data Correlation : Type 0 where
  handshake_request : Correlation
  operation_request : ℕ → Correlation
  response : ResultCode → Correlation
  error : FailureScope → Correlation

-- The raw fields of a frame header.
pub record RawHeader : Type 0 where
  pub version : ℕ
  pub kind : ℕ
  pub flags : ℕ
  pub code : ℕ
  pub metadata_length : ℕ
  pub payload_length : ℕ
  pub request_id : ℕ

-- The header-derived state that an admitted frame carries forward.
pub record Admitted : Type 0 where
  pub raw : RawHeader
  pub kind : Kind
  pub metadata : List Entry
  pub total_len : ℕ
  pub metadata_end : ℕ
