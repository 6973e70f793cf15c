-- ===== src/Connection/Requests.antt =====
-- src/connection/mod.rs: the encoding of a request under the bounds in force, and the errors.
use rp1_rust.Base.{ℕ, ◌+◌, ◌≤◌, ◌<◌, ◌≡◌, ◌⊎◌, inl, inr, Bool-cases, ltb, some, arith, length}
use rp1_rust.Base.Bytes.{Bytes, u32_end, u64_end}
use rp1_rust.Base.Result.{ok, err}
use rp1_rust.Protocol.Types.{ErrorClass, scope_of_class}
use rp1_rust.Base.{◌++◌, length-append}
use rp1_rust.Protocol.Encode.{checked_metadata_length, encode_payload, write_metadata}
use rp1_rust.Protocol.Encode.Shape.{header_bytes}
use rp1_rust.Protocol.RoundTrip.{length-header_bytes}
use rp1_rust.Connection.{request_of, CommandError, from_class, scope_of_error, encode_request}

-- Of a request whose size is below 2 ^ 64: if the frame fits the frame bound and its payload the 32
-- bits of the payload length, it is encoded, to as many bytes as its size; otherwise it is refused
-- with its size and the bound.
pub encode_request-cases :
    (opcode : ℕ) (payload : Bytes) (id frame_bound metadata_bound : ℕ)
    → 20 + length payload < u64_end
    → ((20 + length payload ≤ frame_bound)
        × (length payload < u32_end)
        × (bytes : Bytes) × (encode_request opcode payload id frame_bound metadata_bound ≡ ok bytes)
        × (length bytes ≡ 20 + length payload))
      ⊎ (((frame_bound < 20 + length payload) ⊎ (u32_end ≤ length payload))
          × (encode_request opcode payload id frame_bound metadata_bound
              ≡ err (CommandError.local_limit_exceeded (20 + length payload) frame_bound)))
unfolding encode_request checked_metadata_length encode_payload write_metadata
encode_request-cases opcode payload id frame_bound metadata_bound usize =
    elim (Bool-cases (ltb (length payload) u32_end)) [
      | inr long ↦ inr (inr (ground arith), ground arith)
      | inl fits ↦ elim (Bool-cases (ltb frame_bound (20 + length payload))) [
        | inl large ↦ inr (inl (ground arith), ground arith)
        | inr small ↦ inl (
          ground arith,
          ground arith,
          header_bytes (request_of opcode payload id) 0 (length payload) ++ payload,
          ground arith,
          omega (
            arith,
            length-append (header_bytes (request_of opcode payload id) 0 (length payload)) payload,
            length-header_bytes (request_of opcode payload id) 0 (length payload),
          ),
        )
      ]
    ]

-- Two classes with the same error are the same class, and the error names its scope.
pub from_class-scope :
    (class class' : ErrorClass)
    → from_class class ≡ from_class class'
    → (class ≡ class') × (scope_of_error (from_class class) ≡ some (scope_of_class class'))
unfolding from_class scope_of_error scope_of_class
from_class-scope class class' same = ground arith
