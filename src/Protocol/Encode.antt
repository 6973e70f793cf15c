-- ===== src/Protocol/Encode.antt =====
-- src/protocol.rs: `encode` and `encode_with_max`.
pub mod Shape
use rp1_rust.Base.{
  ℕ, ◌<◌, Option, some, none, List, [], ◌∷◌, ◌++◌, ◌==◌, ltb, leb, if◌then◌else◌, length,
}
use rp1_rust.Base.Bytes.{Bytes, checked_add, u16_end, u32_end, u16_to_le, u32_to_le, u64_to_le}
use rp1_rust.Base.Result.{Result, ok, err, ◌>>=◌, ◌>>◌, fail_if, ok_or}
use rp1_rust.Protocol.Types.{header_length, max_frame_size, max_metadata_size, kind_value}
use rp1_rust.Protocol.Region.{Entry}
use rp1_rust.Protocol.Frame.{Outgoing, OutgoingPayload, EncodeError}
use rp1_rust.Protocol.Header.{total_length}

-- `u16::try_from` and `u32::try_from` of a length.
unfoldable pub u16_try_from : ℕ → Option ℕ
u16_try_from n = if ltb n u16_end then some n else none

unfoldable pub u32_try_from : ℕ → Option ℕ
u32_try_from n = if ltb n u32_end then some n else none

-- The summing loop, from the previous identifier and the length so far.
unfoldable pub sum_metadata : Option ℕ → ℕ → List Entry → Result ℕ EncodeError
unfolding checked_add
sum_metadata previous so_far [] = ok so_far
sum_metadata none so_far (entry ∷ entries) = do
  entry_length ← ok_or (checked_add 4 (length entry.value)) EncodeError.metadata_too_large
  sum ← ok_or (checked_add so_far entry_length) EncodeError.metadata_too_large
  sum_metadata (some entry.identifier) sum entries
sum_metadata (some previous_identifier) so_far (entry ∷ entries) = do
  fail_if (leb entry.identifier previous_identifier) EncodeError.metadata_not_ascending
  entry_length ← ok_or (checked_add 4 (length entry.value)) EncodeError.metadata_too_large
  sum ← ok_or (checked_add so_far entry_length) EncodeError.metadata_too_large
  sum_metadata (some entry.identifier) sum entries

-- `checked_metadata_length_with_max`
unfoldable pub checked_metadata_length : List Entry → ℕ → Result ℕ EncodeError
unfolding sum_metadata
checked_metadata_length metadata max_metadata_size = do
  total ← sum_metadata none 0 metadata
  fail_if (ltb max_metadata_size total) EncodeError.metadata_too_large
  ok total

unfoldable pub encode_payload : OutgoingPayload → Result Bytes EncodeError
unfolding u16_try_from u16_to_le u64_to_le
encode_payload (OutgoingPayload.opaque bytes) = ok bytes
encode_payload (OutgoingPayload.warm logical_length) = ok (u64_to_le logical_length)
encode_payload (OutgoingPayload.error detail text) = do
  detail_length ← ok_or (u16_try_from (length detail)) EncodeError.frame_too_large
  ok (u16_to_le detail_length ++ (detail ++ text))

-- The loop that writes the metadata entries.
unfoldable pub write_metadata : List Entry → Result Bytes EncodeError
unfolding u16_try_from u16_to_le
write_metadata [] = ok []
write_metadata (entry ∷ entries) = do
  value_len ← ok_or (u16_try_from (length entry.value)) EncodeError.metadata_too_large
  rest ← write_metadata entries
  ok (u16_to_le entry.identifier ++ (u16_to_le value_len ++ (entry.value ++ rest)))

unfoldable pub encode_with_max : Outgoing → ℕ → ℕ → Result Bytes EncodeError
unfolding u16_try_from u32_try_from u16_to_le u32_to_le u64_to_le checked_add
encode_with_max outgoing max_frame_size max_metadata_size = do
  metadata_length ← checked_metadata_length outgoing.metadata max_metadata_size
  payload ← encode_payload outgoing.payload
  payload_length ← ok_or (u32_try_from (length payload)) EncodeError.frame_too_large
  head ← ok_or (checked_add header_length metadata_length) EncodeError.frame_too_large
  frame_total ← ok_or (checked_add head payload_length) EncodeError.frame_too_large
  fail_if (ltb max_frame_size frame_total) EncodeError.frame_too_large
  metadata_len ← ok_or (u16_try_from metadata_length) EncodeError.metadata_too_large
  region ← write_metadata outgoing.metadata
  ok (
      0
      ∷ kind_value outgoing.kind
      ∷ (u16_to_le 0
          ++ (u16_to_le outgoing.code
              ++ (u16_to_le metadata_len
                  ++ (u32_to_le payload_length
                      ++ (u64_to_le outgoing.request_id ++ (region ++ payload)))))))

unfoldable pub encode : Outgoing → Result Bytes EncodeError
unfolding encode_with_max
encode outgoing = encode_with_max outgoing max_frame_size max_metadata_size
