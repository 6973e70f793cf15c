-- ===== src/Protocol/Encode/Shape.antt =====
-- What `encode_with_max` of src/protocol.rs writes, and what it has checked when it writes.
use rp1_rust.Base.{
  ℕ, ◌+◌, ◌≤◌, ◌<◌, ◌≡◌, inl, inr, refl, Option, some, none, List, [], ◌∷◌, ◌++◌, All, arith,
  length, length-append,
}
use rp1_rust.Base.Bytes.{Bytes, u16_end, u32_end, u16_to_le, u32_to_le, u64_to_le, saturate_u16}
use rp1_rust.Base.Result.{ok, Result-cases}
use rp1_rust.Protocol.Types.{kind_value}
use rp1_rust.Protocol.Region.{
  Entry, encode_entry, encode_entries, check_ascending, check_ascending_from,
}
use rp1_rust.Protocol.Region.Order.{IsAscending, check_ascending_iff}
use rp1_rust.Protocol.Frame.{Outgoing}
use rp1_rust.Protocol.Encode.{
  sum_metadata, checked_metadata_length, encode_payload, write_metadata, encode_with_max,
}

abbrev pub IsShort : Entry → Type 0
IsShort entry = length entry.value < u16_end

-- The metadata region is the encoding of the entries.
write_metadata-encode :
    (entries : List Entry) (region : Bytes)
    → write_metadata entries ≡ ok region
    → (region ≡ encode_entries entries) × All IsShort entries
unfolding write_metadata encode_entries encode_entry saturate_u16
write_metadata-encode [] region h = ground arith
write_metadata-encode (x ∷ xs) region h = elim (Result-cases (write_metadata xs)) [
  | inr (e, w) ↦ ground arith
  | inl (rest, w) ↦
      let (same, short) = write_metadata-encode xs rest w in (ground arith, (ground arith, short))
]

sum_metadata-length :
    (previous : Option ℕ) (so_far total : ℕ) (entries : List Entry)
    → sum_metadata previous so_far entries ≡ ok total
    → total ≡ so_far + length (encode_entries entries)
unfolding sum_metadata encode_entries encode_entry
sum_metadata-length previous so_far total [] h = ground arith
sum_metadata-length none so_far total (x ∷ xs) h = ground (
  arith,
  sum_metadata-length (some x.identifier) (so_far + (4 + length x.value)) total xs,
  length-append (encode_entry x) (encode_entries xs),
)
sum_metadata-length (some p) so_far total (x ∷ xs) h = ground (
  arith,
  sum_metadata-length (some x.identifier) (so_far + (4 + length x.value)) total xs,
  length-append (encode_entry x) (encode_entries xs),
)

sum_metadata-ascending :
    (previous : Option ℕ) (so_far total : ℕ) (entries : List Entry)
    → sum_metadata previous so_far entries ≡ ok total
    → check_ascending_from previous entries ≡ ok tt
unfolding sum_metadata check_ascending_from
sum_metadata-ascending previous so_far total [] h = refl
sum_metadata-ascending none so_far total (x ∷ xs) h =
    ground
      (arith, sum_metadata-ascending (some x.identifier) (so_far + (4 + length x.value)) total xs)
sum_metadata-ascending (some p) so_far total (x ∷ xs) h =
    ground
      (arith, sum_metadata-ascending (some x.identifier) (so_far + (4 + length x.value)) total xs)

-- The 20 header bytes.
abbrev pub header_bytes : Outgoing → ℕ → ℕ → Bytes
header_bytes outgoing metadata_length payload_length =
    0
    ∷ kind_value outgoing.kind
    ∷ (u16_to_le 0
        ++ (u16_to_le outgoing.code
            ++ (u16_to_le metadata_length
                ++ (u32_to_le payload_length ++ u64_to_le outgoing.request_id))))

-- An encoded frame: its parts, and the bounds that hold of them.
pub record Encoded (outgoing : Outgoing) (max_frame max_metadata : ℕ) (bytes : Bytes) : Type 0 where
  pub payload : Bytes
  pub payload_encoded : encode_payload outgoing.payload ≡ ok payload
  pub ascending : IsAscending outgoing.metadata
  pub short : All IsShort outgoing.metadata
  pub payload_fits : length payload < u32_end
  pub metadata_fits : length (encode_entries outgoing.metadata) < u16_end
  pub within_metadata : length (encode_entries outgoing.metadata) ≤ max_metadata
  pub within_frame : 20 + length (encode_entries outgoing.metadata) + length payload ≤ max_frame
  pub whole :
      bytes
      ≡ header_bytes outgoing (length (encode_entries outgoing.metadata)) (length payload)
        ++ (encode_entries outgoing.metadata ++ payload)

module _ (outgoing : Outgoing) (max_frame max_metadata : ℕ) (bytes : Bytes) where
  pub encode_with_max-Encoded :
      encode_with_max outgoing max_frame max_metadata ≡ ok bytes
      → Encoded outgoing max_frame max_metadata bytes
  unfolding encode_with_max checked_metadata_length
  encode_with_max-Encoded h = elim (Result-cases (sum_metadata none 0 outgoing.metadata)) [
    | inr (e, s) ↦ ground arith
    | inl (total, s) ↦ elim (Result-cases (encode_payload outgoing.payload)) [
      | inr (e, p) ↦ ground arith
      | inl (payload, p) ↦ elim (Result-cases (write_metadata outgoing.metadata)) [
        | inr (e, w) ↦ ground arith
        | inl (region, w) ↦
            let (same, short) = write_metadata-encode outgoing.metadata region w in
            let sum = sum_metadata-length none 0 total outgoing.metadata s in
            record {
              payload = payload;
              payload_encoded = p;
              ascending = (check_ascending_iff outgoing.metadata).0 (
                  unfold check_ascending in
                  sum_metadata-ascending none 0 total outgoing.metadata s);
              short = short;
              payload_fits = ground arith;
              metadata_fits = ground arith;
              within_metadata = ground arith;
              within_frame = ground arith;
              whole = ground arith;
            }
      ]
    ]
  ]
