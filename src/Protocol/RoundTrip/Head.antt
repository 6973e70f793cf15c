-- ===== src/Protocol/RoundTrip/Head.antt =====
-- src/protocol.rs: the header that the encoder writes, and what a sender must respect.
use rp1_rust.Base.{ℕ, ◌<◌, ◌≡◌, refl, some, List, [], ◌∷◌, ◌++◌, All, arith, length}
use rp1_rust.Base.Bytes.{Bytes, u16_end, u32_end, u64_end, u16_to_le, u32_to_le, u64_to_le}
use rp1_rust.Protocol.Types.{kind_value}
use rp1_rust.Protocol.Region.{Entry}
use rp1_rust.Protocol.Region.RoundTrip.{IsEntry}
use rp1_rust.Protocol.Region.Order.{IsOptional}
use rp1_rust.Protocol.Frame.{Outgoing, RawHeader}
use rp1_rust.Protocol.Header.{parse_header}
use rp1_rust.Protocol.Encode.Shape.{IsShort, header_bytes}

-- The fields of a frame that the encoder does not measure fit their widths.
pub record IsSendable (outgoing : Outgoing) : Type 0 where
  pub code_fits : outgoing.code < u16_end
  pub id_fits : outgoing.request_id < u64_end
  pub identifiers_fit : All (λ (entry : Entry). entry.identifier < u16_end) outgoing.metadata
  pub optional : All IsOptional outgoing.metadata

abbrev pub raw_of : Outgoing → ℕ → ℕ → RawHeader
raw_of outgoing metadata_length payload_length = record {
  version = 0;
  kind = kind_value outgoing.kind;
  flags = 0;
  code = outgoing.code;
  metadata_length = metadata_length;
  payload_length = payload_length;
  request_id = outgoing.request_id;
}

pub parse_header-bytes :
    (outgoing : Outgoing) (m p : ℕ) (tail : Bytes)
    → outgoing.code < u16_end
    → outgoing.request_id < u64_end
    → m < u16_end
    → p < u32_end
    → parse_header (header_bytes outgoing m p ++ tail) ≡ some (raw_of outgoing m p)
unfolding parse_header u16_to_le u32_to_le u64_to_le
parse_header-bytes outgoing m p tail hc hi hm hp = ground arith

pub entries_IsEntry :
    (entries : List Entry)
    → All (λ (entry : Entry). entry.identifier < u16_end) entries
    → All IsShort entries
    → All IsEntry entries
entries_IsEntry [] h k = tt
entries_IsEntry (x ∷ xs) h k =
    (record { identifier_fits = h.0; value_fits = k.0 }, entries_IsEntry xs h.1 k.1)

pub length-header_bytes : (outgoing : Outgoing) (m p : ℕ) → length (header_bytes outgoing m p) ≡ 20
unfolding u16_to_le u32_to_le u64_to_le
length-header_bytes outgoing m p = refl
