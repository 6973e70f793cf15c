-- ===== src/Protocol/Header.antt =====
-- src/protocol.rs: `RawHeader::parse` and `total_length`.
pub mod Length
use rp1_rust.Base.{ℕ, zero, suc, Option, some, none, List, [], ◌∷◌}
use rp1_rust.Base.Bytes.{Bytes, checked_add}
use rp1_rust.Base.Maybe.{◌>>=◌}
use rp1_rust.Protocol.Read.{read_u16_le, read_u32_le, read_u64_le}
use rp1_rust.Protocol.Types.{header_length}
use rp1_rust.Protocol.Frame.{RawHeader}

-- `slice.get(n).copied()`
unfoldable pub get_byte : Bytes → ℕ → Option ℕ
get_byte [] n = none
get_byte (x ∷ xs) zero = some x
get_byte (x ∷ xs) (suc n) = get_byte xs n

-- `none` when fewer than the 20 header bytes are there.
unfoldable pub parse_header : Bytes → Option RawHeader
unfolding get_byte read_u16_le read_u32_le read_u64_le
parse_header input = do
  version ← get_byte input 0
  kind ← get_byte input 1
  flags ← read_u16_le input 2
  code ← read_u16_le input 4
  metadata_length ← read_u16_le input 6
  payload_length ← read_u32_le input 8
  request_id ← read_u64_le input 12
  some (record {
    version = version;
    kind = kind;
    flags = flags;
    code = code;
    metadata_length = metadata_length;
    payload_length = payload_length;
    request_id = request_id;
  })

-- The total frame length, in 64 bits.
unfoldable pub total_length : ℕ → ℕ → Option ℕ
unfolding checked_add
total_length metadata_length payload_length = do
  head ← checked_add header_length metadata_length
  checked_add head payload_length
