-- ===== src/Protocol/Region.antt =====
-- src/protocol.rs: the metadata region and the handshake capability region. The two regions have
-- the same layout, and the two parsers the same text: `MetadataEntry` and `CapabilityEntry` are one
-- record here, and `parse_entries` is either `parse`.
pub mod RoundTrip
pub mod Order
use rp1_rust.Base.{
  ℕ, zero, suc, ◌/◌, ◌%◌, ◌^◌, Bool, not, Option, some, none, List, [], ◌∷◌, ◌++◌, ◌==◌, ltb, leb,
  if◌then◌else◌, length,
}
use rp1_rust.Base.Bytes.{Bytes, checked_add, get_from, get_range, u16_to_le, saturate_u16}
use rp1_rust.Base.Maybe.{◌>>=◌}
use rp1_rust.Base.Result.{Result, ok, err}
use rp1_rust.Protocol.Read.{read_u16_le}
use rp1_rust.Protocol.Types.{Failure}
use rp1_rust.Protocol.Failure

pub record Entry : Type 0 where
  pub identifier : ℕ
  pub value : Bytes

-- `identifier & 0x8000 != 0`: bit 15 of the identifier.
unfoldable pub is_required : Entry → Bool
is_required entry = not (entry.identifier / 2 ^ 15 % 2 == 0)

-- One round of the parsing loop: the entry at the head of `rest`, and what follows it.
unfoldable pub parse_entry : Bytes → Option (Entry × Bytes)
unfolding read_u16_le checked_add get_range get_from
parse_entry rest = do
  identifier ← read_u16_le rest 0
  value_length ← read_u16_le rest 2
  entry_length ← checked_add 4 value_length
  if ltb (length rest) entry_length then none else do
    value ← get_range rest 4 entry_length
    next ← get_from rest entry_length
    some (record { identifier = identifier; value = value }, next)

-- `while !rest.is_empty()` with fuel. A round takes four bytes at least, so the length of the
-- region is enough (`Region.RoundTrip`).
unfoldable pub parse_loop : ℕ → Bytes → Option (List Entry)
parse_loop fuel [] = some []
parse_loop zero (b ∷ bs) = none
parse_loop (suc fuel) (b ∷ bs) = do
  (entry, next) ← parse_entry (b ∷ bs)
  entries ← parse_loop fuel next
  some (entry ∷ entries)

unfoldable pub parse_entries : Bytes → Option (List Entry)
parse_entries region = parse_loop (length region) region

-- The loop over the entries in both `encode`s of the handshake.
unfoldable pub encode_entry : Entry → Bytes
unfolding u16_to_le
encode_entry entry =
    u16_to_le entry.identifier ++ (u16_to_le (saturate_u16 (length entry.value)) ++ entry.value)

unfoldable pub encode_entries : List Entry → Bytes
encode_entries [] = []
encode_entries (entry ∷ entries) = encode_entry entry ++ encode_entries entries

-- `CapabilityEntries::check_ascending`, from the previous identifier on.
unfoldable pub check_ascending_from : Option ℕ → List Entry → Result (Unit {0}) Failure
check_ascending_from previous [] = ok tt
check_ascending_from none (entry ∷ entries) = check_ascending_from (some entry.identifier) entries
check_ascending_from (some previous_identifier) (entry ∷ entries) =
    let rest = check_ascending_from (some entry.identifier) entries in
    if leb entry.identifier previous_identifier then err Failure.malformed_request else rest

unfoldable pub check_ascending : List Entry → Result (Unit {0}) Failure
check_ascending entries = check_ascending_from none entries

-- `check_metadata_order`, from the previous identifier on.
unfoldable pub check_metadata_order_from : Option ℕ → List Entry → Result (Unit {0}) Failure
unfolding is_required
check_metadata_order_from previous [] = ok tt
check_metadata_order_from none (entry ∷ entries) =
    let rest = check_metadata_order_from (some entry.identifier) entries in
    if is_required entry then err Failure.invalid_argument else rest
check_metadata_order_from (some previous_identifier) (entry ∷ entries) =
    let rest = check_metadata_order_from (some entry.identifier) entries in
    if leb entry.identifier previous_identifier
    then err Failure.invalid_argument
    else if is_required entry
    then err Failure.invalid_argument
    else rest

unfoldable pub check_metadata_order : List Entry → Result (Unit {0}) Failure
check_metadata_order entries = check_metadata_order_from none entries
