-- ===== src/Protocol/Tests/Regions.antt =====
-- src/protocol.rs: runs of the metadata and capability regions.
use rp1_rust.Base.{refl, List, [], ◌∷◌, ◌≡◌, ◌↔◌, All, arith, some}
use rp1_rust.Base.Bytes.{Bytes, IsByte}
use rp1_rust.Base.Result.{ok}
use rp1_rust.Protocol.Region.{
  Entry, parse_entries, parse_loop, encode_entries, check_metadata_order,
}
use rp1_rust.Protocol.Region.RoundTrip.{IsEntry, parse_entries-exact}
use rp1_rust.Protocol.Region.Order.{IsAscending, IsOptional, check_metadata_order_iff}

abbrev region_bytes : Bytes
region_bytes = 1 ∷ 0 ∷ 1 ∷ 0 ∷ 9 ∷ 2 ∷ 0 ∷ 0 ∷ 0 ∷ []

abbrev region_entries : List Entry
region_entries =
    record { identifier = 1; value = 9 ∷ [] } ∷ record { identifier = 2; value = [] } ∷ []

region_bytes_IsByte : All IsByte region_bytes
region_bytes_IsByte = grind arith

region_parses : parse_entries region_bytes ≡ some region_entries
unfolding parse_entries parse_loop rp1_rust.Protocol.Region.parse_entry
region_parses = refl

parse_entries-exact_example :
    (parse_entries region_bytes ≡ some region_entries)
    ↔ ((region_bytes ≡ encode_entries region_entries) × All IsEntry region_entries)
parse_entries-exact_example = parse_entries-exact region_bytes region_entries region_bytes_IsByte

check_metadata_order_iff_example :
    (check_metadata_order region_entries ≡ ok tt)
    ↔ (IsAscending region_entries × All IsOptional region_entries)
check_metadata_order_iff_example = check_metadata_order_iff region_entries
