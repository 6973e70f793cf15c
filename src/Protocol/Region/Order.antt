-- ===== src/Protocol/Region/Order.antt =====
-- The order checks of src/protocol.rs against strict ascent, stated over all pairs.
use rp1_rust.Base.{
  ℕ, ◌%◌, ◌<◌, ◌≡◌, ◌↔◌, refl, false, Option, some, none, List, [], ◌∷◌, All, arith,
}
use rp1_rust.Base.Result.{ok, err}
use rp1_rust.Protocol.Types.{Failure}
use rp1_rust.Protocol.Failure
use rp1_rust.Protocol.Region.{
  Entry, is_required, check_ascending, check_ascending_from, check_metadata_order,
  check_metadata_order_from,
}

-- Each identifier is below every later one.
abbrev pub IsAscending : List Entry → Type 0
IsAscending [] = Unit
IsAscending (entry ∷ entries) =
    All (λ later. entry.identifier < later.identifier) entries × IsAscending entries

-- At 16 bits the identifier is below 0x8000, where the required range begins.
abbrev pub IsOptional : Entry → Type 0
IsOptional entry = entry.identifier % 65536 < 32768

required-IsOptional : (entry : Entry) → is_required entry ≡ false → IsOptional entry
unfolding is_required
required-IsOptional entry h = ground arith

IsOptional-required : (entry : Entry) → IsOptional entry → is_required entry ≡ false
unfolding is_required
IsOptional-required entry h = ground arith

All-lt_trans :
    (a b : ℕ) (entries : List Entry)
    → a < b
    → All (λ later. b < later.identifier) entries
    → All (λ later. a < later.identifier) entries
All-lt_trans a b [] h all = tt
All-lt_trans a b (x ∷ xs) h all = (omega arith, All-lt_trans a b xs h all.1)

IsAscending-from_sound :
    (previous : ℕ) (entries : List Entry)
    → check_ascending_from (some previous) entries ≡ ok tt
    → All (λ later. previous < later.identifier) entries × IsAscending entries
unfolding check_ascending_from
IsAscending-from_sound previous [] h = (tt, tt)
IsAscending-from_sound previous (x ∷ xs) h =
    let below : previous < x.identifier = ground arith in
    let (rest, sorted) = IsAscending-from_sound x.identifier xs (ground arith) in
    ((below, All-lt_trans previous x.identifier xs below rest), (rest, sorted))

ascending_from_complete :
    (previous : ℕ) (entries : List Entry)
    → All (λ later. previous < later.identifier) entries
    → IsAscending entries
    → check_ascending_from (some previous) entries ≡ ok tt
unfolding check_ascending_from
ascending_from_complete previous [] h sorted = refl
ascending_from_complete previous (x ∷ xs) h sorted =
    ground (arith, ascending_from_complete x.identifier xs sorted.0 sorted.1)

-- The check passes exactly when the identifiers strictly ascend, each below every later one.
pub check_ascending_iff :
    (entries : List Entry) → (check_ascending entries ≡ ok tt) ↔ IsAscending entries
unfolding check_ascending check_ascending_from
check_ascending_iff [] = (λ h. tt, λ h. refl)
check_ascending_iff (x ∷ xs) = (
  λ h. IsAscending-from_sound x.identifier xs h,
  λ h. ascending_from_complete x.identifier xs h.0 h.1,
)

metadata_from_sound :
    (previous : ℕ) (entries : List Entry)
    → check_metadata_order_from (some previous) entries ≡ ok tt
    → All (λ later. previous < later.identifier) entries
      × IsAscending entries
      × All IsOptional entries
unfolding check_metadata_order_from
metadata_from_sound previous [] h = (tt, tt, tt)
metadata_from_sound previous (x ∷ xs) h =
    let below : previous < x.identifier = ground arith in
    let optional = required-IsOptional x (ground arith) in
    let (rest, sorted, all) = metadata_from_sound x.identifier xs (ground arith) in
    ((below, All-lt_trans previous x.identifier xs below rest), (rest, sorted), (optional, all))

metadata_from_complete :
    (previous : ℕ) (entries : List Entry)
    → All (λ later. previous < later.identifier) entries
    → IsAscending entries
    → All IsOptional entries
    → check_metadata_order_from (some previous) entries ≡ ok tt
unfolding check_metadata_order_from
metadata_from_complete previous [] h sorted all = refl
metadata_from_complete previous (x ∷ xs) h sorted all =
    let optional = IsOptional-required x all.0 in
    ground (arith, metadata_from_complete x.identifier xs sorted.0 sorted.1 all.1)

-- The metadata check passes exactly when the identifiers strictly ascend and each of them, taken at
-- 16 bits, is below 0x8000.
pub check_metadata_order_iff :
    (entries : List Entry)
    → (check_metadata_order entries ≡ ok tt) ↔ (IsAscending entries × All IsOptional entries)
unfolding check_metadata_order check_metadata_order_from
check_metadata_order_iff [] = (λ h. (tt, tt), λ h. refl)
check_metadata_order_iff (x ∷ xs) = (
  λ h.
      let optional = required-IsOptional x (ground arith) in
      let (rest, sorted, all) = metadata_from_sound x.identifier xs (ground arith) in
      ((rest, sorted), (optional, all)),
  λ h.
      let optional = IsOptional-required x h.1.0 in
      ground (arith, metadata_from_complete x.identifier xs h.0.0 h.0.1 h.1.1),
)

ascending_from-fails :
    (previous : Option ℕ) (entries : List Entry) (failure : Failure)
    → check_ascending_from previous entries ≡ err failure
    → failure ≡ Failure.malformed_request
unfolding check_ascending_from
ascending_from-fails previous [] failure h = cc
ascending_from-fails none (x ∷ xs) failure h = ascending_from-fails (some x.identifier) xs failure h
ascending_from-fails (some p) (x ∷ xs) failure h =
    ground (arith, ascending_from-fails (some x.identifier) xs failure)

pub check_ascending-fails :
    (entries : List Entry) (failure : Failure)
    → check_ascending entries ≡ err failure
    → failure ≡ Failure.malformed_request
unfolding check_ascending
check_ascending-fails entries failure h = ascending_from-fails none entries failure h

metadata_from-fails :
    (previous : Option ℕ) (entries : List Entry) (failure : Failure)
    → check_metadata_order_from previous entries ≡ err failure
    → failure ≡ Failure.invalid_argument
unfolding check_metadata_order_from
metadata_from-fails previous [] failure h = cc
metadata_from-fails none (x ∷ xs) failure h =
    ground (arith, metadata_from-fails (some x.identifier) xs failure)
metadata_from-fails (some p) (x ∷ xs) failure h =
    ground (arith, metadata_from-fails (some x.identifier) xs failure)

pub check_metadata_order-fails :
    (entries : List Entry) (failure : Failure)
    → check_metadata_order entries ≡ err failure
    → failure ≡ Failure.invalid_argument
unfolding check_metadata_order
check_metadata_order-fails entries failure h = metadata_from-fails none entries failure h
