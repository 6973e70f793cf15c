-- ===== src/Command/Payloads.antt =====
-- src/command.rs: the payload of a write.
use rp1_rust.Base.{
  ℕ, ◌+◌, ◌≤◌, ◌<◌, ◌≡◌, ◌⊎◌, inl, inr, refl, sym, ◌++◌, length, arith, ltb, Bool-cases,
}
use rp1_rust.Base.Bytes.{Bytes, u32_end, u32_to_le}
use rp1_rust.Base.Result.{ok, err}
use rp1_rust.Protocol.Types.{set_opcode}
use rp1_rust.Protocol.Frame.{Payload}
use rp1_rust.Protocol.Decode.{check_operation_request}
use rp1_rust.Base.Slices.{get_to-append, get_from-append}
use rp1_rust.Protocol.RoundTrip.Layouts.{set-read}
use rp1_rust.Command.{SetEncodeError, encode_set}

-- A write is encoded as the key's length, the key and the value where these fit 32 bits of length;
-- where the key alone does not, the error names its length, and otherwise it is the payload's size.
pub encode_set-cases :
    (key value : Bytes)
    → ((4 + length key + length value < u32_end)
        × (encode_set key value ≡ ok (u32_to_le (length key) ++ (key ++ value))))
      ⊎ ((u32_end ≤ length key)
          × (encode_set key value ≡ err (SetEncodeError.key_too_long (length key))))
      ⊎ ((length key < u32_end)
          × (u32_end ≤ 4 + length key + length value)
          × (encode_set key value ≡ err SetEncodeError.payload_too_large))
unfolding encode_set
encode_set-cases key value = elim (Bool-cases (ltb (length key) u32_end)) [
  | inr long ↦ inr (inl (ground arith, ground arith))
  | inl fits ↦ elim (Bool-cases (ltb (4 + length key + length value) u32_end)) [
    | inl all ↦ inl (ground arith, ground arith)
    | inr large ↦ inr (inr (ground arith, ground arith, ground arith))
  ]
]

encode_set-ok :
    (key value bytes : Bytes)
    → encode_set key value ≡ ok bytes
    → (4 + length key + length value < u32_end) × (bytes ≡ u32_to_le (length key) ++ (key ++ value))
encode_set-ok key value bytes h = elim (encode_set-cases key value) [
  | inl (small, e) ↦ (small, cc)
  | inr (inl (long, e)) ↦ cc
  | inr (inr (fits, large, e)) ↦ cc
]

spelled-injective :
    (m n : ℕ) (xs ys : Bytes)
    → m < u32_end
    → n < u32_end
    → u32_to_le m ++ xs ≡ u32_to_le n ++ ys
    → m ≡ n
unfolding u32_to_le
spelled-injective m n xs ys hm hn h = grind arith

rest-injective : (m n : ℕ) (xs ys : Bytes) → u32_to_le m ++ xs ≡ u32_to_le n ++ ys → xs ≡ ys
unfolding u32_to_le
rest-injective m n xs ys h = cc

append-injective :
    (xs ys xs' ys' : Bytes)
    → length xs ≡ length xs'
    → xs ++ ys ≡ xs' ++ ys'
    → (xs ≡ xs') × (ys ≡ ys')
append-injective xs ys xs' ys' l h =
    let front = get_to-append xs ys (length xs) refl in
    let front' = get_to-append xs' ys' (length xs) (sym l) in
    let back = get_from-append xs ys (length xs) refl in
    let back' = get_from-append xs' ys' (length xs) (sym l) in (cc, cc)

-- Two writes that are encoded alike have the same key and the same value.
pub encode_set-injective :
    (key value key' value' bytes : Bytes)
    → encode_set key value ≡ ok bytes
    → encode_set key' value' ≡ ok bytes
    → (key ≡ key') × (value ≡ value')
encode_set-injective key value key' value' bytes h k =
    let (small, e) = encode_set-ok key value bytes h in
    let (small', e') = encode_set-ok key' value' bytes k in
    let same : u32_to_le (length key) ++ (key ++ value)
        ≡ u32_to_le (length key') ++ (key' ++ value') =
      cc in
    let lengths : length key ≡ length key' =
      spelled-injective (length key) (length key') (key ++ value) (key' ++ value') (omega arith)
        (omega arith) same in
    append-injective key value key' value' lengths
      (rest-injective (length key) (length key') (key ++ value) (key' ++ value') same)

-- The payload of a write passes the check that the decoder runs on the payload of that operation.
pub encode_set-accepted :
    (key value bytes : Bytes)
    → encode_set key value ≡ ok bytes
    → check_operation_request set_opcode (length bytes) bytes ≡ ok (Payload.opaque bytes)
unfolding check_operation_request u32_to_le
encode_set-accepted key value bytes h =
    let (small, e) = encode_set-ok key value bytes h in rw e (set-read key value (omega arith))
