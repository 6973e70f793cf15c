-- ===== src/Base/Bytes.antt =====
-- Byte slices as lists of numbers below 256: Rust's checked slice reads, the little-endian
-- conversions of the integer types, and sums that overflow to `none`.
-- (`read_u16_le`, `read_u32_le` and `read_u64_le` stand in src/protocol.rs.)
use Prim.Native.Nat.{ℕ, zero, suc, ◌+◌, ◌-◌, ◌*◌, ◌/◌, ◌%◌, ◌^◌, ◌<◌}
use mathlib.Core.Option.{Option, none, some}
use mathlib.Core.List.{List, [], ◌∷◌, ◌++◌}
use rp1_rust.Base.Tests.{ltb, leb, if◌then◌else◌}
use rp1_rust.Base.Maybe.{◌>>=◌}

abbrev pub Bytes : Type 0
Bytes = List ℕ

abbrev pub IsByte : ℕ → Type 0
IsByte b = b < 256

abbrev pub u16_end : ℕ
u16_end = 2 ^ 16

abbrev pub u32_end : ℕ
u32_end = 2 ^ 32

abbrev pub u64_end : ℕ
u64_end = 2 ^ 64

-- `a.checked_add(b)` at `u64`, and at `usize` on a 64-bit target.
unfoldable pub checked_add : ℕ → ℕ → Option ℕ
checked_add a b = if ltb (a + b) u64_end then some (a + b) else none

-- `u16::try_from(n).unwrap_or(u16::MAX)`
unfoldable pub saturate_u16 : ℕ → ℕ
saturate_u16 n = if ltb n u16_end then n else u16_end - 1

-- `slice.get(n..)`: `none` past the end.
unfoldable pub get_from : Bytes → ℕ → Option Bytes
get_from xs zero = some xs
get_from [] (suc n) = none
get_from (x ∷ xs) (suc n) = get_from xs n

-- `slice.get(..n)`: `none` past the end.
unfoldable pub get_to : Bytes → ℕ → Option Bytes
get_to xs zero = some []
get_to [] (suc n) = none
get_to (x ∷ xs) (suc n) = do ys ← get_to xs n; some (x ∷ ys)

-- `slice.get(a..b)`: `none` if `a` is past `b` or `b` is past the end.
unfoldable pub get_range : Bytes → ℕ → ℕ → Option Bytes
unfolding get_from get_to
get_range xs a b = if leb a b then (do tail ← get_from xs a; get_to tail (b - a)) else none

unfoldable pub u16_to_le : ℕ → Bytes
u16_to_le n = n % 256 ∷ n / 256 % 256 ∷ []

unfoldable pub u32_to_le : ℕ → Bytes
u32_to_le n = n % 256 ∷ n / 256 % 256 ∷ n / 2 ^ 16 % 256 ∷ n / 2 ^ 24 % 256 ∷ []

unfoldable pub u64_to_le : ℕ → Bytes
unfolding u32_to_le
u64_to_le n = u32_to_le (n % u32_end) ++ u32_to_le (n / u32_end)

-- `<[u8; 2]>::try_from(slice).ok()` and `u16::from_le_bytes`.
unfoldable pub u16_from_le : Bytes → Option ℕ
u16_from_le (a ∷ b ∷ []) = some (a + 256 * b)
u16_from_le _ = none

unfoldable pub u32_from_le : Bytes → Option ℕ
u32_from_le (a ∷ b ∷ c ∷ d ∷ []) = some (a + 256 * b + 2 ^ 16 * c + 2 ^ 24 * d)
u32_from_le _ = none

unfoldable pub u64_from_le : Bytes → Option ℕ
u64_from_le (a ∷ b ∷ c ∷ d ∷ e ∷ f ∷ g ∷ h ∷ []) =
    some (a + 256 * b + 2 ^ 16 * c + 2 ^ 24 * d + 2 ^ 32 * (e + 256 * f + 2 ^ 16 * g + 2 ^ 24 * h))
u64_from_le _ = none
