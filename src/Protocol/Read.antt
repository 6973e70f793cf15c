-- ===== src/Protocol/Read.antt =====
-- The little-endian reads at the end of src/protocol.rs.
use rp1_rust.Base.{ℕ, Option}
use rp1_rust.Base.Bytes.{Bytes, checked_add, get_range, u16_from_le, u32_from_le, u64_from_le}
use rp1_rust.Base.Maybe.{◌>>=◌}

unfoldable pub read_u16_le : Bytes → ℕ → Option ℕ
unfolding checked_add get_range u16_from_le
read_u16_le bytes offset = do
  end ← checked_add offset 2
  slice ← get_range bytes offset end
  u16_from_le slice

unfoldable pub read_u32_le : Bytes → ℕ → Option ℕ
unfolding checked_add get_range u32_from_le
read_u32_le bytes offset = do
  end ← checked_add offset 4
  slice ← get_range bytes offset end
  u32_from_le slice

unfoldable pub read_u64_le : Bytes → ℕ → Option ℕ
unfolding checked_add get_range u64_from_le
read_u64_le bytes offset = do
  end ← checked_add offset 8
  slice ← get_range bytes offset end
  u64_from_le slice
