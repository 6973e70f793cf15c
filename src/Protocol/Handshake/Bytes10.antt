-- ===== src/Protocol/Handshake/Bytes10.antt =====
-- The head of a handshake payload, taken byte by byte.
use rp1_rust.Base.{ℕ, ◌≤◌, ◌<◌, ◌+◌, ◌*◌, ◌%◌, ◌/◌, ◌^◌, ◌≡◌, refl, [], ◌∷◌, length, arith}
use rp1_rust.Base.Bytes.{Bytes, u16_end, u32_end, u16_to_le, u32_to_le}

pub record Head (payload : Bytes) : Type 0 where
  pub a : ℕ
  pub b : ℕ
  pub c : ℕ
  pub d : ℕ
  pub e : ℕ
  pub f : ℕ
  pub g : ℕ
  pub h : ℕ
  pub i : ℕ
  pub j : ℕ
  pub tail : Bytes
  pub whole : payload ≡ a ∷ b ∷ c ∷ d ∷ e ∷ f ∷ g ∷ h ∷ i ∷ j ∷ tail

-- A payload with ten bytes at least starts with ten bytes.
pub Head-of : (payload : Bytes) → 10 ≤ length payload → Head payload
Head-of (a ∷ b ∷ c ∷ d ∷ e ∷ f ∷ g ∷ h ∷ i ∷ j ∷ tail) long = record {
  a = a;
  b = b;
  c = c;
  d = d;
  e = e;
  f = f;
  g = g;
  h = h;
  i = i;
  j = j;
  tail = tail;
  whole = refl;
}
Head-of _ long = absurd (omega arith)

-- The bytes of a number are those that spell it.
pub u16_to_le-from : (a b : ℕ) → a < 256 → b < 256 → u16_to_le (a + 256 * b) ≡ a ∷ b ∷ []
unfolding u16_to_le
u16_to_le-from a b ha hb = ground arith

pub u32_to_le-from :
    (a b c d : ℕ)
    → a < 256
    → b < 256
    → c < 256
    → d < 256
    → u32_to_le (a + 256 * b + 2 ^ 16 * c + 2 ^ 24 * d) ≡ a ∷ b ∷ c ∷ d ∷ []
unfolding u32_to_le
u32_to_le-from a b c d ha hb hc hd = ground arith

pub u16_value : (n : ℕ) → n < u16_end → n % 256 + 256 * (n / 256 % 256) ≡ n
u16_value n h = omega arith

pub u32_value :
    (n : ℕ)
    → n < u32_end
    → n % 256 + 256 * (n / 256 % 256) + 2 ^ 16 * (n / 2 ^ 16 % 256) + 2 ^ 24 * (n / 2 ^ 24 % 256)
      ≡ n
u32_value n h = omega arith
