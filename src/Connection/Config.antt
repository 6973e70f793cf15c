-- ===== src/Connection/Config.antt =====
-- src/connection/mod.rs: the configuration of a connection, its defaults and its validation. The
-- endpoint is the list of its code points.
use rp1_rust.Base.{
  ℕ, ◌≤◌, ◌≡◌, ◌↔◌, refl, ap, inl, inr, Bool-cases, ◌++◌, Bool, true, false, ◌&&◌, List, [], ◌∷◌,
  ltb, arith,
}
use rp1_rust.Base.Chars.{is_whitespace}
use rp1_rust.Base.Result.{Result, ok, ◌>>◌, fail_if}
use rp1_rust.Protocol.Types.{minimum_negotiated_frame_size, minimum_negotiated_metadata_size}
use rp1_rust.Connection.{Caps, ConnectionConfigError}

abbrev pub minimum_maximum_in_flight : ℕ
minimum_maximum_in_flight = 1

pub record ConnectionConfig : Type 0 where
  pub endpoint : List ℕ
  pub desired_maximum_frame_size : ℕ
  pub caps : Caps
  pub maximum_in_flight : ℕ

-- `ConnectionConfig::new`, with the four `DEFAULT_` constants.
abbrev pub new_config : List ℕ → ConnectionConfig
new_config endpoint = record {
  endpoint = endpoint;
  desired_maximum_frame_size = 65536;
  caps = record {
    local_maximum_frame_size = minimum_negotiated_frame_size;
    local_maximum_metadata_size = minimum_negotiated_metadata_size;
  };
  maximum_in_flight = 64;
}

-- `ConnectionConfig::default`: the code points of `127.0.0.1:6379`.
abbrev pub default_config : ConnectionConfig
default_config =
    new_config (49 ∷ 50 ∷ 55 ∷ 46 ∷ 48 ∷ 46 ∷ 48 ∷ 46 ∷ 49 ∷ 58 ∷ 54 ∷ 51 ∷ 55 ∷ 57 ∷ [])

-- The four setters.
abbrev pub set_desired_maximum_frame_size : ConnectionConfig → ℕ → ConnectionConfig
set_desired_maximum_frame_size config value = record config { desired_maximum_frame_size = value }

abbrev pub set_local_maximum_frame_size : ConnectionConfig → ℕ → ConnectionConfig
set_local_maximum_frame_size config value = record config {
  caps = record config.caps { local_maximum_frame_size = value };
}

abbrev pub set_local_maximum_metadata_size : ConnectionConfig → ℕ → ConnectionConfig
set_local_maximum_metadata_size config value = record config {
  caps = record config.caps { local_maximum_metadata_size = value };
}

abbrev pub set_maximum_in_flight : ConnectionConfig → ℕ → ConnectionConfig
set_maximum_in_flight config value = record config { maximum_in_flight = value }

-- `endpoint.trim().is_empty()`
unfoldable pub is_blank : List ℕ → Bool
unfolding is_whitespace
is_blank [] = true
is_blank (c ∷ cs) = is_whitespace c && is_blank cs

-- `ConnectionConfig::validate`
unfoldable pub validate : ConnectionConfig → Result (Unit {0}) ConnectionConfigError
unfolding is_blank
validate config = do
  fail_if (is_blank config.endpoint) ConnectionConfigError.empty_endpoint
  fail_if (ltb config.desired_maximum_frame_size minimum_negotiated_frame_size)
      (ConnectionConfigError.frame_size_below_floor config.desired_maximum_frame_size)
  fail_if (ltb config.caps.local_maximum_frame_size minimum_negotiated_frame_size)
      (ConnectionConfigError.local_frame_size_below_floor config.caps.local_maximum_frame_size)
  fail_if (ltb config.caps.local_maximum_metadata_size minimum_negotiated_metadata_size) (
      ConnectionConfigError.local_metadata_size_below_floor config.caps.local_maximum_metadata_size)
  fail_if (ltb config.maximum_in_flight minimum_maximum_in_flight)
      (ConnectionConfigError.in_flight_bound_below_minimum config.maximum_in_flight)

-- A text that has a character which is no white space.
abbrev pub IsNamed : List ℕ → Type 0
IsNamed text =
    (front : List ℕ) × (c : ℕ) × (back : List ℕ) × (text ≡ front ++ c ∷ back)
    × (is_whitespace c ≡ false)

is_blank-IsNamed : (text : List ℕ) → is_blank text ≡ false → IsNamed text
unfolding is_blank
is_blank-IsNamed [] h = cc
is_blank-IsNamed (c ∷ cs) h = elim (Bool-cases (is_whitespace c)) [
  | inl white ↦
      let (front, d, back, same, named) = is_blank-IsNamed cs (rw white at h) in
      (c ∷ front, d, back, ap (λ (t : List ℕ). c ∷ t) same, named)
  | inr other ↦ ([], c, cs, refl, other)
]

append-is_blank :
    (front : List ℕ) (c : ℕ) (back : List ℕ)
    → is_whitespace c ≡ false
    → is_blank (front ++ c ∷ back) ≡ false
unfolding is_blank
append-is_blank [] c back h = rw h refl
append-is_blank (d ∷ front) c back h = elim (Bool-cases (is_whitespace d)) [
  | inl white ↦ rw white (append-is_blank front c back h)
  | inr other ↦ rw other refl
]

IsNamed-is_blank : (text : List ℕ) → IsNamed text → is_blank text ≡ false
IsNamed-is_blank text (front, c, back, same, other) = rw same (append-is_blank front c back other)

-- What a valid configuration is.
pub record IsConfig (config : ConnectionConfig) : Type 0 where
  pub named : IsNamed config.endpoint
  pub frame_floor : 65536 ≤ config.desired_maximum_frame_size
  pub local_frame_floor : 65536 ≤ config.caps.local_maximum_frame_size
  pub local_metadata_floor : 4096 ≤ config.caps.local_maximum_metadata_size
  pub one_in_flight : 1 ≤ config.maximum_in_flight

-- What the tests of `validate` come to.
record Passed (config : ConnectionConfig) : Type 0 where
  named : is_blank config.endpoint ≡ false
  frame_floor : 65536 ≤ config.desired_maximum_frame_size
  local_frame_floor : 65536 ≤ config.caps.local_maximum_frame_size
  local_metadata_floor : 4096 ≤ config.caps.local_maximum_metadata_size
  one_in_flight : 1 ≤ config.maximum_in_flight

validate-Passed : (config : ConnectionConfig) → validate config ≡ ok tt → Passed config
unfolding validate
validate-Passed config accepted = ground arith

Passed-validate : (config : ConnectionConfig) → Passed config → validate config ≡ ok tt
unfolding validate
Passed-validate config passed = ground arith

-- `validate` accepts a configuration just if its endpoint has a character that is no white space,
-- the frame size it proposes and its local caps are not below 65536 and 4096 bytes, and it admits a
-- request.
pub validate-exact : (config : ConnectionConfig) → (validate config ≡ ok tt) ↔ IsConfig config
validate-exact config = (
  λ accepted.
      let passed = validate-Passed config accepted in
      record {
        named = is_blank-IsNamed config.endpoint passed.named;
        frame_floor = passed.frame_floor;
        local_frame_floor = passed.local_frame_floor;
        local_metadata_floor = passed.local_metadata_floor;
        one_in_flight = passed.one_in_flight;
      },
  λ valid. Passed-validate config (record {
    named = IsNamed-is_blank config.endpoint valid.named;
    frame_floor = valid.frame_floor;
    local_frame_floor = valid.local_frame_floor;
    local_metadata_floor = valid.local_metadata_floor;
    one_in_flight = valid.one_in_flight;
  }),
)
