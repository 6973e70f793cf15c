-- ===== src/Protocol/Header/Length.antt =====
-- The 20 header bytes of src/protocol.rs.
use rp1_rust.Base.{◌≤◌, ◌<◌, ◌≡◌, some, none, ◌∷◌, ◌++◌, length, arith}
use rp1_rust.Base.Bytes.{Bytes}
use rp1_rust.Protocol.Frame.{RawHeader}
use rp1_rust.Protocol.Header.{parse_header}

-- Only an input shorter than a header has none.
pub parse_header-none : (input : Bytes) → parse_header input ≡ none → length input < 20
unfolding parse_header
parse_header-none
      (b0 ∷ b1 ∷ b2 ∷ b3 ∷ b4 ∷ b5 ∷ b6 ∷ b7 ∷ b8 ∷ b9 ∷ b10 ∷ b11 ∷ b12 ∷ b13 ∷ b14 ∷ b15 ∷ b16
        ∷ b17 ∷ b18 ∷ b19 ∷ tail)
      h =
    cc
parse_header-none _ h = omega arith

pub parse_header-some :
    (input : Bytes) {raw : RawHeader} → parse_header input ≡ some raw → 20 ≤ length input
unfolding parse_header
parse_header-some
      (b0 ∷ b1 ∷ b2 ∷ b3 ∷ b4 ∷ b5 ∷ b6 ∷ b7 ∷ b8 ∷ b9 ∷ b10 ∷ b11 ∷ b12 ∷ b13 ∷ b14 ∷ b15 ∷ b16
        ∷ b17 ∷ b18 ∷ b19 ∷ tail)
      h =
    omega arith
parse_header-some _ h = cc

-- Bytes behind a header do not change it.
pub parse_header-append :
    (input more : Bytes) {raw : RawHeader}
    → parse_header input ≡ some raw
    → parse_header (input ++ more) ≡ some raw
unfolding parse_header
parse_header-append
      (b0 ∷ b1 ∷ b2 ∷ b3 ∷ b4 ∷ b5 ∷ b6 ∷ b7 ∷ b8 ∷ b9 ∷ b10 ∷ b11 ∷ b12 ∷ b13 ∷ b14 ∷ b15 ∷ b16
        ∷ b17 ∷ b18 ∷ b19 ∷ tail)
      more h =
    h
parse_header-append _ more h = cc
