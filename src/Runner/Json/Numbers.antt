-- ===== src/Runner/Json/Numbers.antt =====
-- tools/validation-runner/src/json.rs: `parse_number` on what `to_string` writes.
use rp1_rust.Base.{
  ℕ, zero, suc, ◌+◌, ◌-◌, ◌*◌, ◌/◌, ◌%◌, ◌<◌, ◌≡◌, refl, ap, ◌∙◌, true, false, ◌==◌, length, [],
  ◌∷◌, ◌++◌, All, ltb, arith, tests, Bool-cases, inl, inr,
}
use rp1_rust.Base.Bytes.{u64_end}
use rp1_rust.Base.Result.{ok}
use rp1_rust.Runner.Text.{Text, digits, to_decimal}
use rp1_rust.Runner.Json.{is_digit, take_digits, decimal_value, parse_number}

abbrev IsDigit : ℕ → Type 0
IsDigit c = is_digit c ≡ true

-- A text that does not begin with a digit.
abbrev pub IsPast : Text → Type 0
IsPast [] = Unit
IsPast (c ∷ cs) = is_digit c ≡ false

All-append : (xs ys : Text) → All IsDigit xs → All IsDigit ys → All IsDigit (xs ++ ys)
All-append [] ys h k = k
All-append (x ∷ xs) ys h k = (h.0, All-append xs ys h.1 k)

digits-IsDigit : (fuel n : ℕ) → All IsDigit (digits fuel n)
unfolding digits is_digit
digits-IsDigit zero n = tt
digits-IsDigit (suc fuel) n = elim (Bool-cases (ltb n 10)) [
  | inl small ↦ rw (small, digits) (ground arith, tt)
  | inr large ↦
      rw (large, digits)
        (All-append (digits fuel (n / 10)) ((48 + n % 10) ∷ []) (digits-IsDigit fuel (n / 10))
          (ground arith, tt))
]

take_digits-append :
    (ds rest : Text) → All IsDigit ds → IsPast rest → take_digits (ds ++ rest) ≡ (ds, rest)
unfolding take_digits
take_digits-append [] [] h past = refl
take_digits-append [] (c ∷ cs) h past = rw past refl
take_digits-append (d ∷ ds) rest h past = rw (h.0, take_digits-append ds rest h.1 past) refl

decimal_value-snoc :
    (value : ℕ) (ds : Text) (d : ℕ)
    → decimal_value value (ds ++ (d ∷ [])) ≡ decimal_value value ds * 10 + (d - 48)
unfolding decimal_value
decimal_value-snoc value [] d = refl
decimal_value-snoc value (c ∷ cs) d = decimal_value-snoc (value * 10 + (c - 48)) cs d

decimal_value-digits : (fuel n : ℕ) → n < fuel → decimal_value 0 (digits fuel n) ≡ n
unfolding decimal_value digits
decimal_value-digits zero n h = absurd (omega arith)
decimal_value-digits (suc fuel) n h = elim (Bool-cases (ltb n 10)) [
  | inl small ↦ rw (small, digits) (omega arith)
  | inr large ↦
      rw (large, digits)
        (decimal_value-snoc 0 (digits fuel (n / 10)) (48 + n % 10)
          ∙ omega (tests, decimal_value-digits fuel (n / 10) (omega tests)))
]

abbrev Begins : Text → Type 0
Begins input = (c : ℕ) × (cs : Text) × (input ≡ c ∷ cs) × (is_digit c ≡ true)

Begins-append : (xs ys : Text) → Begins xs → Begins (xs ++ ys)
Begins-append xs ys (c, cs, e, d) = (c, cs ++ ys, ap (λ (t : Text). t ++ ys) e, d)

digits-Begins : (fuel n : ℕ) → n < fuel → Begins (digits fuel n)
unfolding digits is_digit
digits-Begins zero n h = absurd (omega arith)
digits-Begins (suc fuel) n h = elim (Bool-cases (ltb n 10)) [
  | inl small ↦ rw (small, digits) (48 + n, [], refl, ground arith)
  | inr large ↦
      rw (large, digits)
        (Begins-append (digits fuel (n / 10)) ((48 + n % 10) ∷ [])
          (digits-Begins fuel (n / 10) (omega tests)))
]

digits-not-nil : (fuel n : ℕ) → n < fuel → (length (digits fuel n) == 0) ≡ false
digits-not-nil fuel n h =
    let (c, cs, same, digit) = digits-Begins fuel n h in rw same (ground arith)

-- `parse_number` reads back the digits of a number of 64 bits, up to what is no digit.
pub parse_number-to_decimal :
    (n : ℕ) (rest : Text)
    → n < u64_end
    → IsPast rest
    → parse_number (to_decimal n ++ rest) ≡ ok (n, rest)
unfolding parse_number to_decimal
parse_number-to_decimal n rest fits past =
    rw (take_digits-append (digits (suc n) n) rest (digits-IsDigit (suc n) n) past) (
      rw (digits-not-nil (suc n) n (omega arith))
        (rw (decimal_value-digits (suc n) n (omega arith)) (ground arith)))

-- A number begins with a digit.
pub to_decimal-Begins :
    (n : ℕ) (rest : Text)
    → (c : ℕ) × (cs : Text) × (to_decimal n ++ rest ≡ c ∷ cs) × (is_digit c ≡ true)
unfolding to_decimal
to_decimal-Begins n rest = Begins-append (to_decimal n) rest (digits-Begins (suc n) n (omega arith))
