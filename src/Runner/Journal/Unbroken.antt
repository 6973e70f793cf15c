-- ===== src/Runner/Journal/Unbroken.antt =====
-- tools/validation-runner/src/json.rs: an encoded object has no newline in it.
use rp1_rust.Base.{
  ℕ, zero, suc, ◌+◌, ◌/◌, ◌%◌, ◌≡◌, refl, false, List, [], ◌∷◌, ◌==◌, ltb, arith, Bool-cases, inl,
  inr,
}
use rp1_rust.Runner.Text.{Text, digits, to_decimal}
use rp1_rust.Runner.Json.{hex_digit, quote_char, quote_chars, quote, Value, Field, new_object}
use rp1_rust.Runner.Json.Fields.{value_text, field_text, later_text}
use rp1_rust.Runner.Json.RoundTrip.{write_fields, body-first}
use rp1_rust.Runner.Journal.Lines.{IsUnbroken, append-IsUnbroken}

hex_digit-unbroken : (v : ℕ) → (hex_digit v == 10) ≡ false
unfolding hex_digit
hex_digit-unbroken v = ground arith

quote_char-IsUnbroken : (c : ℕ) → IsUnbroken (quote_char c)
unfolding quote_char
quote_char-IsUnbroken c = elim (Bool-cases (c == 34)) [
  | inl e ↦ rw e (refl, (refl, tt))
  | inr mark ↦ elim (Bool-cases (c == 92)) [
    | inl e ↦ rw (mark, e) (refl, (refl, tt))
    | inr slash ↦ elim (Bool-cases (c == 10)) [
      | inl e ↦ rw (mark, slash, e) (refl, (refl, tt))
      | inr line ↦ elim (Bool-cases (c == 13)) [
        | inl e ↦ rw (mark, slash, line, e) (refl, (refl, tt))
        | inr return ↦ elim (Bool-cases (c == 9)) [
          | inl e ↦ rw (mark, slash, line, return, e) (refl, (refl, tt))
          | inr tab ↦ elim (Bool-cases (ltb c 32)) [
            | inl control ↦
                rw (mark, slash, line, return, tab, control)
                  (
                    refl,
                    (
                      refl,
                      (
                        refl,
                        (refl, (hex_digit-unbroken (c / 16), (hex_digit-unbroken (c % 16), tt))),
                      ),
                    ),
                  )
            | inr other ↦ rw (mark, slash, line, return, tab, other) (line, tt)
          ]
        ]
      ]
    ]
  ]
]

quote_chars-IsUnbroken : (value : Text) → IsUnbroken (quote_chars value)
unfolding quote_chars
quote_chars-IsUnbroken [] = tt
quote_chars-IsUnbroken (c ∷ cs) =
    append-IsUnbroken (quote_char c) (quote_chars cs) (quote_char-IsUnbroken c)
      (quote_chars-IsUnbroken cs)

quote-IsUnbroken : (value : Text) → IsUnbroken (quote value)
unfolding quote
quote-IsUnbroken value = (
  refl,
  append-IsUnbroken (quote_chars value) (34 ∷ []) (quote_chars-IsUnbroken value) (refl, tt),
)

digits-IsUnbroken : (fuel n : ℕ) → IsUnbroken (digits fuel n)
unfolding digits
digits-IsUnbroken zero n = tt
digits-IsUnbroken (suc fuel) n = elim (Bool-cases (ltb n 10)) [
  | inl small ↦ rw (small, digits) (ground arith, tt)
  | inr large ↦
      rw (large, digits)
        (append-IsUnbroken (digits fuel (n / 10)) ((48 + n % 10) ∷ [])
          (digits-IsUnbroken fuel (n / 10)) (ground arith, tt))
]

value_text-IsUnbroken : (value : Value) → IsUnbroken (value_text value)
unfolding to_decimal
value_text-IsUnbroken (Value.text value) = quote-IsUnbroken value
value_text-IsUnbroken (Value.count value) = digits-IsUnbroken (suc value) value

field_text-IsUnbroken : (field : Field) → IsUnbroken (field_text field)
field_text-IsUnbroken (key, value) =
    append-IsUnbroken (quote key) (58 ∷ value_text value) (quote-IsUnbroken key)
      (refl, value_text-IsUnbroken value)

later_text-IsUnbroken : (fields : List Field) → IsUnbroken (later_text fields)
later_text-IsUnbroken [] = tt
later_text-IsUnbroken (field ∷ fields) = (
  refl,
  append-IsUnbroken (field_text field) (later_text fields) (field_text-IsUnbroken field)
      (later_text-IsUnbroken fields),
)

pub body-IsUnbroken :
    (field : Field) (fields : List Field)
    → IsUnbroken (123 ∷ (write_fields new_object (field ∷ fields)).body)
body-IsUnbroken field fields = rw (body-first field fields) (
  refl,
  append-IsUnbroken (field_text field) (later_text fields) (field_text-IsUnbroken field)
      (later_text-IsUnbroken fields),
)
