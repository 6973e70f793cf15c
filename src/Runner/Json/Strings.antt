-- ===== src/Runner/Json/Strings.antt =====
-- tools/validation-runner/src/json.rs: `parse_string` on what `quote` writes.
use rp1_rust.Base.{
  ℕ, ◌+◌, ◌*◌, ◌/◌, ◌%◌, ◌<◌, ◌≡◌, refl, ap, ◌∙◌, false, some, [], ◌∷◌, ◌++◌, append_assoc, ◌==◌,
  ltb, leb, arith, tests, Bool-cases, inl, inr,
}
use rp1_rust.Base.Result.{ok}
use rp1_rust.Runner.Text.{Text}
use rp1_rust.Runner.Json.{
  hex_digit, quote_char, quote_chars, quote, Mode, hex_value, from_code, hex_step, char_step, push,
  follow, parse_chars, parse_string,
}

hex_value-digit : (v : ℕ) → v < 16 → hex_value (hex_digit v) ≡ some v
unfolding hex_value hex_digit
hex_value-digit v h = ground arith

-- The two low digits of a control character.
hex-control :
    (c : ℕ) (more : Text)
    → c < 32
    → parse_chars (Mode.hex 2 0) (hex_digit (c / 16) ∷ hex_digit (c % 16) ∷ more)
      ≡ push c (parse_chars Mode.plain more)
unfolding parse_chars char_step follow hex_step from_code
hex-control c more h =
    let high = hex_value-digit (c / 16) (omega arith) in
    let low = hex_value-digit (c % 16) (omega arith) in
    let back : (0 + c / 16) * 16 + c % 16 ≡ c = omega arith in
    let small : leb 55296 c ≡ false = ground arith in rw high (rw low (rw back (rw small refl)))

-- What `quote` writes for a character is read as that character.
parse_chars-quote_char :
    (c : ℕ) (more : Text)
    → parse_chars Mode.plain (quote_char c ++ more) ≡ push c (parse_chars Mode.plain more)
unfolding parse_chars char_step follow quote_char
parse_chars-quote_char c more = elim (Bool-cases (c == 34)) [
  | inl e ↦ rw e (ap (λ (n : ℕ). push n (parse_chars Mode.plain more)) (omega tests))
  | inr mark ↦ elim (Bool-cases (c == 92)) [
    | inl e ↦ rw (mark, e) (ap (λ (n : ℕ). push n (parse_chars Mode.plain more)) (omega tests))
    | inr slash ↦ elim (Bool-cases (c == 10)) [
      | inl e ↦
          rw (mark, slash, e) (ap (λ (n : ℕ). push n (parse_chars Mode.plain more)) (omega tests))
      | inr line ↦ elim (Bool-cases (c == 13)) [
        | inl e ↦
            rw (mark, slash, line, e)
              (ap (λ (n : ℕ). push n (parse_chars Mode.plain more)) (omega tests))
        | inr return ↦ elim (Bool-cases (c == 9)) [
          | inl e ↦
              rw (mark, slash, line, return, e)
                (ap (λ (n : ℕ). push n (parse_chars Mode.plain more)) (omega tests))
          | inr tab ↦ elim (Bool-cases (ltb c 32)) [
            | inl control ↦
                rw (mark, slash, line, return, tab, control) (hex-control c more (omega tests))
            | inr other ↦ rw (mark, slash, line, return, tab, other) (rw (mark, slash) refl)
          ]
        ]
      ]
    ]
  ]
]

parse_chars-quote_chars :
    (value rest : Text)
    → parse_chars Mode.plain (quote_chars value ++ (34 ∷ rest)) ≡ ok (value, rest)
unfolding parse_chars char_step follow quote_chars
parse_chars-quote_chars [] rest = refl
parse_chars-quote_chars (c ∷ cs) rest =
    ap (parse_chars Mode.plain) (append_assoc (quote_char c) (quote_chars cs) (34 ∷ rest))
    ∙ parse_chars-quote_char c (quote_chars cs ++ (34 ∷ rest))
    ∙ ap (push c) (parse_chars-quote_chars cs rest)

-- `parse_string` reads back what `quote` wrote, and leaves what is behind it.
pub parse_string-quote : (value rest : Text) → parse_string (quote value ++ rest) ≡ ok (value, rest)
unfolding parse_string quote
parse_string-quote value rest =
    ap (parse_chars Mode.plain) (append_assoc (quote_chars value) (34 ∷ []) rest)
    ∙ parse_chars-quote_chars value rest
