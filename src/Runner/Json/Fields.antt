-- ===== src/Runner/Json/Fields.antt =====
-- tools/validation-runner/src/json.rs: `parse_flat_object` on the text of a list of fields, which its
-- loop reads one after the other.
use rp1_rust.Base.{
  ℕ, zero, suc, ◌<◌, ◌≡◌, ◌⊎◌, refl, sym, ap, ◌∙◌, Bool, true, false, List, [], ◌∷◌, ◌++◌, All,
  append_assoc, length, if◌then◌else◌, ◌==◌, arith, tests, inl, inr,
}
use rp1_rust.Base.Bytes.{u64_end}
use rp1_rust.Base.Chars.{is_whitespace}
use rp1_rust.Base.Result.{Result, ok, err, ◌>>=◌}
use rp1_rust.Runner.Text.{Text, to_decimal}
use rp1_rust.Runner.Json.{
  Value, Field, JsonError, quote, is_digit, skip_whitespace, parse_number, parse_value, after_colon,
  parse_key, parse_field, field_end, parse_fields,
}
use rp1_rust.Runner.Json.Strings.{parse_string-quote}
use rp1_rust.Runner.Json.Numbers.{IsPast, parse_number-to_decimal, to_decimal-Begins}

-- A number that a `u64` holds.
abbrev pub IsField : Field → Type 0
IsField (key, Value.text value) = Unit
IsField (key, Value.count value) = value < u64_end

abbrev pub value_text : Value → Text
value_text (Value.text value) = quote value
value_text (Value.count value) = to_decimal value

abbrev pub field_text : Field → Text
field_text (key, value) = quote key ++ (58 ∷ value_text value)

abbrev pub later_text : List Field → Text
later_text [] = []
later_text (field ∷ fields) = 44 ∷ (field_text field ++ later_text fields)

-- What ends a field: a comma or the closing brace.
abbrev pub IsEnd : Text → Type 0
IsEnd [] = ⊥
IsEnd (c ∷ cs) = (c == 44 ≡ true) ⊎ (c == 125 ≡ true)

skip-quote : (value rest : Text) → skip_whitespace (quote value ++ rest) ≡ quote value ++ rest
unfolding skip_whitespace quote is_whitespace
skip-quote value rest = refl

parse_value-text :
    (value rest : Text) → parse_value (quote value ++ rest) ≡ ok (Value.text value, rest)
unfolding parse_value quote
parse_value-text value rest = rw (parse_string-quote value rest) refl

digit-not-space : (c : ℕ) → is_digit c ≡ true → (is_whitespace c ≡ false) × ((c == 34) ≡ false)
unfolding is_digit is_whitespace
digit-not-space c h = ground arith

end-IsPast : (rest : Text) → IsEnd rest → IsPast rest
unfolding is_digit
end-IsPast [] h = absurd h
end-IsPast (c ∷ cs) (inl comma) = ground arith
end-IsPast (c ∷ cs) (inr brace) = ground arith

skip-end : (rest : Text) → IsEnd rest → skip_whitespace rest ≡ rest
unfolding skip_whitespace is_whitespace
skip-end [] h = absurd h
skip-end (c ∷ cs) (inl comma) = let same : c ≡ 44 = omega tests in rw same refl
skip-end (c ∷ cs) (inr brace) = let same : c ≡ 125 = omega tests in rw same refl

bind-read :
    {A B : Type 0} {r : Result A JsonError} {x : A} (next : A → Result B JsonError)
    → r ≡ ok x
    → (r >>= next) ≡ next x
bind-read next e = ap (λ (r' : Result _ JsonError). r' >>= next) e

parse_value-digit :
    (c : ℕ) (cs : Text)
    → is_digit c ≡ true
    → parse_value (skip_whitespace (c ∷ cs))
      ≡ (parse_number (c ∷ cs) >>= λ read. ok (Value.count read.0, read.1))
unfolding skip_whitespace parse_value
parse_value-digit c cs digit =
    let (space, mark) = digit-not-space c digit in
    rw space (
      rw mark (
        ap
          (λ (b : Bool).
            if b
            then (parse_number (c ∷ cs) >>= λ read. ok (Value.count read.0, read.1))
            else err JsonError.bad_value)
          digit))

parse_value-count :
    (value : ℕ) (rest : Text)
    → value < u64_end
    → IsEnd rest
    → parse_value (skip_whitespace (to_decimal value ++ rest)) ≡ ok (Value.count value, rest)
parse_value-count value rest h e =
    let (c, cs, same, digit) = to_decimal-Begins value rest in
    let read = parse_number-to_decimal value rest h (end-IsPast rest e) in
    ap (λ (t : Text). parse_value (skip_whitespace t)) same
    ∙ (parse_value-digit c cs digit
        ∙ bind-read (λ r. ok (Value.count r.0, r.1)) (ap parse_number (sym same) ∙ read))

-- Behind the colon.
value-read :
    (key : Text) (value : Value) (rest : Text)
    → IsField (key, value)
    → IsEnd rest
    → parse_value (skip_whitespace (value_text value ++ rest)) ≡ ok (value, rest)
value-read key (Value.text value) rest h e =
    ap parse_value (skip-quote value rest) ∙ parse_value-text value rest
value-read key (Value.count value) rest h e = parse_value-count value rest h e

key-read : (key rest : Text) → parse_key (skip_whitespace (quote key ++ rest)) ≡ ok (key, rest)
unfolding parse_key quote skip_whitespace is_whitespace
key-read key rest = parse_string-quote key rest

colon-read : (rest : Text) → after_colon (skip_whitespace (58 ∷ rest)) ≡ ok rest
unfolding after_colon skip_whitespace is_whitespace
colon-read rest = refl

parse_field-text :
    (key : Text) (value : Value) (rest : Text)
    → IsField (key, value)
    → IsEnd rest
    → parse_field (field_text (key, value) ++ rest) ≡ ok ((key, value), rest)
unfolding parse_field
parse_field-text key value rest h e =
    let behind = 58 ∷ (value_text value ++ rest) in
    ap parse_field (append_assoc (quote key) (58 ∷ value_text value) rest)
    ∙ (bind-read
          (λ read. after_colon (skip_whitespace read.1) >>= λ at.
            parse_value (skip_whitespace at) >>= λ v. ok ((read.0, v.0), v.1))
          (key-read key behind)
        ∙ (bind-read (λ at. parse_value (skip_whitespace at) >>= λ v. ok ((key, v.0), v.1))
              (colon-read (value_text value ++ rest))
            ∙ bind-read (λ v. ok ((key, v.0), v.1)) (value-read key value rest h e)))

-- What stands behind a field and ends the object.
abbrev pub closing : List Field → Text
closing fields = later_text fields ++ 125 ∷ []

pub closing-IsEnd : (fields : List Field) → IsEnd (closing fields)
closing-IsEnd [] = inr refl
closing-IsEnd (field ∷ fields) = inl refl

field_end-comma :
    (field : Field) (cs : Text) (go : Text → Result (List Field) JsonError)
    → field_end field (44 ∷ cs) go ≡ (go cs >>= λ fields. ok (field ∷ fields))
unfolding field_end
field_end-comma field cs go = refl

pub parse_fields-text :
    (fields : List Field) (fuel : ℕ) (field : Field)
    → length fields < fuel
    → IsField field
    → All IsField fields
    → parse_fields fuel (field_text field ++ closing fields) ≡ ok (field ∷ fields)
unfolding parse_fields
parse_fields-text fields zero field h k ks = absurd (omega arith)
parse_fields-text [] (suc fuel) field h k ks =
    bind-read (λ read. field_end read.0 (skip_whitespace read.1) (parse_fields fuel))
      (parse_field-text field.0 field.1 (closing []) k (closing-IsEnd []))
parse_fields-text (next ∷ fields) (suc fuel) field h k ks =
    bind-read (λ read. field_end read.0 (skip_whitespace read.1) (parse_fields fuel))
      (parse_field-text field.0 field.1 (closing (next ∷ fields)) k (closing-IsEnd (next ∷ fields)))
    ∙ (ap (λ (t : Text). field_end field t (parse_fields fuel))
          (skip-end (closing (next ∷ fields)) (closing-IsEnd (next ∷ fields)))
        ∙ (field_end-comma field ((field_text next ++ later_text fields) ++ 125 ∷ [])
              (parse_fields fuel)
            ∙ bind-read (λ more. ok (field ∷ more))
                (ap (parse_fields fuel)
                    (append_assoc (field_text next) (later_text fields) (125 ∷ []))
                  ∙ parse_fields-text fields fuel next (omega arith) ks.0 ks.1)))
