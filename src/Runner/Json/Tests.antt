-- ===== src/Runner/Json/Tests.antt =====
-- tools/validation-runner/src/json.rs: the module's own tests, and the fields of an object.
use rp1_rust.Base.{◌≡◌, refl, arith, List, [], ◌∷◌}
use rp1_rust.Base.Result.{ok, err}
use rp1_rust.Runner.Json.{
  Value, Field, JsonError, quote, encode_object, new_object, parse_flat_object, parse_string,
}
use rp1_rust.Runner.Json.RoundTrip.{write_fields, parse_flat_object-encode_object}

-- `{"a\n":"\"","n":70}`
abbrev two_fields : List Field
two_fields = (97 ∷ 10 ∷ [], Value.text (34 ∷ [])) ∷ (110 ∷ [], Value.count 70) ∷ []

parse_flat_object-encode_object_example :
    parse_flat_object (encode_object (write_fields new_object two_fields)) ≡ ok two_fields
parse_flat_object-encode_object_example =
    parse_flat_object-encode_object two_fields (tt, (omega arith, tt))

-- A control character is a unicode escape of four digits.
quote-control : quote (1 ∷ []) ≡ 34 ∷ 92 ∷ 117 ∷ 48 ∷ 48 ∷ 48 ∷ 49 ∷ 34 ∷ []
unfolding quote
quote-control = refl

-- `"\u0041"`
parse_string-unicode : parse_string (34 ∷ 92 ∷ 117 ∷ 48 ∷ 48 ∷ 52 ∷ 49 ∷ 34 ∷ []) ≡ ok (65 ∷ [], [])
unfolding parse_string
parse_string-unicode = refl

-- `[1]`
parse_flat_object-list : parse_flat_object (91 ∷ 49 ∷ 93 ∷ []) ≡ err JsonError.not_object
unfolding parse_flat_object
parse_flat_object-list = refl

-- `{"a":1} x`: what stands behind the object is not read.
parse_flat_object-trailing :
    parse_flat_object (123 ∷ 34 ∷ 97 ∷ 34 ∷ 58 ∷ 49 ∷ 125 ∷ 32 ∷ 120 ∷ [])
    ≡ ok ((97 ∷ [], Value.count 1) ∷ [])
unfolding parse_flat_object
parse_flat_object-trailing = refl
