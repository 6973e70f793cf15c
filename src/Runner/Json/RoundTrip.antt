-- ===== src/Runner/Json/RoundTrip.antt =====
-- tools/validation-runner/src/json.rs: `parse_flat_object` on what an `Object` of strings and numbers
-- encodes to.
use rp1_rust.Base.{
  suc, ◌≤◌, ◌≡◌, refl, sym, ap, ◌∙◌, false, List, [], ◌∷◌, ◌++◌, All, append_assoc, append-nil,
  length, length-append, ◌==◌, arith,
}
use rp1_rust.Base.Chars.{is_whitespace}
use rp1_rust.Base.Result.{ok}
use rp1_rust.Runner.Text.{Text, to_decimal, append-cons-not-nil, kept}
use rp1_rust.Runner.Json.{
  Object, Value, Field, quote, with_key, string, number, encode_object, new_object, skip_whitespace,
  trim_end, trim, parse_members, parse_object, parse_flat_object,
}
use rp1_rust.Runner.Json.Fields.{
  IsField, value_text, field_text, later_text, closing, parse_fields-text,
}

-- The call of `Object` that writes a field.
unfoldable pub write_field : Object → Field → Object
unfolding string number
write_field object (key, Value.text value) = string object key value
write_field object (key, Value.count value) = number object key value

unfoldable pub write_fields : Object → List Field → Object
unfolding write_field
write_fields object [] = object
write_fields object (field ∷ fields) = write_fields (write_field object field) fields

append-separated :
    (body key value : Text)
    → ((body ++ 44 ∷ []) ++ (key ++ 58 ∷ [])) ++ value ≡ body ++ (44 ∷ (key ++ (58 ∷ value)))
append-separated body key value =
    append_assoc (body ++ 44 ∷ []) (key ++ 58 ∷ []) value
    ∙ (append_assoc body (44 ∷ []) ((key ++ 58 ∷ []) ++ value)
        ∙ ap (λ (t : Text). body ++ (44 ∷ t)) (append_assoc key (58 ∷ []) value))

body-write_field :
    (object : Object) (field : Field)
    → (length object.body == 0) ≡ false
    → (write_field object field).body ≡ object.body ++ (44 ∷ field_text field)
unfolding write_field string number with_key
body-write_field object (key, Value.text value) h =
    rw h (append-separated object.body (quote key) (quote value))
body-write_field object (key, Value.count value) h =
    rw h (append-separated object.body (quote key) (to_decimal value))

body-write_field-first : (field : Field) → (write_field new_object field).body ≡ field_text field
unfolding write_field string number with_key
body-write_field-first (key, Value.text value) = append_assoc (quote key) (58 ∷ []) (quote value)
body-write_field-first (key, Value.count value) =
    append_assoc (quote key) (58 ∷ []) (to_decimal value)

body-write_fields :
    (fields : List Field) (object : Object)
    → (length object.body == 0) ≡ false
    → (write_fields object fields).body ≡ object.body ++ later_text fields
unfolding write_fields
body-write_fields [] object h = sym (append-nil object.body)
body-write_fields (field ∷ fields) object h =
    let same = body-write_field object field h in
    body-write_fields fields (write_field object field) (
      ap (λ (t : Text). length t == 0) same ∙ append-cons-not-nil object.body 44 (field_text field))
    ∙ (ap (λ (t : Text). t ++ later_text fields) same
        ∙ append_assoc object.body (44 ∷ field_text field) (later_text fields))

pub body-first :
    (field : Field) (fields : List Field)
    → (write_fields new_object (field ∷ fields)).body ≡ field_text field ++ later_text fields
unfolding write_fields
body-first field fields =
    let same = body-write_field-first field in
    body-write_fields fields (write_field new_object field) (
      ap (λ (t : Text). length t == 0) same
      ∙ append-cons-not-nil (quote field.0) 58 (value_text field.1))
    ∙ ap (λ (t : Text). t ++ later_text fields) same

length-later_text : (fields : List Field) → length fields ≤ length (later_text fields)
length-later_text [] = omega arith
length-later_text (field ∷ fields) =
    let rest = length-later_text fields in
    let longer = length-append (field_text field) (later_text fields) in omega arith

trim_end-brace : (xs : Text) → trim_end (xs ++ 125 ∷ []) ≡ xs ++ 125 ∷ []
unfolding trim_end is_whitespace
trim_end-brace [] = refl
trim_end-brace (x ∷ xs) =
    rw (trim_end-brace xs)
      (rw (append-cons-not-nil xs 125 []) (kept (is_whitespace x) (x ∷ (xs ++ 125 ∷ []))))

pub trim-braces : (xs : Text) → trim (123 ∷ (xs ++ 125 ∷ [])) ≡ 123 ∷ (xs ++ 125 ∷ [])
unfolding trim skip_whitespace is_whitespace
trim-braces xs = trim_end-brace (123 ∷ xs)

parse_members-text :
    (field : Field) (fields : List Field)
    → IsField field
    → All IsField fields
    → parse_members (skip_whitespace (field_text field ++ closing fields)) ≡ ok (field ∷ fields)
unfolding parse_members skip_whitespace is_whitespace quote
parse_members-text field fields k ks =
    let whole = length-append (field_text field) (closing fields) in
    let after = length-append (later_text fields) (125 ∷ []) in
    let enough = length-later_text fields in
    parse_fields-text fields (suc (length (field_text field ++ closing fields))) field (omega arith)
      k ks

-- What an object of strings and numbers of 64 bits encodes to is parsed back to its fields, in their
-- order, whatever characters the keys and the strings have.
pub parse_flat_object-encode_object :
    (fields : List Field)
    → All IsField fields
    → parse_flat_object (encode_object (write_fields new_object fields)) ≡ ok fields
unfolding parse_flat_object parse_object encode_object write_fields
parse_flat_object-encode_object [] h = refl
parse_flat_object-encode_object (field ∷ fields) h =
    ap (λ (t : Text). parse_object (trim (123 ∷ (t ++ 125 ∷ [])))) (body-first field fields)
    ∙ (ap parse_object (trim-braces (field_text field ++ later_text fields))
        ∙ (ap (λ (t : Text). parse_members (skip_whitespace t))
              (append_assoc (field_text field) (later_text fields) (125 ∷ []))
            ∙ parse_members-text field fields h.0 h.1))
