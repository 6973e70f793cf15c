-- ===== src/Runner/Json.antt =====
-- tools/validation-runner/src/json.rs: the JSON of the run records. The string reader takes one
-- character after the other; what it has begun to read, an escape or its four digits, is its mode.
pub mod Strings
pub mod Numbers
pub mod Fields
pub mod RoundTrip
pub mod Leaves
pub mod Ends
mod Tests
use rp1_rust.Base.{
  ℕ, zero, suc, ◌+◌, ◌-◌, ◌*◌, ◌/◌, ◌%◌, Bool, true, false, not, ◌&&◌, ◌||◌, Option, some, none,
  List, [], ◌∷◌, ◌++◌, ◌==◌, ltb, leb, if◌then◌else◌, length,
}
use rp1_rust.Base.Bytes.{u64_end}
use rp1_rust.Base.Chars.{is_whitespace}
use rp1_rust.Base.Result.{Result, ok, err, ◌>>=◌}
use rp1_rust.Runner.Text.{Text, same_text, to_decimal}

-- `char::from_digit(value, 16).unwrap_or('0')`
unfoldable pub hex_digit : ℕ → ℕ
hex_digit value = if ltb value 10 then 48 + value else if ltb value 16 then 87 + value else 48

-- The match of `quote` on one character.
unfoldable pub quote_char : ℕ → Text
unfolding hex_digit
quote_char c =
    if c == 34
    then 92 ∷ 34 ∷ []
    else if c == 92
    then 92 ∷ 92 ∷ []
    else if c == 10
    then 92 ∷ 110 ∷ []
    else if c == 13
    then 92 ∷ 114 ∷ []
    else if c == 9
    then 92 ∷ 116 ∷ []
    else if ltb c 32
    then 92 ∷ 117 ∷ 48 ∷ 48 ∷ hex_digit (c / 16) ∷ hex_digit (c % 16) ∷ []
    else c ∷ []

unfoldable pub quote_chars : Text → Text
unfolding quote_char
quote_chars [] = []
quote_chars (c ∷ cs) = quote_char c ++ quote_chars cs

unfoldable pub quote : Text → Text
unfolding quote_chars
quote value = 34 ∷ (quote_chars value ++ 34 ∷ [])

-- `Object`, by its body.
pub record Object : Type 0 where
  pub body : Text

abbrev pub new_object : Object
new_object = record { body = [] }

-- `Object::key`
unfoldable pub with_key : Object → Text → Object
unfolding quote
with_key object key =
    let start = if length object.body == 0 then object.body else object.body ++ 44 ∷ [] in
    record { body = start ++ (quote key ++ 58 ∷ []) }

unfoldable pub string : Object → Text → Text → Object
unfolding with_key
string object key value = record { body = (with_key object key).body ++ quote value }

unfoldable pub number : Object → Text → ℕ → Object
unfolding with_key to_decimal
number object key value = record { body = (with_key object key).body ++ to_decimal value }

-- `Object::encode`
unfoldable pub encode_object : Object → Text
encode_object object = 123 ∷ (object.body ++ 125 ∷ [])

pub data Value : Type 0 where
  text : Text → Value
  count : ℕ → Value

-- One for each message; `stuck` is no answer of the code: the fuel ran out.
pub data JsonError : Type 0 where
  not_object key_not_string no_value bad_value entry_not_ended : JsonError
  unopened unclosed bad_escape bad_digits not_character bad_number stuck : JsonError

-- What the string reader is in: a string, an escape, or the digits of a unicode escape, with how many
-- are still to come and the value of those read.
pub data Mode : Type 0 where
  plain escaped : Mode
  hex : ℕ → ℕ → Mode

-- What a character does to it.
pub data CharStep : Type 0 where
  closes : CharStep
  into : Mode → CharStep
  pushes : ℕ → CharStep
  refuses : JsonError → CharStep

-- `is_ascii_hexdigit`, with the digit's value.
unfoldable pub hex_value : ℕ → Option ℕ
hex_value c =
    if leb 48 c && leb c 57
    then some (c - 48)
    else if leb 97 c && leb c 102
    then some (c - 87)
    else if leb 65 c && leb c 70
    then some (c - 55)
    else none

-- `char::from_u32` of a value of four digits.
unfoldable pub from_code : ℕ → CharStep
from_code code =
    if leb 55296 code && leb code 57343
    then CharStep.refuses JsonError.not_character
    else CharStep.pushes code

-- The digits of `parse_unicode_escape`.
unfoldable pub hex_step : ℕ → ℕ → Option ℕ → CharStep
unfolding from_code
hex_step left value none = CharStep.refuses JsonError.bad_digits
hex_step zero value (some digit) = CharStep.refuses JsonError.bad_digits
hex_step (suc zero) value (some digit) = from_code (value * 16 + digit)
hex_step (suc (suc left)) value (some digit) =
    CharStep.into (Mode.hex (suc left) (value * 16 + digit))

-- The loop body of `parse_string`, `parse_escape` and `parse_unicode_escape`.
unfoldable pub char_step : Mode → ℕ → CharStep
unfolding hex_step hex_value
char_step Mode.plain c =
    if c == 34
    then CharStep.closes
    else if c == 92
    then CharStep.into Mode.escaped
    else CharStep.pushes c
char_step Mode.escaped c =
    if c == 34 || c == 92 || c == 47
    then CharStep.pushes c
    else if c == 110
    then CharStep.pushes 10
    else if c == 114
    then CharStep.pushes 13
    else if c == 116
    then CharStep.pushes 9
    else if c == 98
    then CharStep.pushes 8
    else if c == 102
    then CharStep.pushes 12
    else if c == 117
    then CharStep.into (Mode.hex 4 0)
    else CharStep.refuses JsonError.bad_escape
char_step (Mode.hex left value) c = hex_step left value (hex_value c)

-- The end of the text in a mode.
unfoldable pub at_end : Mode → JsonError
at_end Mode.plain = JsonError.unclosed
at_end Mode.escaped = JsonError.bad_escape
at_end (Mode.hex left value) = JsonError.bad_digits

abbrev pub push : ℕ → Result (Text × Text) JsonError → Result (Text × Text) JsonError
push c (err error) = err error
push c (ok (value, rest)) = ok (c ∷ value, rest)

unfoldable pub follow :
    CharStep → Text → (Mode → Result (Text × Text) JsonError) → Result (Text × Text) JsonError
follow CharStep.closes rest go = ok ([], rest)
follow (CharStep.into mode) rest go = go mode
follow (CharStep.pushes c) rest go = push c (go Mode.plain)
follow (CharStep.refuses error) rest go = err error

-- The value of a string behind its opening mark, and the text behind its closing one.
unfoldable pub parse_chars : Mode → Text → Result (Text × Text) JsonError
unfolding char_step follow at_end
parse_chars mode [] = err (at_end mode)
parse_chars mode (c ∷ cs) = follow (char_step mode c) cs (λ mode'. parse_chars mode' cs)

unfoldable pub parse_string : Text → Result (Text × Text) JsonError
unfolding parse_chars
parse_string [] = err JsonError.unopened
parse_string (c ∷ cs) = if c == 34 then parse_chars Mode.plain cs else err JsonError.unopened

unfoldable pub is_digit : ℕ → Bool
is_digit c = leb 48 c && leb c 57

-- The digits at the head of a text, and the rest.
unfoldable pub take_digits : Text → Text × Text
unfolding is_digit
take_digits [] = ([], [])
take_digits (c ∷ cs) =
    let rest = take_digits cs in if is_digit c then (c ∷ rest.0, rest.1) else ([], c ∷ cs)

unfoldable pub decimal_value : ℕ → Text → ℕ
decimal_value value [] = value
decimal_value value (c ∷ cs) = decimal_value (value * 10 + (c - 48)) cs

-- `digits.parse::<u64>()`, which no digits at all fail as well.
unfoldable pub parse_number : Text → Result (ℕ × Text) JsonError
unfolding take_digits decimal_value
parse_number input =
    let split = take_digits input in
    let value = decimal_value 0 split.0 in
    if not (length split.0 == 0) && ltb value u64_end
    then ok (value, split.1)
    else err JsonError.bad_number

unfoldable pub skip_whitespace : Text → Text
unfolding is_whitespace
skip_whitespace [] = []
skip_whitespace (c ∷ cs) = let rest = skip_whitespace cs in if is_whitespace c then rest else c ∷ cs

-- The value behind a colon, by the character that it begins with.
unfoldable pub parse_value : Text → Result (Value × Text) JsonError
unfolding parse_string parse_number is_digit
parse_value [] = err JsonError.bad_value
parse_value (c ∷ cs) =
    if c == 34
    then (parse_string (c ∷ cs) >>= λ read. ok (Value.text read.0, read.1))
    else if is_digit c
    then (parse_number (c ∷ cs) >>= λ read. ok (Value.count read.0, read.1))
    else err JsonError.bad_value

-- `characters.next() != Some(':')`
unfoldable pub after_colon : Text → Result Text JsonError
after_colon [] = err JsonError.no_value
after_colon (c ∷ cs) = if c == 58 then ok cs else err JsonError.no_value

-- `characters.peek() != Some(&'"')`
unfoldable pub parse_key : Text → Result (Text × Text) JsonError
unfolding parse_string
parse_key [] = err JsonError.key_not_string
parse_key (c ∷ cs) = if c == 34 then parse_string (c ∷ cs) else err JsonError.key_not_string

abbrev pub Field : Type 0
Field = Text × Value

-- The loop body up to the field that it pushes.
unfoldable pub parse_field : Text → Result (Field × Text) JsonError
unfolding parse_key after_colon parse_value skip_whitespace
parse_field input = do
  key ← parse_key (skip_whitespace input)
  value_at ← after_colon (skip_whitespace key.1)
  value ← parse_value (skip_whitespace value_at)
  ok ((key.0, value.0), value.1)

-- What follows a field: another one, or the end of the object.
unfoldable pub field_end :
    Field → Text → (Text → Result (List Field) JsonError) → Result (List Field) JsonError
field_end field [] go = err JsonError.entry_not_ended
field_end field (c ∷ cs) go =
    if c == 44
    then (go cs >>= λ fields. ok (field ∷ fields))
    else if c == 125
    then ok (field ∷ [])
    else err JsonError.entry_not_ended

unfoldable pub parse_fields : ℕ → Text → Result (List Field) JsonError
unfolding parse_field field_end skip_whitespace
parse_fields zero input = err JsonError.stuck
parse_fields (suc fuel) input =
    parse_field input >>= λ read. field_end read.0 (skip_whitespace read.1) (parse_fields fuel)

unfoldable pub trim_end : Text → Text
unfolding is_whitespace
trim_end [] = []
trim_end (c ∷ cs) =
    let rest = trim_end cs in if is_whitespace c && (length rest == 0) then [] else c ∷ rest

unfoldable pub trim : Text → Text
unfolding trim_end skip_whitespace
trim input = trim_end (skip_whitespace input)

-- Behind the opening brace.
unfoldable pub parse_members : Text → Result (List Field) JsonError
unfolding parse_fields
parse_members [] = parse_fields 1 []
parse_members (c ∷ cs) = if c == 125 then ok [] else parse_fields (suc (length (c ∷ cs))) (c ∷ cs)

unfoldable pub parse_object : Text → Result (List Field) JsonError
unfolding parse_members skip_whitespace
parse_object [] = err JsonError.not_object
parse_object (c ∷ cs) =
    if c == 123 then parse_members (skip_whitespace cs) else err JsonError.not_object

unfoldable pub parse_flat_object : Text → Result (List Field) JsonError
unfolding parse_object trim
parse_flat_object input = parse_object (trim input)

unfoldable pub string_field : List Field → Text → Option Text
unfolding same_text
string_field [] key = none
string_field ((name, Value.text value) ∷ fields) key =
    if same_text name key then some value else string_field fields key
string_field ((name, Value.count value) ∷ fields) key = string_field fields key

unfoldable pub number_field : List Field → Text → Option ℕ
unfolding same_text
number_field [] key = none
number_field ((name, Value.count value) ∷ fields) key =
    if same_text name key then some value else number_field fields key
number_field ((name, Value.text value) ∷ fields) key = number_field fields key
