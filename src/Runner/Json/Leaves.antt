-- ===== src/Runner/Json/Leaves.antt =====
-- tools/validation-runner/src/json.rs: what the parts of the parser take from the text.
use rp1_rust.Base.{
  ℕ, zero, suc, ◌+◌, ◌*◌, ◌||◌, leb, Option, some, none, ◌≤◌, ◌≢◌, Bool, true, false, ◌&&◌, [], ◌∷◌,
  length, if◌then◌else◌, ◌==◌, arith, Bool-cases, inl, inr,
}
use rp1_rust.Base.Chars.{is_whitespace}
use rp1_rust.Base.Result.{Result, ok, err, ◌>>=◌}
use rp1_rust.Runner.Text.{Text}
use rp1_rust.Runner.Json.{
  Value, Field, JsonError, Mode, CharStep, hex_value, from_code, hex_step, char_step, at_end, push,
  follow, parse_chars, parse_string, is_digit, take_digits, parse_number, skip_whitespace,
  parse_value, after_colon, parse_key, parse_field,
}

-- What a part of the parser makes of a text: it leaves at most `bound` characters, or fails with an
-- error of the code.
pub data Leaves {A : Type 0} (bound : ℕ) : Result (A × Text) JsonError → Type 0 where
  leaves : (a : A) (rest : Text) → length rest ≤ bound → Leaves bound (ok (a, rest))
  fails : (e : JsonError) → e ≢ JsonError.stuck → Leaves bound (err e)

Leaves-more :
    {A : Type 0} {r : Result (A × Text) JsonError} (small large : ℕ)
    → small ≤ large
    → Leaves small r
    → Leaves large r
Leaves-more small large h (leaves a rest k) = leaves a rest (omega arith)
Leaves-more small large h (fails e k) = fails e k

Leaves-bind :
    {A B : Type 0} (bound : ℕ) (r : Result (A × Text) JsonError)
    (next : A × Text → Result (B × Text) JsonError)
    → Leaves bound r
    → ((a : A) (rest : Text) → length rest ≤ bound → Leaves bound (next (a, rest)))
    → Leaves bound (r >>= next)
Leaves-bind bound (ok _) next (leaves a rest k) go = go a rest k
Leaves-bind bound (err _) next (fails e k) go = fails e k

at_end-known : (mode : Mode) → at_end mode ≢ JsonError.stuck
unfolding at_end
at_end-known Mode.plain h = cc
at_end-known Mode.escaped h = cc
at_end-known (Mode.hex left value) h = cc

Leaves-push :
    (bound c : ℕ) (r : Result (Text × Text) JsonError) → Leaves bound r → Leaves bound (push c r)
Leaves-push bound c (ok _) (leaves a rest k) = leaves (c ∷ a) rest k
Leaves-push bound c (err _) (fails e k) = fails e k

-- A step of the string reader that is no refusal with `stuck`.
data IsKnown : CharStep → Type 0 where
  closed : IsKnown CharStep.closes
  moved : (mode : Mode) → IsKnown (CharStep.into mode)
  pushed : (c : ℕ) → IsKnown (CharStep.pushes c)
  refused : (e : JsonError) → e ≢ JsonError.stuck → IsKnown (CharStep.refuses e)

follow-Leaves :
    (cs : Text) (step : CharStep) (go : Mode → Result (Text × Text) JsonError)
    → IsKnown step
    → ((mode : Mode) → Leaves (length cs) (go mode))
    → Leaves (length cs) (follow step cs go)
unfolding follow
follow-Leaves cs CharStep.closes go closed h = leaves [] cs (omega arith)
follow-Leaves cs (CharStep.into _) go (moved mode) h = h mode
follow-Leaves cs (CharStep.pushes _) go (pushed c) h =
    Leaves-push (length cs) c (go Mode.plain) (h Mode.plain)
follow-Leaves cs (CharStep.refuses _) go (refused e k) h = fails e k

if-IsKnown : (b : Bool) {x y : CharStep} → IsKnown x → IsKnown y → IsKnown (if b then x else y)
if-IsKnown true hx hy = hx
if-IsKnown false hx hy = hy

from_code-IsKnown : (code : ℕ) → IsKnown (from_code code)
unfolding from_code
from_code-IsKnown code =
    if-IsKnown (leb 55296 code && leb code 57343) (refused JsonError.not_character (λ h. cc))
      (pushed code)

hex_step-IsKnown : (left value : ℕ) (digit : Option ℕ) → IsKnown (hex_step left value digit)
unfolding hex_step
hex_step-IsKnown left value none = refused JsonError.bad_digits (λ h. cc)
hex_step-IsKnown zero value (some digit) = refused JsonError.bad_digits (λ h. cc)
hex_step-IsKnown (suc zero) value (some digit) = from_code-IsKnown (value * 16 + digit)
hex_step-IsKnown (suc (suc left)) value (some digit) = moved _

char_step-IsKnown : (mode : Mode) (c : ℕ) → IsKnown (char_step mode c)
unfolding char_step
char_step-IsKnown Mode.plain c =
    if-IsKnown (c == 34) closed (if-IsKnown (c == 92) (moved Mode.escaped) (pushed c))
char_step-IsKnown Mode.escaped c = if-IsKnown (c == 34 || c == 92 || c == 47) (pushed c) (
    if-IsKnown (c == 110) (pushed 10) (
      if-IsKnown (c == 114) (pushed 13) (
        if-IsKnown (c == 116) (pushed 9) (
          if-IsKnown (c == 98) (pushed 8) (
            if-IsKnown (c == 102) (pushed 12) (
              if-IsKnown (c == 117) (moved (Mode.hex 4 0))
                (refused JsonError.bad_escape (λ h. cc))))))))
char_step-IsKnown (Mode.hex left value) c = hex_step-IsKnown left value (hex_value c)

parse_chars-Leaves : (mode : Mode) (cs : Text) → Leaves (length cs) (parse_chars mode cs)
unfolding parse_chars
parse_chars-Leaves mode [] = fails (at_end mode) (at_end-known mode)
parse_chars-Leaves mode (c ∷ cs) = Leaves-more (length cs) (suc (length cs)) (omega arith) (
    follow-Leaves cs (char_step mode c) (λ mode'. parse_chars mode' cs) (char_step-IsKnown mode c)
      (λ mode'. parse_chars-Leaves mode' cs))

if-Leaves :
    {A : Type 0} (bound : ℕ) (b : Bool) {x y : Result (A × Text) JsonError}
    → Leaves bound x
    → Leaves bound y
    → Leaves bound (if b then x else y)
if-Leaves bound true hx hy = hx
if-Leaves bound false hx hy = hy

-- Behind its opening mark.
parse_string-Leaves : (c : ℕ) (cs : Text) → Leaves (length cs) (parse_string (c ∷ cs))
unfolding parse_string
parse_string-Leaves c cs =
    if-Leaves (length cs) (c == 34) (parse_chars-Leaves Mode.plain cs)
      (fails JsonError.unopened (λ h. cc))

length-take_digits : (cs : Text) → length (take_digits cs).1 ≤ length cs
unfolding take_digits
length-take_digits [] = omega arith
length-take_digits (c ∷ cs) = elim (Bool-cases (is_digit c)) [
  | inl e ↦ let rest = length-take_digits cs in rw e (omega arith)
  | inr e ↦ rw e (omega arith)
]

parse_number-Leaves : (cs : Text) → Leaves (length cs) (parse_number cs)
unfolding parse_number
parse_number-Leaves cs =
    if-Leaves (length cs) _ (leaves _ (take_digits cs).1 (length-take_digits cs))
      (fails JsonError.bad_number (λ h. cc))

pub length-skip_whitespace : (cs : Text) → length (skip_whitespace cs) ≤ length cs
unfolding skip_whitespace
length-skip_whitespace [] = omega arith
length-skip_whitespace (c ∷ cs) = elim (Bool-cases (is_whitespace c)) [
  | inl e ↦ let rest = length-skip_whitespace cs in rw e (omega arith)
  | inr e ↦ rw e (omega arith)
]

parse_value-Leaves : (cs : Text) → Leaves (length cs) (parse_value cs)
unfolding parse_value
parse_value-Leaves [] = fails JsonError.bad_value (λ h. cc)
parse_value-Leaves (c ∷ cs) =
    if-Leaves (suc (length cs)) (c == 34)
      (Leaves-bind (suc (length cs)) (parse_string (c ∷ cs)) _
        (Leaves-more (length cs) (suc (length cs)) (omega arith) (parse_string-Leaves c cs))
        (λ value rest k. leaves (Value.text value) rest k))
      (if-Leaves (suc (length cs)) (is_digit c)
        (Leaves-bind (suc (length cs)) (parse_number (c ∷ cs)) _ (parse_number-Leaves (c ∷ cs))
          (λ value rest k. leaves (Value.count value) rest k))
        (fails JsonError.bad_value (λ h. cc)))

-- A field takes at least the opening mark of its key.
parse_key-Leaves :
    (input : Text) (bound : ℕ) → length input ≤ suc bound → Leaves bound (parse_key input)
unfolding parse_key
parse_key-Leaves [] bound h = fails JsonError.key_not_string (λ h. cc)
parse_key-Leaves (c ∷ cs) bound h =
    if-Leaves bound (c == 34)
      (Leaves-more (length cs) bound (omega arith) (parse_string-Leaves c cs))
      (fails JsonError.key_not_string (λ h. cc))

-- What stands behind the colon is read.
after_colon-Leaves :
    (bound : ℕ) (cs : Text) (next : Text → Result (Field × Text) JsonError)
    → length cs ≤ bound
    → ((rest : Text) → length rest ≤ bound → Leaves bound (next rest))
    → Leaves bound (after_colon cs >>= next)
unfolding after_colon
after_colon-Leaves bound [] next h go = fails JsonError.no_value (λ h. cc)
after_colon-Leaves bound (c ∷ cs) next h go = elim (Bool-cases (c == 58)) [
  | inl e ↦ rw e (go cs (omega arith))
  | inr e ↦ rw e (fails JsonError.no_value (λ h. cc))
]

pub parse_field-Leaves :
    (input : Text) (bound : ℕ) → length input ≤ suc bound → Leaves bound (parse_field input)
unfolding parse_field
parse_field-Leaves input bound h =
    let skipped = length-skip_whitespace input in
    Leaves-bind bound (parse_key (skip_whitespace input)) _
      (parse_key-Leaves (skip_whitespace input) bound (omega arith))
      (λ key rest k.
        let behind = length-skip_whitespace rest in
        after_colon-Leaves bound (skip_whitespace rest) _ (omega arith) (λ at at_small.
          let value_at = length-skip_whitespace at in
          Leaves-bind bound (parse_value (skip_whitespace at)) _
            (Leaves-more (length (skip_whitespace at)) bound (omega arith)
              (parse_value-Leaves (skip_whitespace at)))
            (λ value last last_small. leaves (key, value) last last_small)))
