-- ===== src/Runner/Json/Ends.antt =====
-- tools/validation-runner/src/json.rs: the loop over the fields ends, since every field takes
-- characters from the text.
use rp1_rust.Base.{
  ℕ, zero, suc, ◌<◌, ◌≤◌, ◌≡◌, ◌≢◌, Bool, true, false, List, [], ◌∷◌, length, if◌then◌else◌, ◌==◌,
  arith,
}
use rp1_rust.Base.Result.{Result, ok, err, ◌>>=◌}
use rp1_rust.Runner.Text.{Text}
use rp1_rust.Runner.Json.{
  Field, JsonError, skip_whitespace, parse_field, field_end, parse_fields, trim, parse_members,
  parse_object, parse_flat_object,
}
use rp1_rust.Runner.Json.Leaves.{Leaves, leaves, fails, length-skip_whitespace, parse_field-Leaves}

-- Fields, or an error of the code.
data IsParsed : Result (List Field) JsonError → Type 0 where
  parsed : (fields : List Field) → IsParsed (ok fields)
  unparsed : (e : JsonError) → e ≢ JsonError.stuck → IsParsed (err e)

IsParsed-more :
    (field : Field) (r : Result (List Field) JsonError)
    → IsParsed r
    → IsParsed (r >>= λ fields. ok (field ∷ fields))
IsParsed-more field (ok _) (parsed fields) = parsed (field ∷ fields)
IsParsed-more field (err _) (unparsed e h) = unparsed e h

if-IsParsed :
    (b : Bool) {x y : Result (List Field) JsonError}
    → IsParsed x
    → IsParsed y
    → IsParsed (if b then x else y)
if-IsParsed true hx hy = hx
if-IsParsed false hx hy = hy

field_end-IsParsed :
    (field : Field) (cs : Text) (go : Text → Result (List Field) JsonError)
    → ((rest : Text) → length rest < length cs → IsParsed (go rest))
    → IsParsed (field_end field cs go)
unfolding field_end
field_end-IsParsed field [] go h = unparsed JsonError.entry_not_ended (λ h. cc)
field_end-IsParsed field (c ∷ cs) go h =
    if-IsParsed (c == 44) (IsParsed-more field (go cs) (h cs (omega arith)))
      (if-IsParsed (c == 125) (parsed (field ∷ [])) (unparsed JsonError.entry_not_ended (λ h. cc)))

bind-IsParsed :
    {A : Type 0} (bound : ℕ) (r : Result (A × Text) JsonError)
    (next : A × Text → Result (List Field) JsonError)
    → Leaves bound r
    → ((a : A) (rest : Text) → length rest ≤ bound → IsParsed (next (a, rest)))
    → IsParsed (r >>= next)
bind-IsParsed bound (ok _) next (leaves a rest k) go = go a rest k
bind-IsParsed bound (err _) next (fails e k) go = unparsed e k

parse_fields-IsParsed :
    (fuel : ℕ) (input : Text) → length input < fuel → IsParsed (parse_fields fuel input)
unfolding parse_fields
parse_fields-IsParsed zero input h = absurd (omega arith)
parse_fields-IsParsed (suc fuel) [] h = unparsed JsonError.key_not_string (λ h. cc)
parse_fields-IsParsed (suc fuel) (c ∷ cs) h =
    bind-IsParsed (length cs) (parse_field (c ∷ cs)) _
      (parse_field-Leaves (c ∷ cs) (length cs) (omega arith))
      (λ field rest k.
        let behind = length-skip_whitespace rest in
        field_end-IsParsed field (skip_whitespace rest) (parse_fields fuel)
          (λ more less. parse_fields-IsParsed fuel more (omega arith)))

parse_members-IsParsed : (input : Text) → IsParsed (parse_members input)
unfolding parse_members
parse_members-IsParsed [] = parse_fields-IsParsed 1 [] (omega arith)
parse_members-IsParsed (c ∷ cs) =
    if-IsParsed (c == 125) (parsed [])
      (parse_fields-IsParsed (suc (length (c ∷ cs))) (c ∷ cs) (omega arith))

parse_object-IsParsed : (input : Text) → IsParsed (parse_object input)
unfolding parse_object
parse_object-IsParsed [] = unparsed JsonError.not_object (λ h. cc)
parse_object-IsParsed (c ∷ cs) =
    if-IsParsed (c == 123) (parse_members-IsParsed (skip_whitespace cs))
      (unparsed JsonError.not_object (λ h. cc))

IsParsed-known : {r : Result (List Field) JsonError} → IsParsed r → r ≢ err JsonError.stuck
IsParsed-known (parsed fields) h = cc
IsParsed-known (unparsed e known) h = let same : e ≡ JsonError.stuck = cc in known same

-- On every text the parser ends, with the fields or with an error of the code: the fuel that the model
-- gives its loop, one more than the text has characters, is enough.
pub parse_flat_object-ends : (input : Text) → parse_flat_object input ≢ err JsonError.stuck
unfolding parse_flat_object
parse_flat_object-ends input = IsParsed-known (parse_object-IsParsed (trim input))
