-- ===== src/Runner/Journal/Written.antt =====
-- tools/validation-runner/src/campaign.rs, tools/validation-runner/src/record.rs: a journal line that
-- the campaign writes is read back as the entry that it records.
use rp1_rust.Base.{
  ℕ, ◌<◌, ◌≡◌, refl, ap, ◌∙◌, true, Option, none, some, List, [], ◌∷◌, All, ltb, arith,
}
use rp1_rust.Base.Bytes.{u32_end, u64_end}
use rp1_rust.Base.Result.{Result, ok, ◌>>=◌, map_err}
use rp1_rust.Runner.Text.{Text, same_text}
use rp1_rust.Runner.Segment.{as_str}
use rp1_rust.Runner.Campaign.{Campaign, SegmentResult, journal_entry}
use rp1_rust.Runner.Json.{
  JsonError, Object, Value, Field, encode_object, new_object, string_field, number_field,
  parse_flat_object,
}
use rp1_rust.Runner.Json.Fields.{IsField}
use rp1_rust.Runner.Json.RoundTrip.{write_fields, write_field, parse_flat_object-encode_object}
use rp1_rust.Runner.Journal.{
  segment_key, attempt_key, started_key, duration_ms_key, status_key, subject_revision_key,
  evidence_identity_key, evidence_key, note_key, duration_millis, Circumstance, with_note,
  journal_object, EntryError, attempt_of, entry_of, parse_line,
}
use rp1_rust.Runner.Journal.Lines.{IsUnbroken}
use rp1_rust.Runner.Journal.Unbroken.{body-IsUnbroken}

abbrev note_fields : Option Text → List Field
note_fields none = []
note_fields (some note) = (note_key, Value.text note) ∷ []

abbrev more_fields : Campaign → SegmentResult → Circumstance → List Field
more_fields campaign result circumstance =
    (attempt_key, Value.count result.attempt)
    ∷ (started_key, Value.text circumstance.started)
    ∷ (duration_ms_key, Value.count (duration_millis result.duration))
    ∷ (status_key, Value.text (as_str result.status))
    ∷ (subject_revision_key, Value.text circumstance.subject_revision)
    ∷ (evidence_identity_key, Value.text campaign.identity)
    ∷ (evidence_key, Value.text result.evidence)
    ∷ note_fields circumstance.note

-- The fields that `journal_object` writes.
abbrev journal_fields : Campaign → SegmentResult → Circumstance → List Field
journal_fields campaign result circumstance =
    (segment_key, Value.text result.id) ∷ more_fields campaign result circumstance

with_note-fields :
    (note : Option Text) (object : Object)
    → with_note note object ≡ write_fields object (note_fields note)
unfolding write_fields write_field with_note
with_note-fields none object = refl
with_note-fields (some note) object = refl

journal_object-fields :
    (campaign : Campaign) (result : SegmentResult) (circumstance : Circumstance)
    → journal_object campaign result circumstance
      ≡ write_fields new_object (journal_fields campaign result circumstance)
unfolding journal_object write_fields
journal_object-fields campaign result circumstance = with_note-fields circumstance.note _

duration_millis-fits : (duration : ℕ) → duration_millis duration < u64_end
unfolding duration_millis
duration_millis-fits duration = ground arith

note_fields-fit : (note : Option Text) → All IsField (note_fields note)
note_fields-fit none = tt
note_fields-fit (some note) = (tt, tt)

journal_fields-fit :
    (campaign : Campaign) (result : SegmentResult) (circumstance : Circumstance)
    → result.attempt < u32_end
    → All IsField (journal_fields campaign result circumstance)
journal_fields-fit campaign result circumstance h = (
  tt,
  (
    omega arith,
    (
      tt,
      (
        duration_millis-fits result.duration,
        (tt, (tt, (tt, (tt, note_fields-fit circumstance.note)))),
      ),
    ),
  ),
)

entry_of-fields :
    (campaign : Campaign) (result : SegmentResult) (circumstance : Circumstance)
    → result.attempt < u32_end
    → entry_of (journal_fields campaign result circumstance) ≡ ok (journal_entry campaign result)
unfolding entry_of string_field number_field same_text attempt_of journal_entry
entry_of-fields campaign result circumstance h =
    let fits : ltb result.attempt u32_end ≡ true = ground arith in rw fits refl

pub parse_line-journal_object :
    (campaign : Campaign) (result : SegmentResult) (circumstance : Circumstance)
    → result.attempt < u32_end
    → parse_line (encode_object (journal_object campaign result circumstance))
      ≡ ok (journal_entry campaign result)
unfolding parse_line
parse_line-journal_object campaign result circumstance h =
    ap
      (λ object.
        map_err EntryError.not_json (parse_flat_object (encode_object object)) >>= entry_of)
      (journal_object-fields campaign result circumstance)
    ∙ (ap (λ (r : Result (List Field) JsonError). map_err EntryError.not_json r >>= entry_of)
          (parse_flat_object-encode_object (journal_fields campaign result circumstance)
            (journal_fields-fit campaign result circumstance h))
        ∙ entry_of-fields campaign result circumstance h)

pub journal_object-IsUnbroken :
    (campaign : Campaign) (result : SegmentResult) (circumstance : Circumstance)
    → IsUnbroken (123 ∷ (journal_object campaign result circumstance).body)
journal_object-IsUnbroken campaign result circumstance =
    rw (journal_object-fields campaign result circumstance) (
      body-IsUnbroken (segment_key, Value.text result.id)
        (more_fields campaign result circumstance))
