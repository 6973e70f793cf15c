-- ===== src/Runner/Journal.antt =====
-- tools/validation-runner/src/record.rs, tools/validation-runner/src/campaign.rs: the journal as the
-- text of its file. An entry is one line of JSON, which the campaign writes and `JournalEntry::parse`
-- reads back. A duration is a whole number of milliseconds.
pub mod Lines
pub mod Unbroken
pub mod Written
pub mod Refines
mod Tests
use rp1_rust.Base.{
  ℕ, ◌-◌, Bool, true, false, ◌&&◌, Option, some, none, List, [], ◌∷◌, ◌++◌, ◌==◌, ltb,
  if◌then◌else◌, length,
}
use rp1_rust.Base.Bytes.{u32_end, u64_end}
use rp1_rust.Base.Result.{Result, ok, err, ◌>>=◌, ok_or, map_err}
use rp1_rust.Runner.Text.{Text}
use rp1_rust.Runner.Segment.{as_str}
use rp1_rust.Runner.Record.{JournalEntry}
use rp1_rust.Runner.Campaign.{Campaign, SegmentResult}
use rp1_rust.Runner.Json.{
  Object, Field, JsonError, string, number, encode_object, new_object, trim, parse_flat_object,
  string_field, number_field,
}

abbrev pub segment_key : Text
segment_key = 115 ∷ 101 ∷ 103 ∷ 109 ∷ 101 ∷ 110 ∷ 116 ∷ []

abbrev pub attempt_key : Text
attempt_key = 97 ∷ 116 ∷ 116 ∷ 101 ∷ 109 ∷ 112 ∷ 116 ∷ []

abbrev pub started_key : Text
started_key = 115 ∷ 116 ∷ 97 ∷ 114 ∷ 116 ∷ 101 ∷ 100 ∷ []

abbrev pub duration_ms_key : Text
duration_ms_key = 100 ∷ 117 ∷ 114 ∷ 97 ∷ 116 ∷ 105 ∷ 111 ∷ 110 ∷ 95 ∷ 109 ∷ 115 ∷ []

abbrev pub status_key : Text
status_key = 115 ∷ 116 ∷ 97 ∷ 116 ∷ 117 ∷ 115 ∷ []

abbrev pub subject_revision_key : Text
subject_revision_key =
    115 ∷ 117 ∷ 98 ∷ 106 ∷ 101 ∷ 99 ∷ 116 ∷ 95 ∷ 114 ∷ 101 ∷ 118 ∷ 105 ∷ 115 ∷ 105 ∷ 111 ∷ 110 ∷ []

abbrev pub evidence_identity_key : Text
evidence_identity_key =
    101 ∷ 118 ∷ 105 ∷ 100 ∷ 101 ∷ 110 ∷ 99 ∷ 101 ∷ 95 ∷ 105 ∷ 100 ∷ 101 ∷ 110 ∷ 116 ∷ 105 ∷ 116
    ∷ 121 ∷ []

abbrev pub evidence_key : Text
evidence_key = 101 ∷ 118 ∷ 105 ∷ 100 ∷ 101 ∷ 110 ∷ 99 ∷ 101 ∷ []

abbrev pub note_key : Text
note_key = 110 ∷ 111 ∷ 116 ∷ 101 ∷ []

-- `duration_millis`
unfoldable pub duration_millis : ℕ → ℕ
duration_millis duration = if ltb duration u64_end then duration else u64_end - 1

-- What an entry states beside its result: when the attempt began, the revision and the note.
pub record Circumstance : Type 0 where
  pub started : Text
  pub subject_revision : Text
  pub note : Option Text

unfoldable pub with_note : Option Text → Object → Object
unfolding string
with_note none object = object
with_note (some note) object = string object note_key note

-- `Campaign::journal_entry`
unfoldable pub journal_object : Campaign → SegmentResult → Circumstance → Object
unfolding string number as_str duration_millis with_note
journal_object campaign result circumstance =
    let entry = string new_object segment_key result.id in
    let entry = number entry attempt_key result.attempt in
    let entry = string entry started_key circumstance.started in
    let entry = number entry duration_ms_key (duration_millis result.duration) in
    let entry = string entry status_key (as_str result.status) in
    let entry = string entry subject_revision_key circumstance.subject_revision in
    let entry = string entry evidence_identity_key campaign.identity in
    let entry = string entry evidence_key result.evidence in with_note circumstance.note entry

-- `RunRecord::append_journal`, on the text of the file.
unfoldable pub append_journal : Text → Object → Text
unfolding encode_object
append_journal file entry = file ++ (encode_object entry ++ 10 ∷ [])

pub data EntryError : Type 0 where
  not_json : JsonError → EntryError
  no_segment no_status no_identity attempt_too_large : EntryError

-- `unwrap_or(0)` and `unwrap_or_default()`
abbrev pub unwrap_or : {A : Type 0} → Option A → A → A
unwrap_or none default = default
unwrap_or (some a) default = a

-- `u32::try_from(attempt)`
unfoldable pub attempt_of : ℕ → Result ℕ EntryError
attempt_of attempt = if ltb attempt u32_end then ok attempt else err EntryError.attempt_too_large

-- `JournalEntry::parse`, behind the fields of the line.
unfoldable pub entry_of : List Field → Result JournalEntry EntryError
unfolding string_field number_field attempt_of
entry_of fields = do
  segment ← ok_or (string_field fields segment_key) EntryError.no_segment
  status ← ok_or (string_field fields status_key) EntryError.no_status
  identity ← ok_or (string_field fields evidence_identity_key) EntryError.no_identity
  attempt ← attempt_of (unwrap_or (number_field fields attempt_key) 0)
  ok (record {
    segment = segment;
    attempt = attempt;
    status = status;
    evidence_identity = identity;
    evidence = unwrap_or (string_field fields evidence_key) [];
  })

-- `JournalEntry::parse`
unfoldable pub parse_line : Text → Result JournalEntry EntryError
unfolding parse_flat_object entry_of
parse_line line = map_err EntryError.not_json (parse_flat_object line) >>= entry_of

-- A line without the carriage return before its newline.
unfoldable pub strip_return : Text → Text
strip_return [] = []
strip_return (c ∷ cs) =
    let rest = strip_return cs in if c == 13 && (length cs == 0) then [] else c ∷ rest

-- `str::lines`, behind the part of a line that is read already.
unfoldable pub lines_from : Text → Text → List Text
unfolding strip_return
lines_from line [] = if length line == 0 then [] else line ∷ []
lines_from line (c ∷ cs) =
    let ended = lines_from [] cs in
    let longer = lines_from (line ++ c ∷ []) cs in
    if c == 10 then strip_return line ∷ ended else longer

-- `filter(|line| !line.trim().is_empty())` and the loop over what is left.
unfoldable pub parse_lines : List Text → Result (List JournalEntry) EntryError
unfolding parse_line trim
parse_lines [] = ok []
parse_lines (line ∷ lines) =
    if length (trim line) == 0
    then parse_lines lines
    else (parse_line line >>= λ entry. parse_lines lines >>= λ entries. ok (entry ∷ entries))

-- `RunRecord::entries`, on the text of the file; a file that is missing is an empty one.
unfoldable pub entries : Text → Result (List JournalEntry) EntryError
unfolding lines_from parse_lines
entries file = parse_lines (lines_from [] file)
