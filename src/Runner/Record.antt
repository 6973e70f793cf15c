-- ===== src/Runner/Record.antt =====
-- tools/validation-runner/src/record.rs: the journal of a run record, as the list of its entries.
use rp1_rust.Base.{ℕ, ◌+◌, Option, some, none, List, [], ◌∷◌, ◌++◌, ltb, leb, if◌then◌else◌, length}
use rp1_rust.Base.Bytes.{u32_end}
use rp1_rust.Base.Result.{Result, ok, err}
use rp1_rust.Runner.Text.{Text, same_text, to_decimal}

pub data RunnerError : Type 0 where
  too_many_attempts too_many_records : RunnerError

pub record JournalEntry : Type 0 where
  pub segment : Text
  pub attempt : ℕ
  pub status : Text
  pub evidence_identity : Text
  pub evidence : Text

-- The entries whose segment is `segment`.
unfoldable pub entries_for : List JournalEntry → Text → List JournalEntry
unfolding same_text
entries_for [] segment = []
entries_for (entry ∷ entries) segment =
    let rest = entries_for entries segment in
    if same_text entry.segment segment then entry ∷ rest else rest

-- `u32::try_from` of the count.
unfoldable pub attempts_for : List JournalEntry → Text → Result ℕ RunnerError
unfolding entries_for
attempts_for entries segment =
    let attempts = length (entries_for entries segment) in
    if ltb attempts u32_end then ok attempts else err RunnerError.too_many_attempts

abbrev pub last : List JournalEntry → Option JournalEntry
last [] = none
last (entry ∷ []) = some entry
last (entry ∷ next ∷ entries) = last (next ∷ entries)

unfoldable pub last_entry_for : List JournalEntry → Text → Option JournalEntry
unfolding entries_for
last_entry_for entries segment = last (entries_for entries segment)

unfoldable pub recorded_identity : List JournalEntry → Option Text
recorded_identity entries = elim (last entries) [
  | none ↦ none
  | some entry ↦ some entry.evidence_identity
]

-- `highest` over the sequence numbers of the names that have one.
unfoldable pub highest_sequence : List (Option ℕ) → ℕ
highest_sequence [] = 0
highest_sequence (none ∷ names) = highest_sequence names
highest_sequence (some sequence ∷ names) =
    let rest = highest_sequence names in if leb rest sequence then sequence else rest

-- `next_sequence`: a name is the sequence number that it carries for the date, if any.
unfoldable pub next_sequence : List (Option ℕ) → Result ℕ RunnerError
unfolding highest_sequence
next_sequence names =
    let next = highest_sequence names + 1 in
    if leb next 99 then ok next else err RunnerError.too_many_records

-- `evidence_reference`: `segments/{segment}-{attempt:02}.txt`.
unfoldable pub evidence_reference : Text → ℕ → Text
unfolding to_decimal
evidence_reference segment attempt =
    let number = if ltb attempt 10 then 48 ∷ to_decimal attempt else to_decimal attempt in
    (115 ∷ 101 ∷ 103 ∷ 109 ∷ 101 ∷ 110 ∷ 116 ∷ 115 ∷ 47 ∷ [])
    ++ (segment ++ ((45 ∷ []) ++ (number ++ (46 ∷ 116 ∷ 120 ∷ 116 ∷ []))))
