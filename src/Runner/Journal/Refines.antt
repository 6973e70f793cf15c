-- ===== src/Runner/Journal/Refines.antt =====
-- tools/validation-runner/src/campaign.rs, tools/validation-runner/src/record.rs: the file of the
-- journal stores the list of entries that a campaign is decided by.
use rp1_rust.Base.{
  ℕ, ◌<◌, ◌≡◌, refl, sym, ap, ◌∙◌, false, Option, none, some, List, [], ◌∷◌, ◌++◌, append_assoc,
  subst, length, ◌==◌, arith, inr,
}
use rp1_rust.Base.Bytes.{u32_end}
use rp1_rust.Base.Result.{ok, >>=-eq-ok, ok_or, ok_or-eq-ok}
use rp1_rust.Runner.Text.{Text, append-cons-not-nil}
use rp1_rust.Runner.Record.{RunnerError, JournalEntry, attempts_for, last_entry_for}
use rp1_rust.Runner.Campaign.{
  Campaign, Host, SegmentDefinition, SegmentResult, Report, reusable, result_of, journal_entry,
  next_attempt, run_segment, run_segments, report_of, execute,
}
use rp1_rust.Runner.Json.{encode_object, trim, Object}
use rp1_rust.Runner.Json.RoundTrip.{trim-braces}
use rp1_rust.Runner.Journal.{
  Circumstance, journal_object, append_journal, lines_from, parse_lines, entries,
}
use rp1_rust.Runner.Journal.Lines.{
  IsUnbroken, IsComplete, lines-append, lines_from-brace, parse_lines-append,
}
use rp1_rust.Runner.Journal.Written.{journal_object-IsUnbroken, parse_line-journal_object}

-- A file of whole lines that is read as the entries of `journal`.
pub record Stores (file : Text) (journal : List JournalEntry) : Type 0 where
  pub complete : IsComplete file
  pub read : entries file ≡ ok journal

line-full : (object : Object) → (length (trim (encode_object object)) == 0) ≡ false
unfolding encode_object
line-full object = rw (trim-braces object.body) (append-cons-not-nil (123 ∷ object.body) 125 [])

lines-append_journal :
    (file : Text) (object : Object)
    → IsComplete file
    → IsUnbroken (123 ∷ object.body)
    → lines_from [] (append_journal file object) ≡ lines_from [] file ++ encode_object object ∷ []
unfolding append_journal encode_object
lines-append_journal file object c u =
    lines-append file (encode_object object ++ 10 ∷ []) c
    ∙ ap (λ (ls : List Text). lines_from [] file ++ ls) (lines_from-brace (123 ∷ object.body) u)

append_journal-IsComplete :
    (file : Text) (object : Object) → IsComplete (append_journal file object)
unfolding append_journal
append_journal-IsComplete file object =
    inr (file ++ encode_object object, sym (append_assoc file (encode_object object) (10 ∷ [])))

-- The line that is appended is the entry that the journal then ends with.
append_journal-Stores :
    (campaign : Campaign) (result : SegmentResult) (circumstance : Circumstance) (file : Text)
    (journal : List JournalEntry)
    → result.attempt < u32_end
    → Stores file journal
    → Stores
        (append_journal file (journal_object campaign result circumstance))
        (journal ++ journal_entry campaign result ∷ [])
unfolding entries
append_journal-Stores campaign result circumstance file journal small stores =
    let object = journal_object campaign result circumstance in
    let unbroken = journal_object-IsUnbroken campaign result circumstance in
    record {
      complete = append_journal-IsComplete file object;
      read =
          ap parse_lines (lines-append_journal file object stores.complete unbroken)
          ∙ parse_lines-append (lines_from [] file) (encode_object object) stores.read
              (line-full object) (parse_line-journal_object campaign result circumstance small);
    }

-- The file behind the loop over the segments, each entry appended with its circumstance.
unfoldable pub append_results :
    Campaign → (SegmentResult → Circumstance) → Text → List SegmentResult → Text
unfolding append_journal journal_object
append_results campaign circumstance file [] = file
append_results campaign circumstance file (result ∷ results) =
    append_results campaign circumstance
      (append_journal file (journal_object campaign result (circumstance result))) results

next_attempt-fits :
    (attempts attempt : ℕ) → next_attempt attempts ≡ some attempt → attempt < u32_end
unfolding next_attempt
next_attempt-fits attempts attempt h = ground arith

result_of-attempt :
    (campaign : Campaign) (host : Host) (definition : SegmentDefinition) (attempt : ℕ)
    (prior : Option JournalEntry)
    → (result_of campaign host definition attempt prior).attempt ≡ attempt
unfolding result_of
result_of-attempt campaign host definition attempt none = refl
result_of-attempt campaign host definition attempt (some prior) = refl

run_segment-attempt :
    (campaign : Campaign) (host : Host) (journal : List JournalEntry)
    (definition : SegmentDefinition) {result : SegmentResult}
    → run_segment campaign host journal definition ≡ ok result
    → result.attempt < u32_end
unfolding run_segment next_attempt
run_segment-attempt campaign host journal definition {result} h =
    let (attempts, counted, next) = >>=-eq-ok (attempts_for journal definition.id) _ h in
    let (attempt, checked, last) =
      >>=-eq-ok (ok_or (next_attempt attempts) RunnerError.too_many_attempts) _ next in
    let got = ok_or-eq-ok (next_attempt attempts) RunnerError.too_many_attempts checked in
    let small = next_attempt-fits attempts attempt got in
    let prior = reusable campaign (last_entry_for journal definition.id) in
    let same : result_of campaign host definition attempt prior ≡ result = cc in
    let same_attempt =
      ap (λ (r : SegmentResult). r.attempt) (sym same)
      ∙ result_of-attempt campaign host definition attempt prior in
    rw same_attempt small

abbrev Run : Type 0
Run = List SegmentResult × List JournalEntry

abbrev Ended : Type 0
Ended = Report × List JournalEntry

run_segments-Stores :
    (campaign : Campaign) (host : Host) (circumstance : SegmentResult → Circumstance)
    (definitions : List SegmentDefinition) (file : Text) (journal : List JournalEntry)
    {results : List SegmentResult} {after : List JournalEntry}
    → run_segments campaign host journal definitions ≡ ok (results, after)
    → Stores file journal
    → Stores (append_results campaign circumstance file results) after
unfolding run_segments append_results
run_segments-Stores campaign host circumstance [] file journal {results} {after} h stores =
    let none_run : [] ≡ results = cc in
    let same : journal ≡ after = cc in rw (← none_run) (rw (← same) stores)
run_segments-Stores campaign host circumstance (d ∷ ds) file journal {results} {after} h stores =
    let (result, first, next) = >>=-eq-ok (run_segment campaign host journal d) _ h in
    let (rest, others, last) =
      >>=-eq-ok (run_segments campaign host (journal ++ journal_entry campaign result ∷ []) ds) _
        next in
    let small = run_segment-attempt campaign host journal d first in
    let same : ◌≡◌ {A = Run} (result ∷ rest.0, rest.1) (results, after) = cc in
    subst (λ (run : Run). Stores (append_results campaign circumstance file run.0) run.1) same
      (run_segments-Stores campaign host circumstance ds
        (append_journal file (journal_object campaign result (circumstance result)))
        (journal ++ journal_entry campaign result ∷ []) others
        (append_journal-Stores campaign result (circumstance result) file journal small stores))

-- A campaign that runs from a file's entries leaves, in the file that its lines are appended to, the
-- entries of the journal that it ends with.
pub execute-Stores :
    (campaign : Campaign) (host : Host) (circumstance : SegmentResult → Circumstance) (file : Text)
    (journal : List JournalEntry) {report : Report} {after : List JournalEntry}
    → execute campaign host journal ≡ ok (report, after)
    → Stores file journal
    → Stores (append_results campaign circumstance file report.results) after
unfolding execute report_of
execute-Stores campaign host circumstance file journal {report} {after} h stores =
    let (run, ran, last) = >>=-eq-ok (run_segments campaign host journal campaign.segments) _ h in
    let same : ◌≡◌ {A = Ended} (report_of campaign run.0, run.1) (report, after) = cc in
    subst
      (λ (ended : Ended).
        Stores (append_results campaign circumstance file ended.0.results) ended.1)
      same
      (run_segments-Stores campaign host circumstance campaign.segments file journal ran stores)
