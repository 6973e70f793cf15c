-- ===== src/Runner/Campaign.antt =====
-- tools/validation-runner/src/campaign.rs: how a campaign executes, and when its record seals. The
-- texts of notes and reasons, the manifest and the summary are left out; what the segments come to
-- on the host is an argument.
pub mod Seal
pub mod Backed
pub mod Runs
mod Tests
use rp1_rust.Base.{
  ℕ, suc, ◌+◌, Bool, true, false, not, ◌&&◌, ◌||◌, Option, some, none, List, [], ◌∷◌, ◌++◌, ltb,
  if◌then◌else◌, length, map,
}
use rp1_rust.Base.Bytes.{u32_end}
use rp1_rust.Base.Result.{Result, ok, err, ◌>>=◌, ok_or}
use rp1_rust.Runner.Text.{Text, same_text}
use rp1_rust.Runner.Segment.{
  Status, SegmentOutcome, StepRun, as_str, parse_status, holds, executed, execute_steps, step_runs,
}
use rp1_rust.Runner.Record.{
  RunnerError, JournalEntry, attempts_for, last_entry_for, evidence_reference,
}

pub data Tier : Type 0 where
  dev gate : Tier

abbrev same_tier : Tier → Tier → Bool
same_tier Tier.dev Tier.dev = true
same_tier Tier.gate Tier.gate = true
same_tier Tier.dev Tier.gate = false
same_tier Tier.gate Tier.dev = false

-- A segment, by its id, how many steps it has, its tiers and whether it has a prerequisite.
pub record SegmentDefinition : Type 0 where
  pub id : Text
  pub steps : ℕ
  pub tiers : List Tier
  pub has_prerequisite : Bool

abbrev contains_tier : List Tier → Tier → Bool
contains_tier [] tier = false
contains_tier (t ∷ tiers) tier = same_tier t tier || contains_tier tiers tier

-- `required`, over the segments that `definition` lists.
unfoldable pub required : Tier → List SegmentDefinition → List SegmentDefinition
required tier [] = []
required tier (segment ∷ segments) =
    let rest = required tier segments in
    if contains_tier segment.tiers tier then segment ∷ rest else rest

pub record SegmentResult : Type 0 where
  pub id : Text
  pub attempt : ℕ
  pub status : Status
  pub duration : ℕ
  pub evidence : Text
  pub identity : Text

pub data State : Type 0 where
  partial sealed failed : State

-- `Modified`, with how many changes there are.
pub data TreeState : Type 0 where
  clean : TreeState
  modified : ℕ → TreeState

pub record FinalResult : Type 0 where
  pub id : Text
  pub status : Status
  pub identity : Text

pub data Reason : Type 0 where
  blocked : Text → Status → Reason
  missing : List Text → Reason
  mismatched : Text → Reason
  changed : ℕ → Reason

unfoldable pub blocked_reasons : List FinalResult → List Reason
unfolding holds
blocked_reasons [] = []
blocked_reasons (result ∷ results) =
    let rest = blocked_reasons results in
    if not (holds result.status) then Reason.blocked result.id result.status ∷ rest else rest

-- `finals.iter().any(|result| &result.id == id)`
unfoldable pub has_result : List FinalResult → Text → Bool
unfolding same_text
has_result [] id = false
has_result (result ∷ results) id = same_text result.id id || has_result results id

unfoldable pub missing_ids : List Text → List FinalResult → List Text
unfolding has_result
missing_ids [] finals = []
missing_ids (id ∷ ids) finals =
    let rest = missing_ids ids finals in if not (has_result finals id) then id ∷ rest else rest

unfoldable pub mismatched_reasons : Text → List FinalResult → List Reason
unfolding holds same_text
mismatched_reasons identity [] = []
mismatched_reasons identity (result ∷ results) =
    let rest = mismatched_reasons identity results in
    if holds result.status && not (same_text result.identity identity)
    then Reason.mismatched result.id ∷ rest
    else rest

abbrev missing_reasons : List Text → List Reason
missing_reasons [] = []
missing_reasons (id ∷ ids) = Reason.missing (id ∷ ids) ∷ []

abbrev tree_reasons : TreeState → List Reason
tree_reasons TreeState.clean = []
tree_reasons (TreeState.modified changes) = Reason.changed changes ∷ []

-- The state once no result blocks, by the reasons that are left.
abbrev open_state : List Reason → State × List Reason
open_state [] = (State.sealed, [])
open_state (reason ∷ reasons) = (State.partial, reason ∷ reasons)

-- By the results that block.
unfoldable pub seal_with :
    List Reason → List Text → List FinalResult → Text → TreeState → State × List Reason
unfolding missing_ids mismatched_reasons
seal_with (reason ∷ reasons) required finals identity tree = (State.failed, reason ∷ reasons)
seal_with [] required finals identity tree = open_state (
    missing_reasons (missing_ids required finals)
    ++ (mismatched_reasons identity finals ++ tree_reasons tree))

unfoldable pub seal_state : List Text → List FinalResult → Text → TreeState → State × List Reason
unfolding seal_with blocked_reasons
seal_state required finals identity tree =
    seal_with (blocked_reasons finals) required finals identity tree

-- What the host answers: whether the probe of a prerequisite succeeds, and how each step of an
-- attempt went, with what the clock showed behind the last of them.
pub record Host : Type 0 where
  pub probe : SegmentDefinition → Bool
  pub runs : SegmentDefinition → ℕ → ℕ → StepRun
  pub finished : SegmentDefinition → ℕ → ℕ

-- The campaign, by what decides its execution. `identity` is the digest of its evidence identity.
pub record Campaign : Type 0 where
  pub identity : Text
  pub segments : List SegmentDefinition
  pub budget : ℕ
  pub resume : Bool
  pub tree_state : TreeState

-- `Campaign::attempt`
unfoldable pub attempt_segment : Campaign → Host → SegmentDefinition → ℕ → SegmentOutcome
unfolding execute_steps step_runs
attempt_segment campaign host definition attempt =
    if definition.has_prerequisite && not (host.probe definition)
    then record { status = Status.skipped; duration = 0 }
    else execute_steps campaign.budget (host.finished definition attempt)
        (step_runs definition.steps (host.runs definition attempt))

-- `let status = Status::parse(&prior.status)?` and what follows.
unfoldable pub reusable_entry : Option Status → JournalEntry → Text → Option JournalEntry
unfolding holds same_text
reusable_entry none prior identity = none
reusable_entry (some status) prior identity =
    if holds status && same_text prior.evidence_identity identity then some prior else none

unfoldable pub reusable : Campaign → Option JournalEntry → Option JournalEntry
unfolding reusable_entry parse_status
reusable campaign none = none
reusable campaign (some prior) =
    if campaign.resume
    then reusable_entry (parse_status prior.status) prior campaign.identity
    else none

unfoldable pub reuse : Text → ℕ → JournalEntry → Text → SegmentResult
reuse id attempt prior identity = record {
  id = id;
  attempt = attempt;
  status = Status.cached;
  duration = 0;
  evidence = prior.evidence;
  identity = identity;
}

-- A segment's result: by what may be reused.
unfoldable pub result_of :
    Campaign → Host → SegmentDefinition → ℕ → Option JournalEntry → SegmentResult
unfolding reuse attempt_segment evidence_reference
result_of campaign host definition attempt (some prior) =
    reuse definition.id attempt prior campaign.identity
result_of campaign host definition attempt none =
    let outcome = attempt_segment campaign host definition attempt in
    record {
      id = definition.id;
      attempt = attempt;
      status = outcome.status;
      duration = outcome.duration;
      evidence = evidence_reference definition.id attempt;
      identity = campaign.identity;
    }

-- `journal_entry`, with the fields that are read back.
unfoldable pub journal_entry : Campaign → SegmentResult → JournalEntry
unfolding as_str
journal_entry campaign result = record {
  segment = result.id;
  attempt = result.attempt;
  status = as_str result.status;
  evidence_identity = campaign.identity;
  evidence = result.evidence;
}

-- `checked_add(1)` at `u32`.
unfoldable pub next_attempt : ℕ → Option ℕ
next_attempt attempts = if ltb (attempts + 1) u32_end then some (attempts + 1) else none

-- One round of the loop over the segments, up to its result.
unfoldable pub run_segment :
    Campaign → Host → List JournalEntry → SegmentDefinition → Result SegmentResult RunnerError
unfolding attempts_for next_attempt last_entry_for reusable result_of
run_segment campaign host journal definition = do
  attempts ← attempts_for journal definition.id
  attempt ← ok_or (next_attempt attempts) RunnerError.too_many_attempts
  ok (
      result_of campaign host definition attempt
        (reusable campaign (last_entry_for journal definition.id)))

-- The loop: the results, and the journal behind them.
unfoldable pub run_segments :
    Campaign
    → Host
    → List JournalEntry
    → List SegmentDefinition
    → Result (List SegmentResult × List JournalEntry) RunnerError
unfolding run_segment journal_entry
run_segments campaign host journal [] = ok ([], journal)
run_segments campaign host journal (definition ∷ definitions) = do
  result ← run_segment campaign host journal definition
  rest ← run_segments campaign host (journal ++ journal_entry campaign result ∷ []) definitions
  ok (result ∷ rest.0, rest.1)

pub record Report : Type 0 where
  pub results : List SegmentResult
  pub state : State
  pub reasons : List Reason

abbrev pub final_of : SegmentResult → FinalResult
final_of result = record { id = result.id; status = result.status; identity = result.identity }

unfoldable pub every_segment_holds : List SegmentResult → Bool
unfolding holds
every_segment_holds [] = true
every_segment_holds (result ∷ results) = holds result.status && every_segment_holds results

-- `Report::reused`
unfoldable pub reused : List SegmentResult → ℕ
unfolding executed
reused [] = 0
reused (result ∷ results) =
    let rest = reused results in if not (executed result.status) then suc rest else rest

abbrev pub ids_of : List SegmentDefinition → List Text
ids_of segments = map (λ (definition : SegmentDefinition). definition.id) segments

-- The report, by the results of the loop.
unfoldable pub report_of : Campaign → List SegmentResult → Report
unfolding seal_state
report_of campaign results =
    let (state, reasons) =
      seal_state (ids_of campaign.segments) (map final_of results) campaign.identity
        campaign.tree_state in
    record { results = results; state = state; reasons = reasons }

-- `Campaign::execute`: the report, and the journal that it leaves.
unfoldable pub execute :
    Campaign → Host → List JournalEntry → Result (Report × List JournalEntry) RunnerError
unfolding run_segments report_of
execute campaign host journal = run_segments campaign host journal campaign.segments >>= λ run.
    ok (report_of campaign run.0, run.1)
