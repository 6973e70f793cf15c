-- ===== src/Runner/Campaign/Tests.antt =====
-- tools/validation-runner/src/campaign.rs: runs of a campaign.
use rp1_rust.Base.{◌≡◌, refl, true, false, some, none, List, [], ◌∷◌, All}
use rp1_rust.Base.Result.{ok, err}
use rp1_rust.Runner.Text.{Text}
use rp1_rust.Runner.Segment.{
  Status, StepResult, StepRun, as_str, execute_steps, IsInTime, execute_steps-pass,
}
use rp1_rust.Runner.Record.{JournalEntry, next_sequence, RunnerError}
use rp1_rust.Runner.Campaign.{
  Tier, Campaign, Host, SegmentDefinition, SegmentResult, FinalResult, Report, State, TreeState,
  Reason, seal_state, execute, required,
}
use rp1_rust.Runner.Campaign.Backed.{IsSound}
use rp1_rust.Runner.Campaign.Runs.{IsExecuted, execute-IsExecuted}

abbrev docs : SegmentDefinition
docs = record { id = 100 ∷ []; steps = 1; tiers = Tier.gate ∷ []; has_prerequisite = false }

abbrev fuzz : SegmentDefinition
fuzz = record {
  id = 102 ∷ [];
  steps = 2;
  tiers = Tier.dev ∷ Tier.gate ∷ [];
  has_prerequisite = true;
}

required-dev : required Tier.dev (docs ∷ fuzz ∷ []) ≡ fuzz ∷ []
unfolding required
required-dev = refl

abbrev step_passed : StepRun
step_passed = record {
  elapsed_before = 3;
  elapsed_late = 4;
  result = StepResult.passed;
  elapsed_after = 5;
}

abbrev host : Host
host = record {
  probe = λ definition. true;
  runs = λ definition attempt step. step_passed;
  finished = λ definition attempt. 6;
}

execute_steps-pass_example : All (IsInTime 120) (step_passed ∷ [])
unfolding execute_steps
execute_steps-pass_example = execute_steps-pass 120 6 (step_passed ∷ []) refl

-- Resumes from a journal in which `docs` passed under the identity 7.
abbrev resumed : Campaign
resumed = record {
  identity = 7 ∷ [];
  segments = docs ∷ fuzz ∷ [];
  budget = 120;
  resume = true;
  tree_state = TreeState.clean;
}

abbrev docs_passed : JournalEntry
docs_passed = record {
  segment = 100 ∷ [];
  attempt = 1;
  status = as_str Status.pass;
  evidence_identity = 7 ∷ [];
  evidence = 9 ∷ [];
}

docs_passed-IsSound : IsSound (docs_passed ∷ [])
docs_passed-IsSound = (
  λ status parsed held. record {
    front = [];
    pass = docs_passed;
    back = [];
    journaled = refl;
    passed = refl;
    same_segment = refl;
    same_identity = refl;
    same_evidence = refl;
  },
  tt,
)

-- `segments/f-01.txt`
abbrev fuzz_evidence : Text
fuzz_evidence =
    115 ∷ 101 ∷ 103 ∷ 109 ∷ 101 ∷ 110 ∷ 116 ∷ 115 ∷ 47 ∷ 102 ∷ 45 ∷ 48 ∷ 49 ∷ 46 ∷ 116 ∷ 120 ∷ 116
    ∷ []

abbrev two_results : List SegmentResult
two_results =
    record {
      id = 100 ∷ [];
      attempt = 2;
      status = Status.cached;
      duration = 0;
      evidence = 9 ∷ [];
      identity = 7 ∷ [];
    }
    ∷ record {
      id = 102 ∷ [];
      attempt = 1;
      status = Status.pass;
      duration = 6;
      evidence = fuzz_evidence;
      identity = 7 ∷ [];
    }
    ∷ []

abbrev sealed_report : Report
sealed_report = record { results = two_results; state = State.sealed; reasons = [] }

abbrev journal_after : List JournalEntry
journal_after =
    docs_passed
    ∷ record {
      segment = 100 ∷ [];
      attempt = 2;
      status = as_str Status.cached;
      evidence_identity = 7 ∷ [];
      evidence = 9 ∷ [];
    }
    ∷ record {
      segment = 102 ∷ [];
      attempt = 1;
      status = as_str Status.pass;
      evidence_identity = 7 ∷ [];
      evidence = fuzz_evidence;
    }
    ∷ []

resumed-seals : execute resumed host (docs_passed ∷ []) ≡ ok (sealed_report, journal_after)
unfolding execute
resumed-seals = refl

execute-IsExecuted_example : IsExecuted resumed (docs_passed ∷ []) sealed_report journal_after
execute-IsExecuted_example =
    execute-IsExecuted resumed host (docs_passed ∷ []) journal_after sealed_report
      docs_passed-IsSound resumed-seals

abbrev docs_final : FinalResult
docs_final = record { id = 100 ∷ []; status = Status.pass; identity = 7 ∷ [] }

-- An optional result that does not hold fails the record.
seal_state-skipped :
    seal_state []
      (record { id = 100 ∷ []; status = Status.skipped; identity = 7 ∷ [] } ∷ [])
      (7 ∷ [])
      TreeState.clean
    ≡ (State.failed, Reason.blocked (100 ∷ []) Status.skipped ∷ [])
unfolding seal_state
seal_state-skipped = refl

next_sequence-full : next_sequence (some 4 ∷ none ∷ some 99 ∷ []) ≡ err RunnerError.too_many_records
unfolding next_sequence
next_sequence-full = refl
