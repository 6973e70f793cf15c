-- ===== src/Runner/Journal/Tests.antt =====
-- tools/validation-runner/src/record.rs, tools/validation-runner/src/campaign.rs: a campaign's file.
use rp1_rust.Base.{◌≡◌, refl, inl, some, true, false, List, [], ◌∷◌}
use rp1_rust.Base.Result.{ok, err}
use rp1_rust.Runner.Text.{Text}
use rp1_rust.Runner.Segment.{Status, StepResult, as_str}
use rp1_rust.Runner.Record.{JournalEntry}
use rp1_rust.Runner.Campaign.{
  Tier, Campaign, Host, SegmentResult, Report, State, TreeState, execute,
}
use rp1_rust.Runner.Journal.{Circumstance, EntryError, parse_line, entries}
use rp1_rust.Runner.Journal.Refines.{Stores, append_results, execute-Stores}

abbrev host : Host
host = record {
  probe = λ definition. true;
  runs = λ definition attempt step. record {
    elapsed_before = 3;
    elapsed_late = 4;
    result = StepResult.passed;
    elapsed_after = 5;
  };
  finished = λ definition attempt. 6;
}

abbrev fresh : Campaign
fresh = record {
  identity = 7 ∷ [];
  segments =
      record { id = 102 ∷ []; steps = 1; tiers = Tier.dev ∷ []; has_prerequisite = false } ∷ [];
  budget = 120;
  resume = false;
  tree_state = TreeState.clean;
}

-- `segments/f-01.txt`
abbrev evidence : Text
evidence =
    115 ∷ 101 ∷ 103 ∷ 109 ∷ 101 ∷ 110 ∷ 116 ∷ 115 ∷ 47 ∷ 102 ∷ 45 ∷ 48 ∷ 49 ∷ 46 ∷ 116 ∷ 120 ∷ 116
    ∷ []

abbrev fresh_report : Report
fresh_report = record {
  results =
      record {
        id = 102 ∷ [];
        attempt = 1;
        status = Status.pass;
        duration = 6;
        evidence = evidence;
        identity = 7 ∷ [];
      }
      ∷ [];
  state = State.sealed;
  reasons = [];
}

abbrev fresh_journal : List JournalEntry
fresh_journal =
    record {
      segment = 102 ∷ [];
      attempt = 1;
      status = as_str Status.pass;
      evidence_identity = 7 ∷ [];
      evidence = evidence;
    }
    ∷ []

abbrev circumstance : SegmentResult → Circumstance
circumstance result = record {
  started = 50 ∷ [];
  subject_revision = 97 ∷ [];
  note = some (10 ∷ []);
}

fresh-runs : execute fresh host [] ≡ ok (fresh_report, fresh_journal)
unfolding execute
fresh-runs = refl

empty-Stores : Stores [] []
unfolding entries
empty-Stores = record { complete = inl refl; read = refl }

execute-Stores_example :
    Stores (append_results fresh circumstance [] fresh_report.results) fresh_journal
execute-Stores_example = execute-Stores fresh host circumstance [] [] fresh-runs empty-Stores

-- A line of blanks is no entry.
entries-blank : entries (32 ∷ 10 ∷ 13 ∷ 10 ∷ []) ≡ ok []
unfolding entries
entries-blank = refl

-- `{}`
parse_line-empty : parse_line (123 ∷ 125 ∷ []) ≡ err EntryError.no_segment
unfolding parse_line
parse_line-empty = refl
