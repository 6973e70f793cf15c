-- ===== src/Runner/Segment.antt =====
-- tools/validation-runner/src/segment.rs: the status of a segment, and one attempt under its budget.
-- The text of a note and the log are left out. A process is what it came to, and the clock is the
-- time elapsed that it shows.
use rp1_rust.Base.{
  ℕ, zero, suc, ◌≤◌, ◌≡◌, refl, Bool, true, false, Option, some, none, List, [], ◌∷◌, ltb,
  if◌then◌else◌, All, Bool-cases, tests, inl, inr,
}
use rp1_rust.Runner.Text.{Text, same_text}

pub data Status : Type 0 where
  pass fail timeout skipped cached : Status

unfoldable pub as_str : Status → Text
as_str Status.pass = 112 ∷ 97 ∷ 115 ∷ 115 ∷ []
as_str Status.fail = 102 ∷ 97 ∷ 105 ∷ 108 ∷ []
as_str Status.timeout = 116 ∷ 105 ∷ 109 ∷ 101 ∷ 111 ∷ 117 ∷ 116 ∷ []
as_str Status.skipped = 115 ∷ 107 ∷ 105 ∷ 112 ∷ 112 ∷ 101 ∷ 100 ∷ []
as_str Status.cached = 99 ∷ 97 ∷ 99 ∷ 104 ∷ 101 ∷ 100 ∷ []

-- `Status::parse`
unfoldable pub parse_status : Text → Option Status
unfolding as_str same_text
parse_status value =
    if same_text value (as_str Status.pass)
    then some Status.pass
    else if same_text value (as_str Status.fail)
    then some Status.fail
    else if same_text value (as_str Status.timeout)
    then some Status.timeout
    else if same_text value (as_str Status.skipped)
    then some Status.skipped
    else if same_text value (as_str Status.cached)
    then some Status.cached
    else none

pub parse_status-as_str : (status : Status) → parse_status (as_str status) ≡ some status
unfolding parse_status
parse_status-as_str Status.pass = refl
parse_status-as_str Status.fail = refl
parse_status-as_str Status.timeout = refl
parse_status-as_str Status.skipped = refl
parse_status-as_str Status.cached = refl

unfoldable pub holds : Status → Bool
holds Status.pass = true
holds Status.cached = true
holds Status.fail = false
holds Status.timeout = false
holds Status.skipped = false

unfoldable pub executed : Status → Bool
executed Status.cached = false
executed Status.pass = true
executed Status.fail = true
executed Status.timeout = true
executed Status.skipped = true

pub data StepResult : Type 0 where
  passed failed timed_out : StepResult

-- `Outcome`, without its note.
pub record SegmentOutcome : Type 0 where
  pub status : Status
  pub duration : ℕ

-- A step as it went: what the clock showed before it, and once more where the budget was over by then,
-- what it came to, and what the clock showed after it.
pub record StepRun : Type 0 where
  pub elapsed_before : ℕ
  pub elapsed_late : ℕ
  pub result : StepResult
  pub elapsed_after : ℕ

-- `run_step`, once the process has ended or its time is over: by the exit status, where it ended.
unfoldable pub run_step : Option Bool → StepResult
run_step none = StepResult.timed_out
run_step (some true) = StepResult.passed
run_step (some false) = StepResult.failed

-- The match on the outcome of a step.
unfoldable pub after_step : StepResult → ℕ → SegmentOutcome → SegmentOutcome
after_step StepResult.passed elapsed rest = rest
after_step StepResult.failed elapsed rest = record { status = Status.fail; duration = elapsed }
after_step StepResult.timed_out elapsed rest = record {
  status = Status.timeout;
  duration = elapsed;
}

-- The loop over the steps; `finished` is what the clock shows behind the last one.
unfoldable pub execute_steps : ℕ → ℕ → List StepRun → SegmentOutcome
unfolding after_step
execute_steps budget finished [] = record { status = Status.pass; duration = finished }
execute_steps budget finished (run ∷ runs) =
    let rest = execute_steps budget finished runs in
    if ltb budget run.elapsed_before
    then record { status = Status.timeout; duration = run.elapsed_late }
    else after_step run.result run.elapsed_after rest

-- The runs of that many steps, by their position.
unfoldable pub step_runs : ℕ → (ℕ → StepRun) → List StepRun
step_runs zero runs = []
step_runs (suc steps) runs = runs zero ∷ step_runs steps (λ step. runs (suc step))

-- A step that passed, begun within the budget.
abbrev pub IsInTime : ℕ → StepRun → Type 0
IsInTime budget run = (run.elapsed_before ≤ budget) × (run.result ≡ StepResult.passed)

passed-InTime :
    (result : StepResult) (elapsed : ℕ) (rest : SegmentOutcome)
    → (after_step result elapsed rest).status ≡ Status.pass
    → (result ≡ StepResult.passed) × (rest.status ≡ Status.pass)
unfolding after_step
passed-InTime StepResult.passed elapsed rest h = (refl, h)
passed-InTime StepResult.failed elapsed rest h = cc
passed-InTime StepResult.timed_out elapsed rest h = cc

-- A segment passes only if each of its steps passed and was begun within the budget.
pub execute_steps-pass :
    (budget finished : ℕ) (runs : List StepRun)
    → (execute_steps budget finished runs).status ≡ Status.pass
    → All (IsInTime budget) runs
unfolding execute_steps
execute_steps-pass budget finished [] h = tt
execute_steps-pass budget finished (run ∷ runs) h =
    elim (Bool-cases (ltb budget run.elapsed_before)) [
      | inl late ↦ cc (rw late at h)
      | inr early ↦
          let (went, rest) =
            passed-InTime run.result run.elapsed_after (execute_steps budget finished runs)
              (rw early at h) in
          ((omega tests, went), execute_steps-pass budget finished runs rest)
    ]
