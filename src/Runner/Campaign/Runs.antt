-- ===== src/Runner/Campaign/Runs.antt =====
-- tools/validation-runner/src/campaign.rs: what a campaign leaves in the journal and in its report.
use rp1_rust.Base.{
  ℕ, ◌≡◌, refl, sym, ap, ◌∙◌, subst, true, Option, some, none, List, [], ◌∷◌, ◌++◌, All,
  append_assoc, append-nil, map,
}
use rp1_rust.Base.Result.{ok, ◌>>=◌, >>=-eq-ok, ok_or}
use rp1_rust.Runner.Text.{Text}
use rp1_rust.Runner.Segment.{as_str, parse_status-as_str, holds}
use rp1_rust.Runner.Record.{
  RunnerError, JournalEntry, entries_for, last, last_entry_for, attempts_for,
}
use rp1_rust.Runner.Campaign.{
  Campaign, Host, SegmentDefinition, SegmentResult, Report, State, TreeState, reusable, reuse,
  result_of, journal_entry, next_attempt, run_segment, run_segments, execute, report_of, ids_of,
  final_of,
}
use rp1_rust.Runner.Campaign.Seal.{Holds, seal_state-sealed}
use rp1_rust.Runner.Campaign.Backed.{
  IsBacked, Supported, IsSound, Backed-append, Sound-snoc, last-All, entries_for-All,
  reusable-IsReusable, attempt_segment-pass,
}

-- What may be reused for a segment is backed, and an entry of that segment.
prior-IsBacked :
    (campaign : Campaign) (journal : List JournalEntry) (segment : Text) (prior : JournalEntry)
    → IsSound journal
    → reusable campaign (last_entry_for journal segment) ≡ some prior
    → IsBacked journal prior
      × (prior.segment ≡ segment)
      × (prior.evidence_identity ≡ campaign.identity)
unfolding last_entry_for
prior-IsBacked campaign journal segment prior sound h =
    let (found, r) = reusable-IsReusable campaign (last (entries_for journal segment)) prior h in
    let (supported, same) =
      last-All (λ (entry : JournalEntry). Supported journal entry × (entry.segment ≡ segment))
        (entries_for journal segment) prior
        (entries_for-All (Supported journal) journal segment sound) found in
    (supported r.status r.parsed r.held, same, r.identity)

module _ (campaign : Campaign) (host : Host) (journal : List JournalEntry)
    (definition : SegmentDefinition) (attempt : ℕ) where
  abbrev result_with : Option JournalEntry → SegmentResult
  result_with prior = result_of campaign host definition attempt prior

  abbrev entry_with : Option JournalEntry → JournalEntry
  entry_with prior = journal_entry campaign (result_with prior)

  -- The entry of a result is backed in the journal that it ends, where its status holds.
  result-IsBacked :
      (prior : Option JournalEntry)
      → IsSound journal
      → reusable campaign (last_entry_for journal definition.id) ≡ prior
      → holds (result_with prior).status ≡ true
      → IsBacked (journal ++ (entry_with prior ∷ [])) (entry_with prior)
  unfolding result_of reuse journal_entry
  result-IsBacked (some prior) sound r h =
      let (b, segment, identity) = prior-IsBacked campaign journal definition.id prior sound r in
      let here = Backed-append journal (entry_with (some prior) ∷ []) prior b in
      record {
        front = here.front;
        pass = here.pass;
        back = here.back;
        journaled = here.journaled;
        passed = here.passed;
        same_segment = here.same_segment ∙ segment;
        same_identity = here.same_identity ∙ identity;
        same_evidence = here.same_evidence;
      }
  result-IsBacked none sound r h = record {
    front = journal;
    pass = entry_with none;
    back = [];
    journaled = refl;
    passed = ap as_str (attempt_segment-pass campaign host definition attempt h);
    same_segment = refl;
    same_identity = refl;
    same_evidence = refl;
  }

  entry-Supported :
      (prior : Option JournalEntry)
      → IsSound journal
      → reusable campaign (last_entry_for journal definition.id) ≡ prior
      → Supported (journal ++ (entry_with prior ∷ [])) (entry_with prior)
  unfolding journal_entry
  entry-Supported prior sound r status parsed held =
      let same : (result_with prior).status ≡ status =
        cc (parse_status-as_str (result_with prior).status) in
      result-IsBacked prior sound r (ap holds same ∙ held)

-- What one segment leaves.
record IsRun (campaign : Campaign) (journal : List JournalEntry) (definition : SegmentDefinition)
    (result : SegmentResult) : Type 0 where
  id : result.id ≡ definition.id
  identity : result.identity ≡ campaign.identity
  sound : IsSound (journal ++ (journal_entry campaign result ∷ []))
  backed :
      holds result.status ≡ true
      → IsBacked (journal ++ (journal_entry campaign result ∷ [])) (journal_entry campaign result)

result_of-names :
    (campaign : Campaign) (host : Host) (definition : SegmentDefinition) (attempt : ℕ)
    (prior : Option JournalEntry)
    → ((result_of campaign host definition attempt prior).id ≡ definition.id)
      × ((result_of campaign host definition attempt prior).identity ≡ campaign.identity)
unfolding result_of reuse
result_of-names campaign host definition attempt (some prior) = (refl, refl)
result_of-names campaign host definition attempt none = (refl, refl)

run_segment-IsRun :
    (campaign : Campaign) (host : Host) (journal : List JournalEntry)
    (definition : SegmentDefinition) (result : SegmentResult)
    → IsSound journal
    → run_segment campaign host journal definition ≡ ok result
    → IsRun campaign journal definition result
unfolding run_segment
run_segment-IsRun campaign host journal definition result sound h =
    let (attempts, a, rest) = >>=-eq-ok (attempts_for journal definition.id) _ h in
    let (attempt, b, done) =
      >>=-eq-ok (ok_or (next_attempt attempts) RunnerError.too_many_attempts)
        (λ attempt. ok (
          result_of campaign host definition attempt
            (reusable campaign (last_entry_for journal definition.id))))
        rest in
    let prior = reusable campaign (last_entry_for journal definition.id) in
    let same : result_of campaign host definition attempt prior ≡ result = cc in
    let (id, identity) = result_of-names campaign host definition attempt prior in
    subst (IsRun campaign journal definition) same (record {
      id = id;
      identity = identity;
      sound =
          Sound-snoc journal _ sound
            (entry-Supported campaign host journal definition attempt prior sound refl);
      backed = result-IsBacked campaign host journal definition attempt prior sound refl;
    })

-- What the loop leaves: the journal is only appended to, one entry for each result in order, the
-- results are those of the segments, under the identity, the journal stays sound, and a result that
-- holds is backed in it.
pub record IsRuns (campaign : Campaign) (journal : List JournalEntry)
    (definitions : List SegmentDefinition) (results : List SegmentResult)
    (after : List JournalEntry) : Type 0 where
  pub appended : after ≡ journal ++ map (journal_entry campaign) results
  pub ids : map (λ (result : SegmentResult). result.id) results ≡ ids_of definitions
  pub identities : All (λ (result : SegmentResult). result.identity ≡ campaign.identity) results
  pub sound : IsSound after
  pub backed :
      All
        (λ (result : SegmentResult).
          holds result.status ≡ true → IsBacked after (journal_entry campaign result))
        results

run-first :
    (campaign : Campaign) (journal : List JournalEntry) (definition : SegmentDefinition)
    (definitions : List SegmentDefinition) (result : SegmentResult) (results : List SegmentResult)
    (after : List JournalEntry)
    → IsRun campaign journal definition result
    → IsRuns campaign (journal ++ (journal_entry campaign result ∷ [])) definitions results after
    → IsRuns campaign journal (definition ∷ definitions) (result ∷ results) after
run-first campaign journal definition definitions result results after one more = record {
  appended =
      more.appended
      ∙ append_assoc journal (journal_entry campaign result ∷ [])
          (map (journal_entry campaign) results);
  ids =
      ap (λ (t : Text). t ∷ map (λ (r : SegmentResult). r.id) results) one.id
      ∙ ap (λ (t : List Text). definition.id ∷ t) more.ids;
  identities = (one.identity, more.identities);
  sound = more.sound;
  backed = (
    λ held.
        subst (λ (t : List JournalEntry). IsBacked t (journal_entry campaign result))
          (sym more.appended)
          (Backed-append (journal ++ (journal_entry campaign result ∷ []))
            (map (journal_entry campaign) results) (journal_entry campaign result)
            (one.backed held)),
    more.backed,
  );
}

abbrev Run : Type 0
Run = List SegmentResult × List JournalEntry

run_segments-IsRuns :
    (campaign : Campaign) (host : Host) (journal : List JournalEntry)
    (definitions : List SegmentDefinition) (run : Run)
    → IsSound journal
    → run_segments campaign host journal definitions ≡ ok run
    → IsRuns campaign journal definitions run.0 run.1
unfolding run_segments
run_segments-IsRuns campaign host journal [] run sound h =
    let start : Run = ([], journal) in
    let same : start ≡ run = cc in
    subst (λ (t : Run). IsRuns campaign journal [] t.0 t.1) same
      (record {
        appended = sym (append-nil journal);
        ids = refl;
        identities = tt;
        sound = sound;
        backed = tt;
      })
run_segments-IsRuns campaign host journal (definition ∷ definitions) run sound h =
    let (result, r, rest) =
      >>=-eq-ok (run_segment campaign host journal definition)
        (λ result.
          run_segments campaign host (journal ++ (journal_entry campaign result ∷ [])) definitions
          >>= λ more. ok (result ∷ more.0, more.1))
        h in
    let (more, m, done) =
      >>=-eq-ok
        (run_segments campaign host (journal ++ (journal_entry campaign result ∷ [])) definitions)
        (λ more. ok (result ∷ more.0, more.1)) rest in
    let one = run_segment-IsRun campaign host journal definition result sound r in
    let all : Run = (result ∷ more.0, more.1) in
    let same : all ≡ run = cc in
    subst (λ (t : Run). IsRuns campaign journal (definition ∷ definitions) t.0 t.1) same
      (run-first campaign journal definition definitions result more.0 more.1 one (
        run_segments-IsRuns campaign host (journal ++ (journal_entry campaign result ∷ []))
          definitions more one.sound m))

-- What a campaign leaves, and what a sealed report says.
pub record IsExecuted (campaign : Campaign) (journal : List JournalEntry) (report : Report)
    (after : List JournalEntry) : Type 0 where
  pub runs : IsRuns campaign journal campaign.segments report.results after
  pub sealed_backed :
      report.state ≡ State.sealed
      → All
          (λ (result : SegmentResult). IsBacked after (journal_entry campaign result))
          report.results
        × (campaign.tree_state ≡ TreeState.clean)

hold-IsBacked :
    (campaign : Campaign) (after : List JournalEntry) (results : List SegmentResult)
    → All Holds (map final_of results)
    → All
        (λ (result : SegmentResult).
          holds result.status ≡ true → IsBacked after (journal_entry campaign result))
        results
    → All (λ (result : SegmentResult). IsBacked after (journal_entry campaign result)) results
hold-IsBacked campaign after [] held backed = tt
hold-IsBacked campaign after (x ∷ xs) held backed =
    (backed.0 held.0, hold-IsBacked campaign after xs held.1 backed.1)

report_of-IsExecuted :
    (campaign : Campaign) (journal after : List JournalEntry) (results : List SegmentResult)
    → IsRuns campaign journal campaign.segments results after
    → IsExecuted campaign journal (report_of campaign results) after
unfolding report_of
report_of-IsExecuted campaign journal after results runs = record {
  runs = runs;
  sealed_backed = λ seals.
      let sealable =
        (seal_state-sealed (ids_of campaign.segments) (map final_of results) campaign.identity
            campaign.tree_state).0
          seals in
      (hold-IsBacked campaign after results sealable.all_hold runs.backed, sealable.tree_clean);
}

abbrev Ended : Type 0
Ended = Report × List JournalEntry

-- From a journal in which every entry that holds is backed by an entry that records a pass of its
-- segment, under its identity and with its evidence: a campaign that ends has only appended to the
-- journal, one entry for each of its segments in their order; the journal is still such a one; every
-- result that holds is backed in it; and where the report seals, all of them are, and the working
-- tree was clean.
pub execute-IsExecuted :
    (campaign : Campaign) (host : Host) (journal after : List JournalEntry) (report : Report)
    → IsSound journal
    → execute campaign host journal ≡ ok (report, after)
    → IsExecuted campaign journal report after
unfolding execute
execute-IsExecuted campaign host journal after report sound h =
    let (run, r, done) =
      >>=-eq-ok (run_segments campaign host journal campaign.segments)
        (λ run. ok (report_of campaign run.0, run.1)) h in
    let ends : Ended = (report_of campaign run.0, run.1) in
    let given : Ended = (report, after) in
    let same : ends ≡ given = cc in
    subst (λ (t : Ended). IsExecuted campaign journal t.0 t.1) same
      (report_of-IsExecuted campaign journal run.1 run.0
        (run_segments-IsRuns campaign host journal campaign.segments run sound r))
