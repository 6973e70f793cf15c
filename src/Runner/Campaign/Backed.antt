-- ===== src/Runner/Campaign/Backed.antt =====
-- tools/validation-runner/src/campaign.rs: what the entries of a journal, and a sealed record, rest
-- on.
use rp1_rust.Base.{
  ℕ, ◌≡◌, refl, ap, ◌∙◌, true, not, ◌&&◌, Option, some, none, List, [], ◌∷◌, ◌++◌, All,
  append_assoc, subst, Bool-cases, inl, inr, ltb, arith,
}
use rp1_rust.Runner.Text.{Text, same_text, same_text→eq}
use rp1_rust.Runner.Segment.{
  Status, StepRun, as_str, parse_status, holds, SegmentOutcome, after_step, StepResult,
  execute_steps,
}
use rp1_rust.Runner.Record.{JournalEntry, entries_for, last}
use rp1_rust.Runner.Campaign.{
  Campaign, Host, SegmentDefinition, reusable_entry, reusable, attempt_segment,
}

-- An entry of the journal that records a pass of the same segment, under the same identity, with the
-- same evidence.
pub record IsBacked (journal : List JournalEntry) (entry : JournalEntry) : Type 0 where
  pub front : List JournalEntry
  pub pass : JournalEntry
  pub back : List JournalEntry
  pub journaled : journal ≡ front ++ (pass ∷ back)
  pub passed : pass.status ≡ as_str Status.pass
  pub same_segment : pass.segment ≡ entry.segment
  pub same_identity : pass.evidence_identity ≡ entry.evidence_identity
  pub same_evidence : pass.evidence ≡ entry.evidence

-- An entry whose status holds is backed.
abbrev pub Supported : List JournalEntry → JournalEntry → Type 0
Supported journal entry =
    (status : Status)
    → parse_status entry.status ≡ some status
    → holds status ≡ true
    → IsBacked journal entry

abbrev pub IsSound : List JournalEntry → Type 0
IsSound journal = All (Supported journal) journal

pub Backed-append :
    (journal more : List JournalEntry) (entry : JournalEntry)
    → IsBacked journal entry
    → IsBacked (journal ++ more) entry
Backed-append journal more entry b = record {
  front = b.front;
  pass = b.pass;
  back = b.back ++ more;
  journaled =
      ap (λ (t : List JournalEntry). t ++ more) b.journaled
      ∙ append_assoc b.front (b.pass ∷ b.back) more;
  passed = b.passed;
  same_segment = b.same_segment;
  same_identity = b.same_identity;
  same_evidence = b.same_evidence;
}

All-map {ℓ κ} :
    {A : Type ℓ} (P Q : A → Type κ) (xs : List A) → ((x : A) → P x → Q x) → All P xs → All Q xs
All-map P Q [] f h = tt
All-map P Q (x ∷ xs) f h = (f x h.0, All-map P Q xs f h.1)

All-snoc {ℓ κ} :
    {A : Type ℓ} (P : A → Type κ) (xs : List A) (y : A) → All P xs → P y → All P (xs ++ (y ∷ []))
All-snoc P [] y h p = (p, tt)
All-snoc P (x ∷ xs) y h p = (h.0, All-snoc P xs y h.1 p)

pub last-All :
    (P : JournalEntry → Type 0) (entries : List JournalEntry) (entry : JournalEntry)
    → All P entries
    → last entries ≡ some entry
    → P entry
last-All P [] entry h e = cc
last-All P (x ∷ []) entry h e = let same : x ≡ entry = cc in subst P same (h.0)
last-All P (x ∷ y ∷ xs) entry h e = last-All P (y ∷ xs) entry h.1 e

pub entries_for-All :
    (P : JournalEntry → Type 0) (journal : List JournalEntry) (segment : Text)
    → All P journal
    → All
        (λ (entry : JournalEntry). P entry × (entry.segment ≡ segment))
        (entries_for journal segment)
unfolding entries_for
entries_for-All P [] segment h = tt
entries_for-All P (x ∷ xs) segment h = elim (Bool-cases (same_text x.segment segment)) [
  | inl same ↦
      rw same ((h.0, same_text→eq x.segment segment same), entries_for-All P xs segment h.1)
  | inr other ↦ rw other (entries_for-All P xs segment h.1)
]

pub Sound-snoc :
    (journal : List JournalEntry) (entry : JournalEntry)
    → IsSound journal
    → Supported (journal ++ (entry ∷ [])) entry
    → IsSound (journal ++ (entry ∷ []))
Sound-snoc journal entry h s =
    All-snoc (Supported (journal ++ (entry ∷ []))) journal entry
      (All-map (Supported journal) (Supported (journal ++ (entry ∷ []))) journal
        (λ (e : JournalEntry) (t : Supported journal e).
          λ status parsed held. Backed-append journal (entry ∷ []) e (t status parsed held))
        h)
      s

-- An attempt on the host never ends as a reused one.
after_step-pass :
    (result : StepResult) (elapsed : ℕ) (rest : SegmentOutcome)
    → (holds rest.status ≡ true → rest.status ≡ Status.pass)
    → holds (after_step result elapsed rest).status ≡ true
    → (after_step result elapsed rest).status ≡ Status.pass
unfolding after_step holds
after_step-pass StepResult.passed elapsed rest h held = h held
after_step-pass StepResult.failed elapsed rest h held = cc
after_step-pass StepResult.timed_out elapsed rest h held = cc

execute_steps-holds :
    (budget finished : ℕ) (runs : List StepRun)
    → holds (execute_steps budget finished runs).status ≡ true
    → (execute_steps budget finished runs).status ≡ Status.pass
unfolding execute_steps holds
execute_steps-holds budget finished [] h = refl
execute_steps-holds budget finished (run ∷ runs) h =
    elim (Bool-cases (ltb budget run.elapsed_before)) [
      | inl late ↦ cc (rw late at h)
      | inr early ↦ rw early (
          after_step-pass run.result run.elapsed_after (execute_steps budget finished runs)
            (execute_steps-holds budget finished runs) (rw early at h))
    ]

pub attempt_segment-pass :
    (campaign : Campaign) (host : Host) (definition : SegmentDefinition) (attempt : ℕ)
    → holds (attempt_segment campaign host definition attempt).status ≡ true
    → (attempt_segment campaign host definition attempt).status ≡ Status.pass
unfolding attempt_segment holds
attempt_segment-pass campaign host definition attempt h =
    elim (Bool-cases (definition.has_prerequisite && not (host.probe definition))) [
      | inl absent ↦ cc (rw absent at h)
      | inr present ↦ rw present (execute_steps-holds campaign.budget _ _ (rw present at h))
    ]

-- What may be reused holds, under the identity of the campaign, which resumes.
pub record IsReusable (campaign : Campaign) (prior : JournalEntry) : Type 0 where
  pub resumed : campaign.resume ≡ true
  pub status : Status
  pub parsed : parse_status prior.status ≡ some status
  pub held : holds status ≡ true
  pub identity : prior.evidence_identity ≡ campaign.identity

reusable_entry-IsReusable :
    (campaign : Campaign) (parsed : Option Status) (prior entry : JournalEntry)
    → parse_status prior.status ≡ parsed
    → campaign.resume ≡ true
    → reusable_entry parsed prior campaign.identity ≡ some entry
    → (prior ≡ entry) × IsReusable campaign prior
unfolding reusable_entry
reusable_entry-IsReusable campaign none prior entry p r h = cc
reusable_entry-IsReusable campaign (some status) prior entry p r h =
    elim (Bool-cases (holds status && same_text prior.evidence_identity campaign.identity)) [
      | inr refused ↦ cc (rw refused at h)
      | inl taken ↦
          let same = rw taken at h in
          (
            cc,
            record {
              resumed = r;
              status = status;
              parsed = p;
              held = ground arith;
              identity = same_text→eq prior.evidence_identity campaign.identity (ground arith);
            },
          )
    ]

pub reusable-IsReusable :
    (campaign : Campaign) (prior : Option JournalEntry) (entry : JournalEntry)
    → reusable campaign prior ≡ some entry
    → (prior ≡ some entry) × IsReusable campaign entry
unfolding reusable
reusable-IsReusable campaign none entry h = cc
reusable-IsReusable campaign (some prior) entry h = elim (Bool-cases campaign.resume) [
  | inr new ↦ cc (rw new at h)
  | inl resumes ↦
      let (same, r) =
        reusable_entry-IsReusable campaign (parse_status prior.status) prior entry refl resumes
          (rw resumes at h) in
      (ap some same, subst (IsReusable campaign) same r)
]
