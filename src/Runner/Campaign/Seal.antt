-- ===== src/Runner/Campaign/Seal.antt =====
-- tools/validation-runner/src/campaign.rs: when a set of results seals.
use rp1_rust.Base.{◌≡◌, ◌↔◌, refl, true, List, [], ◌∷◌, ◌++◌, All, Bool-cases, inl, inr}
use rp1_rust.Runner.Text.{Text, same_text, same_text→eq, same_text_refl}
use rp1_rust.Runner.Segment.{holds}
use rp1_rust.Runner.Campaign.{
  FinalResult, State, TreeState, Reason, blocked_reasons, has_result, missing_ids,
  mismatched_reasons, seal_with, seal_state, missing_reasons, tree_reasons, open_state,
}

abbrev pub Holds : FinalResult → Type 0
Holds result = holds result.status ≡ true

-- Every segment that is required has a result, every result holds, under the identity, and the tree
-- is clean.
pub record IsSealable (required : List Text) (finals : List FinalResult) (identity : Text)
    (tree : TreeState) : Type 0 where
  pub answered : All (λ id. has_result finals id ≡ true) required
  pub all_hold : All Holds finals
  pub same_identity : All (λ (result : FinalResult). result.identity ≡ identity) finals
  pub tree_clean : tree ≡ TreeState.clean

blocked-none : (finals : List FinalResult) → blocked_reasons finals ≡ [] → All Holds finals
unfolding blocked_reasons
blocked-none [] h = tt
blocked-none (x ∷ xs) h = elim (Bool-cases (holds x.status)) [
  | inl found ↦ (found, blocked-none xs (rw found at h))
  | inr not_found ↦ cc (rw not_found at h)
]

none-blocked : (finals : List FinalResult) → All Holds finals → blocked_reasons finals ≡ []
unfolding blocked_reasons
none-blocked [] h = refl
none-blocked (x ∷ xs) h = rw h.0 (none-blocked xs h.1)

missing-none :
    (required : List Text) (finals : List FinalResult)
    → missing_ids required finals ≡ []
    → All (λ id. has_result finals id ≡ true) required
unfolding missing_ids
missing-none [] finals h = tt
missing-none (id ∷ ids) finals h = elim (Bool-cases (has_result finals id)) [
  | inl found ↦ (found, missing-none ids finals (rw found at h))
  | inr not_found ↦ cc (rw not_found at h)
]

none-missing :
    (required : List Text) (finals : List FinalResult)
    → All (λ id. has_result finals id ≡ true) required
    → missing_ids required finals ≡ []
unfolding missing_ids
none-missing [] finals h = refl
none-missing (id ∷ ids) finals h = rw h.0 (none-missing ids finals h.1)

mismatched-none :
    (identity : Text) (finals : List FinalResult)
    → All Holds finals
    → mismatched_reasons identity finals ≡ []
    → All (λ (result : FinalResult). result.identity ≡ identity) finals
unfolding mismatched_reasons
mismatched-none identity [] held h = tt
mismatched-none identity (x ∷ xs) held h = elim (Bool-cases (same_text x.identity identity)) [
  | inl found ↦ (
    same_text→eq x.identity identity found,
    mismatched-none identity xs held.1 (rw (held.0, found) at h),
  )
  | inr not_found ↦ cc (rw (held.0, not_found) at h)
]

none-mismatched :
    (identity : Text) (finals : List FinalResult)
    → All (λ (result : FinalResult). result.identity ≡ identity) finals
    → mismatched_reasons identity finals ≡ []
unfolding mismatched_reasons
none-mismatched identity [] h = refl
none-mismatched identity (x ∷ xs) h = elim (Bool-cases (holds x.status)) [
  | inl found ↦ rw (found, h.0, same_text_refl identity) (none-mismatched identity xs h.1)
  | inr not_found ↦ rw not_found (none-mismatched identity xs h.1)
]

-- No reason is left only where no part gives one.
reasons-none :
    (ids : List Text) (mismatched : List Reason) (tree : TreeState)
    → (open_state (missing_reasons ids ++ (mismatched ++ tree_reasons tree))).0 ≡ State.sealed
    → (ids ≡ []) × (mismatched ≡ []) × (tree ≡ TreeState.clean)
reasons-none [] [] TreeState.clean h = (refl, refl, refl)
reasons-none [] [] (TreeState.modified n) h = cc
reasons-none [] (x ∷ xs) tree h = cc
reasons-none (id ∷ ids) mismatched tree h = cc

seal_sound :
    (blocked : List Reason) (required : List Text) (finals : List FinalResult) (identity : Text)
    (tree : TreeState)
    → blocked_reasons finals ≡ blocked
    → (seal_with blocked required finals identity tree).0 ≡ State.sealed
    → IsSealable required finals identity tree
unfolding seal_with
seal_sound (reason ∷ reasons) required finals identity tree e h = cc
seal_sound [] required finals identity tree e h =
    let held = blocked-none finals e in
    let (ids, same, unchanged) =
      reasons-none (missing_ids required finals) (mismatched_reasons identity finals) tree h in
    record {
      answered = missing-none required finals ids;
      all_hold = held;
      same_identity = mismatched-none identity finals held same;
      tree_clean = unchanged;
    }

seal_complete :
    (required : List Text) (finals : List FinalResult) (identity : Text) (tree : TreeState)
    → IsSealable required finals identity tree
    → (seal_state required finals identity tree).0 ≡ State.sealed
unfolding seal_state seal_with
seal_complete required finals identity tree h = rw (none-blocked finals h.all_hold) (
    rw
      (
        none-missing required finals h.answered,
        none-mismatched identity finals h.same_identity,
        h.tree_clean,
      )
      refl)

pub seal_state-sealed :
    (required : List Text) (finals : List FinalResult) (identity : Text) (tree : TreeState)
    → ((seal_state required finals identity tree).0 ≡ State.sealed)
      ↔ IsSealable required finals identity tree
unfolding seal_state
seal_state-sealed required finals identity tree = (
  seal_sound (blocked_reasons finals) required finals identity tree refl,
  seal_complete required finals identity tree,
)
