-- ===== src/Session/Waiters.antt =====
-- src/connection/driver.rs: the completions as a map of waiters, and counts of a waiter's answers.
use rp1_rust.Base.{
  ℕ, ◌+◌, ◌≡◌, inl, inr, refl, true, false, some, none, List, [], ◌∷◌, ◌++◌, ◌==◌, if◌then◌else◌,
  contains, arith, Bool-cases,
}
use rp1_rust.Dispatch.{remove}
use rp1_rust.Dispatch.Live.{Distinct}
use rp1_rust.Session.{Completions, Outcome, find, drop_key, keys}

-- How often a waiter stands in the completions, and how often it has been answered.
unfoldable pub pending : ℕ → Completions → ℕ
pending waiter [] = 0
pending waiter ((key, other) ∷ entries) =
    (if other == waiter then 1 else 0) + pending waiter entries

unfoldable pub answered : ℕ → List (ℕ × Outcome) → ℕ
answered waiter [] = 0
answered waiter ((other, outcome) ∷ answers) =
    (if other == waiter then 1 else 0) + answered waiter answers

pub answered-snoc :
    (waiter : ℕ) (answers : List (ℕ × Outcome)) (other : ℕ) (outcome : Outcome)
    → answered waiter (answers ++ (other, outcome) ∷ [])
      ≡ answered waiter answers + (if other == waiter then 1 else 0)
unfolding answered
answered-snoc waiter [] other outcome = ground arith
answered-snoc waiter ((x, o) ∷ answers) other outcome =
    ground (arith, answered-snoc waiter answers other outcome)

pub keys-drop_key :
    (entries : Completions) (id : ℕ) → keys (drop_key entries id) ≡ remove (keys entries) id
unfolding drop_key remove
keys-drop_key [] id = refl
keys-drop_key ((key, waiter) ∷ entries) id = ground (arith, keys-drop_key entries id)

pub find-none :
    (entries : Completions) (id : ℕ) → find entries id ≡ none → contains (keys entries) id ≡ false
unfolding find contains
find-none [] id h = refl
find-none ((key, waiter) ∷ entries) id h = ground (arith, find-none entries id)

pub find-some :
    (entries : Completions) (id waiter : ℕ)
    → find entries id ≡ some waiter
    → contains (keys entries) id ≡ true
unfolding find contains
find-some [] id waiter h = cc
find-some ((key, other) ∷ entries) id waiter h = ground (arith, find-some entries id waiter)

pub drop_key-absent :
    (entries : Completions) (id : ℕ)
    → contains (keys entries) id ≡ false
    → drop_key entries id ≡ entries
unfolding drop_key contains
drop_key-absent [] id h = refl
drop_key-absent ((key, waiter) ∷ entries) id h = ground (arith, drop_key-absent entries id)

-- Removing an entry takes away its waiter, once.
pub pending-drop_key :
    (waiter : ℕ) (entries : Completions) (id found : ℕ)
    → Distinct (keys entries)
    → find entries id ≡ some found
    → pending waiter entries
      ≡ (if found == waiter then 1 else 0) + pending waiter (drop_key entries id)
unfolding pending find drop_key
pending-drop_key waiter [] id found h f = cc
pending-drop_key waiter ((key, other) ∷ entries) id found h f = elim (Bool-cases (key == id)) [
  | inl e ↦ ground (arith, drop_key-absent entries id)
  | inr e ↦ ground (arith, pending-drop_key waiter entries id found h.1)
]
