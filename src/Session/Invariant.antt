-- ===== src/Session/Invariant.antt =====
-- src/connection/driver.rs: the invariant of the driver's session, and what keeps it.
use rp1_rust.Base.{ℕ, ◌+◌, ◌≡◌, refl, ◌∙◌, some, List, [], ◌∷◌, ◌++◌, contains, arith}
use rp1_rust.Dispatch.{Registry, retire}
use rp1_rust.Dispatch.Live.{Distinct, IsRegistry, contains-remove, remove-Distinct}
use rp1_rust.Session.{Session, Outcome, find, drop_key, keys, drain_buffer}
use rp1_rust.Session.Waiters.{pending, answered, answered-snoc, keys-drop_key, pending-drop_key}

-- The live ids are the keys of the completions, each once, and 0 is none of them.
pub record IsSession (session : Session) : Type 0 where
  pub registry : IsRegistry session.live
  pub distinct : Distinct (keys session.completions)
  pub matched : (id : ℕ) → contains session.live.live id ≡ contains (keys session.completions) id

-- The answers that a waiter has had and those that are still to come.
unfoldable pub tally : ℕ → Session → ℕ
tally waiter session = answered waiter session.delivered + pending waiter session.completions

-- `session'` is a session, and no waiter was lost or answered twice on the way to it.
pub record Keeps (session session' : Session) : Type 0 where
  pub valid : IsSession session'
  pub tallied : (waiter : ℕ) → tally waiter session' ≡ tally waiter session

pub Keeps-refl : {session : Session} → IsSession session → Keeps session session
Keeps-refl h = record { valid = h; tallied = λ waiter. refl }

pub Keeps-trans : {a b c : Session} → Keeps a b → Keeps b c → Keeps a c
Keeps-trans h k = record {
  valid = k.valid;
  tallied = λ waiter. k.tallied waiter ∙ h.tallied waiter;
}

pub drain_buffer-Keeps :
    (session : Session) (n : ℕ) → IsSession session → Keeps session (drain_buffer session n)
unfolding drain_buffer tally
drain_buffer-Keeps session n h = record {
  valid = record { registry = h.registry; distinct = h.distinct; matched = h.matched };
  tallied = λ waiter. refl;
}

-- The session after the waiter of `id` has been answered.
abbrev pub settled : Session → ℕ → ℕ → Outcome → Session
settled session id waiter outcome = record session {
  completions = drop_key session.completions id;
  live = (retire session.live id).1;
  delivered = session.delivered ++ (waiter, outcome) ∷ [];
}

remove-IsRegistry :
    (registry : Registry) (id : ℕ) → IsRegistry registry → IsRegistry (retire registry id).1
unfolding retire
remove-IsRegistry registry id h = record {
  distinct = remove-Distinct registry.live id h.distinct;
  no_zero = ground (arith, contains-remove registry.live id 0, h.no_zero);
}

matched-remove :
    (session : Session) (id : ℕ)
    → IsSession session
    → (other : ℕ)
    → contains (retire session.live id).1.live other
      ≡ contains (keys (drop_key session.completions id)) other
unfolding retire
matched-remove session id h other = rw keys-drop_key (
    ground (
      arith,
      contains-remove session.live.live id other,
      contains-remove (keys session.completions) id other,
      h.matched other,
    ))

pub removed-IsSession :
    (session : Session) (id : ℕ) (delivered : List (ℕ × Outcome))
    → IsSession session
    → IsSession (record session {
      completions = drop_key session.completions id;
      live = (retire session.live id).1;
      delivered = delivered;
    })
removed-IsSession session id delivered h = record {
  registry = remove-IsRegistry session.live id h.registry;
  distinct = rw keys-drop_key (remove-Distinct (keys session.completions) id h.distinct);
  matched = matched-remove session id h;
}

pub settled-Keeps :
    (session : Session) (id waiter : ℕ) (outcome : Outcome)
    → IsSession session
    → find session.completions id ≡ some waiter
    → Keeps session (settled session id waiter outcome)
unfolding tally
settled-Keeps session id waiter outcome h found = record {
  valid = removed-IsSession session id (session.delivered ++ (waiter, outcome) ∷ []) h;
  tallied = λ other. ground (
    arith,
    answered-snoc other session.delivered waiter outcome,
    pending-drop_key other session.completions id waiter h.distinct found,
  );
}
