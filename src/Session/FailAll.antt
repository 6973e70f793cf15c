-- ===== src/Session/FailAll.antt =====
-- src/connection/driver.rs: `fail_all` and the waiters that are pending.
use rp1_rust.Base.{ℕ, ◌≡◌, refl, false, some, [], ◌∷◌, contains, ==_refl}
use rp1_rust.Base.Result.{err}
use rp1_rust.Dispatch.Live.{Distinct}
use rp1_rust.Session.{
  Session, Completions, DriverError, find, drop_key, keys, fail_one, fail_each, fail_all,
}
use rp1_rust.Session.Waiters.{drop_key-absent}
use rp1_rust.Session.Invariant.{IsSession, Keeps, Keeps-refl, Keeps-trans, settled-Keeps}

fail_one-Keeps :
    (error : DriverError) (session : Session) (id waiter : ℕ)
    → IsSession session
    → find session.completions id ≡ some waiter
    → Keeps session (fail_one error session id)
unfolding fail_one
fail_one-Keeps error session id waiter h found =
    rw found (settled-Keeps session id waiter (err error) h found)

find-head : (id waiter : ℕ) (entries : Completions) → find ((id, waiter) ∷ entries) id ≡ some waiter
unfolding find
find-head id waiter entries = rw ==_refl

drop_key-head :
    (id waiter : ℕ) (entries : Completions)
    → contains (keys entries) id ≡ false
    → drop_key ((id, waiter) ∷ entries) id ≡ entries
unfolding drop_key
drop_key-head id waiter entries h = rw (==_refl, drop_key-absent entries id h)

fail_each-head :
    (error : DriverError) (id : ℕ) (entries : Completions) (session : Session)
    (P : Session → Type 0)
    → P (fail_each error (keys entries) (fail_one error session id))
    → P (fail_each error (id ∷ keys entries) session)
unfolding fail_each
fail_each-head error id entries session P h = h

fail_each-all :
    (error : DriverError) (entries : Completions) (session : Session)
    → session.completions ≡ entries
    → IsSession session
    → ((fail_each error (keys entries) session).completions ≡ [])
      × Keeps session (fail_each error (keys entries) session)
fail_each-all error [] session e h = unfold fail_each in (e, Keeps-refl h)
fail_each-all error ((id, waiter) ∷ entries) session e h =
    let distinct : Distinct (keys ((id, waiter) ∷ entries)) = rw e at h.distinct in
    let found : find session.completions id ≡ some waiter = rw e (find-head id waiter entries) in
    let kept = fail_one-Keeps error session id waiter h found in
    let (empty, keeps) =
      fail_each-all error entries (fail_one error session id)
        (unfold fail_one in rw e (drop_key-head id waiter entries distinct.0)) kept.valid in
    (
      fail_each-head error id entries session (λ s. s.completions ≡ []) empty,
      fail_each-head error id entries session (λ s. Keeps session s) (Keeps-trans kept keeps),
    )

-- From a session in order `fail_all` leaves no waiter pending and the session in order, and answers
-- each waiter as often as it was pending.
pub fail_all-Keeps :
    (error : DriverError) (session : Session)
    → IsSession session
    → ((fail_all error session).completions ≡ []) × Keeps session (fail_all error session)
unfolding fail_all
fail_all-Keeps error session h = fail_each-all error session.completions session refl h
