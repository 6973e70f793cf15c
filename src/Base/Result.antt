-- ===== src/Base/Result.antt =====
-- `Result<A, E>` with `?` as bind, and the conversions into it.
use mathlib.Core.Path.{◌≡◌, refl}
use mathlib.Core.Bool.{Bool, true, false}
use mathlib.Core.Option.{Option, none, some}
use mathlib.Core.Logic.{◌⊎◌, inl, inr}

pub data Result {ℓ κ} (A : Type ℓ) (E : Type κ) : Type (ℓ ⊔ κ) where
  ok : A → Result A E
  err : E → Result A E

infixl 5 ◌>>=◌ ◌>>◌
abbrev pub ◌>>=◌ {ℓ κ μ} :
    {A : Type ℓ} {B : Type κ} {E : Type μ} → Result A E → (A → Result B E) → Result B E
ok a >>= f = f a
err e >>= f = err e

abbrev pub ◌>>◌ {κ μ} : {B : Type κ} {E : Type μ} → Result (Unit {0}) E → Result B E → Result B E
m >> k = m >>= λ _. k

-- `if test { return Err(e) }`
abbrev pub fail_if {μ} : {E : Type μ} → Bool → E → Result (Unit {0}) E
fail_if true e = err e
fail_if false e = ok tt

-- `option.ok_or(e)?`
abbrev pub ok_or {ℓ μ} : {A : Type ℓ} {E : Type μ} → Option A → E → Result A E
ok_or none e = err e
ok_or (some a) e = ok a

-- `result.map_err(f)`
abbrev pub map_err {ℓ κ μ} :
    {A : Type ℓ} {E : Type κ} {F : Type μ} → (E → F) → Result A E → Result A F
map_err f (ok a) = ok a
map_err f (err e) = err (f e)

pub Result-cases {ℓ κ} :
    {A : Type ℓ} {E : Type κ} (r : Result A E) → ((a : A) × (r ≡ ok a)) ⊎ ((e : E) × (r ≡ err e))
Result-cases (ok a) = inl (a, refl)
Result-cases (err e) = inr (e, refl)

-- Where a chain answers, its first part answers, and the rest answers the same.
pub >>=-eq-ok {ℓ κ μ} :
    {A : Type ℓ} {B : Type κ} {E : Type μ} (first : Result A E) (rest : A → Result B E) {answer : B}
    → (first >>= rest) ≡ ok answer
    → (part : A) × (first ≡ ok part) × (rest part ≡ ok answer)
>>=-eq-ok (err failure) rest chained = cc
>>=-eq-ok (ok part) rest chained = (part, refl, chained)

pub map_err-eq-ok {ℓ κ μ} :
    {A : Type ℓ} {E : Type κ} {F : Type μ} (r : Result A E) (f : E → F) {a : A}
    → map_err f r ≡ ok a
    → r ≡ ok a
map_err-eq-ok (ok x) f h = cc
map_err-eq-ok (err e) f h = cc

pub fail_if-eq-ok {μ} :
    {E : Type μ} (t : Bool) (e : E) {u : Unit {0}} → fail_if t e ≡ ok u → t ≡ false
fail_if-eq-ok true e h = cc
fail_if-eq-ok false e h = refl

pub ok_or-eq-ok {ℓ μ} :
    {A : Type ℓ} {E : Type μ} (o : Option A) (e : E) {a : A} → ok_or o e ≡ ok a → o ≡ some a
ok_or-eq-ok none e h = cc
ok_or-eq-ok (some x) e h = cc

-- Every error that `r` can end with satisfies `P`.
pub record FailsWith {ℓ κ μ} {A : Type ℓ} {E : Type κ} (P : E → Type μ) (r : Result A E)
    : Type (ℓ ⊔ κ ⊔ μ) where
  pub at : (e : E) → r ≡ err e → P e

module _ {ℓ κ μ} {A : Type ℓ} {E : Type κ} {P : E → Type μ} where
  pub FailsWith-ok : (a : A) → FailsWith P (ok a)
  FailsWith-ok a = record { at = λ e h. cc }

  pub FailsWith-ok_or : (o : Option A) (e : E) → P e → FailsWith P (ok_or o e)
  FailsWith-ok_or none e p = record { at = λ d h. let same : e ≡ d = cc in rw (← same) p }
  FailsWith-ok_or (some a) e p = record { at = λ d h. cc }

module _ {κ μ} {E : Type κ} {P : E → Type μ} where
  pub FailsWith-fail_if : (b : Bool) (e : E) → P e → FailsWith P (fail_if b e)
  FailsWith-fail_if true e p = record { at = λ d h. let same : e ≡ d = cc in rw (← same) p }
  FailsWith-fail_if false e p = record { at = λ d h. cc }

module _ {ℓ ν κ μ} {A : Type ℓ} {B : Type ν} {E : Type κ} {P : E → Type μ} where
  pub FailsWith-bind :
      (m : Result A E) (f : A → Result B E)
      → FailsWith P m
      → ((a : A) → FailsWith P (f a))
      → FailsWith P (m >>= f)
  FailsWith-bind (ok a) f hm hf = hf a
  FailsWith-bind (err e) f hm hf = record { at = λ d h. hm.at d (cc) }

pub ruleset fails_rules = (FailsWith-ok, FailsWith-ok_or, FailsWith-fail_if, FailsWith-bind)
