-- ===== src/Runner/Time/Civil.antt =====
-- tools/validation-runner/src/time.rs: `civil_from_days` against the calendar.
use rp1_rust.Base.{
  ℕ, zero, suc, ◌+◌, ◌-◌, ◌*◌, ◌/◌, ◌<◌, ◌≤◌, ◌≡◌, refl, ap, ◌∙◌, sym, subst, some, ltb, leb, arith,
  tests, Bool-cases, inl, inr,
}
use rp1_rust.Runner.Time.{checked, i64_end, days_before, month_of, civil_of, civil_from_days, civil}
use rp1_rust.Runner.Time.Calendar.{is_leap, next_date, nth_date}
use rp1_rust.Runner.Time.Years.{length_by, year_length, checked_year}
use rp1_rust.Runner.Time.Months.{date_in, next_date-date_in, next_date-last}

-- Where a day stands: in a year of an era that begins in March, and how far into that year.
record IsAt (days era year day : ℕ) : Type 0 where
  in_era : year < 400
  in_year : day < year_length year
  counts : days + 719468 ≡ era * 146097 + (days_before year + day)
  dated : nth_date days ≡ date_in (year + era * 400) day

abbrev Placed : ℕ → Type 0
Placed days = (era : ℕ) × (year : ℕ) × (day : ℕ) × IsAt days era year day

is_leap-era : (era year : ℕ) → is_leap (year + era * 400) ≡ is_leap year
unfolding is_leap
is_leap-era era year = ground arith

swap : (a b : ℕ) → a + b + 1 ≡ a + 1 + b
swap a b = omega arith

year_length-era : (era year : ℕ) → year_length (year + era * 400) ≡ year_length year
unfolding year_length
year_length-era era year =
    ap (λ (y : ℕ). length_by (is_leap y)) (swap year (era * 400))
    ∙ ap length_by (is_leap-era era (year + 1))

year_length-positive : (year : ℕ) → 365 ≤ year_length year
unfolding year_length
year_length-positive year = elim (Bool-cases (is_leap (year + 1))) [
  | inl e ↦ rw (e, is_leap) (omega arith)
  | inr e ↦ rw (e, is_leap) (omega arith)
]

at_epoch : Placed 0
unfolding nth_date date_in days_before year_length
at_epoch = (
  4,
  369,
  306,
  record { in_era = omega arith; in_year = omega arith; counts = refl; dated = refl },
)

nth_date-suc : (days : ℕ) → nth_date (suc days) ≡ next_date (nth_date days)
unfolding nth_date
nth_date-suc days = refl

last_year : days_before 399 + year_length 399 ≡ 146097
unfolding days_before year_length
last_year = refl

first_year : days_before 0 ≡ 0
unfolding days_before
first_year = refl

-- The day after the last one of a year.
after_last :
    (days era year : ℕ)
    → (after : ℕ) × (next : ℕ) × (next + after * 400 ≡ year + era * 400 + 1)
      × (after * 146097 + days_before next ≡ era * 146097 + (days_before year + year_length year))
      × (next < 400)
    → IsAt days era year (year_length year - 1)
    → Placed (suc days)
after_last days era year (after, next, same_year, same_days, in_era) at =
    let long = year_length-positive next in
    let full = year_length-positive year in
    let counts = at.counts in
    (
      after,
      next,
      0,
      record {
        in_era = in_era;
        in_year = omega arith;
        counts = omega arith;
        dated =
            nth_date-suc days
            ∙ (ap next_date at.dated
                ∙ (ap (λ (n : ℕ). next_date (date_in (year + era * 400) (n - 1)))
                      (sym (year_length-era era year))
                    ∙ (next_date-last (year + era * 400)
                        ∙ ap (λ (y : ℕ). date_in y 0) (sym same_year))));
      },
    )

-- The year after a year, in the same era or the next.
later-year :
    (era year : ℕ)
    → year < 400
    → (after : ℕ) × (next : ℕ) × (next + after * 400 ≡ year + era * 400 + 1)
      × (after * 146097 + days_before next ≡ era * 146097 + (days_before year + year_length year))
      × (next < 400)
later-year era year h = elim (Bool-cases (ltb year 399)) [
  | inl within ↦
      let follows = (checked_year year h).follows (omega tests) in
      (era, year + 1, omega arith, omega arith, omega tests)
  | inr over ↦
      let same : year ≡ 399 = omega tests in
      let full = last_year in
      let empty = first_year in (era + 1, 0, omega arith, rw same (omega arith), omega arith)
]

after_day : (days : ℕ) → Placed days → Placed (suc days)
after_day days (era, year, day, at) = elim (Bool-cases (ltb (day + 1) (year_length year))) [
  | inl within ↦
      let in_year = at.in_year in
      let in_era = at.in_era in
      let counts = at.counts in
      let next =
        next_date-date_in (year + era * 400) day (rw (year_length-era era year) (omega tests)) in
      (
        era,
        year,
        day + 1,
        record {
          in_era = in_era;
          in_year = omega tests;
          counts = omega arith;
          dated = nth_date-suc days ∙ (ap next_date at.dated ∙ next);
        },
      )
  | inr over ↦
      let in_year = at.in_year in
      let last : day ≡ year_length year - 1 = omega tests in
      after_last days era year (later-year era year at.in_era)
        (subst (λ (d : ℕ). IsAt days era year d) last at)
]

placed : (days : ℕ) → Placed days
placed zero = at_epoch
placed (suc days) = after_day days (placed days)

checked-fits : (n : ℕ) → n < i64_end → checked n ≡ some n
unfolding checked
checked-fits n h = ground arith

civil_of-date_in : (year day : ℕ) → year + 1 < i64_end → civil_of year day ≡ some (date_in year day)
unfolding civil_of date_in checked
civil_of-date_in year day h = elim (Bool-cases (leb (month_of day) 2)) [
  | inl e ↦ rw e (rw (checked-fits (year + 1) h) refl)
  | inr e ↦ rw e refl
]

at-civil :
    (days era year day : ℕ)
    → IsAt days era year day
    → days < 9000000000000000000
    → civil_from_days days ≡ some (date_in (year + era * 400) day)
unfolding civil_from_days
at-civil days era year day at h =
    let counts = at.counts in
    let fits = (checked_year year at.in_era).fits in
    let found = (checked_year year at.in_era).found day at.in_year in
    let in_year = at.in_year in
    let in_era = at.in_era in
    let same_era : (days + 719468) / 146097 ≡ era = omega arith in
    let same_day : days + 719468 - era * 146097 ≡ days_before year + day = omega arith in
    let back : days_before year + day - days_before year ≡ day = omega arith in
    rw (checked-fits (days + 719468) (omega arith)) (
      rw same_era (
        rw (checked-fits (era * 146097) (omega arith)) (
          rw (checked-fits (era * 400) (omega arith)) (
            rw same_day (
              rw found (
                rw (checked-fits (year + era * 400) (omega arith))
                  (rw back (civil_of-date_in (year + era * 400) day (omega arith)))))))))

-- A day count of a clock is converted to the date that the calendar reaches when it counts so many days
-- from 1970-01-01, each with the next date of the Gregorian calendar.
pub civil_from_days-nth_date :
    (days : ℕ) → days < 9000000000000000000 → civil_from_days days ≡ some (nth_date days)
civil_from_days-nth_date days h =
    let (era, year, day, at) = placed days in
    at-civil days era year day at h ∙ ap some (sym at.dated)

-- `Utc::civil` of every clock of 64 bits.
pub civil-nth_date :
    (seconds : ℕ)
    → seconds < 18446744073709551616
    → civil seconds ≡ some (nth_date (seconds / 86400))
unfolding civil
civil-nth_date seconds h =
    rw (checked-fits (seconds / 86400) (omega arith))
      (civil_from_days-nth_date (seconds / 86400) (omega arith))
