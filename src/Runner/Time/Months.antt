-- ===== src/Runner/Time/Months.antt =====
-- tools/validation-runner/src/time.rs: the days of a year, checked one by one.
use rp1_rust.Base.{
  ℕ, ◌+◌, ◌-◌, ◌<◌, ◌≡◌, refl, ap, ◌∙◌, Bool, true, false, ◌&&◌, not, ◌==◌, ltb, leb, if◌then◌else◌,
  arith, Bool-cases, inl, inr,
}
use rp1_rust.Runner.Time.{Date, month_of, day_of}
use rp1_rust.Runner.Time.Calendar.{is_leap, days_in_month, next_by, next_date}
use rp1_rust.Runner.Time.Years.{all_below, all_below-at, length_by, year_length}

unfoldable month_check : Bool → ℕ → Bool
unfolding month_of day_of days_in_month
month_check leap day =
    let month = month_of day in
    let next = month_of (day + 1) in
    if ltb (day_of day) (days_in_month leap month)
    then next == month && day_of (day + 1) == day_of day + 1
    else if ltb month 12
    then next == month + 1 && day_of (day + 1) == 1 && not (month == 2)
    else next == 1 && day_of (day + 1) == 1

common-checked : all_below (month_check false) 364 ≡ true
unfolding all_below month_check
common-checked = refl

leap-checked : all_below (month_check true) 365 ≡ true
unfolding all_below month_check
leap-checked = refl

-- The date of a day of the year that begins in March of `year`.
unfoldable pub date_in : ℕ → ℕ → Date
unfolding month_of day_of
date_in year day = record {
  year = if leb (month_of day) 2 then year + 1 else year;
  month = month_of day;
  day = day_of day;
}

month_check-true : (leap : Bool) (day : ℕ) → day + 1 < length_by leap → month_check leap day ≡ true
month_check-true true day h = all_below-at (month_check true) 365 day leap-checked (omega arith)
month_check-true false day h = all_below-at (month_check false) 364 day common-checked (omega arith)

abbrev dated : ℕ → ℕ → ℕ → Date
dated year month day = record { year = year; month = month; day = day }

next-named :
    (bound year month day month' day' : ℕ)
    → (if ltb day bound
        then (month' == month) && (day' == day + 1)
        else if ltb month 12
        then (month' == month + 1) && (day' == 1) && not (month == 2)
        else (month' == 1) && (day' == 1))
      ≡ true
    → (if ltb day bound
        then dated (if leb month 2 then year + 1 else year) month (day + 1)
        else if ltb month 12
        then dated (if leb month 2 then year + 1 else year) (month + 1) 1
        else dated ((if leb month 2 then year + 1 else year) + 1) 1 1)
      ≡ dated (if leb month' 2 then year + 1 else year) month' day'
next-named bound year month day month' day' h = ground arith

-- Where the table of the months passes, the next day is the next date.
next_by-checked :
    (leap : Bool) (year day : ℕ)
    → month_check leap day ≡ true
    → next_by leap (date_in year day) ≡ date_in year (day + 1)
unfolding next_by date_in month_check
next_by-checked leap year day h =
    next-named (days_in_month leap (month_of day)) year (month_of day) (day_of day)
      (month_of (day + 1)) (day_of (day + 1)) h

days_in_month-other :
    (a b : Bool) (month : ℕ) → (month == 2) ≡ false → days_in_month a month ≡ days_in_month b month
unfolding days_in_month
days_in_month-other a b month h = rw h refl

next_by-other :
    (a b : Bool) (date : Date) → (date.month == 2) ≡ false → next_by a date ≡ next_by b date
unfolding next_by
next_by-other a b date h = rw (days_in_month-other a b date.month h) refl

late : (month : ℕ) → leb month 2 ≡ false → (month == 2) ≡ false
late month h = ground arith

next_date-by :
    (year day : ℕ)
    → next_date (date_in year day) ≡ next_by (is_leap (date_in year day).year) (date_in year day)
unfolding next_date
next_date-by year day = refl

date_in-early : (year day : ℕ) → leb (month_of day) 2 ≡ true → (date_in year day).year ≡ year + 1
unfolding date_in
date_in-early year day h = rw h refl

date_in-late :
    (year day : ℕ) → leb (month_of day) 2 ≡ false → ((date_in year day).month == 2) ≡ false
unfolding date_in
date_in-late year day h = late (month_of day) h

pub next_date-date_in :
    (year day : ℕ)
    → day + 1 < year_length year
    → next_date (date_in year day) ≡ date_in year (day + 1)
unfolding year_length
next_date-date_in year day h =
    let leap = is_leap (year + 1) in
    let checked = next_by-checked leap year day (month_check-true leap day h) in
    next_date-by year day ∙ elim (Bool-cases (leb (month_of day) 2)) [
      | inl early ↦
          ap (λ (y : ℕ). next_by (is_leap y) (date_in year day)) (date_in-early year day early)
          ∙ checked
      | inr late ↦
          next_by-other (is_leap (date_in year day).year) leap (date_in year day)
            (date_in-late year day late)
          ∙ checked
    ]

year-last : (leap : Bool) (year : ℕ) → (date_in year (length_by leap - 1)).year ≡ year + 1
unfolding date_in
year-last true year = refl
year-last false year = refl

next_by-last :
    (leap : Bool) (year : ℕ)
    → next_by leap (date_in year (length_by leap - 1)) ≡ date_in (year + 1) 0
unfolding next_by date_in
next_by-last true year = refl
next_by-last false year = refl

pub next_date-last :
    (year : ℕ) → next_date (date_in year (year_length year - 1)) ≡ date_in (year + 1) 0
unfolding year_length
next_date-last year =
    let leap = is_leap (year + 1) in
    let last = date_in year (length_by leap - 1) in
    unfold next_date in
    ap (λ (y : ℕ). next_by (is_leap y) last) (year-last leap year) ∙ next_by-last leap year
