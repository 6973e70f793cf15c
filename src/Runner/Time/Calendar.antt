-- ===== src/Runner/Time/Calendar.antt =====
-- The Gregorian calendar, told day by day, for tools/validation-runner/src/time.rs.
use rp1_rust.Base.{ℕ, zero, suc, ◌+◌, ◌%◌, Bool, ◌&&◌, ◌||◌, not, ◌==◌, ltb, if◌then◌else◌}
use rp1_rust.Runner.Time.{Date}

unfoldable pub is_leap : ℕ → Bool
is_leap year = (year % 4 == 0 && not (year % 100 == 0)) || year % 400 == 0

unfoldable pub days_in_month : Bool → ℕ → ℕ
days_in_month leap month =
    if month == 2
    then (if leap then 29 else 28)
    else if month == 4 || month == 6 || month == 9 || month == 11
    then 30
    else 31

-- The day after a date of a year that is a leap year or not.
unfoldable pub next_by : Bool → Date → Date
unfolding days_in_month
next_by leap date =
    if ltb date.day (days_in_month leap date.month)
    then record { year = date.year; month = date.month; day = date.day + 1 }
    else if ltb date.month 12
    then record { year = date.year; month = date.month + 1; day = 1 }
    else record { year = date.year + 1; month = 1; day = 1 }

unfoldable pub next_date : Date → Date
unfolding is_leap next_by
next_date date = next_by (is_leap date.year) date

-- The date that many days after 1970-01-01.
unfoldable pub nth_date : ℕ → Date
unfolding next_date
nth_date zero = record { year = 1970; month = 1; day = 1 }
nth_date (suc days) = next_date (nth_date days)
