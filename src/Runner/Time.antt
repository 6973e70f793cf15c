-- ===== src/Runner/Time.antt =====
-- tools/validation-runner/src/time.rs: the date and the time of day of a count of seconds. A count of
-- days is never negative here, since it is a count of seconds divided.
pub mod Calendar
pub mod Years
pub mod Months
pub mod Civil
mod Tests
use rp1_rust.Base.{
  ℕ, zero, suc, ◌+◌, ◌-◌, ◌*◌, ◌/◌, ◌%◌, Option, some, none, List, [], ◌∷◌, ◌++◌, ltb, leb,
  if◌then◌else◌, length,
}
use rp1_rust.Base.Maybe.{◌>>=◌}
use rp1_rust.Runner.Text.{Text, to_decimal}

pub record Date : Type 0 where
  pub year : ℕ
  pub month : ℕ
  pub day : ℕ

abbrev pub seconds_per_day : ℕ
seconds_per_day = 86400

abbrev pub seconds_per_hour : ℕ
seconds_per_hour = 3600

abbrev pub seconds_per_minute : ℕ
seconds_per_minute = 60

abbrev pub epoch_shift_days : ℕ
epoch_shift_days = 719468

abbrev pub days_per_era : ℕ
days_per_era = 146097

abbrev pub i64_end : ℕ
i64_end = 9223372036854775808

-- A result of `i64` arithmetic that is not negative.
unfoldable pub checked : ℕ → Option ℕ
checked n = if ltb n i64_end then some n else none

-- `year_of_era`
unfoldable pub year_of_era : ℕ → ℕ
year_of_era day_of_era =
    (day_of_era - day_of_era / 1460 + day_of_era / 36524 - day_of_era / 146096) / 365

-- The days of an era before one of its years.
unfoldable pub days_before : ℕ → ℕ
days_before year_of_era = year_of_era * 365 + (year_of_era / 4 - year_of_era / 100)

unfoldable pub month_position : ℕ → ℕ
month_position day_of_year = (day_of_year * 5 + 2) / 153

unfoldable pub day_of : ℕ → ℕ
unfolding month_position
day_of day_of_year = day_of_year - (month_position day_of_year * 153 + 2) / 5 + 1

unfoldable pub month_of : ℕ → ℕ
unfolding month_position
month_of day_of_year =
    let position = month_position day_of_year in
    if ltb position 10 then position + 3 else position - 9

-- `let year = if month <= 2 { .. }` and the answer.
unfoldable pub civil_of : ℕ → ℕ → Option Date
unfolding checked month_of day_of
civil_of shifted_year day_of_year = do
  let month = month_of day_of_year
  year ← if leb month 2 then checked (shifted_year + 1) else some shifted_year
  some (record { year = year; month = month; day = day_of day_of_year })

-- `civil_from_days`. What is computed from the day of an era is too small to overflow.
unfoldable pub civil_from_days : ℕ → Option Date
unfolding checked year_of_era days_before civil_of
civil_from_days days = do
  shifted ← checked (days + epoch_shift_days)
  let era = shifted / days_per_era
  era_days ← checked (era * days_per_era)
  let day_of_era = shifted - era_days
  era_years ← checked (era * 400)
  shifted_year ← checked (year_of_era day_of_era + era_years)
  civil_of shifted_year (day_of_era - days_before (year_of_era day_of_era))

-- `Utc::civil`: a quotient by 86400 fits `i64`, and `civil_from_days` is what may fail.
unfoldable pub civil : ℕ → Option Date
unfolding civil_from_days checked
civil seconds = do days ← checked (seconds / seconds_per_day); civil_from_days days

-- Hour, minute and second.
unfoldable pub split_day : ℕ → ℕ × ℕ × ℕ
split_day seconds_of_day =
    let remainder = seconds_of_day % seconds_per_hour in
    (
      seconds_of_day / seconds_per_hour,
      remainder / seconds_per_minute,
      remainder % seconds_per_minute,
    )

unfoldable zeros : ℕ → Text
zeros zero = []
zeros (suc n) = 48 ∷ zeros n

-- A number in at least `width` places, with zeros before it.
unfoldable pub padded : ℕ → ℕ → Text
unfolding to_decimal zeros
padded width n = let number = to_decimal n in zeros (width - length number) ++ number

unfoldable pub date_text : Date → Text
unfolding padded
date_text date = padded 4 date.year ++ (45 ∷ (padded 2 date.month ++ (45 ∷ padded 2 date.day)))

-- `Utc::date`
unfoldable pub date : ℕ → Option Text
unfolding civil date_text
date seconds = civil seconds >>= λ civil_date. some (date_text civil_date)

unfoldable pub time_text : ℕ × ℕ × ℕ → Text
unfolding padded
time_text (hour, minute, second) =
    padded 2 hour ++ (58 ∷ (padded 2 minute ++ (58 ∷ (padded 2 second ++ 90 ∷ []))))

-- `Utc::timestamp`
unfoldable pub timestamp : ℕ → Option Text
unfolding civil date_text split_day time_text
timestamp seconds = civil seconds >>= λ civil_date.
    some (date_text civil_date ++ (84 ∷ time_text (split_day (seconds % seconds_per_day))))
