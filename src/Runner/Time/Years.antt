-- ===== src/Runner/Time/Years.antt =====
-- tools/validation-runner/src/time.rs: the years of an era, checked one by one.
use rp1_rust.Base.{
  ℕ, zero, suc, ◌+◌, ◌-◌, ◌*◌, ◌/◌, ◌<◌, ◌≤◌, ◌≡◌, refl, Bool, true, ◌&&◌, ◌||◌, ◌==◌, ltb, leb,
  if◌then◌else◌, arith, tests, Bool-cases, inl, inr,
}
use rp1_rust.Runner.Time.{year_of_era, days_before}
use rp1_rust.Runner.Time.Calendar.{is_leap}

-- A test that passes below a bound.
unfoldable pub all_below : (ℕ → Bool) → ℕ → Bool
all_below test zero = true
all_below test (suc n) = test n && all_below test n

pub all_below-at : (test : ℕ → Bool) (n i : ℕ) → all_below test n ≡ true → i < n → test i ≡ true
unfolding all_below
all_below-at test zero i h k = absurd (omega arith)
all_below-at test (suc n) i h k = elim (Bool-cases (i == n)) [
  | inl e ↦ let same : i ≡ n = omega tests in rw same (ground arith)
  | inr e ↦ all_below-at test n i (ground arith) (omega tests)
]

-- The days of the year that begins in March of `year`: its leap day stands in the next one.
abbrev pub length_by : Bool → ℕ
length_by leap = if leap then 366 else 365

unfoldable pub year_length : ℕ → ℕ
unfolding is_leap
year_length year = length_by (is_leap (year + 1))

unfoldable spread : ℕ → ℕ
spread day = day - day / 1460 + day / 36524 - day / 146096

spread_mono : (a b : ℕ) → a ≤ b → spread a ≤ spread b
unfolding spread
spread_mono a b h = omega arith

unfoldable year_check : ℕ → Bool
unfolding spread days_before year_length
year_check year =
    leb (year * 365) (spread (days_before year))
    && ltb (spread (days_before year + year_length year - 1)) ((year + 1) * 365)
    && leb (days_before year + year_length year) 146097
    && (year == 399 || days_before (year + 1) == days_before year + year_length year)

years-checked : all_below year_check 400 ≡ true
unfolding all_below year_check
years-checked = refl

-- What is checked of a year of an era.
pub record Checked (year : ℕ) : Type 0 where
  pub found : (day : ℕ) → day < year_length year → year_of_era (days_before year + day) ≡ year
  pub fits : days_before year + year_length year ≤ 146097
  pub follows : year < 399 → days_before (year + 1) ≡ days_before year + year_length year

year_check-true :
    (year : ℕ)
    → year < 400
    → (year * 365 ≤ spread (days_before year))
      × ((spread (days_before year + year_length year - 1) < (year + 1) * 365)
          × ((days_before year + year_length year ≤ 146097)
              × (year < 399 → days_before (year + 1) ≡ days_before year + year_length year)))
unfolding year_check
year_check-true year h =
    let checked = all_below-at year_check 400 year years-checked h in ground arith

quotient : (x year : ℕ) → year * 365 ≤ x → x < (year + 1) * 365 → x / 365 ≡ year
quotient x year low high = omega arith

year-found :
    (year day : ℕ)
    → year * 365 ≤ spread (days_before year)
    → spread (days_before year + year_length year - 1) < (year + 1) * 365
    → day < year_length year
    → year_of_era (days_before year + day) ≡ year
unfolding year_of_era spread
year-found year day first last h =
    let low = spread_mono (days_before year) (days_before year + day) (omega arith) in
    let high =
      spread_mono (days_before year + day) (days_before year + year_length year - 1)
        (omega arith) in
    quotient (spread (days_before year + day)) year (omega arith) (omega arith)

pub checked_year : (year : ℕ) → year < 400 → Checked year
checked_year year h =
    let (first, (last, (fits, next))) = year_check-true year h in
    record { found = λ day k. year-found year day first last k; fits = fits; follows = λ k. next k }
