-- ===== src/Runner/Time/Tests.antt =====
-- tools/validation-runner/src/time.rs: the module's own tests.
use rp1_rust.Base.{◌≡◌, refl, some, [], ◌∷◌, ◌/◌, arith}
use rp1_rust.Runner.Time.{civil, date, timestamp}
use rp1_rust.Runner.Time.Calendar.{nth_date}
use rp1_rust.Runner.Time.Civil.{civil-nth_date}

-- 2024-02-29T12:34:56Z
leap_day :
    timestamp 1709210096
    ≡ some (
        50 ∷ 48 ∷ 50 ∷ 52 ∷ 45 ∷ 48 ∷ 50 ∷ 45 ∷ 50 ∷ 57 ∷ 84 ∷ 49 ∷ 50 ∷ 58 ∷ 51 ∷ 52 ∷ 58 ∷ 53 ∷ 54
        ∷ 90 ∷ [])
unfolding timestamp
leap_day = refl

-- 1970-01-01
unix_epoch : date 0 ≡ some (49 ∷ 57 ∷ 55 ∷ 48 ∷ 45 ∷ 48 ∷ 49 ∷ 45 ∷ 48 ∷ 49 ∷ [])
unfolding date
unix_epoch = refl

civil-nth_date_example : civil 1709210096 ≡ some (nth_date (1709210096 / 86400))
civil-nth_date_example = civil-nth_date 1709210096 (omega arith)
