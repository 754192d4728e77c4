-- ===== src/Match/Age.antt =====
-- internal/match/service.go: `ageFromDOB`, on the years from 0 on. The code takes the larger of 0 and
-- the difference, which is where the subtraction stops here.
use dating_app_backend.Prelude.{
  ℕ, ◌+◌, ◌-◌, ◌≤◌, ◌≡◌, Bool, true, false, not, ◌&&◌, ◌||◌, if◌then◌else◌, ltb, leb, ◌==◌, arith,
}

-- A day of the calendar, in UTC.
pub record Day : Type 0 where
  pub year : ℕ
  pub month : ℕ
  pub day : ℕ

abbrev pub is_before_birthday : Day → Day → Bool
is_before_birthday dob today =
    ltb today.month dob.month || today.month == dob.month && ltb today.day dob.day

-- `ageFromDOB`
unfoldable pub age_from_dob : Day → Day → ℕ
age_from_dob dob today =
    (let age = today.year - dob.year in if is_before_birthday dob today then age - 1 else age)

-- The order of the calendar.
abbrev pub is_earlier : Day → Day → Bool
is_earlier a b =
    ltb a.year b.year
    || a.year == b.year && (ltb a.month b.month || a.month == b.month && ltb a.day b.day)

-- The day on which somebody turns `n`.
abbrev pub birthday : ℕ → Day → Day
birthday n dob = record dob { year = dob.year + n }

years_passed :
    (n y b : ℕ) (before : Bool)
    → 1 ≤ n
    → leb n (if before then y - b - 1 else y - b) ≡ not (ltb y (b + n) || y == b + n && before)
years_passed n y b true h = ground arith
years_passed n y b false h = ground arith

-- The age is at least `n`, for an `n` from 1 on, exactly when the day on which the person turns `n` is
-- not later than today: the age is the number of birthdays that have come.
pub age_from_dob-birthday :
    (n : ℕ) (dob today : Day)
    → 1 ≤ n
    → leb n (age_from_dob dob today) ≡ not (is_earlier today (birthday n dob))
unfolding age_from_dob
age_from_dob-birthday n dob today h =
    years_passed n today.year dob.year (is_before_birthday dob today) h
