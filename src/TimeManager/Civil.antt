-- ===== src/TimeManager/Civil.antt =====
-- main/time_manager.cpp: days_from_civil against a count of the days, year by year and month by
-- month.
use power.Prelude.{
  ℕ, zero, suc, ◌+◌, ◌-◌, ◌*◌, ◌≤◌, ◌<◌, ◌≡◌, refl, ap, sym, Bool, true, ◌==◌, ok, if◌then◌else◌,
  arith, all_below, all_below_sound, ==_iff,
}
use power.Prelude.Int.{pos}
use power.RtcManager.{RtcDateTime, rtc_datetime_valid, leap_year, days_in_month}
use power.TimeManager.{civil_days, days_from_civil, Tm, tm_as_utc_seconds, rtc_to_epoch}

-- The days of so many years from 1970 on.
unfoldable pub days_of_years : ℕ → ℕ
unfolding leap_year
days_of_years zero = 0
days_of_years (suc n) = days_of_years n + (if leap_year (1970 + n) then 366 else 365)

-- The days of the first months of a year.
unfoldable pub days_of_months : ℕ → ℕ → ℕ
days_of_months year zero = 0
days_of_months year (suc n) = days_of_months year n + days_in_month year (suc n)

-- The days from 1970-01-01 to a date.
abbrev pub days_since_1970 : ℕ → ℕ → ℕ → ℕ
days_since_1970 year month day =
    days_of_years (year - 1970) + days_of_months year (month - 1) + (day - 1)

-- The first of month `m + 1` of the year `1970 + k`.
abbrev first_agrees : ℕ → ℕ → Bool
first_agrees k m =
    civil_days (1970 + k) (m + 1) 1 == 719468 + (days_of_years k + days_of_months (1970 + k) m)

firsts_agree : all_below 130 (λ k. all_below 12 (first_agrees k)) ≡ true
unfolding all_below civil_days days_of_years days_of_months days_in_month leap_year
firsts_agree = refl

civil_days-day :
    (year month day : ℕ) → 1 ≤ day → civil_days year month day ≡ civil_days year month 1 + (day - 1)
unfolding civil_days
civil_days-day year month day h = ground arith

civil_days-first :
    (k m : ℕ)
    → k < 130
    → m < 12
    → civil_days (1970 + k) (m + 1) 1 ≡ 719468 + (days_of_years k + days_of_months (1970 + k) m)
civil_days-first k m a b =
    let year = all_below_sound 130 (λ k. all_below 12 (first_agrees k)) k firsts_agree a in
    let month = all_below_sound 12 (first_agrees k) m year b in (==_iff _ _).0 month

civil_days-count :
    (year month day k m : ℕ)
    → k < 130
    → m < 12
    → 1970 + k ≡ year
    → m + 1 ≡ month
    → 1 ≤ day
    → civil_days year month day ≡ 719468 + (days_of_years k + days_of_months year m + (day - 1))
civil_days-count year month day k m a b y n e =
    let first : civil_days year month 1 ≡ 719468 + (days_of_years k + days_of_months year m) =
      rw (sym y, sym n) (civil_days-first k m a b) in
    omega (arith, first, civil_days-day year month day e)

-- The seconds from 1970-01-01 00:00:00 to a date and time.
unfoldable pub seconds_since_1970 : RtcDateTime → ℕ
seconds_since_1970 v =
    ((days_since_1970 v.year v.month v.day * 24 + v.hour) * 60 + v.minute) * 60 + v.second

tm_as_utc_seconds-count :
    (tm : Tm) (days : ℕ)
    → civil_days (tm.tm_year + 1900) (tm.tm_mon + 1) tm.tm_mday ≡ 719468 + days
    → tm_as_utc_seconds tm ≡ pos (((days * 24 + tm.tm_hour) * 60 + tm.tm_min) * 60 + tm.tm_sec)
unfolding tm_as_utc_seconds days_from_civil
tm_as_utc_seconds-count tm days counted = ground arith

-- The bounds of a valid date.
valid-bounds :
    (v : RtcDateTime)
    → rtc_datetime_valid v ≡ true
    → (2000 ≤ v.year) × (v.year ≤ 2099) × (1 ≤ v.month) × (v.month ≤ 12) × (1 ≤ v.day)
unfolding rtc_datetime_valid
valid-bounds v valid = ground arith

-- For a valid date of the clock, from 2000 to 2099: the epoch is the number of seconds from
-- 1970-01-01 00:00:00 to it, where the days are counted year by year, with 366 days in a leap
-- year, and in the year month by month.
pub rtc_to_epoch-count :
    (v : RtcDateTime)
    → rtc_datetime_valid v ≡ true
    → rtc_to_epoch v true ≡ ok (pos (seconds_since_1970 v))
unfolding rtc_to_epoch seconds_since_1970
rtc_to_epoch-count v valid =
    let (a, b, c, d, e) = valid-bounds v valid in
    let year : v.year - 1900 + 1900 ≡ v.year = omega arith in
    let month : v.month - 1 + 1 ≡ v.month = omega arith in
    let counted =
      civil_days-count v.year v.month v.day (v.year - 1970) (v.month - 1) (omega arith)
        (omega arith) (omega arith) month e in
    let whole : civil_days (v.year - 1900 + 1900) (v.month - 1 + 1) v.day
        ≡ 719468 + days_since_1970 v.year v.month v.day =
      rw (year, month) counted in
    rw valid (ap ok (tm_as_utc_seconds-count _ _ whole))
