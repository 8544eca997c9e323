-- ===== src/RtcManager/Calendar.antt =====
-- The calendar of main/rtc_manager.cpp: which dates are valid, and their weekdays.
use power.Prelude.{
  ℕ, ◌+◌, ◌-◌, ◌%◌, ◌≤◌, ◌<◌, ◌≡◌, refl, Bool, true, ◌==◌, ltb, if◌then◌else◌, arith, ==_iff,
  Bool-cases, inl, inr, all_below, all_below_sound,
}
use power.RtcManager.{days_in_month, rtc_weekday}

-- The day after a date, as year, month and day.
pub next_day : ℕ → ℕ → ℕ → ℕ × ℕ × ℕ
next_day year month day =
    if ltb day (days_in_month year month)
    then (year, month, day + 1)
    else if ltb month 12
    then (year, month + 1, 1)
    else (year + 1, 1, 1)

abbrev pub weekday_of : ℕ × ℕ × ℕ → ℕ
weekday_of (y, m, d) = rtc_weekday y m d

-- The weekday moves by one day over the end of month `month + 1` of the year `2000 + year`.
abbrev month_end : ℕ → ℕ → Bool
month_end year month =
    let y = 2000 + year in
    let m = month + 1 in
    weekday_of (next_day y m (days_in_month y m)) == (rtc_weekday y m (days_in_month y m) + 1) % 7

month_ends : all_below 100 (λ y. all_below 12 (month_end y)) ≡ true
unfolding all_below next_day rtc_weekday days_in_month
month_ends = refl

rtc_weekday-day :
    (year month day : ℕ) → rtc_weekday year month (day + 1) ≡ (rtc_weekday year month day + 1) % 7
unfolding rtc_weekday
rtc_weekday-day year month day = omega arith

rtc_weekday-end :
    (y m year month day : ℕ)
    → y < 100
    → m < 12
    → 2000 + y ≡ year
    → m + 1 ≡ month
    → days_in_month year month ≡ day
    → weekday_of (next_day year month day) ≡ (rtc_weekday year month day + 1) % 7
rtc_weekday-end y m year month day hy hm ey em ed =
    rw (← ed, ← ey, ← em)
      ((==_iff _ _).0 (
        all_below_sound 12 (month_end y) m
          (all_below_sound 100 (λ y. all_below 12 (month_end y)) y month_ends hy) hm))

-- The first of January 2000 is a Saturday (6), and from each day of the years 2000 to 2099 to the
-- day after it the weekday moves on by one.
pub rtc_weekday-next_day :
    (year month day : ℕ)
    → 2000 ≤ year
    → year ≤ 2099
    → 1 ≤ month
    → month ≤ 12
    → day ≤ days_in_month year month
    → (rtc_weekday 2000 1 1 ≡ 6)
      × (weekday_of (next_day year month day) ≡ (rtc_weekday year month day + 1) % 7)
rtc_weekday-next_day year month day y1 y2 m1 m2 d = (
  unfold rtc_weekday in refl,
  elim (Bool-cases (ltb day (days_in_month year month))) [
    | inl within ↦ unfold next_day in rw within (rtc_weekday-day year month day)
    | inr ends ↦
        rtc_weekday-end (year - 2000) (month - 1) year month day (omega arith) (omega arith)
          (omega arith) (omega arith) (ground arith)
  ],
)
