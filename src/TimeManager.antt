-- ===== src/TimeManager.antt =====
-- main/time_manager.hpp and main/time_manager.cpp: the system time, its source, and its zone.
-- This module counts the seconds of a date; Timezones has the zones, Clock the state and the
-- operations on the time, Sntp the task of SNTP, Status the queries. A year is a natural number
-- from 1 on, as C's `int` is in every call of the firmware.
pub mod Timezones
pub mod Clock
pub mod Sntp
pub mod Status
pub mod Civil
pub mod Restart
mod Tests
use power.Prelude.{
  ℕ, suc, ◌+◌, ◌-◌, ◌*◌, ◌/◌, ◌%◌, ◌^◌, Bool, ltb, leb, if◌then◌else◌, Option, none, some, Result,
  ok, err, fail, invalid_arg, guard, ◌>>=◌, ◌>>◌, false,
}
use power.Prelude.Int.{ℤ, pos, negsuc, sub_ℕ}
use power.RtcManager.{RtcDateTime, rtc_datetime_valid}

abbrev pub times_ℕ : ℤ → ℕ → ℤ
times_ℕ (pos a) k = pos (a * k)
times_ℕ (negsuc a) k = sub_ℕ 0 (suc a * k)

abbrev pub plus_ℕ : ℤ → ℕ → ℤ
plus_ℕ (pos a) n = pos (a + n)
plus_ℕ (negsuc a) n = sub_ℕ n (suc a)

-- The days from 0000-03-01 on, before `days_from_civil` subtracts 719468.
unfoldable pub civil_days : ℕ → ℕ → ℕ → ℕ
civil_days year month day =
    let y = if leb month 2 then year - 1 else year in
    let era = y / 400 in
    let year_of_era = y - era * 400 in
    let day_of_year = (153 * (if ltb 2 month then month - 3 else month + 9) + 2) / 5 + day - 1 in
    let day_of_era = year_of_era * 365 + year_of_era / 4 - year_of_era / 100 + day_of_year in
    era * 146097 + day_of_era

unfoldable pub days_from_civil : ℕ → ℕ → ℕ → ℤ
days_from_civil year month day = sub_ℕ (civil_days year month day) 719468

-- The fields of `struct tm` that the code reads; `tm_year` counts from 1900.
pub record Tm : Type 0 where
  pub tm_year : ℕ
  pub tm_mon : ℕ
  pub tm_mday : ℕ
  pub tm_wday : ℕ
  pub tm_hour : ℕ
  pub tm_min : ℕ
  pub tm_sec : ℕ
  pub tm_yday : ℕ
  pub tm_isdst : ℤ

unfoldable pub tm_as_utc_seconds : Tm → ℤ
tm_as_utc_seconds value =
    let days = days_from_civil (value.tm_year + 1900) (value.tm_mon + 1) value.tm_mday in
    plus_ℕ (plus_ℕ (plus_ℕ (times_ℕ days 86400) (value.tm_hour * 3600)) (value.tm_min * 60))
      value.tm_sec

-- `given`: the pointer for the result is not null.
unfoldable pub rtc_to_epoch : RtcDateTime → Bool → Result ℤ
rtc_to_epoch value given = do
  guard (if given then rtc_datetime_valid value else false) invalid_arg
  ok (
      tm_as_utc_seconds (record {
        tm_year = value.year - 1900;
        tm_mon = value.month - 1;
        tm_mday = value.day;
        tm_wday = 0;
        tm_hour = value.hour;
        tm_min = value.minute;
        tm_sec = value.second;
        tm_yday = 0;
        tm_isdst = pos 0;
      }))

-- The date of a decoded time, in the widths of RtcDateTime.
abbrev pub converted : Tm → RtcDateTime
converted utc = record {
  year = (utc.tm_year + 1900) % 2 ^ 16;
  month = (utc.tm_mon + 1) % 2 ^ 8;
  day = utc.tm_mday % 2 ^ 8;
  weekday = utc.tm_wday % 2 ^ 8;
  hour = utc.tm_hour % 2 ^ 8;
  minute = utc.tm_min % 2 ^ 8;
  second = utc.tm_sec % 2 ^ 8;
  oscillator_stopped = false;
}

-- `gmtime` is gmtime_r; `none` is a null result.
unfoldable pub epoch_to_rtc : (ℤ → Option Tm) → ℤ → Bool → Result RtcDateTime
epoch_to_rtc gmtime epoch given = do
  guard given invalid_arg
  elim (gmtime epoch) [
    | none ↦ err fail
    | some utc ↦ guard (rtc_datetime_valid (converted utc)) invalid_arg >> ok (converted utc)
  ]
