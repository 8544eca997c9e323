-- ===== src/TimeManager/Status.antt =====
-- main/time_manager.cpp: the status, and the time in the zone. The C library is a parameter.
use power.Prelude.{
  ℕ, ◌+◌, ◌-◌, ◌*◌, ◌/◌, Bool, true, false, ◌&&◌, ◌||◌, not, Option, none, some, List, [], ltb,
  if◌then◌else◌, take, Text, codes, Result, ok, err, EspErr, fail, no_mem, invalid_arg,
  invalid_state, timeout, not_supported, nvs_not_found, nvs_type_mismatch, other, guard, ◌>>=◌,
  ◌>>◌, ◌==◌,
}
use power.Prelude.Int.{ℤ, pos, negsuc, pos_part, neg_part, sub_ℕ}
use power.TimeManager.{Tm, tm_as_utc_seconds}
use power.TimeManager.Clock.{TimeSource, TimeManager, Calendar}

pub record TimeManagerStatus : Type 0 where
  pub clock_valid : Bool
  pub sntp_started : Bool
  pub source : TimeSource
  pub last_sntp_sync : ℤ
  pub timezone_name : Text
  pub posix_timezone : Text
  pub current_abbreviation : Text

abbrev pub no_tm : Tm
no_tm = record {
  tm_year = 0;
  tm_mon = 0;
  tm_mday = 0;
  tm_wday = 0;
  tm_hour = 0;
  tm_min = 0;
  tm_sec = 0;
  tm_yday = 0;
  tm_isdst = pos 0;
}

pub record TimeSnapshot : Type 0 where
  pub valid : Bool
  pub epoch : ℤ
  pub utc : Tm
  pub local : Tm
  pub utc_offset_minutes : ℤ
  pub timezone_name : Text
  pub abbreviation : Text
  pub source : TimeSource

-- The difference of two integers, and the division of C, which cuts towards 0.
unfoldable pub int_sub : ℤ → ℤ → ℤ
int_sub a b = sub_ℕ (pos_part a + neg_part b) (pos_part b + neg_part a)

unfoldable pub int_div : ℤ → ℕ → ℤ
int_div (pos a) k = pos (a / k)
int_div (negsuc a) k = sub_ℕ 0 ((a + 1) / k)

module _ (c : Calendar) where
  -- strftime leaves a buffer of 8 bytes empty when the name does not fit.
  abbrev pub current_zone : Text → Option Tm → Text
  current_zone tz none = []
  current_zone tz (some local) =
      let name = c.zone_name tz local in if ltb (power.Prelude.length name) 8 then name else []

  unfoldable pub time_manager_get_status : TimeManager → ℤ → Bool → Bool → Result TimeManagerStatus
  time_manager_get_status t now given taken = do
    guard given invalid_arg
    guard taken timeout
    ok (record {
      clock_valid = t.clock_valid;
      sntp_started = t.sntp_started;
      source = t.source;
      last_sntp_sync = t.last_sntp_sync;
      timezone_name = t.timezone_name;
      posix_timezone = t.posix_timezone;
      current_abbreviation = if t.clock_valid then current_zone t.tz (c.localtime t.tz now) else [];
    })

  abbrev pub snapshot_at : TimeManager → ℤ → Option Tm → Option Tm → Result TimeSnapshot
  snapshot_at t now (some utc) (some local) = ok (record {
    valid = true;
    epoch = now;
    utc = utc;
    local = local;
    utc_offset_minutes = int_div (int_sub (tm_as_utc_seconds local) now) 60;
    timezone_name = t.timezone_name;
    abbreviation = current_zone t.tz (some local);
    source = t.source;
  })
  snapshot_at t now _ _ = err fail

  unfoldable pub time_manager_get_time : TimeManager → ℤ → Bool → Bool → Result TimeSnapshot
  time_manager_get_time t now given taken = do
    guard given invalid_arg
    guard taken timeout
    if t.clock_valid
        then snapshot_at t now (c.gmtime now) (c.localtime t.tz now)
        else ok (record {
          valid = false;
          epoch = pos 0;
          utc = no_tm;
          local = no_tm;
          utc_offset_minutes = pos 0;
          timezone_name = t.timezone_name;
          abbreviation = [];
          source = t.source;
        })
