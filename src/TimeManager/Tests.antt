-- ===== src/TimeManager/Tests.antt =====
-- Runs of main/time_manager.cpp, on a chip that is a plain memory.
use power.Prelude.{
  ℕ, ◌+◌, ◌-◌, ◌≡◌, refl, true, false, ◌&&◌, ok, ltb, leb, if◌then◌else◌, get_or, length,
}
use power.Prelude.Int.{pos}
use power.BoardConfig.{RtcHardwareKind}
use power.RtcManager.{RtcDateTime, RtcManager, Bus, rtc_datetime_valid, days_in_month, leap_year}
use power.RtcManager.Device.{IsMemory, window}
use power.TimeManager.{rtc_to_epoch, days_from_civil, civil_days}
use power.TimeManager.Clock.{initial, manual, rtc, time_manager_set_utc, time_manager_seed_from_rtc}
use power.TimeManager.Civil.{seconds_since_1970, rtc_to_epoch-count}
use power.TimeManager.Restart.{set_utc-seed}

abbrev new_year : RtcDateTime
new_year = record {
  year = 2026;
  month = 1;
  day = 1;
  weekday = 0;
  hour = 12;
  minute = 30;
  second = 15;
  oscillator_stopped = true;
}

new_year-valid : rtc_datetime_valid new_year ≡ true
unfolding rtc_datetime_valid days_in_month leap_year
new_year-valid = refl

days_from_civil-2000 : days_from_civil 2000 1 1 ≡ pos 10957
unfolding days_from_civil civil_days
days_from_civil-2000 = refl

rtc_to_epoch-count_example : rtc_to_epoch new_year true ≡ ok (pos (seconds_since_1970 new_year))
rtc_to_epoch-count_example = rtc_to_epoch-count new_year new_year-valid

abbrev cells : Bus (ℕ → ℕ)
cells = record {
  read = λ chip start n. ok (window chip start n);
  write = λ chip start bytes. (
    λ r. if leb start r && ltb r (start + length bytes) then get_or bytes (r - start) 0 else chip r,
    ok tt,
  );
}

abbrev cells-IsMemory : IsMemory cells
cells-IsMemory = record {
  contents = λ chip. chip;
  reads = λ chip start n. refl;
  answers = λ chip start bytes. refl;
  writes = λ chip start bytes r. refl;
}

abbrev working : RtcManager
working = record {
  status = record { present = true; initialized = true; initialization_result = ok tt };
  hardware = record {
    kind = RtcHardwareKind.pcf85063a;
    i2c_address = 81;
    capacitor_12_5_pf = false;
  };
}

set_utc-seed_example :
    let (t1, chip1, result) =
      time_manager_set_utc cells initial working (λ r. 0) new_year true true true in
    let epoch = pos (seconds_since_1970 new_year) in
    (result ≡ ok tt)
    × (t1 ≡ record initial { system_time = epoch; clock_valid = true; source = manual })
    × (time_manager_seed_from_rtc cells initial working chip1 true true true
        ≡ (record initial { system_time = epoch; clock_valid = true; source = rtc }, ok tt))
set_utc-seed_example =
    set_utc-seed cells cells-IsMemory initial initial working working (λ r. 0) new_year refl refl
      new_year-valid
