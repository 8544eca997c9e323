-- ===== src/RtcManager/Tests.antt =====
-- Runs of main/rtc_manager.cpp on a chip that is a plain memory.
use power.Prelude.{
  ℕ, ◌+◌, ◌-◌, ◌/◌, ◌%◌, ◌∙◌, ◌≡◌, refl, true, ◌&&◌, ok, arith, ltb, leb, if◌then◌else◌, get_or,
  length,
}
use power.BoardConfig.{RtcHardwareConfig, RtcHardwareKind}
use power.RtcManager.{
  RtcDateTime, Bus, rtc_datetime_valid, days_in_month, leap_year, rtc_weekday, adjust_control,
  control1_register, set_datetime_unlocked, read_datetime_unlocked,
}
use power.RtcManager.Calendar.{next_day, weekday_of, rtc_weekday-next_day}
use power.RtcManager.Device.{
  IsMemory, stored, window, set_datetime_unlocked-read, set_datetime_unlocked-stores,
}

abbrev leap_day : RtcDateTime
leap_day = record {
  year = 2024;
  month = 2;
  day = 29;
  weekday = 0;
  hour = 23;
  minute = 59;
  second = 58;
  oscillator_stopped = true;
}

leap_day-valid : rtc_datetime_valid leap_day ≡ true
unfolding rtc_datetime_valid days_in_month leap_year
leap_day-valid = refl

abbrev memory : Bus (ℕ → ℕ)
memory = record {
  read = λ c start n. ok (window c start n);
  write = λ c start bytes. (
    λ r. if leb start r && ltb r (start + length bytes) then get_or bytes (r - start) 0 else c r,
    ok tt,
  );
}

abbrev memory-IsMemory : IsMemory memory
memory-IsMemory = record {
  contents = λ c. c;
  reads = λ c start n. refl;
  answers = λ c start bytes. refl;
  writes = λ c start bytes r. refl;
}

-- A chip that was left stopped, in the 12-hour mode.
abbrev halted : ℕ → ℕ
halted r = 0x22

abbrev clock : RtcHardwareConfig
clock = record { kind = RtcHardwareKind.pcf85063a; i2c_address = 81; capacitor_12_5_pf = true }

set_datetime_unlocked-read_example :
    let (chip, result) = set_datetime_unlocked memory clock halted leap_day in
    let new = chip control1_register in
    (result ≡ ok tt)
    × (read_datetime_unlocked memory chip ≡ ok (stored leap_day))
    × (new / 2 % 2 ≡ 0)
    × (new % 2 ≡ 1)
    × (new / 4 ≡ 8)
    × (new / 32 % 2 ≡ 1)
set_datetime_unlocked-read_example =
    set_datetime_unlocked-read memory memory-IsMemory clock halted leap_day leap_day-valid
      (omega arith)

-- The clock is still stopped after it is set.
halted-stays :
    ((set_datetime_unlocked memory clock halted leap_day).1 ≡ ok tt)
    × ((set_datetime_unlocked memory clock halted leap_day).0 control1_register ≡ 0x21)
halted-stays =
    let (done, read, control) =
      set_datetime_unlocked-stores memory memory-IsMemory clock halted leap_day leap_day-valid in
    (done, control ∙ (unfold adjust_control in refl))

rtc_weekday-next_day_example :
    (rtc_weekday 2000 1 1 ≡ 6) × (weekday_of (next_day 2024 2 29) ≡ (rtc_weekday 2024 2 29 + 1) % 7)
rtc_weekday-next_day_example =
    rtc_weekday-next_day 2024 2 29 (omega arith) (omega arith) (omega arith) (omega arith)
      (unfold days_in_month leap_year in omega arith)
