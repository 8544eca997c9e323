-- ===== src/RtcManager.antt =====
-- main/rtc_manager.hpp and main/rtc_manager.cpp: the PCF85063A real-time clock.
-- The I2C bus with the chip on it is the parameter `bus`: `Chip` is what the chip holds. The
-- globals are the record `RtcManager`. Whether the mutex was created or taken is an argument.
pub mod Bcd
pub mod Calendar
pub mod Device
mod Tests
use power.Prelude.{
  ℕ, zero, suc, ◌+◌, ◌-◌, ◌*◌, ◌/◌, ◌%◌, ◌^◌, bit_and, bit_or, Bool, true, false, ◌&&◌, ◌||◌, not,
  Option, none, some, List, [], ◌∷◌, ltb, leb, ◌==◌, if◌then◌else◌, get_or, length, Result, ok, err,
  EspErr, invalid_arg, invalid_state, invalid_size, not_supported, timeout, no_mem,
  invalid_response, guard, ◌>>=◌, ◌>>◌,
}
use power.BoardConfig.{BoardConfig, RtcHardwareConfig, RtcHardwareKind, default_config}

abbrev pub control1_register : ℕ
control1_register = 0x00

abbrev pub seconds_register : ℕ
seconds_register = 0x04

abbrev pub control1_stop : ℕ
control1_stop = 0x20

abbrev pub control1_twelve_hour : ℕ
control1_twelve_hour = 0x02

abbrev pub control1_cap_select : ℕ
control1_cap_select = 0x01

abbrev pub seconds_oscillator_stop : ℕ
seconds_oscillator_stop = 0x80

pub record RtcDateTime : Type 0 where
  pub year : ℕ
  pub month : ℕ
  pub day : ℕ
  pub weekday : ℕ
  pub hour : ℕ
  pub minute : ℕ
  pub second : ℕ
  pub oscillator_stopped : Bool

-- `initialization_result` is ESP_OK where it is `ok`.
pub record RtcStatus : Type 0 where
  pub present : Bool
  pub initialized : Bool
  pub initialization_result : Result (Unit {0})

pub record RtcManager : Type 0 where
  pub status : RtcStatus
  pub hardware : RtcHardwareConfig

-- The two halves of the byte do not overlap, so `|` is a sum.
unfoldable pub to_bcd : ℕ → ℕ
to_bcd value = (value / 10 * 16 + value % 10) % 2 ^ 8

unfoldable pub from_bcd : ℕ → ℕ → Option ℕ
from_bcd value mask =
    let masked = bit_and value mask in
    let high = masked / 16 % 16 in
    let low = masked % 16 in if ltb 9 high || ltb 9 low then none else some (high * 10 + low)

unfoldable pub leap_year : ℕ → Bool
leap_year year = (year % 4 == 0 && not (year % 100 == 0)) || year % 400 == 0

abbrev pub days_table : List ℕ
days_table = 31 ∷ 28 ∷ 31 ∷ 30 ∷ 31 ∷ 30 ∷ 31 ∷ 31 ∷ 30 ∷ 31 ∷ 30 ∷ 31 ∷ []

unfoldable pub days_in_month : ℕ → ℕ → ℕ
unfolding leap_year
days_in_month year month =
    if month == 0 || ltb 12 month
    then 0
    else if month == 2 && leap_year year
    then 29
    else get_or days_table (month - 1) 0

unfoldable pub rtc_datetime_valid : RtcDateTime → Bool
rtc_datetime_valid v =
    leb 2000 v.year
    && leb v.year 2099
    && leb 1 v.month
    && leb v.month 12
    && leb 1 v.day
    && leb v.day (days_in_month v.year v.month)
    && leb v.hour 23
    && leb v.minute 59
    && leb v.second 59

abbrev pub month_offsets : List ℕ
month_offsets = 0 ∷ 3 ∷ 2 ∷ 5 ∷ 0 ∷ 3 ∷ 5 ∷ 1 ∷ 4 ∷ 6 ∷ 2 ∷ 4 ∷ []

-- The sum is an `int` in the code and cannot be negative there: y / 100 is at most y.
unfoldable pub rtc_weekday : ℕ → ℕ → ℕ → ℕ
rtc_weekday year month day =
    let adjusted_year = (if ltb month 3 then year + 2 ^ 16 - 1 else year) % 2 ^ 16 in
    (adjusted_year
      + adjusted_year / 4
      - adjusted_year / 100
      + adjusted_year / 400
      + get_or month_offsets (month - 1) 0
      + day)
    % 7

-- i2c_master_transmit_receive and i2c_master_transmit: a read of so many registers from one on,
-- and a write of bytes to the registers from one on.
pub record Bus (Chip : Type 0) : Type 0 where
  pub read : Chip → ℕ → ℕ → Result (List ℕ)
  pub write : Chip → ℕ → List ℕ → Chip × Result (Unit {0})

-- One of the calls of `from_bcd` on the registers that were read.
unfoldable pub register_field : List ℕ → ℕ → ℕ → Result ℕ
register_field registers i mask = elim (from_bcd (get_or registers i 0) mask) [
  | none ↦ err invalid_response
  | some v ↦ ok v
]

-- What `read_datetime_unlocked` makes of the seven registers.
unfoldable pub decode : List ℕ → Result RtcDateTime
decode registers = do
  second ← register_field registers 0 0x7f
  minute ← register_field registers 1 0x7f
  hour ← register_field registers 2 0x3f
  day ← register_field registers 3 0x3f
  weekday ← register_field registers 4 0x07
  month ← register_field registers 5 0x1f
  year ← register_field registers 6 0xff
  let decoded : RtcDateTime = record {
    year = 2000 + year;
    month = month;
    day = day;
    weekday = weekday;
    hour = hour;
    minute = minute;
    second = second;
    oscillator_stopped = not (bit_and (get_or registers 0 0) seconds_oscillator_stop == 0);
  }
  guard (rtc_datetime_valid decoded && leb weekday 6) invalid_response
  ok decoded

-- The seven registers that `set_datetime_unlocked` writes.
unfoldable pub encode : RtcDateTime → List ℕ
encode v =
    to_bcd v.second
    ∷ to_bcd v.minute
    ∷ to_bcd v.hour
    ∷ to_bcd v.day
    ∷ to_bcd (rtc_weekday v.year v.month v.day)
    ∷ to_bcd v.month
    ∷ to_bcd ((v.year + 2 ^ 16 - 2000) % 2 ^ 8)
    ∷ []

-- The control byte without the 12-hour bit, and with the capacitor's bit as the board has it.
unfoldable pub adjust_control : RtcHardwareConfig → ℕ → ℕ
adjust_control hardware control =
    let cleared = bit_and control (2 ^ 8 - 1 - control1_twelve_hour) in
    if hardware.capacitor_12_5_pf
    then bit_or cleared control1_cap_select
    else bit_and cleared (2 ^ 8 - 1 - control1_cap_select)

-- The comparison of `set_datetime_unlocked` after reading back.
abbrev pub confirms : RtcDateTime → RtcDateTime → Bool
confirms verify value =
    not verify.oscillator_stopped
    && verify.year == value.year
    && verify.month == value.month
    && verify.day == value.day
    && verify.hour == value.hour
    && verify.minute == value.minute

module _ {Chip : Type 0} (bus : Bus Chip) where
  unfoldable pub write_registers : Chip → ℕ → List ℕ → Chip × Result (Unit {0})
  write_registers chip start bytes =
      if not (leb (length bytes) 8) then (chip, err invalid_size) else bus.write chip start bytes

  unfoldable pub read_datetime_unlocked : Chip → Result RtcDateTime
  read_datetime_unlocked chip = do registers ← bus.read chip seconds_register 7; decode registers

  -- After the clock is stopped: the time is written, the clock is restarted in any case, and the
  -- result is read back.
  unfoldable pub set_stopped : Chip → ℕ → RtcDateTime → Chip × Result (Unit {0})
  set_stopped chip control value =
      let (timed, written) = write_registers chip seconds_register (encode value) in
      let (restarted, restart) = write_registers timed control1_register (control ∷ []) in
      (
        restarted,
        written >> restart >> (do
          verify ← read_datetime_unlocked restarted
          guard (confirms verify value) invalid_response),
      )

  unfoldable pub set_datetime_unlocked :
      RtcHardwareConfig → Chip → RtcDateTime → Chip × Result (Unit {0})
  set_datetime_unlocked hardware chip value = elim (bus.read chip control1_register 1) [
    | err e ↦ (chip, err e)
    | ok bytes ↦
        let control = adjust_control hardware (get_or bytes 0 0) in
        let (halted, stop) =
          write_registers chip control1_register (bit_or control control1_stop ∷ []) in
        elim stop [ err e ↦ (halted, err e) | ok _ ↦ set_stopped halted control value ]
  ]

  -- `mutex_ok`: the mutex was created; `attached`: what `board_i2c_add_device` returns.
  unfoldable pub rtc_manager_start :
      Chip → BoardConfig → Bool → Result (Unit {0}) → RtcManager × Result (Unit {0})
  rtc_manager_start chip board mutex_ok attached = elim board.rtc.kind [
    | RtcHardwareKind.none ↦ (
      record {
        status = record {
          present = false;
          initialized = false;
          initialization_result = err not_supported;
        };
        hardware = board.rtc;
      },
      err not_supported,
    )
    | RtcHardwareKind.pcf85063a ↦
        if not mutex_ok
        then (
          record {
            status = record {
              present = true;
              initialized = false;
              initialization_result = err not_supported;
            };
            hardware = board.rtc;
          },
          err no_mem,
        )
        else let result : Result (Unit {0}) =
            attached >> (bus.read chip control1_register 1 >>= λ _. ok tt) in
          (
            record {
              status = record {
                present = true;
                initialized = elim result [ ok _ ↦ true | err e ↦ false ];
                initialization_result = result;
              };
              hardware = board.rtc;
            },
            result,
          )
  ]

  abbrev unavailable : RtcManager → EspErr
  unavailable m = if m.status.present then invalid_state else not_supported

  -- `given`: the pointer for the result is not null; `taken`: the mutex was taken in time.
  unfoldable pub rtc_manager_read : RtcManager → Chip → Bool → Bool → Result RtcDateTime
  rtc_manager_read m chip given taken = do
    guard given invalid_arg
    guard m.status.initialized (unavailable m)
    guard taken timeout
    read_datetime_unlocked chip

  unfoldable pub rtc_manager_set : RtcManager → Chip → RtcDateTime → Bool → Chip × Result (Unit {0})
  rtc_manager_set m chip value taken =
      if not m.status.initialized
      then (chip, err (unavailable m))
      else if not (rtc_datetime_valid value)
      then (chip, err invalid_arg)
      else if not taken
      then (chip, err timeout)
      else set_datetime_unlocked m.hardware chip value

unfoldable pub rtc_manager_get_status : RtcManager → Bool → Result RtcStatus
rtc_manager_get_status m given = do guard given invalid_arg; ok m.status
