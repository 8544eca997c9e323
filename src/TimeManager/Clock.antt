-- ===== src/TimeManager/Clock.antt =====
-- main/time_manager.cpp: the globals, and the operations on them.
-- The bus of the clock chip, NVS and the C library are parameters. Whether a mutex was taken, and
-- what FreeRTOS and SNTP answer, are arguments. `system_time` is what settimeofday was last given.
use power.Prelude.{
  ℕ, Bool, true, false, not, Option, none, some, [], if◌then◌else◌, take, Text, codes, Result, ok,
  err, fail, no_mem, invalid_arg, invalid_state, timeout, nvs_not_found, nvs_type_mismatch, other,
  guard, ◌>>=◌, ◌>>◌, ◌==◌,
}
use power.Prelude.Int.{ℤ, pos}
use power.RtcManager.{RtcDateTime, RtcManager, Bus, rtc_manager_read, rtc_manager_set}
use power.TimeManager.{Tm, rtc_to_epoch}
use power.TimeManager.Timezones.{TimezoneInfo, timezone, find_timezone, default_timezone}

pub data TimeSource : Type 0 where
  unset rtc manual sntp : TimeSource

unfoldable pub time_source_name : TimeSource → Text
time_source_name unset = codes "unset"
time_source_name rtc = codes "rtc"
time_source_name manual = codes "manual"
time_source_name sntp = codes "sntp"

abbrev pub time_manager_sntp_server : Text
time_manager_sntp_server = codes "162.159.200.123"

-- `message` is what stands in the queue of one element; `tz` the variable TZ of the environment.
pub record TimeManager : Type 0 where
  pub has_mutex : Bool
  pub timezone_name : Text
  pub posix_timezone : Text
  pub tz : Text
  pub clock_valid : Bool
  pub sntp_started : Bool
  pub source : TimeSource
  pub last_sntp_sync : ℤ
  pub has_queue : Bool
  pub has_task : Bool
  pub message : Option ℤ
  pub system_time : ℤ

abbrev pub initial : TimeManager
initial = record {
  has_mutex = false;
  timezone_name = [];
  posix_timezone = [];
  tz = [];
  clock_valid = false;
  sntp_started = false;
  source = unset;
  last_sntp_sync = pos 0;
  has_queue = false;
  has_task = false;
  message = none;
  system_time = pos 0;
}

-- What the code calls of NVS, for the one text that it keeps; `get_str` takes the buffer's size.
pub record Settings (Flash : Type 0) : Type 0 where
  pub nvs_open : Bool → Flash → Result (Unit {0})
  pub get_str : Flash → ℕ → Result Text
  pub set_str : Flash → Text → Flash × Result (Unit {0})
  pub commit : Flash → Flash × Result (Unit {0})

-- gmtime_r, localtime_r in a zone, and strftime with "%Z" in it.
pub record Calendar : Type 0 where
  pub gmtime : ℤ → Option Tm
  pub localtime : Text → ℤ → Option Tm
  pub zone_name : Text → Tm → Text

-- `set` says whether setenv succeeded. strlcpy cuts the texts.
unfoldable pub apply_timezone_locked :
    TimeManager → TimezoneInfo → Bool → TimeManager × Result (Unit {0})
apply_timezone_locked t zone set = if not set then (t, err no_mem) else (
  record t {
    tz = zone.posix_rule;
    timezone_name = take 23 zone.human_name;
    posix_timezone = take 47 zone.posix_rule;
  },
  ok tt,
)

-- What `load_timezone` makes of the text that is read; 0x110c is ESP_ERR_NVS_INVALID_LENGTH.
abbrev pub or_default : Result Text → Result Text
or_default (ok name) = ok name
or_default (err nvs_not_found) = ok default_timezone
or_default (err nvs_type_mismatch) = ok default_timezone
or_default (err (other code)) = if code == 0x110c then ok default_timezone else err (other code)
or_default (err e) = err e

abbrev pub open_or_default : Result (Unit {0}) → Result Text → Result Text
open_or_default (ok _) next = next
open_or_default (err nvs_not_found) next = ok default_timezone
open_or_default (err e) next = err e

abbrev pub or_utc : Option TimezoneInfo → TimezoneInfo
or_utc none = timezone (codes "UTC") (codes "UTC0") (codes "UTC")
or_utc (some zone) = zone

module _ {Flash : Type 0} (nvs : Settings Flash) where
  unfoldable pub load_timezone : Flash → ℕ → Result Text
  load_timezone flash capacity =
      open_or_default (nvs.nvs_open false flash) (or_default (nvs.get_str flash capacity))

  unfoldable pub save_timezone : Flash → Text → Flash × Result (Unit {0})
  save_timezone flash name = elim (nvs.nvs_open true flash) [
    | err e ↦ (flash, err e)
    | ok _ ↦
        let (written, result) = nvs.set_str flash name in
        elim result [ err e ↦ (written, err e) | ok _ ↦ nvs.commit written ]
  ]

  -- An unknown name in flash is UTC.
  unfoldable pub time_manager_init :
      TimeManager → Flash → Bool → Bool → TimeManager × Result (Unit {0})
  time_manager_init t flash created set =
      if t.has_mutex
      then (t, ok tt)
      else if not created
      then (t, err no_mem)
      else let ready = record t { has_mutex = true } in
        elim (load_timezone flash 24) [
          | err e ↦ (ready, err e)
          | ok stored ↦ apply_timezone_locked ready (or_utc (find_timezone (some stored))) set
        ]

  unfoldable pub time_manager_set_timezone :
      TimeManager → Flash → Option Text → Bool → Bool → TimeManager × Flash × Result (Unit {0})
  time_manager_set_timezone t flash name taken set = elim (find_timezone name) [
    | none ↦ (t, flash, err invalid_arg)
    | some zone ↦
        let (saved, result) = save_timezone flash zone.human_name in
        elim result [
          | err e ↦ (t, saved, err e)
          | ok _ ↦
              if not taken
              then (t, saved, err timeout)
              else let (t', applied) = apply_timezone_locked t zone set in (t', saved, applied)
        ]
  ]

-- `accepted`: settimeofday returned 0.
unfoldable pub set_system_time :
    TimeManager → ℤ → TimeSource → Bool → Bool → TimeManager × Result (Unit {0})
set_system_time t epoch source accepted taken =
    if not accepted
    then (t, err fail)
    else if not taken
    then (record t { system_time = epoch }, err timeout)
    else (record t { system_time = epoch; clock_valid = true; source = source }, ok tt)

module _ {Chip : Type 0} (bus : Bus Chip) where
  -- The date from the chip: valid, and from an oscillator that has not stopped.
  abbrev pub seed_epoch : RtcManager → Chip → Bool → Result ℤ
  seed_epoch m chip rtc_taken = do
    value ← rtc_manager_read bus m chip true rtc_taken
    guard (not value.oscillator_stopped) invalid_state
    rtc_to_epoch value true

  unfoldable pub time_manager_seed_from_rtc :
      TimeManager → RtcManager → Chip → Bool → Bool → Bool → TimeManager × Result (Unit {0})
  time_manager_seed_from_rtc t m chip rtc_taken accepted taken =
      elim (seed_epoch m chip rtc_taken) [
        | err e ↦ (t, err e)
        | ok epoch ↦ set_system_time t epoch rtc accepted taken
      ]

  unfoldable pub time_manager_set_utc :
      TimeManager
      → RtcManager
      → Chip
      → RtcDateTime
      → Bool
      → Bool
      → Bool
      → TimeManager × Chip × Result (Unit {0})
  time_manager_set_utc t m chip value rtc_taken accepted taken =
      let (written, result) = rtc_manager_set bus m chip value rtc_taken in
      elim (result >> rtc_to_epoch value true) [
        | err e ↦ (t, written, err e)
        | ok epoch ↦
            let (t', done) = set_system_time t epoch manual accepted taken in (t', written, done)
      ]
