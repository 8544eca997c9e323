-- ===== src/PolicyTask/Reading.antt =====
-- main/policy_task.cpp: the registered functions that read the relays, the inputs, the clocks and
-- the banks, and syslog. Each gives the values that it pushes, first to last.
use power.Prelude.{
  ℕ, zero, suc, ◌+◌, ◌-◌, Bool, true, false, ◌&&◌, not, some, List, [], ◌∷◌, ◌++◌, map, ltb,
  if◌then◌else◌, length, take, replicate, Text, codes,
}
use power.Prelude.Int.{ℤ, pos, negsuc}
use power.RelayManager.{RelayStatus, RelayForce}
use power.RelayManager.Api.{relay_force_name, relay_manager_count, relay_manager_query}
use power.InputManager.{input_manager_count, input_manager_query}
use power.RtcManager.{RtcDateTime, rtc_manager_read}
use power.TimeManager.Status.{TimeSnapshot, time_manager_get_time}
use power.BatteryBank.{battery_bank_list}
use power.BatteryBank.State.{BatteryBankState, battery_bank_get_state}
use power.PolicyTask.Lua.{
  Scalar, nil, boolean, integer, number, text, Value, scalar, fields, array, Outcome, returned,
  out_of_memory, unless, called, in_range, or_bad, check_integer, check_string, ◌>>=◌, ◌>>◌,
}
use power.PolicyTask.Moments.{Libraries, Moment}

abbrev pub lua_syslog_message_bytes : ℕ
lua_syslog_message_bytes = 192

-- The separator is a tab; what does not fit is cut.
abbrev pub with_tab : Text → Bool → Text
with_tab message first =
    if not first && ltb (length message + 1) lua_syslog_message_bytes
    then message ++ (9 ∷ [])
    else message

-- The loop of `lua_syslog` over the texts of the arguments.
unfoldable pub syslog_from : Text → Bool → List Text → Text
syslog_from message first [] = message
syslog_from message first (t ∷ rest) =
    let tabbed = with_tab message first in
    syslog_from (tabbed ++ take (lua_syslog_message_bytes - length tabbed - 1) t) false rest

abbrev pub is_positive : ℤ → Bool
is_positive (pos zero) = false
is_positive (pos (suc n)) = true
is_positive (negsuc n) = false

module _ {Arg F Double Flash Banks Chip : Type 0}
    (l : Libraries Arg F Double Flash Banks Chip) where
  abbrev pub Values : Type 0
  Values = List (Value Arg F)

  -- lua_pushinteger of a number that is not negative
  abbrev pub natural : ℕ → Scalar F
  natural n = integer (l.lua.wrap (pos n))

  -- The message of `syslog`.
  unfoldable pub syslog_message : List Arg → Text
  syslog_message args = syslog_from [] true (map l.lua.tolstring args)

  module _ (m : Moment F Flash Banks Chip) where
    unfoldable pub lua_check_relay : List Arg → ℕ → Outcome ℕ
    lua_check_relay args i = do
      relay ← check_integer l.lua args i
      or_bad (in_range 1 (relay_manager_count m.relays) relay) i

    abbrev pub force_value : RelayForce → Scalar F
    force_value RelayForce.none = nil
    force_value RelayForce.on = text (relay_force_name RelayForce.on)
    force_value RelayForce.off = text (relay_force_name RelayForce.off)

    abbrev pub status_values : RelayStatus → Values
    status_values status =
        scalar (boolean status.output_on)
        ∷ scalar (force_value status.force)
        ∷ scalar (natural status.timer_remaining_s)
        ∷ []

    unfoldable pub lua_relay_state : List Arg → Outcome Values
    lua_relay_state args = do
      relay ← lua_check_relay args 1
      status ← called (relay_manager_query m.relays true relay m.reply_queue m.sent m.reply)
      returned (status_values status)

    unfoldable pub lua_input_on : List Arg → Outcome Values
    lua_input_on args = do
      input ← check_integer l.lua args 1
      n ← or_bad (in_range 1 (input_manager_count m.inputs) input) 1
      status ← called (input_manager_query m.inputs m.level_of n true)
      returned (scalar (boolean status.on) ∷ [])

    abbrev pub rtc_fields : RtcDateTime → List (Text × Scalar F)
    rtc_fields value =
        (codes "year", natural value.year)
        ∷ (codes "month", natural value.month)
        ∷ (codes "day", natural value.day)
        ∷ (codes "weekday", natural value.weekday)
        ∷ (codes "hour", natural value.hour)
        ∷ (codes "minute", natural value.minute)
        ∷ (codes "second", natural value.second)
        ∷ (codes "valid", boolean (not value.oscillator_stopped))
        ∷ (codes "oscillator_stopped", boolean value.oscillator_stopped)
        ∷ (codes "utc", boolean true)
        ∷ []

    unfoldable pub lua_rtc_time : Outcome Values
    lua_rtc_time = do
      value ← called (rtc_manager_read l.bus m.rtc m.chip true m.rtc_taken)
      returned (fields (rtc_fields value) ∷ [])

    abbrev pub local_fields : TimeSnapshot → List (Text × Scalar F)
    local_fields value =
        (codes "year", natural (value.local.tm_year + 1900))
        ∷ (codes "month", natural (value.local.tm_mon + 1))
        ∷ (codes "day", natural value.local.tm_mday)
        ∷ (codes "weekday", natural value.local.tm_wday)
        ∷ (codes "yearday", natural (value.local.tm_yday + 1))
        ∷ (codes "hour", natural value.local.tm_hour)
        ∷ (codes "minute", natural value.local.tm_min)
        ∷ (codes "second", natural value.local.tm_sec)
        ∷ (codes "utc_offset_minutes", integer (l.lua.wrap value.utc_offset_minutes))
        ∷ (codes "valid", boolean value.valid)
        ∷ (codes "daylight_saving", boolean (is_positive value.local.tm_isdst))
        ∷ (codes "utc", boolean false)
        ∷ (codes "zone", text value.abbreviation)
        ∷ (codes "timezone", text value.timezone_name)
        ∷ []

    unfoldable pub lua_local_time : Outcome Values
    lua_local_time = do
      value ← called (time_manager_get_time l.calendar m.time m.epoch true m.time_taken)
      returned (fields (local_fields value) ∷ [])

    abbrev pub cell_values : BatteryBankState F → Values → Values
    cell_values bank rest =
        if bank.cell_data_ready
        then scalar (number bank.min_cell_voltage_v) ∷ (scalar (natural bank.cell_age_s) ∷ rest)
        else scalar nil ∷ (scalar nil ∷ rest)

    -- Seven values; all but the first are nil where the bank is not ready.
    abbrev pub bank_values : BatteryBankState F → Values
    bank_values bank =
        if not bank.ready
        then scalar (boolean false) ∷ replicate 6 (scalar nil)
        else scalar (boolean true)
          ∷ scalar (number bank.voltage_v)
          ∷ scalar (number bank.current_a)
          ∷ scalar (number bank.soc_percent)
          ∷ cell_values bank (scalar (boolean bank.cell_undervoltage_protection) ∷ [])

    unfoldable pub lua_battery_bank_state : List Arg → Outcome Values
    lua_battery_bank_state args = do
      name ← check_string l.lua args 1
      bank ← called (
          battery_bank_get_state l.float l.banks m.banks m.batteries (some name) true m.allocated
            m.batteries_taken m.now_us)
      returned (bank_values bank)

    -- Two allocations: `allocated` is for both.
    unfoldable pub lua_battery_bank_names : Outcome Values
    lua_battery_bank_names = do
      unless (not m.allocated) out_of_memory
      banks ← called (battery_bank_list l.banks m.banks true m.allocated)
      returned (array (map (λ b. b.name) banks) ∷ [])
