-- ===== src/PolicyTask/Commands.antt =====
-- main/policy_task.cpp: the registered functions that change something, and the table of them all.
use power.Prelude.{
  ℕ, Bool, true, false, ◌&&◌, not, some, List, [], ◌∷◌, ◌++◌, ◌==◌, if◌then◌else◌, length, Text,
  codes, c_string, Result, ok, err,
}
use power.RelayManager.{RelayMessage}
use power.RelayManager.Api.{relay_manager_on_for}
use power.PolicyState.{PolicyState, valid_name, get, set}
use power.PolicyTask.Lua.{
  boolean, scalar, Outcome, returned, raised, bad_argument, call_failed, state_full, unless,
  in_range, or_bad, check_integer, check_lstring, check_boolean, none_or_nil, ◌>>=◌, ◌>>◌,
}
use power.PolicyTask.Moments.{Libraries, Moment, Policy}
use power.PolicyTask.Reading.{
  Values, lua_check_relay, lua_relay_state, lua_input_on, lua_rtc_time, lua_local_time,
  lua_battery_bank_state, lua_battery_bank_names,
}
use power.PolicyTask.Parameters.{lua_config_is_set, lua_config_number, lua_config_bool}

abbrev pub relay_policy_hold_seconds : ℕ
relay_policy_hold_seconds = 300

abbrev pub relay_policy_hold_max_seconds : ℕ
relay_policy_hold_max_seconds = 86400

-- The functions that `register_policy_lua_functions` gives to a program.
pub data Function : Type 0 where
  relay_on relay_off relay_state input_on rtc_time local_time : Function
  config_is_set config_number config_bool : Function
  policy_state_bool policy_state_set : Function
  battery_bank_state battery_bank_names syslog : Function

unfoldable pub global_name : Function → Text
global_name relay_on = codes "relay_on"
global_name relay_off = codes "relay_off"
global_name relay_state = codes "relay_state"
global_name input_on = codes "input_on"
global_name rtc_time = codes "rtc_time"
global_name local_time = codes "local_time"
global_name config_is_set = codes "config_is_set"
global_name config_number = codes "config_number"
global_name config_bool = codes "config_bool"
global_name policy_state_bool = codes "policy_state_bool"
global_name policy_state_set = codes "policy_state_set"
global_name battery_bank_state = codes "battery_bank_state"
global_name battery_bank_names = codes "battery_bank_names"
global_name syslog = codes "syslog"

-- What follows a call of relay_manager_on_for.
abbrev pub queued : {V : Type 0} → Policy → Result RelayMessage → Policy × Outcome (List V)
queued p (err e) = (p, raised (call_failed e))
queued p (ok message) = (record p { commands = p.commands ++ (message ∷ []) }, returned [])

-- What follows a call of PolicyState::set.
abbrev pub stored : {V : Type 0} → Policy → PolicyState × Bool → Policy × Outcome (List V)
stored p (memory, true) = (record p { memory = memory }, returned [])
stored p (memory, false) = (record p { memory = memory }, raised state_full)

module _ {Arg F Double Flash Banks Chip : Type 0}
    (l : Libraries Arg F Double Flash Banks Chip) where
  -- What follows the checks of the arguments.
  abbrev pub after :
      {A : Type 0}
      → Policy
      → Outcome A
      → (A → Policy × Outcome (Values l))
      → Policy × Outcome (Values l)
  after p (raised e) next = (p, raised e)
  after p (returned a) next = next a

  unfoldable pub lua_policy_state_name : List Arg → Outcome Text
  lua_policy_state_name args = do
    bytes ← check_lstring l.lua args 1
    let name = c_string bytes
    unless (not (valid_name (some name) && length name == length bytes)) (bad_argument 1)
    returned name

  abbrev pub boolean_or_false : List Arg → ℕ → Outcome Bool
  boolean_or_false args i =
      if none_or_nil l.lua args i then returned false else check_boolean l.lua args i

  unfoldable pub lua_policy_state_bool : Policy → List Arg → Outcome (Values l)
  lua_policy_state_bool p args = do
    name ← lua_policy_state_name args
    default_value ← boolean_or_false args 2
    returned (scalar (boolean (get p.memory (some name) default_value)) ∷ [])

  abbrev pub name_and_value : List Arg → Outcome (Text × Bool)
  name_and_value args = do
    name ← lua_policy_state_name args
    value ← check_boolean l.lua args 2
    returned (name, value)

  unfoldable pub lua_policy_state_set : Policy → List Arg → Policy × Outcome (Values l)
  lua_policy_state_set p args =
      after p (name_and_value args) (λ named. stored p (set p.memory (some named.0) named.1))

  module _ (m : Moment F Flash Banks Chip) where
    -- The second argument of `relay_on`.
    abbrev pub hold_seconds : List Arg → Outcome ℕ
    hold_seconds args = if none_or_nil l.lua args 2 then returned relay_policy_hold_seconds else do
      seconds ← check_integer l.lua args 2
      or_bad (in_range 1 relay_policy_hold_max_seconds seconds) 2

    abbrev pub relay_and_hold : List Arg → Outcome (ℕ × ℕ)
    relay_and_hold args = do
      relay ← lua_check_relay l m args 1
      seconds ← hold_seconds args
      returned (relay, seconds)

    unfoldable pub lua_relay_on : Policy → List Arg → Policy × Outcome (Values l)
    lua_relay_on p args =
        after p (relay_and_hold args)
          (λ asked. queued p (relay_manager_on_for m.relays asked.0 asked.1 m.sent))

    unfoldable pub lua_relay_off : Policy → List Arg → Policy × Outcome (Values l)
    lua_relay_off p args =
        after p (lua_check_relay l m args 1)
          (λ relay. queued p (relay_manager_on_for m.relays relay 0 m.sent))

    unfoldable pub call_function : Policy → Function → List Arg → Policy × Outcome (Values l)
    call_function p relay_on args = lua_relay_on p args
    call_function p relay_off args = lua_relay_off p args
    call_function p relay_state args = (p, lua_relay_state l m args)
    call_function p input_on args = (p, lua_input_on l m args)
    call_function p rtc_time args = (p, lua_rtc_time l m)
    call_function p local_time args = (p, lua_local_time l m)
    call_function p config_is_set args = (p, lua_config_is_set l m args)
    call_function p config_number args = (p, lua_config_number l m args)
    call_function p config_bool args = (p, lua_config_bool l m args)
    call_function p policy_state_bool args = (p, lua_policy_state_bool p args)
    call_function p policy_state_set args = lua_policy_state_set p args
    call_function p battery_bank_state args = (p, lua_battery_bank_state l m args)
    call_function p battery_bank_names args = (p, lua_battery_bank_names l m)
    call_function p syslog args = (p, returned [])
