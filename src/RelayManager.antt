-- ===== src/RelayManager.antt =====
-- main/relay_manager.hpp and main/relay_manager.cpp: the task that owns the relays.
-- The globals are one record. The drivers (GPIO, I2C) are the parameter `answer`: what the n-th
-- call of a driver returns. The record keeps the calls that succeeded, newest first, and the
-- number of calls. A failed call is taken to leave the hardware as it was, as the code assumes.
-- `esp_timer_get_time` is an argument of each function that reads the clock. Relay numbers count
-- from 1. Log output has no part in the state.
pub mod Driver
pub mod Task
pub mod Api
pub mod Registers
pub mod Levels
pub mod Rounds
pub mod Timers
pub mod Wishes
pub mod Obedience
pub mod Start
pub mod Expiry
mod Tests
use power.Prelude.{
  ℕ, zero, suc, ◌+◌, ◌-◌, ◌*◌, ◌/◌, ◌%◌, ◌^◌, max, bit_and, bit_or, Bool, true, false, ◌&&◌, ◌||◌,
  not, Option, some, List, [], ◌∷◌, ltb, leb, ◌==◌, eqb, if◌then◌else◌, get_or, set, replicate,
  length, Result, ok, err, EspErr, invalid_arg, invalid_state, invalid_size, not_supported, timeout,
  no_mem, Text, codes,
}
use power.BoardConfig.{BoardConfig, default_config, RelayHardwareConfig, RelayBackendKind}

-- CONFIG_POWER4_MAX_RELAYS of the sdkconfig
abbrev pub max_relays : ℕ
max_relays = 8

abbrev pub tca_output_register : ℕ
tca_output_register = 0x01

abbrev pub tca_configuration_register : ℕ
tca_configuration_register = 0x03

pub data RelayForce : Type 0 where
  none on off : RelayForce

pub record RelayState : Type 0 where
  pub timer_active : Bool
  pub force : RelayForce
  pub output_on : Bool
  pub off_at_us : ℕ

pub data MessageType : Type 0 where
  on_for force_on force_off clear_force query : MessageType

-- `wants_reply`: the message names a reply queue.
pub record RelayMessage : Type 0 where
  pub type : MessageType
  pub relay : ℕ
  pub seconds : ℕ
  pub wants_reply : Bool

-- `gpio_pin` is -1 in the code where it is `none` here.
pub record RelayStatus : Type 0 where
  pub relay : ℕ
  pub backend : RelayBackendKind
  pub hardware_channel : ℕ
  pub gpio_pin : Option ℕ
  pub active_level : ℕ
  pub timer_active : Bool
  pub force : RelayForce
  pub output_on : Bool
  pub timer_remaining_s : ℕ

-- The calls of the drivers.
pub data DriverCall : Type 0 where
  gpio_set_level : ℕ → ℕ → DriverCall
  gpio_config : List ℕ → DriverCall
  i2c_add_device : ℕ → ℕ → DriverCall
  tca_write_register : ℕ → ℕ → DriverCall

pub record RelayManager : Type 0 where
  pub queue_created : Bool
  pub relays : List RelayState
  pub hardware : RelayHardwareConfig
  pub tca_output : ℕ
  pub calls : ℕ
  pub done : List DriverCall

abbrev pub idle_relay : RelayState
idle_relay = record {
  timer_active = false;
  force = RelayForce.none;
  output_on = false;
  off_at_us = 0;
}

abbrev pub initial : RelayManager
initial = record {
  queue_created = false;
  relays = replicate max_relays idle_relay;
  hardware = default_config.relay;
  tca_output = 0;
  calls = 0;
  done = [];
}

unfoldable pub valid_relay : RelayManager → ℕ → Bool
valid_relay m relay = leb 1 relay && leb relay m.hardware.count

abbrev pub relay_state : RelayManager → ℕ → RelayState
relay_state m relay = get_or m.relays (relay - 1) idle_relay

abbrev pub put_relay : RelayManager → ℕ → RelayState → RelayManager
put_relay m relay state = record m { relays = set m.relays (relay - 1) state }

abbrev pub channel_of : RelayHardwareConfig → ℕ → ℕ
channel_of h relay = get_or h.channels (relay - 1) 0

unfoldable pub remaining_seconds : ℕ → ℕ → ℕ
remaining_seconds now deadline =
    if leb deadline now
    then 0
    else let rounded_up_s = (deadline - now + 999999) / 1000000 in
      if ltb (2 ^ 32 - 1) rounded_up_s then 2 ^ 32 - 1 else rounded_up_s

unfoldable pub output_level_for : RelayHardwareConfig → Bool → ℕ
output_level_for h relay_on =
    if relay_on then h.active_level else if h.active_level == 0 then 1 else 0

unfoldable pub make_status : RelayManager → ℕ → ℕ → RelayStatus
unfolding remaining_seconds
make_status m relay now =
    let state = relay_state m relay in
    let channel = channel_of m.hardware relay in
    record {
      relay = relay;
      backend = m.hardware.kind;
      hardware_channel = channel;
      gpio_pin = elim m.hardware.kind [ RelayBackendKind.gpio ↦ some channel | _ ↦ Option.none ];
      active_level = m.hardware.active_level;
      timer_active = state.timer_active;
      force = state.force;
      output_on = state.output_on;
      timer_remaining_s = if state.timer_active then remaining_seconds now state.off_at_us else 0;
    }

-- next |= mask, and next &= ~mask, with mask = 1 << channel as a uint8_t
unfoldable pub write_bit : ℕ → ℕ → Bool → ℕ
write_bit register channel high =
    let mask = 2 ^ channel % 2 ^ 8 in
    if high then bit_or register mask else bit_and register (2 ^ 8 - 1 - mask)

unfoldable pub desired : RelayState → Bool
desired state = elim state.force [
  | RelayForce.on ↦ true
  | RelayForce.off ↦ false
  | RelayForce.none ↦ state.timer_active
]
