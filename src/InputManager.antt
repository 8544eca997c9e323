-- ===== src/InputManager.antt =====
-- main/input_manager.hpp and main/input_manager.cpp: the digital inputs of the board.
-- The globals are one record. `gpio_config`, handed the pins of the mask and the two pull flags,
-- is the parameter `configure`; `gpio_get_level` is the argument `level_of`.
pub mod Query
mod Tests
use power.Prelude.{
  ℕ, zero, suc, ◌-◌, Bool, true, false, ◌&&◌, not, List, leb, ◌==◌, if◌then◌else◌, get_or, take,
  Result, ok, err, EspErr, invalid_arg, invalid_state, not_supported, guard, ◌>>◌, ◌>>=◌,
}
use power.BoardConfig.{
  BoardConfig, DigitalInputHardwareConfig, DigitalInputBackendKind, GpioPullKind, default_config,
}
use power.BoardConfig.Validate.{is_input_gpio}

pub record InputManagerStatus : Type 0 where
  pub present : Bool
  pub initialized : Bool
  pub initialization_result : Result (Unit {0})
  pub count : ℕ

pub record InputStatus : Type 0 where
  pub input : ℕ
  pub backend : DigitalInputBackendKind
  pub gpio_pin : ℕ
  pub active_level : ℕ
  pub level : ℕ
  pub on : Bool

pub record InputManager : Type 0 where
  pub status : InputManagerStatus
  pub hardware : DigitalInputHardwareConfig

abbrev pub pulls_up : GpioPullKind → Bool
pulls_up GpioPullKind.up = true
pulls_up _ = false

abbrev pub pulls_down : GpioPullKind → Bool
pulls_down GpioPullKind.down = true
pulls_down _ = false

abbrev pub succeeded : Result (Unit {0}) → Bool
succeeded (ok _) = true
succeeded (err e) = false

unfoldable pub input_manager_start :
    (List ℕ → Bool → Bool → Result (Unit {0})) → BoardConfig → InputManager × Result (Unit {0})
input_manager_start configure board =
    let hardware = board.digital_input in
    let present = is_input_gpio hardware.kind in
    let result : Result (Unit {0}) =
      if not present
      then err not_supported
      else configure (take hardware.count hardware.channels) (pulls_up hardware.pull)
          (pulls_down hardware.pull) in
    (
      record {
        status = record {
          present = present;
          initialized = present && succeeded result;
          initialization_result = result;
          count = hardware.count;
        };
        hardware = hardware;
      },
      result,
    )

-- `given`: the pointer for the status is not null.
unfoldable pub input_manager_get_status : InputManager → Bool → Result InputManagerStatus
input_manager_get_status m given = do guard given invalid_arg; ok m.status

unfoldable pub input_manager_count : InputManager → ℕ
input_manager_count m = if m.status.initialized then m.status.count else 0

unfoldable pub input_manager_query : InputManager → (ℕ → ℕ) → ℕ → Bool → Result InputStatus
input_manager_query m level_of input given = do
  guard given invalid_arg
  guard m.status.initialized (if m.status.present then invalid_state else not_supported)
  guard (leb 1 input && leb input m.hardware.count) invalid_arg
  let gpio = get_or m.hardware.channels (input - 1) 0
  let level = level_of gpio
  ok (record {
    input = input;
    backend = m.hardware.kind;
    gpio_pin = gpio;
    active_level = m.hardware.active_level;
    level = level;
    on = level == m.hardware.active_level;
  })
