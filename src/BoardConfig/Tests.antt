-- ===== src/BoardConfig/Tests.antt =====
-- Boards in the manner of board_profiles (main/board_config.cpp).
use power.Prelude.{◌≡◌, ◌≢◌, refl, Bool, true, false, [], ◌∷◌, ltb, ok, arith}
use power.Prelude.Int.{ℤ, pos, negsuc, int_eq}
use power.BoardConfig.{
  BoardConfig, RelayBackendKind, DigitalInputBackendKind, GpioPullKind, default_config,
}
use power.BoardConfig.Validate.{
  all_unique, unique_channels, uses, relay_uses_gpio, ethernet_uses_gpio, relay_accepted,
  i2c_accepted, input_accepted, inputs_accepted, ethernet_accepted, rtc_accepted, validate_config,
}
use power.BoardConfig.Accepted.{validate_config-Wired, validate_config-inputs_free}
use power.RelayManager.{channel_of}
use power.RelayManager.Levels.{Wired}

-- The pins 0 to 48 are there, and all can be outputs.
abbrev pin_of_chip : ℤ → Bool
pin_of_chip (pos n) = ltb n 49
pin_of_chip (negsuc n) = false

abbrev six_relays : BoardConfig
six_relays = record default_config {
  schema_version = 1;
  relay = record {
    kind = RelayBackendKind.gpio;
    count = 6;
    active_level = 1;
    channels = 1 ∷ 2 ∷ 41 ∷ 42 ∷ 45 ∷ 46 ∷ 0 ∷ 0 ∷ [];
    i2c_address = 0;
  };
  digital_input = record {
    kind = DigitalInputBackendKind.gpio;
    count = 2;
    active_level = 0;
    pull = GpioPullKind.up;
    channels = 4 ∷ 5 ∷ 0 ∷ 0 ∷ 0 ∷ 0 ∷ 0 ∷ 0 ∷ [];
  };
}

six_relays-accepted : validate_config pin_of_chip pin_of_chip six_relays ≡ ok tt
unfolding validate_config relay_accepted unique_channels all_unique i2c_accepted inputs_accepted
    input_accepted relay_uses_gpio ethernet_uses_gpio uses ethernet_accepted rtc_accepted int_eq
six_relays-accepted = refl

validate_config-Wired_example : Wired six_relays.relay
validate_config-Wired_example =
    validate_config-Wired pin_of_chip pin_of_chip six_relays refl six_relays-accepted

validate_config-inputs_free_example :
    (pin_of_chip (pos 5) ≡ true)
    × (channel_of six_relays.relay 3 ≢ 5)
    × (ethernet_uses_gpio six_relays.ethernet (pos 5) ≡ false)
validate_config-inputs_free_example =
    validate_config-inputs_free pin_of_chip pin_of_chip six_relays refl refl six_relays-accepted
      refl refl 3 1 (omega arith) (omega arith) (omega arith)

-- Relay 3 on the data pin of the I2C bus.
abbrev shared_pin : BoardConfig
shared_pin = record six_relays {
  i2c = record {
    present = true;
    port = pos 0;
    sda_gpio = pos 41;
    scl_gpio = pos 40;
    frequency_hz = 100000;
  };
}

shared_pin-accepted : validate_config pin_of_chip pin_of_chip shared_pin ≡ ok tt
unfolding validate_config relay_accepted unique_channels all_unique i2c_accepted inputs_accepted
    input_accepted relay_uses_gpio ethernet_uses_gpio uses ethernet_accepted rtc_accepted int_eq
shared_pin-accepted = refl
