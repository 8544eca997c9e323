-- ===== src/BoardConfig/Validate.antt =====
-- main/board_config.cpp: which hardware descriptions are accepted.
-- GPIO_IS_VALID_GPIO and GPIO_IS_VALID_OUTPUT_GPIO are the parameters `valid_gpio` and
-- `valid_output`. The checks run in the order of the code, and the first that fails decides.
use power.Prelude.{
  ℕ, Bool, true, false, ◌&&◌, ◌||◌, not, List, [], ◌∷◌, ltb, leb, ◌==◌, if◌then◌else◌, take, Result,
  guard, ◌>>◌, invalid_arg, invalid_version,
}
use power.Prelude.Int.{ℤ, pos, negsuc, int_eq}
use power.BoardConfig.{
  BoardConfig, RelayHardwareConfig, EthernetHardwareConfig, I2cHardwareConfig, RelayBackendKind,
  EthernetHardwareKind, RtcHardwareKind, DigitalInputBackendKind, power4_max_relays,
  power4_max_digital_inputs, power4_board_schema_version,
}

abbrev pub contains : ℕ → List ℕ → Bool
contains c [] = false
contains c (x ∷ rest) = c == x || contains c rest

unfoldable pub all_unique : List ℕ → Bool
all_unique [] = true
all_unique (c ∷ rest) = not (contains c rest) && all_unique rest

unfoldable pub unique_channels : List ℕ → ℕ → Bool
unique_channels channels count = all_unique (take count channels)

-- The loops that look for a pin among the channels.
unfoldable pub uses : List ℕ → ℤ → Bool
uses [] gpio = false
uses (c ∷ rest) gpio = int_eq gpio (pos c) || uses rest gpio

abbrev pub i2c_uses : I2cHardwareConfig → ℤ → Bool
i2c_uses i2c gpio = i2c.present && (int_eq gpio i2c.sda_gpio || int_eq gpio i2c.scl_gpio)

abbrev pub is_gpio : RelayBackendKind → Bool
is_gpio RelayBackendKind.gpio = true
is_gpio _ = false

abbrev pub is_input_gpio : DigitalInputBackendKind → Bool
is_input_gpio DigitalInputBackendKind.gpio = true
is_input_gpio DigitalInputBackendKind.none = false

unfoldable pub relay_uses_gpio : RelayHardwareConfig → ℤ → Bool
relay_uses_gpio relay gpio = is_gpio relay.kind && uses (take relay.count relay.channels) gpio

unfoldable pub ethernet_uses_gpio : EthernetHardwareConfig → ℤ → Bool
ethernet_uses_gpio ethernet gpio = elim ethernet.kind [
  | EthernetHardwareKind.none ↦ false
  | EthernetHardwareKind.w5500 ↦
      int_eq gpio ethernet.mosi_gpio
      || int_eq gpio ethernet.miso_gpio
      || int_eq gpio ethernet.sclk_gpio
      || int_eq gpio ethernet.cs_gpio
      || int_eq gpio ethernet.interrupt_gpio
      || int_eq gpio ethernet.reset_gpio
]

unfoldable pub gpio_reused_by_board : BoardConfig → ℤ → Bool
gpio_reused_by_board config gpio =
    i2c_uses config.i2c gpio
    || (is_gpio config.relay.kind && uses (take config.relay.count config.relay.channels) gpio)
    || (is_input_gpio config.digital_input.kind
        && uses (take config.digital_input.count config.digital_input.channels) gpio)

-- The loops that check every channel.
abbrev pub all_channels : (ℕ → Bool) → List ℕ → Bool
all_channels p [] = true
all_channels p (c ∷ rest) = p c && all_channels p rest

abbrev pub is_natural : ℤ → Bool
is_natural (pos n) = true
is_natural (negsuc n) = false

abbrev pub in_host_range : ℤ → Bool
in_host_range (pos n) = leb 1 n && leb n 2
in_host_range (negsuc n) = false

abbrev pub differs_from_all : ℤ → List ℤ → Bool
differs_from_all p [] = true
differs_from_all p (q ∷ rest) = not (int_eq p q) && differs_from_all p rest

-- The double loop over the pins of the W5500.
abbrev pub pins_free : BoardConfig → List ℤ → Bool
pins_free config [] = true
pins_free config (p ∷ rest) =
    not (gpio_reused_by_board config p) && differs_from_all p rest && pins_free config rest

abbrev pub ethernet_pins : EthernetHardwareConfig → List ℤ
ethernet_pins e =
    e.mosi_gpio ∷ e.miso_gpio ∷ e.sclk_gpio ∷ e.cs_gpio ∷ e.interrupt_gpio ∷ e.reset_gpio ∷ []

abbrev pub on_tca9554 : RelayBackendKind → Bool
on_tca9554 RelayBackendKind.tca9554 = true
on_tca9554 _ = false

module _ (valid_gpio valid_output : ℤ → Bool) where
  unfoldable pub relay_accepted : BoardConfig → Bool
  relay_accepted config =
      let relay = config.relay in
      let used = take relay.count relay.channels in
      elim relay.kind [
        | RelayBackendKind.none ↦ false
        | RelayBackendKind.gpio ↦
            ltb 0 relay.count
            && leb relay.count power4_max_relays
            && leb relay.active_level 1
            && unique_channels relay.channels relay.count
            && all_channels (λ c. valid_output (pos c)) used
        | RelayBackendKind.tca9554 ↦
            ltb 0 relay.count
            && leb relay.count power4_max_relays
            && leb relay.active_level 1
            && unique_channels relay.channels relay.count
            && (config.i2c.present && ltb 0 relay.i2c_address && leb relay.i2c_address 0x7f)
            && all_channels (λ c. ltb c 8) used
      ]

  unfoldable pub i2c_accepted : I2cHardwareConfig → Bool
  i2c_accepted i2c =
      not i2c.present
      || (is_natural i2c.port
          && valid_gpio i2c.sda_gpio
          && valid_gpio i2c.scl_gpio
          && not (int_eq i2c.sda_gpio i2c.scl_gpio)
          && ltb 0 i2c.frequency_hz
          && leb i2c.frequency_hz 400000)

  unfoldable pub input_accepted : BoardConfig → ℕ → Bool
  input_accepted config c =
      valid_gpio (pos c)
      && not (i2c_uses config.i2c (pos c))
      && not (relay_uses_gpio config.relay (pos c))
      && not (ethernet_uses_gpio config.ethernet (pos c))

  unfoldable pub inputs_accepted : BoardConfig → Bool
  inputs_accepted config =
      let input = config.digital_input in
      if is_input_gpio input.kind
      then ltb 0 input.count
        && leb input.count power4_max_digital_inputs
        && leb input.active_level 1
        && unique_channels input.channels input.count
        && all_channels (input_accepted config) (take input.count input.channels)
      else input.count == 0

  unfoldable pub ethernet_accepted : BoardConfig → Bool
  ethernet_accepted config =
      let e = config.ethernet in
      elim e.kind [
        | EthernetHardwareKind.none ↦ true
        | EthernetHardwareKind.w5500 ↦
            valid_output e.mosi_gpio
            && valid_gpio e.miso_gpio
            && valid_output e.sclk_gpio
            && valid_output e.cs_gpio
            && valid_gpio e.interrupt_gpio
            && valid_output e.reset_gpio
            && pins_free config (ethernet_pins e)
            && in_host_range e.spi_host
            && leb e.phy_address 31
            && ltb 0 e.spi_frequency_hz
            && leb e.spi_frequency_hz 80000000
      ]

  unfoldable pub rtc_accepted : BoardConfig → Bool
  rtc_accepted config = elim config.rtc.kind [
    | RtcHardwareKind.none ↦ true
    | RtcHardwareKind.pcf85063a ↦
        config.i2c.present
        && ltb 0 config.rtc.i2c_address
        && leb config.rtc.i2c_address 0x7f
        && (not (on_tca9554 config.relay.kind)
            || not (config.rtc.i2c_address == config.relay.i2c_address))
  ]

  unfoldable pub validate_config : BoardConfig → Result (Unit {0})
  validate_config config = do
    guard (config.schema_version == power4_board_schema_version) invalid_version
    guard (relay_accepted config) invalid_arg
    guard (i2c_accepted config.i2c) invalid_arg
    guard (inputs_accepted config) invalid_arg
    guard (ethernet_accepted config) invalid_arg
    guard (rtc_accepted config) invalid_arg
