-- ===== src/BoardConfig.antt =====
-- main/board_config.hpp: the hardware description of a board, and the names of its kinds.
-- A channel that the loader stores is a number from 0 to 2^31 - 1; a single pin that was not
-- loaded keeps its initial -1, so it is an integer. Arrays are lists of their size.
pub mod Validate
pub mod Accepted
mod Tests
use power.Prelude.{ℕ, Bool, true, false, List, [], ◌∷◌, replicate, Text, codes}
use power.Prelude.Int.{ℤ, pos, negsuc}

abbrev pub power4_max_relays : ℕ
power4_max_relays = 8

abbrev pub power4_max_digital_inputs : ℕ
power4_max_digital_inputs = 8

abbrev pub power4_board_schema_version : ℕ
power4_board_schema_version = 1

pub data RelayBackendKind : Type 0 where
  none gpio tca9554 : RelayBackendKind

pub data EthernetHardwareKind : Type 0 where
  none w5500 : EthernetHardwareKind

pub data RtcHardwareKind : Type 0 where
  none pcf85063a : RtcHardwareKind

pub data DigitalInputBackendKind : Type 0 where
  none gpio : DigitalInputBackendKind

pub data GpioPullKind : Type 0 where
  none up down : GpioPullKind

pub record I2cHardwareConfig : Type 0 where
  pub present : Bool
  pub port : ℤ
  pub sda_gpio : ℤ
  pub scl_gpio : ℤ
  pub frequency_hz : ℕ

pub record RelayHardwareConfig : Type 0 where
  pub kind : RelayBackendKind
  pub count : ℕ
  pub active_level : ℕ
  pub channels : List ℕ
  pub i2c_address : ℕ

pub record EthernetHardwareConfig : Type 0 where
  pub kind : EthernetHardwareKind
  pub spi_host : ℤ
  pub mosi_gpio : ℤ
  pub miso_gpio : ℤ
  pub sclk_gpio : ℤ
  pub cs_gpio : ℤ
  pub interrupt_gpio : ℤ
  pub reset_gpio : ℤ
  pub phy_address : ℕ
  pub spi_frequency_hz : ℕ

pub record RtcHardwareConfig : Type 0 where
  pub kind : RtcHardwareKind
  pub i2c_address : ℕ
  pub capacitor_12_5_pf : Bool

pub record DigitalInputHardwareConfig : Type 0 where
  pub kind : DigitalInputBackendKind
  pub count : ℕ
  pub active_level : ℕ
  pub pull : GpioPullKind
  pub channels : List ℕ

pub record BoardConfig : Type 0 where
  pub schema_version : ℕ
  pub profile : Text
  pub model : Text
  pub relay : RelayHardwareConfig
  pub i2c : I2cHardwareConfig
  pub ethernet : EthernetHardwareConfig
  pub rtc : RtcHardwareConfig
  pub digital_input : DigitalInputHardwareConfig

-- `BoardConfig config = {}`
abbrev pub default_config : BoardConfig
default_config = record {
  schema_version = 0;
  profile = [];
  model = [];
  relay = record {
    kind = RelayBackendKind.none;
    count = 0;
    active_level = 1;
    channels = replicate power4_max_relays 0;
    i2c_address = 0;
  };
  i2c = record {
    present = false;
    port = pos 0;
    sda_gpio = negsuc 0;
    scl_gpio = negsuc 0;
    frequency_hz = 100000;
  };
  ethernet = record {
    kind = EthernetHardwareKind.none;
    spi_host = pos 0;
    mosi_gpio = negsuc 0;
    miso_gpio = negsuc 0;
    sclk_gpio = negsuc 0;
    cs_gpio = negsuc 0;
    interrupt_gpio = negsuc 0;
    reset_gpio = negsuc 0;
    phy_address = 0;
    spi_frequency_hz = 0;
  };
  rtc = record { kind = RtcHardwareKind.none; i2c_address = 0; capacitor_12_5_pf = false };
  digital_input = record {
    kind = DigitalInputBackendKind.none;
    count = 0;
    active_level = 1;
    pull = GpioPullKind.none;
    channels = replicate power4_max_digital_inputs 0;
  };
}

unfoldable pub relay_backend_name : RelayBackendKind → Text
relay_backend_name RelayBackendKind.gpio = codes "gpio"
relay_backend_name RelayBackendKind.tca9554 = codes "tca9554"
relay_backend_name RelayBackendKind.none = codes "none"

unfoldable pub ethernet_hardware_name : EthernetHardwareKind → Text
ethernet_hardware_name EthernetHardwareKind.w5500 = codes "w5500"
ethernet_hardware_name EthernetHardwareKind.none = codes "none"

unfoldable pub rtc_hardware_name : RtcHardwareKind → Text
rtc_hardware_name RtcHardwareKind.pcf85063a = codes "pcf85063a"
rtc_hardware_name RtcHardwareKind.none = codes "none"

unfoldable pub digital_input_backend_name : DigitalInputBackendKind → Text
digital_input_backend_name DigitalInputBackendKind.gpio = codes "gpio"
digital_input_backend_name DigitalInputBackendKind.none = codes "none"

unfoldable pub gpio_pull_name : GpioPullKind → Text
gpio_pull_name GpioPullKind.up = codes "up"
gpio_pull_name GpioPullKind.down = codes "down"
gpio_pull_name GpioPullKind.none = codes "none"
