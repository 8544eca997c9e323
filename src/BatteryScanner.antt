-- ===== src/BatteryScanner.antt =====
-- main/battery_scanner.cpp: the scan for batteries and the probe of one.
-- Adv reads the advertisements, Candidates keeps the batteries that were seen, Probe has the
-- callbacks of a connection, Sequence the steps the scanner task takes with them, Probing the
-- probe of one battery, Scan the scan and the loop of the task. An address is its type and its
-- six bytes.
pub mod Adv
pub mod Fields
pub mod Candidates
pub mod Probe
pub mod Assembly
pub mod Packets
pub mod Sequence
pub mod Probing
pub mod Scan
pub mod Connects
pub mod Cleanup
pub mod Observed
mod Tests
use power.Prelude.{ℕ, Bool, true, false, ◌&&◌, List, ◌==◌, Text, codes, str_eq}

abbrev pub jbd_service_uuid : ℕ
jbd_service_uuid = 0xff00

abbrev pub jbd_notify_characteristic_uuid : ℕ
jbd_notify_characteristic_uuid = 0xff01

abbrev pub jbd_write_characteristic_uuid : ℕ
jbd_write_characteristic_uuid = 0xff02

abbrev pub seen_devices_max : ℕ
seen_devices_max = 32

abbrev pub jbd_rx_buffer_size : ℕ
jbd_rx_buffer_size = 128

pub record BleAddr : Type 0 where
  pub type : ℕ
  pub val : List ℕ

-- memcmp compares the six bytes.
unfoldable pub same_addr : BleAddr → BleAddr → Bool
same_addr a b = a.type == b.type && str_eq a.val b.val
