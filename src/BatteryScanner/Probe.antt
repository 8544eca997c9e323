-- ===== src/BatteryScanner/Probe.antt =====
-- main/battery_scanner.cpp: g_probe, and the callbacks of the BLE host for a connection.
-- The bits of the event group are the record `ProbeBits`. The receive buffer is a `Memory`, of
-- which the code uses the first 128 bytes. A received mbuf is the parameter `Mbuf`: its length, and
-- what a copy of some bytes of it gives; a copy that fails writes nothing.
use power.Prelude.{
  ℕ, ◌+◌, ◌-◌, ◌/◌, ◌%◌, ◌^◌, Bool, true, false, ◌&&◌, ◌||◌, not, Option, none, some, List, [], ◌∷◌,
  ltb, leb, ◌==◌, min, if◌then◌else◌, get_or, length,
}
use power.Prelude.Memory.{Memory, buffer}
use power.JbdProtocol.{jbd_find_packet, jbd_checksum, given}
use power.BatteryScanner.{
  BleAddr, jbd_rx_buffer_size, jbd_notify_characteristic_uuid, jbd_write_characteristic_uuid,
}

-- The codes of the host that the code names, and all others.
pub data HostStatus : Type 0 where
  success edone emsgsize : HostStatus
  failure : ℕ → HostStatus

-- The flags of a characteristic that the code reads.
pub record Properties : Type 0 where
  pub notify : Bool
  pub write : Bool
  pub write_no_rsp : Bool

pub record Characteristic : Type 0 where
  pub def_handle : ℕ
  pub val_handle : ℕ
  pub properties : Properties

pub record ProbeBits : Type 0 where
  pub connected : Bool
  pub disconnected : Bool
  pub service_done : Bool
  pub chars_done : Bool
  pub dsc_done : Bool
  pub write_done : Bool
  pub packet_done : Bool
  pub failed : Bool

-- `conn_handle` is `none` for BLE_HS_CONN_HANDLE_NONE. The handles of one characteristic are
-- together: ff01, ff02, and those that notify and that are written.
pub record ProbeState : Type 0 where
  pub addr : BleAddr
  pub conn_handle : Option ℕ
  pub service_start : ℕ
  pub service_end : ℕ
  pub ff01 : Characteristic
  pub ff02 : Characteristic
  pub notify : Characteristic
  pub write : Characteristic
  pub cccd_handle : ℕ
  pub status : HostStatus
  pub rx : Memory
  pub rx_len : ℕ
  pub expected_command : ℕ
  pub packet_offset : ℕ
  pub packet_len : ℕ
  pub bits : ProbeBits

abbrev pub no_bits : ProbeBits
no_bits = record {
  connected = false;
  disconnected = false;
  service_done = false;
  chars_done = false;
  dsc_done = false;
  write_done = false;
  packet_done = false;
  failed = false;
}

abbrev pub no_characteristic : Characteristic
no_characteristic = record {
  def_handle = 0;
  val_handle = 0;
  properties = record { notify = false; write = false; write_no_rsp = false };
}

abbrev pub new_probe : BleAddr → ProbeState
new_probe addr = record {
  addr = addr;
  conn_handle = none;
  service_start = 0;
  service_end = 0;
  ff01 = no_characteristic;
  ff02 = no_characteristic;
  notify = no_characteristic;
  write = no_characteristic;
  cccd_handle = 0;
  status = success;
  rx = buffer [];
  rx_len = 0;
  expected_command = 0;
  packet_offset = 0;
  packet_len = 0;
  bits = no_bits;
}

unfoldable pub set_probe_failed : ProbeState → HostStatus → ProbeState
set_probe_failed p status = record p { status = status; bits = record p.bits { failed = true } }

-- The handles of a service that was found.
unfoldable pub service_discovered : ProbeState → HostStatus → Option (ℕ × ℕ) → ProbeState
service_discovered p success (some (start_handle, end_handle)) = record p {
  service_start = start_handle;
  service_end = end_handle;
}
service_discovered p edone service = record p { bits = record p.bits { service_done = true } }
service_discovered p status service = set_probe_failed p status

-- The 16-bit UUID of the characteristic, where it has one.
unfoldable pub found_characteristic : ProbeState → Option ℕ → Characteristic → ProbeState
found_characteristic p none chr = p
found_characteristic p (some uuid) chr =
    if uuid == jbd_notify_characteristic_uuid
    then record p { ff01 = chr; notify = chr }
    else if uuid == jbd_write_characteristic_uuid
    then record p { ff02 = chr; write = chr }
    else p

unfoldable pub characteristic_discovered :
    ProbeState → HostStatus → Option (Option ℕ × Characteristic) → ProbeState
characteristic_discovered p success (some (uuid, chr)) = found_characteristic p uuid chr
characteristic_discovered p edone chr = record p { bits = record p.bits { chars_done = true } }
characteristic_discovered p status chr = set_probe_failed p status

-- A descriptor is its handle, and whether it is the client characteristic configuration.
unfoldable pub descriptor_discovered : ProbeState → HostStatus → ℕ → Option (ℕ × Bool) → ProbeState
descriptor_discovered p success chr_val_handle (some (handle, is_cccd)) =
    if chr_val_handle == p.notify.val_handle && is_cccd
    then record p { cccd_handle = handle }
    else p
descriptor_discovered p edone chr_val_handle dsc = record p {
  bits = record p.bits { dsc_done = true };
}
descriptor_discovered p status chr_val_handle dsc = set_probe_failed p status

unfoldable pub write_complete : ProbeState → HostStatus → ProbeState
write_complete p success = record p { bits = record p.bits { write_done = true } }
write_complete p status = set_probe_failed p status

-- The bytes of a copy, or the code with which it fails.
pub data Copy : Type 0 where
  copied : List ℕ → Copy
  copy_failed : HostStatus → Copy

pub record Mbuf : Type 0 where
  pub pkt_len : ℕ
  pub copydata : ℕ → ℕ → Copy

-- The bytes are written from an index on.
abbrev pub write_at : Memory → ℕ → List ℕ → Memory
write_at m start bytes i =
    if leb start i && ltb i (start + length bytes) then get_or bytes (i - start) 0 else m i

-- The search for a packet, when a command is awaited.
unfoldable pub look_for_packet : ProbeState → ProbeState
look_for_packet p =
    if p.expected_command == 0
    then p
    else elim (jbd_find_packet (some p.rx) p.rx_len p.expected_command given given) [
      | none ↦ p
      | some (offset, packet_len) ↦ record p {
        packet_offset = offset;
        packet_len = packet_len;
        bits = record p.bits { packet_done = true };
      }
    ]

-- The `len` bytes are in the buffer.
abbrev pub received : ProbeState → ℕ → Memory → ProbeState
received p len rx = look_for_packet (record p { rx = rx; rx_len = p.rx_len + len })

-- The first chunk is copied, and the handle and the room are checked.
abbrev pub take_rest : ProbeState → Mbuf → ℕ → List ℕ → ProbeState
take_rest p om copy_len chunk =
    let len = om.pkt_len in
    if not (ltb copy_len len)
    then received p len (write_at p.rx p.rx_len chunk)
    else elim (om.copydata copy_len (len - copy_len)) [
      | copy_failed status ↦ set_probe_failed p status
      | copied rest ↦
          received p len (write_at (write_at p.rx (p.rx_len + copy_len) rest) p.rx_len chunk)
    ]

unfoldable pub consume_jbd_notification : ProbeState → ℕ → Option Mbuf → ProbeState
consume_jbd_notification p attr_handle none = p
consume_jbd_notification p attr_handle (some om) =
    let copy_len = min om.pkt_len 64 in
    if om.pkt_len == 0 then p else elim (om.copydata 0 copy_len) [
      | copy_failed status ↦ set_probe_failed p status
      | copied chunk ↦
          if not (attr_handle == p.notify.val_handle)
          then p
          else if ltb jbd_rx_buffer_size (p.rx_len + om.pkt_len)
          then set_probe_failed (record p { rx_len = 0 }) emsgsize
          else take_rest p om copy_len chunk
    ]

pub data ProbeEvent : Type 0 where
  connect : HostStatus → ℕ → ProbeEvent
  disconnect : ℕ → ProbeEvent
  term_failure other_event : ProbeEvent
  notify_rx : ℕ → Option Mbuf → ProbeEvent

unfoldable pub is_connection : Option ℕ → ℕ → Bool
is_connection none handle = false
is_connection (some h) handle = h == handle

unfoldable pub probe_gap_event : ProbeState → ProbeEvent → ProbeState
probe_gap_event p (connect success handle) = record p {
  conn_handle = some handle;
  bits = record p.bits { connected = true };
}
probe_gap_event p (connect status handle) = set_probe_failed p status
probe_gap_event p (disconnect handle) =
    if is_connection p.conn_handle handle
    then record p { conn_handle = none; bits = record p.bits { disconnected = true } }
    else p
probe_gap_event p term_failure = p
probe_gap_event p other_event = p
probe_gap_event p (notify_rx attr_handle om) = consume_jbd_notification p attr_handle om

unfoldable pub char_can_notify : Properties → Bool
char_can_notify properties = properties.notify

unfoldable pub char_can_write : Properties → Bool
char_can_write properties = properties.write || properties.write_no_rsp

abbrev pub usable : (Properties → Bool) → Characteristic → Bool
usable can chr = not (chr.val_handle == 0) && can chr.properties

-- The part of `discover_probe_handles` that chooses between the two characteristics.
unfoldable pub choose_handles : ProbeState → ProbeState
choose_handles p = record p {
  notify =
      if usable char_can_notify p.ff01
      then p.ff01
      else if usable char_can_notify p.ff02
      then p.ff02
      else p.notify;
  write =
      if usable char_can_write p.ff02
      then p.ff02
      else if usable char_can_write p.ff01
      then p.ff01
      else p.write;
}

-- The request: header, command, no data, checksum, and the end.
unfoldable pub jbd_request : ℕ → List ℕ
jbd_request command =
    let checksum = jbd_checksum (buffer (command ∷ 0 ∷ [])) 2 in
    0xdd ∷ 0xa5 ∷ command ∷ 0x00 ∷ (checksum / 256) % 2 ^ 8 ∷ checksum % 2 ^ 8 ∷ 0x77 ∷ []

-- What `send_jbd_request` resets before it sends.
unfoldable pub expect_packet : ProbeState → ℕ → ProbeState
expect_packet p command = record p {
  expected_command = command;
  rx_len = 0;
  packet_offset = 0;
  packet_len = 0;
  bits = record p.bits { write_done = false; packet_done = false };
}
