-- ===== src/BatteryScanner/Probing.antt =====
-- main/battery_scanner.cpp: the probe of a candidate, and the end of its connection.
use power.Prelude.{
  ℕ, ◌+◌, ◌-◌, ◌/◌, ◌%◌, Bool, true, false, ◌||◌, not, Option, none, some, [], ◌∷◌, ◌++◌, ltb, ◌==◌,
  if◌then◌else◌, get_or, length, replicate, Text, Result, ok, err,
}
use power.Prelude.Float.{Float, of_nat}
use power.Prelude.Memory.{shift}
use power.JbdProtocol.{
  JbdBasicInfo, JbdCellInfo, jbd_parse_basic_info, jbd_parse_cell_info, given,
  jbd_basic_info_command, jbd_cell_info_command,
}
use power.BatteryStore.{BatteryObservation, battery_cell_max}
use power.BatteryStore.Operations.{battery_store_record_observation}
use power.BatteryScanner.{BleAddr}
use power.BatteryScanner.Candidates.{BatteryCandidate}
use power.BatteryScanner.Probe.{ProbeState, new_probe}
use power.BatteryScanner.Sequence.{
  Step, Session, connected, run_callbacks, next, and_then, wait_step, discover_probe_handles,
  subscribe_probe_notifications, request_jbd_packet,
}

abbrev pub hex_char : ℕ → ℕ
hex_char n = if ltb n 10 then b'0' + n else b'a' + (n - 10)

abbrev pub hex_byte : ℕ → Text
hex_byte b = hex_char (b / 16 % 16) ∷ (hex_char (b % 16) ∷ [])

-- The bytes from the last to the first, with colons.
unfoldable pub format_addr : BleAddr → Text
format_addr addr =
    let byte = λ (i : ℕ). hex_byte (get_or addr.val i 0) in
    byte 5
    ++ (b':' ∷ byte 4)
    ++ (b':' ∷ byte 3)
    ++ (b':' ∷ byte 2)
    ++ (b':' ∷ byte 1)
    ++ (b':' ∷ byte 0)

abbrev pub battery_name : BatteryCandidate → Text
battery_name c = if length c.name == 0 then format_addr c.addr else c.name

abbrev pub parse_cells : ProbeState → ℕ → Bool → Option JbdCellInfo
parse_cells p cell_count true =
    jbd_parse_cell_info (some (shift p.rx p.packet_offset)) p.packet_len cell_count given
parse_cells p cell_count false = none

-- The cells that were read, if any.
unfoldable pub with_cells :
    {F : Type 0} → BatteryObservation F → Option JbdCellInfo → BatteryObservation F
with_cells o none = o
with_cells o (some cells) = record o {
  cell_voltages_valid = true;
  cell_voltage_count = cells.count;
  cell_voltages_mv = cells.voltage_mv ++ replicate (battery_cell_max - cells.count) 0;
}

module _ {F : Type 0} (f : Float F) (env : ℕ → Step) where
  -- The three bits of `wait_for_connect_cancel` are cleared.
  abbrev pub wait_for_connect_cancel : Session F → Session F
  wait_for_connect_cancel s =
      let p = run_callbacks s.probe (env s.step).callbacks in
      record s {
        probe = record p {
          bits = record p.bits { connected = false; failed = false; disconnected = false };
        };
      }

  unfoldable pub cancel_pending_probe_connect : Session F → Session F
  cancel_pending_probe_connect s =
      if not (env s.step).active
      then s
      else if not (env s.step).cancelled
      then s
      else wait_for_connect_cancel s

  abbrev pub after_reset : Session F → Result (Unit {0}) → Session F
  after_reset s (err e) = record s { cleanup_pending = true }
  after_reset s (ok _) = record s {
    cleanup_pending = false;
    probe = record s.probe { conn_handle = none };
  }

  -- Whether the connection is gone.
  unfoldable pub disconnect_probe : Session F → Session F × Bool
  disconnect_probe s =
      let e = env s.step in
      let cancelled = next (cancel_pending_probe_connect s) in
      let ended =
        if e.still_active || not e.peer_gone
        then after_reset cancelled e.reset
        else record cancelled { cleanup_pending = false } in
      (ended, not ended.cleanup_pending)

  unfoldable pub basic_observation : JbdBasicInfo F → BatteryObservation F
  basic_observation basic = record {
    voltage_v = basic.voltage_v;
    current_a = basic.current_a;
    soc_percent = of_nat f basic.soc_percent;
    cycle_count = basic.cycle_count;
    protection_status = basic.protection_status;
    reported_cell_count = basic.cell_count;
    temperature_valid = basic.temperature_valid;
    temperature_c = basic.average_temperature_c;
    cell_voltages_valid = false;
    cell_voltage_count = 0;
    cell_voltages_mv = replicate battery_cell_max 0;
  }

  -- The request of the cells, where the battery does not report too many.
  unfoldable pub observe : Session F → JbdBasicInfo F → Session F × BatteryObservation F
  observe s basic =
      if ltb battery_cell_max basic.cell_count
      then (s, basic_observation basic)
      else let (s', answered) = request_jbd_packet env s jbd_cell_info_command in
        (s', with_cells (basic_observation basic) (parse_cells s'.probe basic.cell_count answered))

  unfoldable pub record_battery : Session F → Text → BatteryObservation F → Session F
  record_battery s name o = record s {
    store =
        (battery_store_record_observation f s.store (some name) (some o) (env s.step).store_taken
          (env s.step).now_us).0;
  }

  -- From the packet of the basic information on.
  abbrev pub record_basic : Session F → Text → Option (JbdBasicInfo F) → Session F
  record_basic s name none = (disconnect_probe s).0
  record_basic s name (some basic) =
      let (s', o) = observe s basic in (disconnect_probe (record_battery s' name o)).0

  abbrev pub after_packet : Text → Session F × Bool → Session F
  after_packet name (s, false) = (disconnect_probe s).0
  after_packet name (s, true) = record_basic s name (
      jbd_parse_basic_info f (some (shift s.probe.rx s.probe.packet_offset)) s.probe.packet_len
        given)

  -- From the connection on.
  unfoldable pub probe_connected : Session F → Text → Session F
  probe_connected s name = after_packet name (
      and_then (wait_step env s connected) (λ s. and_then (discover_probe_handles env s) (λ s.
        and_then (subscribe_probe_notifications env s)
          (λ s. request_jbd_packet env s jbd_basic_info_command))))

  unfoldable pub probe_battery : Session F → BatteryCandidate → Session F
  probe_battery s candidate =
      let fresh = record s {
        probe = new_probe candidate.addr;
        connects = s.connects ++ (s.cleanup_pending ∷ []);
      } in
      if not (env s.step).accepted
      then next fresh
      else probe_connected (record fresh { cleanup_pending = true }) (battery_name candidate)
