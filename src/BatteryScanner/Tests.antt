-- ===== src/BatteryScanner/Tests.antt =====
-- Runs of main/battery_scanner.cpp.
use power.Prelude.Float.{Float}
use power.Prelude.Int.{pos, pos_part}
use power.JbdProtocol.{JbdBasicInfo}
use power.BatteryStore.{battery_store_valid_name, printable_from, accepts}
use power.BatteryScanner.Candidates.{mark_candidate}
use power.BatteryScanner.Sequence.{Step, Session, run_callbacks, wait_for_probe_bits}
use power.BatteryScanner.Probing.{
  observe, probe_battery, probe_connected, disconnect_probe, cancel_pending_probe_connect,
}
use power.BatteryScanner.Scan.{
  ScanEvent, disc, scan_event, scan_events, mark_battery, has_jbd_service, has_uuid16, probe_all,
  run_scan, task_round,
}
use power.BatteryScanner.Cleanup.{AllClean, run_rounds, run_rounds-AllClean}
use power.BatteryScanner.Observed.{observe-accepts}
use power.Prelude.{
  ℕ, ◌≤◌, ◌≡◌, ◌≢◌, ◌↔◌, refl, ◌+◌, ◌-◌, Bool, true, false, none, some, ltb, replicate, codes,
  Result, ok, err, fail, List, [], ◌∷◌, length, take, drop, arith,
}
use power.JbdProtocol.{
  jbd_find_packet, find_from, valid_frame, jbd_checksum, sum_from, checksum_matches,
}
use power.BatteryScanner.Adv.{
  AdvSummary, empty_summary, parse_raw_adv_summary, see_field, uuid16_field_has_service, parse_from,
}
use power.BatteryScanner.Fields.{IsOf, parse_raw_adv_summary_iff}
use power.BatteryScanner.Probe.{ProbeState, new_probe, expect_packet, copied}
use power.BatteryScanner.Assembly.{Chunk, Holds}
use power.BatteryScanner.Packets.{all_bytes, found_in, notified, Reports, notified-Reports}

-- The service 0xff00, and the name "B1".
abbrev advertisement : List ℕ
advertisement = 3 ∷ 0x03 ∷ 0x00 ∷ 0xff ∷ 3 ∷ 0x09 ∷ 66 ∷ 49 ∷ []

abbrev summary : AdvSummary
summary = record empty_summary {
  has_jbd_service = true;
  uuids16 = some (0x00 ∷ 0xff ∷ []);
  name = some (66 ∷ 49 ∷ []);
  name_complete = true;
}

parse_raw_adv_summary_iff_example :
    (parse_raw_adv_summary advertisement true ≡ (some summary, true))
    ↔ IsOf advertisement empty_summary summary
parse_raw_adv_summary_iff_example = parse_raw_adv_summary_iff advertisement summary

advertisement-parse : parse_raw_adv_summary advertisement true ≡ (some summary, true)
unfolding parse_raw_adv_summary see_field uuid16_field_has_service parse_from
advertisement-parse = refl

abbrev whole : (bytes : List ℕ) → 1 ≤ length bytes → Chunk
whole bytes some_bytes = record {
  om = record { pkt_len = length bytes; copydata = λ start n. copied (take n (drop start bytes)) };
  bytes = bytes;
  size = refl;
  not_empty = some_bytes;
  copies = λ start n h. refl;
}

-- An answer to the command 4, with the cell voltages 3300 and 3301 mV, in two parts.
abbrev first_part : List ℕ
first_part = 0xdd ∷ 0x04 ∷ 0x00 ∷ 0x04 ∷ 0x0c ∷ []

abbrev second_part : List ℕ
second_part = 0xe4 ∷ 0x0c ∷ 0xe5 ∷ 0xfe ∷ 0x1b ∷ 0x77 ∷ []

abbrev probe : ProbeState
probe = new_probe (record { type = 0; val = 1 ∷ 2 ∷ 3 ∷ 4 ∷ 5 ∷ 6 ∷ [] })

abbrev first_chunk : Chunk
first_chunk = whole first_part (omega arith)

abbrev second_chunk : Chunk
second_chunk = whole second_part (omega arith)

parts-found : found_in (all_bytes [] (first_chunk ∷ second_chunk ∷ [])) 4 ≡ some (0, 11)
unfolding all_bytes jbd_find_packet find_from valid_frame jbd_checksum sum_from checksum_matches
parts-found = refl

parts-few : length (all_bytes [] (first_chunk ∷ second_chunk ∷ [])) ≤ 128
unfolding all_bytes
parts-few = omega arith

abbrev cell_info : ℕ
cell_info = 4

cell_info-some : cell_info ≢ 0
cell_info-some h = absurd (omega (arith, h))

notified-Reports_example :
    let after =
      notified (expect_packet probe 4) probe.notify.val_handle (first_chunk ∷ second_chunk ∷ []) in
    Holds after (all_bytes [] (first_chunk ∷ second_chunk ∷ [])) × Reports after (0, 11)
notified-Reports_example =
    notified-Reports probe 4 0 11 first_chunk (second_chunk ∷ []) cell_info-some parts-few
      parts-found

abbrev whole_numbers : Float ℕ
whole_numbers = record {
  of_int = pos_part;
  add = λ a b. a + b;
  sub = λ a b. a - b;
  div = λ a b. a;
  lt = ltb;
}

-- A host that begins every call, whose connections time out, and whose reset does as `reset` says.
abbrev silent_step : Result (Unit {0}) → Step
silent_step reset = record {
  accepted = true;
  callbacks = [];
  active = false;
  cancelled = true;
  still_active = false;
  peer_gone = false;
  reset = reset;
  store_taken = true;
  now_us = 0;
}

abbrev silent : Result (Unit {0}) → ℕ → Step
silent reset n = silent_step reset

abbrev session : Session ℕ
session = record {
  probe = new_probe (record { type = 0; val = replicate 6 0 });
  cleanup_pending = false;
  step = 0;
  store = record { slots = []; mutex_created = true };
  connects = [];
}

abbrev battery_report : ScanEvent
battery_report = disc (record {
  addr = record { type = 0; val = 1 ∷ replicate 5 0 };
  rssi = pos 0;
  event_type = 0;
  bytes = [];
  fields =
      some (record { uuids16 = 0xff00 ∷ []; sol_uuids16 = []; svc_data_uuid16 = []; name = none });
})

abbrev two_rounds : List (Bool × List ScanEvent)
two_rounds = (true, battery_report ∷ []) ∷ ((true, battery_report ∷ []) ∷ [])

run_rounds-AllClean_example :
    AllClean (run_rounds whole_numbers (silent (ok tt)) session two_rounds).connects
run_rounds-AllClean_example =
    run_rounds-AllClean whole_numbers (silent (ok tt)) session two_rounds tt

-- After a reset each round connects.
connects-twice :
    (run_rounds whole_numbers (silent (ok tt)) session two_rounds).connects ≡ false ∷ (false ∷ [])
unfolding run_rounds task_round run_scan probe_all scan_events scan_event parse_raw_adv_summary
    has_jbd_service has_uuid16 mark_battery mark_candidate probe_battery probe_connected
    wait_for_probe_bits run_callbacks disconnect_probe cancel_pending_probe_connect
connects-twice = refl

-- Without it the second round does not connect.
connects-once :
    (run_rounds whole_numbers (silent (err fail)) session two_rounds).connects ≡ false ∷ []
unfolding run_rounds task_round run_scan probe_all scan_events scan_event parse_raw_adv_summary
    has_jbd_service has_uuid16 mark_battery mark_candidate probe_battery probe_connected
    wait_for_probe_bits run_callbacks disconnect_probe cancel_pending_probe_connect
connects-once = refl

abbrev four_cells : JbdBasicInfo ℕ
four_cells = record {
  voltage_v = 13;
  current_a = 0;
  residual_ah = 0;
  nominal_ah = 0;
  cycle_count = 0;
  protection_status = 0;
  version = 0;
  soc_percent = 50;
  fet_status = 0;
  cell_count = 4;
  ntc_count = 0;
  temperature_valid = false;
  average_temperature_c = 0;
}

observe-accepts_example :
    accepts
      (some (codes "left"))
      (some (observe whole_numbers (silent (ok tt)) session four_cells).1)
    ≡ true
observe-accepts_example =
    observe-accepts whole_numbers (silent (ok tt)) session four_cells (codes "left")
      (unfold battery_store_valid_name printable_from in refl)
