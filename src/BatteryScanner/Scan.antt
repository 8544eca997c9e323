-- ===== src/BatteryScanner/Scan.antt =====
-- main/battery_scanner.cpp: the scan, and the loop of the scanner task.
-- What ble_hs_adv_parse_fields makes of a report is part of the report. Printing is left out.
use power.Prelude.{
  ℕ, ◌+◌, Bool, true, false, ◌&&◌, ◌||◌, not, Option, none, some, List, [], ◌∷◌, leb, ◌==◌,
  if◌then◌else◌, get_or, length, Result, ok, err, fail, no_mem,
}
use power.Prelude.Int.{ℤ}
use power.Prelude.Float.{Float}
use power.BatteryScanner.{BleAddr, jbd_service_uuid}
use power.BatteryScanner.Adv.{AdvSummary, parse_raw_adv_summary}
use power.BatteryScanner.Candidates.{SeenReport, BatteryCandidate, mark_seen_report, mark_candidate}
use power.BatteryScanner.Sequence.{Step, Session, run_callbacks, next}
use power.BatteryScanner.Probing.{disconnect_probe, probe_battery}

pub record ScanStats : Type 0 where
  pub reports : ℕ
  pub adv_reports : ℕ
  pub scan_response_reports : ℕ
  pub parse_errors : ℕ
  pub raw_malformed : ℕ
  pub jbd_reports : ℕ
  pub printed_reports : ℕ
  pub duplicate_jbd_reports : ℕ

abbrev pub no_stats : ScanStats
no_stats = record {
  reports = 0;
  adv_reports = 0;
  scan_response_reports = 0;
  parse_errors = 0;
  raw_malformed = 0;
  jbd_reports = 0;
  printed_reports = 0;
  duplicate_jbd_reports = 0;
}

-- What the code reads of ble_hs_adv_fields.
pub record AdvFields : Type 0 where
  pub uuids16 : List ℕ
  pub sol_uuids16 : List ℕ
  pub svc_data_uuid16 : List ℕ
  pub name : Option (List ℕ)

pub record Report : Type 0 where
  pub addr : BleAddr
  pub rssi : ℤ
  pub event_type : ℕ
  pub bytes : List ℕ
  pub fields : Option AdvFields

pub data ScanEvent : Type 0 where
  disc : Report → ScanEvent
  disc_complete other_event : ScanEvent

-- BLE_HCI_ADV_RPT_EVTYPE_SCAN_RSP
abbrev pub scan_rsp : ℕ
scan_rsp = 4

unfoldable pub has_uuid16 : List ℕ → ℕ → Bool
has_uuid16 [] value = false
has_uuid16 (uuid ∷ rest) value = uuid == value || has_uuid16 rest value

unfoldable pub has_jbd_service : AdvFields → Bool
has_jbd_service fields =
    has_uuid16 fields.uuids16 jbd_service_uuid
    || has_uuid16 fields.sol_uuids16 jbd_service_uuid
    || (leb 2 (length fields.svc_data_uuid16)
        && get_or fields.svc_data_uuid16 0 0 == 0x00
        && get_or fields.svc_data_uuid16 1 0 == 0xff)

pub record Scan : Type 0 where
  pub candidates : List BatteryCandidate
  pub seen : List SeenReport
  pub stats : ScanStats

abbrev pub no_scan : Scan
no_scan = record { candidates = []; seen = []; stats = no_stats }

abbrev pub counted : ScanStats → ℕ → ScanStats
counted s event_type =
    if event_type == scan_rsp
    then record s { reports = s.reports + 1; scan_response_reports = s.scan_response_reports + 1 }
    else record s { reports = s.reports + 1; adv_reports = s.adv_reports + 1 }

abbrev pub count_malformed : ScanStats → Bool → ScanStats
count_malformed s complete =
    if complete then s else record s { raw_malformed = s.raw_malformed + 1 }

abbrev pub count_printed : ScanStats → Bool → ScanStats
count_printed s new =
    if new
    then record s { jbd_reports = s.jbd_reports + 1; printed_reports = s.printed_reports + 1 }
    else record s {
      jbd_reports = s.jbd_reports + 1;
      duplicate_jbd_reports = s.duplicate_jbd_reports + 1;
    }

-- The report of a battery.
unfoldable pub mark_battery : Scan → Report → Option (List ℕ) → Scan
mark_battery s r name =
    let (seen, new) = mark_seen_report s.seen r.addr r.event_type in
    record {
      candidates = (mark_candidate s.candidates r.addr r.rssi name).0;
      seen = seen;
      stats = count_printed s.stats new;
    }

abbrev pub see_summary : Scan → Report → AdvSummary → Option AdvFields → Scan
see_summary s r summary none =
    let failed = record s { stats = record s.stats { parse_errors = s.stats.parse_errors + 1 } } in
    if summary.has_jbd_service then mark_battery failed r summary.name else failed
see_summary s r summary (some fields) =
    if has_jbd_service fields || summary.has_jbd_service then mark_battery s r fields.name else s

abbrev pub see_report : Scan → Report → Option AdvSummary × Bool → Scan
see_report s r (none, complete) = s
see_report s r (some summary, complete) =
    see_summary (record s { stats = count_malformed (counted s.stats r.event_type) complete }) r
      summary r.fields

unfoldable pub scan_event : Scan → ScanEvent → Scan
scan_event s (disc r) = see_report s r (parse_raw_adv_summary r.bytes true)
scan_event s disc_complete = s
scan_event s other_event = s

unfoldable pub scan_events : Scan → List ScanEvent → Scan
scan_events s [] = s
scan_events s (e ∷ rest) = scan_events (scan_event s e) rest

module _ {F : Type 0} (f : Float F) (env : ℕ → Step) where
  abbrev pub delayed : Session F → Session F
  delayed s = record (next s) { probe = run_callbacks s.probe (env s.step).callbacks }

  -- The loop over the candidates. It stops where the cleanup of a probe is pending.
  unfoldable pub probe_all : Session F → List BatteryCandidate → Session F × Result (Unit {0})
  probe_all s [] = (s, ok tt)
  probe_all s (c ∷ rest) =
      let s' = probe_battery f env s c in
      let continue = probe_all (delayed s') rest in
      if s'.cleanup_pending then (s', err fail) else continue

  abbrev pub scan_clean : Session F × Bool → List ScanEvent → Session F × Result (Unit {0})
  scan_clean (s, false) events = (s, err fail)
  scan_clean (s, true) events =
      if not (env s.step).accepted
      then (next s, err fail)
      else probe_all (next s) (scan_events no_scan events).candidates

  -- `events` are those of the scan, until it is done or cancelled.
  unfoldable pub run_scan : Session F → List ScanEvent → Session F × Result (Unit {0})
  run_scan s events =
      scan_clean (if s.cleanup_pending then disconnect_probe f env s else (s, true)) events

  -- A round of `battery_scanner_task`; `synced` is what ble_manager_wait_until_synced returns.
  unfoldable pub task_round : Session F → Bool → List ScanEvent → Session F
  task_round s synced events = delayed (if synced then (run_scan s events).0 else s)

-- Whether the event group and the task are there; `group` and `created` are what FreeRTOS answers.
unfoldable pub battery_scanner_start : Bool → Bool → Bool → Bool → Bool × Bool × Result (Unit {0})
battery_scanner_start has_task has_events group created =
    if has_task
    then (has_events, has_task, ok tt)
    else if not (has_events || group)
    then (false, false, err no_mem)
    else if created
    then (true, true, ok tt)
    else (true, false, err no_mem)
