-- ===== src/BleManager/Tests.antt =====
-- Runs of main/ble_manager.cpp, with a host that works.
use power.Prelude.{◌≡◌, refl, true, false, some, List, [], ◌∷◌, ok}
use power.BleManager.{
  BleManager, StartAnswers, SyncAnswers, initial, ble_manager_start, ble_on_reset, ble_on_sync,
  ble_reset_requested, synchronized, ble_manager_is_synced, ble_manager_own_addr_type,
}
use power.BleManager.System.{
  System, Event, exchange, clear, put, return, handle, reset, sync, step, run, reset_exchange,
  reset_clear, reset_put, reset_result, started,
}
use power.BleManager.Recovery.{completes, handling, resetting, syncing, recovery-completes}
use power.BleManager.Ending.{ending, ending-run}

abbrev all_well : StartAnswers
all_well = record {
  group_created = true;
  port_init = ok tt;
  name_set = true;
  relay_gatt_register = ok tt;
  config_gatt_register = ok tt;
}

abbrev working : SyncAnswers
working = record { ensure_addr = true; infer_auto = ok 1 }

abbrev running : BleManager
running = record initial { started = true; has_events = true }

running-start : ble_manager_start initial all_well ≡ (running, ok tt)
unfolding ble_manager_start
running-start = refl

-- A sync from before the reset comes between the request and its handling.
abbrev with_old_sync : List Event
with_old_sync = clear ∷ sync working ∷ put ∷ handle ∷ reset ∷ sync working ∷ []

abbrev synced_first : System
synced_first = record (started running) { manager = ble_on_sync running working }

abbrev recovered : System
recovered = record {
  manager = record running {
    synced = true;
    own_addr_type = 1;
    synced_bit = true;
    recovery_done_bit = true;
  };
  caller = power.BleManager.System.waiting;
  queued = false;
}

first-run : run (started running) (sync working ∷ []) ≡ some synced_first
unfolding run step started
first-run = refl

synced_first-idle : synced_first.manager.reset_pending ≡ false
unfolding ble_on_sync synchronized started
synced_first-idle = refl

with_old_sync-run : run synced_first (exchange ∷ with_old_sync) ≡ some recovered
unfolding run step started ble_on_sync synchronized ble_on_reset ble_reset_requested reset_exchange
    reset_clear reset_put
with_old_sync-run = refl

recovery-completes_example : completes (handling ∷ resetting ∷ syncing ∷ []) with_old_sync ≡ true
recovery-completes_example =
    recovery-completes running all_well (sync working ∷ []) with_old_sync synced_first recovered
      running-start first-run synced_first-idle with_old_sync-run refl

abbrev asked : System
asked = record {
  manager = record running { reset_pending = true };
  caller = power.BleManager.System.cleared;
  queued = false;
}

asked-run : run (started running) (exchange ∷ clear ∷ []) ≡ some asked
unfolding run step started reset_exchange reset_clear
asked-run = refl

ending-run_example :
    (s : System) × (run asked (ending asked working) ≡ some s)
    × (reset_result s.manager ≡ ok tt)
    × (ble_manager_is_synced s.manager ≡ true)
    × (ble_manager_own_addr_type s.manager ≡ 1)
ending-run_example =
    ending-run running all_well (exchange ∷ clear ∷ []) asked 1 working running-start asked-run refl
      refl refl
