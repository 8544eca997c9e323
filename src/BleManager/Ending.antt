-- ===== src/BleManager/Ending.antt =====
-- main/ble_manager.cpp: a pending recovery can always be ended.
use power.Prelude.{◌≡◌, Bool, true, false, some, List, [], ◌∷◌, ◌++◌, ℕ, if◌then◌else◌, ok, arith}
use power.BleManager.{
  BleManager, SyncAnswers, StartAnswers, initial, ble_on_reset, ble_on_sync, ble_reset_requested,
  synchronized, ble_manager_is_synced, ble_manager_start, ble_manager_own_addr_type,
}
use power.BleManager.System.{
  System, Caller, outside, exchanged, cleared, waiting, Event, clear, put, handle, reset, sync,
  step, run, reset_clear, reset_put, reset_result, started,
}
use power.BleManager.Recovery.{flags, IsConsistent, run-IsConsistent, start-IsConsistent}

-- The caller's steps before its wait.
unfoldable pub to_wait : Caller → List Event
to_wait outside = []
to_wait exchanged = clear ∷ put ∷ []
to_wait cleared = put ∷ []
to_wait waiting = []

-- Events that end a recovery, from any state of it.
unfoldable pub ending : System → SyncAnswers → List Event
ending s host =
    if s.manager.reset_started
    then to_wait s.caller ++ (reset ∷ sync host ∷ [])
    else to_wait s.caller ++ (handle ∷ reset ∷ sync host ∷ [])

-- The state behind the ending.
abbrev at_wait : System → System
at_wait s = elim s.caller [
  | outside ↦ s
  | exchanged ↦ reset_put (reset_clear s)
  | cleared ↦ reset_put s
  | waiting ↦ s
]

abbrev ended : System → SyncAnswers → System
ended s host =
    let waited = (at_wait s).manager in
    let handled = if s.manager.reset_started then waited else ble_reset_requested waited in
    record {
      manager = ble_on_sync (ble_on_reset handled) host;
      caller = (at_wait s).caller;
      queued = false;
    }

run-ending-from :
    (m : BleManager) (c : Caller) (queued : Bool) (host : SyncAnswers)
    → let s : System = record { manager = m; caller = c; queued = queued } in
      IsConsistent s → m.reset_pending ≡ true → run s (ending s host) ≡ some (ended s host)
unfolding run step ending to_wait flags reset_clear reset_put
run-ending-from m outside queued host good pending = ground arith
run-ending-from m exchanged queued host good pending = ground arith
run-ending-from m cleared queued host good pending = ground arith
run-ending-from m waiting queued host good pending = ground arith

run-ending :
    (s : System) (host : SyncAnswers)
    → IsConsistent s
    → s.manager.reset_pending ≡ true
    → run s (ending s host) ≡ some (ended s host)
run-ending s host = run-ending-from s.manager s.caller s.queued host

reset_result-ended :
    (s : System) (host : SyncAnswers) (a : ℕ)
    → IsConsistent s
    → s.manager.reset_pending ≡ true
    → host.ensure_addr ≡ true
    → host.infer_auto ≡ ok a
    → (reset_result (ended s host).manager ≡ ok tt)
      × (ble_manager_is_synced (ended s host).manager ≡ true)
      × (ble_manager_own_addr_type (ended s host).manager ≡ a)
unfolding reset_result ble_manager_is_synced ble_manager_own_addr_type flags reset_clear reset_put
    ble_on_reset ble_on_sync ble_reset_requested synchronized
reset_result-ended s host a good pending addr inferred = ground arith

-- When ble_manager_start has succeeded and any events have come, so that a reset is pending: the
-- rest of the caller's steps, the handling of the request where that is still missing, a reset, and
-- a sync in which the host gives an address, can come in this order, and after them the wait of
-- ble_manager_reset ends with success and the host is synchronized.
pub ending-run :
    (m : BleManager) (answers : StartAnswers) (before : List Event) (s : System) (a : ℕ)
    (host : SyncAnswers)
    → ble_manager_start initial answers ≡ (m, ok tt)
    → run (started m) before ≡ some s
    → s.manager.reset_pending ≡ true
    → host.ensure_addr ≡ true
    → host.infer_auto ≡ ok a
    → (s' : System) × (run s (ending s host) ≡ some s')
      × (reset_result s'.manager ≡ ok tt)
      × (ble_manager_is_synced s'.manager ≡ true)
      × (ble_manager_own_addr_type s'.manager ≡ a)
ending-run m answers before s a host h b pending addr inferred =
    let good = run-IsConsistent (started m) s before (start-IsConsistent m answers h) b in
    let (done, synced, addr_type) = reset_result-ended s host a good pending addr inferred in
    (ended s host, run-ending s host good pending, done, synced, addr_type)
