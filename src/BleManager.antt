-- ===== src/BleManager.antt =====
-- main/ble_manager.cpp: the start of the BLE host, advertising, and the recovery by a reset.
-- The host's answers are arguments: whether a call of it returned 0. What the host is called with
-- for advertising comes out as a list. The two bits of the event group are fields; `has_events`
-- says that the group was created.
pub mod System
pub mod Recovery
pub mod Ending
mod Tests
use power.Prelude.{
  ℕ, Bool, true, false, ◌&&◌, ◌||◌, not, List, [], ◌∷◌, if◌then◌else◌, Result, ok, err, EspErr,
  fail, no_mem, invalid_state, timeout, guard, ◌>>=◌, ◌>>◌,
}

pub record BleManager : Type 0 where
  pub started : Bool
  pub synced : Bool
  pub reset_pending : Bool
  pub own_addr_type : ℕ
  pub has_events : Bool
  pub synced_bit : Bool
  pub recovery_done_bit : Bool
  pub reset_started : Bool
  pub reset_observed : Bool

abbrev pub initial : BleManager
initial = record {
  started = false;
  synced = false;
  reset_pending = false;
  own_addr_type = 0;
  has_events = false;
  synced_bit = false;
  recovery_done_bit = false;
  reset_started = false;
  reset_observed = false;
}

-- What the host answers when it is asked to advertise.
pub record AdvertiseAnswers : Type 0 where
  pub hs_synced : Bool
  pub adv_set_fields : Bool
  pub adv_rsp_set_fields : Bool

-- The calls of the host that advertise; `adv_start` has the type of the own address.
pub data AdvertiseCall : Type 0 where
  set_fields rsp_set_fields : AdvertiseCall
  adv_start : ℕ → AdvertiseCall

unfoldable pub ble_advertise : BleManager → AdvertiseAnswers → List AdvertiseCall
ble_advertise m host =
    if not host.hs_synced || m.reset_pending
    then []
    else if not host.adv_set_fields
    then set_fields ∷ []
    else if not host.adv_rsp_set_fields
    then set_fields ∷ rsp_set_fields ∷ []
    else set_fields ∷ rsp_set_fields ∷ adv_start m.own_addr_type ∷ []

-- The events of a connection; `connect` carries whether its status is 0.
pub data GapEvent : Type 0 where
  connect : Bool → GapEvent
  disconnect adv_complete other_event : GapEvent

unfoldable pub ble_gap_event : BleManager → AdvertiseAnswers → GapEvent → List AdvertiseCall
ble_gap_event m host (connect true) = []
ble_gap_event m host (connect false) = ble_advertise m host
ble_gap_event m host disconnect = ble_advertise m host
ble_gap_event m host adv_complete = ble_advertise m host
ble_gap_event m host other_event = []

unfoldable pub ble_on_reset : BleManager → BleManager
ble_on_reset m = record m {
  synced = false;
  reset_observed = if m.reset_started then true else m.reset_observed;
  synced_bit = if m.has_events then false else m.synced_bit;
}

-- What the host answers at a sync; `infer_auto` is the type of the own address.
pub record SyncAnswers : Type 0 where
  pub ensure_addr : Bool
  pub infer_auto : Result ℕ

-- The state behind the checks of `ble_on_sync`.
unfoldable pub synchronized : BleManager → ℕ → BleManager
synchronized m addr_type =
    let recovered = m.reset_observed in
    record m {
      own_addr_type = addr_type;
      reset_started = false;
      reset_observed = false;
      reset_pending = if recovered then false else m.reset_pending;
      synced = true;
      synced_bit = if m.has_events then true else m.synced_bit;
      recovery_done_bit = if m.has_events && recovered then true else m.recovery_done_bit;
    }

unfoldable pub ble_on_sync : BleManager → SyncAnswers → BleManager
ble_on_sync m host =
    if m.reset_pending && not m.reset_observed
    then m
    else if not host.ensure_addr
    then m
    else elim host.infer_auto [ err e ↦ m | ok addr_type ↦ synchronized m addr_type ]

-- The calls of `ble_advertise` in `ble_on_sync`, which is called when the checks have passed.
unfoldable pub sync_advertises : BleManager → SyncAnswers → AdvertiseAnswers → List AdvertiseCall
sync_advertises m host answers =
    if m.reset_pending && not m.reset_observed
    then []
    else if not host.ensure_addr
    then []
    else elim host.infer_auto [
      | err e ↦ []
      | ok addr_type ↦ ble_advertise (synchronized m addr_type) answers
    ]

-- The handler of the queued event; the host's reset comes later, as `ble_on_reset`.
unfoldable pub ble_reset_requested : BleManager → BleManager
ble_reset_requested m = record m {
  reset_started = true;
  reset_observed = false;
  synced = false;
  synced_bit = false;
}

-- What the calls of `ble_manager_start` return.
pub record StartAnswers : Type 0 where
  pub group_created : Bool
  pub port_init : Result (Unit {0})
  pub name_set : Bool
  pub relay_gatt_register : Result (Unit {0})
  pub config_gatt_register : Result (Unit {0})

abbrev pub start_host : StartAnswers → Result (Unit {0})
start_host answers = do
  answers.port_init
  guard answers.name_set fail
  answers.relay_gatt_register
  answers.config_gatt_register

unfoldable pub ble_manager_start : BleManager → StartAnswers → BleManager × Result (Unit {0})
ble_manager_start m answers =
    if m.started
    then (m, ok tt)
    else if not answers.group_created
    then (
      record m { has_events = false; synced_bit = false; recovery_done_bit = false },
      err no_mem,
    )
    else let created = record m {
      has_events = true;
      synced_bit = false;
      recovery_done_bit = false;
    } in
      elim (start_host answers) [
        | err e ↦ (created, err e)
        | ok _ ↦ (record created { started = true }, ok tt)
      ]

unfoldable pub ble_manager_is_synced : BleManager → Bool
ble_manager_is_synced m = m.synced && not m.reset_pending

-- `m` is the state after the wait, and `bits` says whether the wait ended with the bit.
unfoldable pub ble_manager_wait_until_synced : BleManager → Bool → Result (Unit {0})
ble_manager_wait_until_synced m bits = do
  guard m.has_events invalid_state
  guard (bits && ble_manager_is_synced m) timeout

unfoldable pub ble_manager_own_addr_type : BleManager → ℕ
ble_manager_own_addr_type m = m.own_addr_type

unfoldable pub ble_manager_restart_advertising :
    BleManager → AdvertiseAnswers → List AdvertiseCall × Result (Unit {0})
ble_manager_restart_advertising m host =
    if not (ble_manager_is_synced m) then ([], err invalid_state) else (ble_advertise m host, ok tt)
