-- ===== src/BatteryScanner/Sequence.antt =====
-- main/battery_scanner.cpp: the steps of a probe, from the discovery to the requests.
-- Each call of the BLE host and each wait is a step, and `env` says what the n-th step meets: what
-- the host answers, and the callbacks that run while the task waits. Callbacks are taken to run
-- while the task waits. The event group, with its bits, is in the state of the probe.
use power.Prelude.{
  ℕ, ◌+◌, ◌-◌, ◌%◌, ◌^◌, Bool, true, false, ◌&&◌, ◌||◌, not, Option, List, [], ◌∷◌, ltb, ◌==◌,
  if◌then◌else◌, Result,
}
use power.BatteryStore.{BatteryStore}
use power.BatteryScanner.Probe.{
  HostStatus, Characteristic, ProbeBits, ProbeState, ProbeEvent, service_discovered,
  characteristic_discovered, descriptor_discovered, write_complete, probe_gap_event, choose_handles,
  char_can_notify, char_can_write, expect_packet,
}

-- The functions that the host calls.
pub data Callback : Type 0 where
  service : HostStatus → Option (ℕ × ℕ) → Callback
  characteristic : HostStatus → Option (Option ℕ × Characteristic) → Callback
  descriptor : HostStatus → ℕ → Option (ℕ × Bool) → Callback
  written : HostStatus → Callback
  gap : ProbeEvent → Callback

unfoldable pub run_callback : ProbeState → Callback → ProbeState
run_callback p (service status found) = service_discovered p status found
run_callback p (characteristic status chr) = characteristic_discovered p status chr
run_callback p (descriptor status chr_val_handle dsc) =
    descriptor_discovered p status chr_val_handle dsc
run_callback p (written status) = write_complete p status
run_callback p (gap event) = probe_gap_event p event

unfoldable pub run_callbacks : ProbeState → List Callback → ProbeState
run_callbacks p [] = p
run_callbacks p (c ∷ rest) = run_callbacks (run_callback p c) rest

-- `accepted`: the call returned 0. `active` and `still_active` are what ble_gap_conn_active answers
-- in `disconnect_probe`, `cancelled` whether the cancel was accepted, `peer_gone` what
-- ble_disconnect_peer returns, and `reset` what ble_manager_reset does.
pub record Step : Type 0 where
  pub accepted : Bool
  pub callbacks : List Callback
  pub active : Bool
  pub cancelled : Bool
  pub still_active : Bool
  pub peer_gone : Bool
  pub reset : Result (Unit {0})
  pub store_taken : Bool
  pub now_us : ℕ

-- The state of the scanner task; `connects` keeps, for each call of ble_gap_connect, whether the
-- cleanup of an earlier probe was pending.
pub record Session (F : Type 0) : Type 0 where
  pub probe : ProbeState
  pub cleanup_pending : Bool
  pub step : ℕ
  pub store : BatteryStore F
  pub connects : List Bool

pub data WaitBit : Type 0 where
  connected service_done chars_done dsc_done write_done packet_done : WaitBit

abbrev pub is_set : WaitBit → ProbeBits → Bool
is_set connected b = b.connected
is_set service_done b = b.service_done
is_set chars_done b = b.chars_done
is_set dsc_done b = b.dsc_done
is_set write_done b = b.write_done
is_set packet_done b = b.packet_done

abbrev pub clear_bit : WaitBit → ProbeBits → ProbeBits
clear_bit connected b = record b { connected = false }
clear_bit service_done b = record b { service_done = false }
clear_bit chars_done b = record b { chars_done = false }
clear_bit dsc_done b = record b { dsc_done = false }
clear_bit write_done b = record b { write_done = false }
clear_bit packet_done b = record b { packet_done = false }

-- The bits that the wait ends with are cleared, a failure and a disconnection with them.
unfoldable pub wait_for_probe_bits : ProbeState → WaitBit → List Callback → ProbeState × Bool
wait_for_probe_bits p bit callbacks =
    let p' = run_callbacks p callbacks in
    (
      record p' { bits = record (clear_bit bit p'.bits) { failed = false; disconnected = false } },
      is_set bit p'.bits,
    )

abbrev pub has_service : ProbeState → Bool
has_service p = not (p.service_start == 0 || p.service_end == 0)

abbrev pub has_characteristics : ProbeState → Bool
has_characteristics p = not (p.notify.val_handle == 0 || p.write.val_handle == 0)

abbrev pub can_talk : ProbeState → Bool
can_talk p = char_can_notify p.notify.properties && char_can_write p.write.properties

-- The last handle at which the descriptors are looked for.
unfoldable pub descriptor_end : ProbeState → ℕ
descriptor_end p =
    if ltb p.notify.val_handle p.write.def_handle
    then (p.write.def_handle - 1) % 2 ^ 16
    else p.service_end

module _ {F : Type 0} where
  abbrev pub next : Session F → Session F
  next s = record s { step = s.step + 1 }

  abbrev pub and_then : Session F × Bool → (Session F → Session F × Bool) → Session F × Bool
  and_then (s, false) after = (s, false)
  and_then (s, true) after = after s

  -- A check of what was found.
  abbrev pub checked : (ProbeState → Bool) → Session F × Bool → Session F × Bool
  checked test (s, found) = (s, found && test s.probe)

  abbrev pub chosen : Session F → Session F
  chosen s = record s { probe = choose_handles s.probe }

  abbrev pub or_again : Session F × Bool → (Session F → Session F × Bool) → Session F × Bool
  or_again (s, true) again = (s, true)
  or_again (s, false) again = again s

  module _ (env : ℕ → Step) where
    abbrev pub wait_step : Session F → WaitBit → Session F × Bool
    wait_step s bit =
        let (p, hit) = wait_for_probe_bits s.probe bit (env s.step).callbacks in
        (record (next s) { probe = p }, hit)

    -- A call of the host, and the wait for its end.
    unfoldable pub call_and_wait : Session F → WaitBit → Session F × Bool
    call_and_wait s bit = if not (env s.step).accepted then (next s, false) else wait_step s bit

    unfoldable pub discover_probe_handles : Session F → Session F × Bool
    discover_probe_handles s = and_then (checked has_service (call_and_wait s service_done)) (λ s.
        and_then (checked has_characteristics (call_and_wait s chars_done)) (λ s.
          if not (can_talk (chosen s).probe)
          then (chosen s, false)
          else checked (λ p. not (p.cccd_handle == 0)) (call_and_wait (chosen s) dsc_done)))

    -- The delay at the end is a step of its own.
    unfoldable pub subscribe_probe_notifications : Session F → Session F × Bool
    subscribe_probe_notifications s =
        and_then (call_and_wait s write_done)
          (λ s. (record (next s) { probe = run_callbacks s.probe (env s.step).callbacks }, true))

    unfoldable pub send_jbd_request : Session F → ℕ → Session F × Bool
    send_jbd_request s command =
        let waiting = record s { probe = expect_packet s.probe command } in
        if s.probe.write.properties.write_no_rsp
        then (next waiting, (env s.step).accepted)
        else call_and_wait waiting write_done

    -- One retry, where no packet came.
    unfoldable pub request_jbd_packet : Session F → ℕ → Session F × Bool
    request_jbd_packet s command = and_then (send_jbd_request s command) (λ s.
        or_again (wait_step s packet_done)
          (λ s. and_then (send_jbd_request s command) (λ s. wait_step s packet_done)))
