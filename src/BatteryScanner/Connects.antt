-- ===== src/BatteryScanner/Connects.antt =====
-- main/battery_scanner.cpp: only the start of a probe adds to the connections that were begun.
use power.Prelude.{
  ℕ, ◌≡◌, refl, ◌∙◌, Bool, true, false, not, Option, none, some, [], ◌∷◌, ◌++◌, Text, Result, ok,
  err, arith,
}
use power.Prelude.Float.{Float}
use power.JbdProtocol.{
  JbdBasicInfo, jbd_parse_basic_info, given, jbd_basic_info_command, jbd_cell_info_command,
}
use power.Prelude.Memory.{shift}
use power.BatteryScanner.Candidates.{BatteryCandidate}
use power.BatteryScanner.Probe.{new_probe, expect_packet}
use power.BatteryScanner.Sequence.{
  Step, Session, WaitBit, connected, service_done, chars_done, dsc_done, write_done, packet_done,
  next, and_then, or_again, checked, has_service, has_characteristics, chosen, wait_step,
  call_and_wait, discover_probe_handles, subscribe_probe_notifications, send_jbd_request,
  request_jbd_packet,
}
use power.BatteryScanner.Probing.{
  disconnect_probe, cancel_pending_probe_connect, after_reset, observe, record_battery,
  record_basic, after_packet, probe_connected, probe_battery, battery_name,
}

module _ {F : Type 0} where
  -- The result of a step has the same list.
  abbrev pub Keeps : Session F → Session F → Type 0
  Keeps s t = t.connects ≡ s.connects

  and_then-Keeps :
      (s : Session F) (x : Session F × Bool) (after : Session F → Session F × Bool)
      → Keeps s x.0
      → ((t : Session F) → Keeps t (after t).0)
      → Keeps s (and_then x after).0
  and_then-Keeps s (t, false) after h k = h
  and_then-Keeps s (t, true) after h k = k t ∙ h

  or_again-Keeps :
      (s : Session F) (x : Session F × Bool) (again : Session F → Session F × Bool)
      → Keeps s x.0
      → ((t : Session F) → Keeps t (again t).0)
      → Keeps s (or_again x again).0
  or_again-Keeps s (t, true) again h k = h
  or_again-Keeps s (t, false) again h k = k t ∙ h

  module _ (env : ℕ → Step) where
    call_and_wait-Keeps : (s : Session F) (bit : WaitBit) → Keeps s (call_and_wait env s bit).0
    unfolding call_and_wait
    call_and_wait-Keeps s bit = ground arith

    discover_probe_handles-Keeps : (s : Session F) → Keeps s (discover_probe_handles env s).0
    unfolding discover_probe_handles
    discover_probe_handles-Keeps s =
        and_then-Keeps s (checked has_service (call_and_wait env s service_done)) _
          (call_and_wait-Keeps s service_done)
          (λ t.
            and_then-Keeps t (checked has_characteristics (call_and_wait env t chars_done)) _
              (call_and_wait-Keeps t chars_done)
              (λ u. ground (arith, call_and_wait-Keeps (chosen u) dsc_done)))

    subscribe_probe_notifications-Keeps :
        (s : Session F) → Keeps s (subscribe_probe_notifications env s).0
    unfolding subscribe_probe_notifications
    subscribe_probe_notifications-Keeps s =
        and_then-Keeps s (call_and_wait env s write_done) _ (call_and_wait-Keeps s write_done)
          (λ t. refl)

    send_jbd_request-Keeps :
        (s : Session F) (command : ℕ) → Keeps s (send_jbd_request env s command).0
    unfolding send_jbd_request
    send_jbd_request-Keeps s command =
        let waiting : Session F = record s { probe = expect_packet s.probe command } in
        ground (arith, call_and_wait-Keeps waiting write_done)

    request_jbd_packet-Keeps :
        (s : Session F) (command : ℕ) → Keeps s (request_jbd_packet env s command).0
    unfolding request_jbd_packet
    request_jbd_packet-Keeps s command =
        and_then-Keeps s (send_jbd_request env s command) _ (send_jbd_request-Keeps s command) (λ t.
          or_again-Keeps t (wait_step env t packet_done) _ refl (λ u.
            and_then-Keeps u (send_jbd_request env u command) _ (send_jbd_request-Keeps u command)
              (λ v. refl)))

  module _ (f : Float F) (env : ℕ → Step) where
    after_reset-Keeps :
        (s : Session F) (result : Result (Unit {0})) → Keeps s (after_reset f env s result)
    after_reset-Keeps s (err e) = refl
    after_reset-Keeps s (ok u) = refl

    pub disconnect_probe-Keeps : (s : Session F) → Keeps s (disconnect_probe f env s).0
    unfolding disconnect_probe cancel_pending_probe_connect
    disconnect_probe-Keeps s =
        let cancelled = next (cancel_pending_probe_connect f env s) in
        ground (arith, after_reset-Keeps cancelled (env s.step).reset)

    -- What it answers.
    pub disconnect_probe-clean :
        (s : Session F)
        → (disconnect_probe f env s).1 ≡ not (disconnect_probe f env s).0.cleanup_pending
    unfolding disconnect_probe
    disconnect_probe-clean s = refl

    observe-Keeps : (s : Session F) (basic : JbdBasicInfo F) → Keeps s (observe f env s basic).0
    unfolding observe
    observe-Keeps s basic = ground (arith, request_jbd_packet-Keeps env s jbd_cell_info_command)

    record_basic-Keeps :
        (s : Session F) (name : Text) (basic : Option (JbdBasicInfo F))
        → Keeps s (record_basic f env s name basic)
    unfolding record_battery
    record_basic-Keeps s name none = disconnect_probe-Keeps s
    record_basic-Keeps s name (some basic) =
        let (s', o) = observe f env s basic in
        disconnect_probe-Keeps (record_battery f env s' name o) ∙ observe-Keeps s basic

    after_packet-Keeps :
        (s : Session F) (name : Text) (x : Session F × Bool)
        → Keeps s x.0
        → Keeps s (after_packet f env name x)
    after_packet-Keeps s name (t, false) h = disconnect_probe-Keeps t ∙ h
    after_packet-Keeps s name (t, true) h =
        record_basic-Keeps t name (
          jbd_parse_basic_info f (some (shift t.probe.rx t.probe.packet_offset)) t.probe.packet_len
            given)
        ∙ h

    probe_connected-Keeps : (s : Session F) (name : Text) → Keeps s (probe_connected f env s name)
    unfolding probe_connected
    probe_connected-Keeps s name = after_packet-Keeps s name _ (
        and_then-Keeps s (wait_step env s connected) _ refl (λ t.
          and_then-Keeps t (discover_probe_handles env t) _ (discover_probe_handles-Keeps env t)
            (λ u.
              and_then-Keeps u (subscribe_probe_notifications env u) _
                (subscribe_probe_notifications-Keeps env u)
                (λ v. request_jbd_packet-Keeps env v jbd_basic_info_command))))

    pub probe_battery-connects :
        (s : Session F) (c : BatteryCandidate)
        → (probe_battery f env s c).connects ≡ s.connects ++ (s.cleanup_pending ∷ [])
    unfolding probe_battery
    probe_battery-connects s c =
        let started : Session F = record s {
          probe = new_probe c.addr;
          connects = s.connects ++ (s.cleanup_pending ∷ []);
          cleanup_pending = true;
        } in
        ground (arith, probe_connected-Keeps started (battery_name c))
