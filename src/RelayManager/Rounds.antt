-- ===== src/RelayManager/Rounds.antt =====
-- The rounds of the relay task of main/relay_manager.cpp: outputs and records.
use power.Prelude.{ℕ, zero, suc, ◌+◌, ◌≤◌, ◌≡◌, refl, ap, false, Option, none, some, Result, arith}
use power.BoardConfig.{RelayHardwareConfig}
use power.RelayManager.{RelayManager, RelayState, RelayMessage, relay_state, valid_relay}
use power.RelayManager.Task.{
  set_timer, obey, expire_relay, expire_from, expire_timers, handle_message, relay_task_round,
}
use power.RelayManager.Levels.{IsDriven, apply_relay-IsDriven, apply_relay-hardware}

obey-output :
    (s : RelayState) (message : RelayMessage) (now : ℕ)
    → (obey s message now).output_on ≡ s.output_on
unfolding obey set_timer
obey-output s message now = ground arith

abbrev pub stopped : RelayState → RelayState
stopped s = record s { timer_active = false; off_at_us = 0 }

module _ (answer : ℕ → Result (Unit {0})) where
  expire_relay-IsDriven :
      (m : RelayManager) (now r : ℕ)
      → IsDriven m
      → 1 ≤ r
      → r ≤ m.hardware.count
      → IsDriven (expire_relay answer m now r)
  unfolding expire_relay
  expire_relay-IsDriven m now r d p q =
      ground (arith, apply_relay-IsDriven answer m r (stopped (relay_state m r)) d p q refl)

  pub expire_relay-hardware :
      (m : RelayManager) (now r : ℕ) → (expire_relay answer m now r).hardware ≡ m.hardware
  unfolding expire_relay
  expire_relay-hardware m now r =
      ground (arith, apply_relay-hardware answer m r (stopped (relay_state m r)))

  pub expire_relay-count :
      (m : RelayManager) (now r : ℕ)
      → (expire_relay answer m now r).hardware.count ≡ m.hardware.count
  expire_relay-count m now r =
      ap (λ (h : RelayHardwareConfig). h.count) (expire_relay-hardware m now r)

  expire_from-IsDriven :
      (left : ℕ) (m : RelayManager) (now r : ℕ)
      → IsDriven m
      → 1 ≤ r
      → r + left ≡ m.hardware.count + 1
      → IsDriven (expire_from answer m now left r)
  unfolding expire_from
  expire_from-IsDriven zero m now r d p e = d
  expire_from-IsDriven (suc left) m now r d p e =
      expire_from-IsDriven left (expire_relay answer m now r) now (r + 1)
        (expire_relay-IsDriven m now r d p (omega arith)) (omega arith)
        (omega (arith, expire_relay-count m now r))

  expire_timers-IsDriven :
      (m : RelayManager) (now : ℕ) → IsDriven m → IsDriven (expire_timers answer m now)
  unfolding expire_timers
  expire_timers-IsDriven m now d =
      expire_from-IsDriven m.hardware.count m now 1 d (omega arith) (omega arith)

  handle_message-IsDriven :
      (m : RelayManager) (message : RelayMessage) (now later : ℕ)
      → IsDriven m
      → IsDriven (handle_message answer m message now later).0
  unfolding handle_message valid_relay
  handle_message-IsDriven m message now later d = ground (
    arith,
    apply_relay-IsDriven answer m message.relay (obey (relay_state m message.relay) message now) d,
    obey-output (relay_state m message.relay) message now,
  )

  -- If, on an accepted description, every output has the level of the state that is recorded for
  -- its relay, then so it is after a round of the relay task, whatever the drivers answer and
  -- whatever message and times come.
  pub relay_task_round-IsDriven :
      (m : RelayManager) (message : Option RelayMessage) (now later last : ℕ)
      → IsDriven m
      → IsDriven (relay_task_round answer m message now later last)
  unfolding relay_task_round
  relay_task_round-IsDriven m none now later last d = expire_timers-IsDriven m last d
  relay_task_round-IsDriven m (some message) now later last d =
      expire_timers-IsDriven _ last (handle_message-IsDriven m message now later d)
