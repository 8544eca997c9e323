-- ===== src/RelayManager/Task.antt =====
-- main/relay_manager.cpp: the messages and the timers that the relay task serves.
use power.Prelude.{
  ℕ, zero, suc, ◌+◌, ◌*◌, max, Bool, true, false, ◌&&◌, not, Option, none, some, ltb, leb,
  if◌then◌else◌, Result, ok, err, invalid_arg,
}
use power.RelayManager.{
  RelayManager, RelayState, RelayMessage, RelayStatus, RelayForce, MessageType, valid_relay,
  relay_state, put_relay, make_status,
}
use power.RelayManager.Driver.{apply_output}

-- What OnFor makes of a relay's timer at the time `now`.
unfoldable pub set_timer : RelayState → ℕ → ℕ → RelayState
set_timer state seconds now =
    let requested_off_at = now + seconds * 1000000 in
    let off_at_us =
      if state.timer_active then max state.off_at_us requested_off_at else requested_off_at in
    let timer_active = ltb 0 seconds in
    record state { timer_active = timer_active; off_at_us = if timer_active then off_at_us else 0 }

-- The switch of `handle_message`, before `apply_output`.
unfoldable pub obey : RelayState → RelayMessage → ℕ → RelayState
obey state message now = elim message.type [
  | MessageType.on_for ↦ set_timer state message.seconds now
  | MessageType.force_on ↦ record state { force = RelayForce.on }
  | MessageType.force_off ↦ record state { force = RelayForce.off }
  | MessageType.clear_force ↦ record state { force = RelayForce.none }
  | MessageType.query ↦ state
]

abbrev pub is_query : MessageType → Bool
is_query MessageType.query = true
is_query _ = false

module _ (answer : ℕ → Result (Unit {0})) where
  -- `apply_output` on a relay of the table, which keeps the result.
  unfoldable pub apply_relay : RelayManager → ℕ → RelayState → RelayManager
  apply_relay m relay state =
      let (m', state') = apply_output answer m relay state in put_relay m' relay state'

  -- The body of the loop of `expire_timers`.
  unfoldable pub expire_relay : RelayManager → ℕ → ℕ → RelayManager
  expire_relay m now relay =
      let state = relay_state m relay in
      if state.timer_active && leb state.off_at_us now
      then apply_relay m relay (record state { timer_active = false; off_at_us = 0 })
      else m

  -- The loop from relay number `relay`, with the rounds left.
  unfoldable pub expire_from : RelayManager → ℕ → ℕ → ℕ → RelayManager
  expire_from m now zero relay = m
  expire_from m now (suc left) relay = expire_from (expire_relay m now relay) now left (relay + 1)

  unfoldable pub expire_timers : RelayManager → ℕ → RelayManager
  expire_timers m now = expire_from m now m.hardware.count 1

  -- The new state, and the reply if one is asked for. `now` and `later` are the two readings of
  -- the clock.
  unfoldable pub handle_message :
      RelayManager → RelayMessage → ℕ → ℕ → RelayManager × Option (Result RelayStatus)
  handle_message m message now later =
      if not (valid_relay m message.relay)
      then (m, if message.wants_reply then some (err invalid_arg) else none)
      else let state = relay_state m message.relay in
        let m' =
          if is_query message.type
          then m
          else apply_relay m message.relay (obey state message now) in
        (m', if message.wants_reply then some (ok (make_status m' message.relay later)) else none)

  -- One round of `relay_task`: the message that `xQueueReceive` hands out, if any, and the
  -- readings of the clock.
  unfoldable pub relay_task_round : RelayManager → Option RelayMessage → ℕ → ℕ → ℕ → RelayManager
  relay_task_round m none now later last = expire_timers m last
  relay_task_round m (some message) now later last =
      expire_timers (handle_message m message now later).0 last
