-- ===== src/RelayManager/Api.antt =====
-- main/relay_manager.cpp: the functions that other tasks call.
-- What FreeRTOS answers is an argument: whether a queue or task could be created, whether a send
-- or a receive succeeded within its time.
use power.Prelude.{
  ℕ, Bool, true, false, not, Option, none, some, leb, if◌then◌else◌, replicate, Text, codes, Result,
  ok, err, ◌>>=◌, ◌>>◌, guard, invalid_arg, invalid_state, invalid_size, not_supported, timeout,
  no_mem,
}
use power.BoardConfig.{BoardConfig, RelayBackendKind}
use power.RelayManager.{
  RelayManager, RelayMessage, RelayStatus, RelayForce, MessageType, valid_relay, max_relays,
  idle_relay,
}
use power.RelayManager.Driver.{and_then, configure_gpio_backend, configure_tca9554_backend}

unfoldable pub relay_force_name : RelayForce → Text
relay_force_name RelayForce.on = codes "on"
relay_force_name RelayForce.off = codes "off"
relay_force_name RelayForce.none = codes "none"

unfoldable pub relay_manager_count : RelayManager → ℕ
relay_manager_count m = m.hardware.count

module _ (answer : ℕ → Result (Unit {0})) where
  -- `queue_ok` and `task_ok`: the queue and the task were created.
  unfoldable pub relay_manager_start :
      RelayManager → BoardConfig → Bool → Bool → RelayManager × Result (Unit {0})
  unfolding configure_gpio_backend configure_tca9554_backend
  relay_manager_start m board queue_ok task_ok =
      if m.queue_created
      then (m, ok tt)
      else if not (leb board.relay.count max_relays)
      then (m, err invalid_size)
      else let fresh = record m {
        relays = replicate max_relays idle_relay;
        hardware = board.relay;
      } in
        let finish = λ (m' : RelayManager).
          if not queue_ok
          then (m', err no_mem)
          else (record m' { queue_created = true }, guard task_ok no_mem) in
        elim board.relay.kind [
          | RelayBackendKind.gpio ↦ and_then answer (configure_gpio_backend answer fresh) finish
          | RelayBackendKind.tca9554 ↦
              and_then answer (configure_tca9554_backend answer fresh board.i2c.frequency_hz) finish
          | RelayBackendKind.none ↦ (fresh, err not_supported)
        ]

-- The message that goes into the queue; `sent` is what `xQueueSend` answers.
unfoldable pub send_message : RelayManager → RelayMessage → Bool → Result RelayMessage
send_message m message sent = do guard m.queue_created invalid_state; guard sent timeout; ok message

unfoldable pub send_command : RelayManager → MessageType → ℕ → ℕ → Bool → Result RelayMessage
unfolding send_message valid_relay
send_command m type relay seconds sent = do
  guard (valid_relay m relay) invalid_arg
  send_message m (record { type = type; relay = relay; seconds = seconds; wants_reply = false })
      sent

unfoldable pub relay_manager_on_for : RelayManager → ℕ → ℕ → Bool → Result RelayMessage
unfolding send_command
relay_manager_on_for m relay seconds = send_command m MessageType.on_for relay seconds

unfoldable pub relay_manager_force_on : RelayManager → ℕ → Bool → Result RelayMessage
unfolding send_command
relay_manager_force_on m relay = send_command m MessageType.force_on relay 0

unfoldable pub relay_manager_force_off : RelayManager → ℕ → Bool → Result RelayMessage
unfolding send_command
relay_manager_force_off m relay = send_command m MessageType.force_off relay 0

unfoldable pub relay_manager_clear_force : RelayManager → ℕ → Bool → Result RelayMessage
unfolding send_command
relay_manager_clear_force m relay = send_command m MessageType.clear_force relay 0

-- `reply` is what comes back on the reply queue within its time; `given` says that the pointer
-- for the status is not null.
unfoldable pub relay_manager_query :
    RelayManager → Bool → ℕ → Bool → Bool → Option (Result RelayStatus) → Result RelayStatus
unfolding send_message valid_relay
relay_manager_query m given relay queue_ok sent reply = do
  guard given invalid_arg
  guard (valid_relay m relay) invalid_arg
  guard m.queue_created invalid_state
  guard queue_ok no_mem
  _ ←
      send_message m
        (record { type = MessageType.query; relay = relay; seconds = 0; wants_reply = true }) sent
  elim reply [ none ↦ err timeout | some result ↦ result ]
