-- ===== src/RelayManager/Tests.antt =====
-- Runs of main/relay_manager.cpp on the board of board_profiles/waveshare-relay-6ch.csv.
use power.Prelude.{
  ℕ, zero, suc, ◌≤◌, ◌≡◌, refl, true, false, none, some, List, [], ◌∷◌, Result, ok, err, timeout,
  if◌then◌else◌, ◌==◌, arith, replicate, take,
}
use power.BoardConfig.{BoardConfig, RelayHardwareConfig, RelayBackendKind, default_config}
use power.RelayManager.{
  RelayManager, RelayMessage, MessageType, initial, idle_relay, relay_state, channel_of,
  remaining_seconds, desired, max_relays,
}
use power.RelayManager.Driver.{call, preload_from, configure_gpio_backend}
use power.RelayManager.Api.{relay_manager_start}
use power.RelayManager.Task.{relay_task_round}
use power.RelayManager.Levels.{Wired, IsDriven}
use power.RelayManager.Rounds.{relay_task_round-IsDriven}
use power.RelayManager.Obedience.{IsObeyed, run-IsObeyed}
use power.RelayManager.Wishes.{Wish, wish_of, wish_run, is_on}
use power.RelayManager.Start.{relay_manager_start-open}
use power.RelayManager.Timers.{IsSized, IsCurrent, relay_task_round-IsCurrent}
use power.RelayManager.Expiry.{Round, run, failed_expiry_stays_on}

abbrev working : ℕ → Result (Unit {0})
working n = ok tt

abbrev broken : ℕ → Result (Unit {0})
broken n = err timeout

abbrev six_channels : RelayHardwareConfig
six_channels = record {
  kind = RelayBackendKind.gpio;
  count = 6;
  active_level = 1;
  channels = 1 ∷ 2 ∷ 41 ∷ 42 ∷ 45 ∷ 46 ∷ 0 ∷ 0 ∷ [];
  i2c_address = 0;
}

abbrev board : BoardConfig
board = record default_config { relay = six_channels }

-- The place of a channel on the board.
abbrev place : ℕ → ℕ
place c =
    if c == 1
    then 1
    else if c == 2
    then 2
    else if c == 41
    then 3
    else if c == 42
    then 4
    else if c == 45
    then 5
    else 6

place-channel : (r : ℕ) → 1 ≤ r → r ≤ 6 → place (channel_of six_channels r) ≡ r
place-channel zero p q = absurd (omega arith)
place-channel (suc zero) p q = refl
place-channel (suc (suc zero)) p q = refl
place-channel (suc (suc (suc zero))) p q = refl
place-channel (suc (suc (suc (suc zero)))) p q = refl
place-channel (suc (suc (suc (suc (suc zero))))) p q = refl
place-channel (suc (suc (suc (suc (suc (suc zero)))))) p q = refl
place-channel (suc (suc (suc (suc (suc (suc (suc r))))))) p q = absurd (omega arith)

six_channels-Wired : Wired six_channels
six_channels-Wired = record {
  few = omega arith;
  level = omega arith;
  backed = λ h. cc;
  distinct = λ r q a b c d e. rw (← place-channel r a b, ← place-channel q c d, e) refl;
  bits = λ h. absurd cc;
}

started : RelayManager
started = (relay_manager_start working initial board true true).0

relay_manager_start-open_example :
    IsDriven started × IsObeyed started × (started.relays ≡ replicate max_relays idle_relay)
unfolding started
relay_manager_start-open_example =
    relay_manager_start-open working initial board true true refl six_channels-Wired refl
      (unfold relay_manager_start configure_gpio_backend preload_from call in refl)

abbrev on_for_5 : RelayMessage
on_for_5 = record { type = MessageType.on_for; relay = 3; seconds = 5; wants_reply = false }

relay_task_round-IsDriven_example :
    IsDriven (relay_task_round broken started (some on_for_5) 100 101 102)
relay_task_round-IsDriven_example =
    relay_task_round-IsDriven broken started (some on_for_5) 100 101 102
      relay_manager_start-open_example.0

abbrev rounds : List Round
rounds =
    record { message = some on_for_5; now = 100; later = 101; last = 102 }
    ∷ record { message = none; now = 0; later = 0; last = 6000000 }
    ∷ []

run-IsObeyed_example :
    let after = relay_state (run working started rounds) 3 in
    let wish = wish_run 3 (wish_of (relay_state started 3)) rounds in
    IsObeyed (run working started rounds)
    × (wish_of after ≡ wish)
    × (after.output_on ≡ is_on wish.forced wish.until)
unfolding preload_from call
run-IsObeyed_example =
    run-IsObeyed working (λ n. refl) rounds started 3 relay_manager_start-open_example.1
      (omega arith) (unfold started relay_manager_start in omega arith)

-- The wish of relay 3 after the message, and after its 5 seconds.
wishes :
    let idle : Wish = record { forced = none; until = none } in
    (wish_run 3 idle (take 1 rounds) ≡ record { forced = none; until = some 5000100 })
    × (wish_run 3 idle rounds ≡ idle)
unfolding wish_run
wishes = (refl, refl)

-- Relay 1 is on until time 500.
abbrev lit : RelayManager
lit = record initial {
  hardware = six_channels;
  relays =
      record idle_relay { timer_active = true; output_on = true; off_at_us = 500 }
      ∷ replicate 7 idle_relay;
}

lit-IsSized : IsSized lit
lit-IsSized = record { few = omega arith; slots = refl }

relay_task_round-IsCurrent_example :
    IsCurrent 700 (relay_state (relay_task_round broken lit (some on_for_5) 500 600 700) 1)
relay_task_round-IsCurrent_example =
    relay_task_round-IsCurrent broken lit (some on_for_5) 500 600 700 lit-IsSized 1 (omega arith)
      (omega arith)

failed_expiry_stays_on_example :
    let m = run working (relay_task_round broken lit none 0 0 600) rounds in
    ((relay_state m 1).output_on ≡ true) × (desired (relay_state m 1) ≡ false)
failed_expiry_stays_on_example =
    failed_expiry_stays_on broken (λ n h. cc) working lit 1 0 0 600 rounds lit-IsSized (omega arith)
      (omega arith) refl (omega arith) refl refl (λ h. absurd (omega arith), (λ h. h, tt))

remaining_seconds_3 : remaining_seconds 1000000 3500000 ≡ 3
unfolding remaining_seconds
remaining_seconds_3 = refl
