-- ===== src/BleDisconnect.antt =====
-- main/ble_disconnect.cpp: releasing the connection to a peer.
-- The BLE host is the parameter `host`: what its n-th lookup of the peer answers, with the handle,
-- what its n-th request to terminate answers, and how many ticks pass before the n-th lookup
-- beside the delays. The record `Link` counts the calls and the ticks. Ticks are 32-bit.
pub mod Confirmed
pub mod Bounded
mod Tests
use power.Prelude.{
  ℕ, zero, suc, ◌+◌, ◌-◌, ◌%◌, ◌^◌, Bool, true, false, ◌||◌, not, Option, none, some, leb,
  if◌then◌else◌,
}

abbrev pub disconnect_attempts : ℕ
disconnect_attempts = 3

-- pdMS_TO_TICKS(5000) and pdMS_TO_TICKS(250), with CONFIG_FREERTOS_HZ of the sdkconfig
abbrev pub disconnect_timeout_ticks : ℕ
disconnect_timeout_ticks = 500

abbrev pub retry_delay_ticks : ℕ
retry_delay_ticks = 25

-- 0, BLE_HS_ENOTCONN, BLE_HS_EALREADY and any other code of the host.
pub data HostResult : Type 0 where
  success not_connected already_done other_error : HostResult

pub record BleHost : Type 0 where
  pub find : ℕ → HostResult
  pub handle : ℕ → ℕ
  pub terminate : ℕ → ℕ → HostResult
  pub passing : ℕ → ℕ

pub record Link : Type 0 where
  pub lookups : ℕ
  pub requests : ℕ
  pub now : ℕ

abbrev pub is_success : HostResult → Bool
is_success success = true
is_success _ = false

abbrev pub is_not_connected : HostResult → Bool
is_not_connected not_connected = true
is_not_connected _ = false

-- The codes of `ble_gap_terminate` after which the code waits.
abbrev pub is_ending : HostResult → Bool
is_ending other_error = false
is_ending _ = true

abbrev pub delayed : Link → Link
delayed l = record l { now = l.now + retry_delay_ticks }

module _ (host : BleHost) where
  abbrev pub found : Link → HostResult
  found l = host.find l.lookups

  abbrev pub looked_up : Link → Link
  looked_up l = record l { lookups = l.lookups + 1; now = l.now + host.passing l.lookups }

  -- The polling loop, with the time at which it started, on fuel: `true` is the confirmation.
  unfoldable pub wait_gone : ℕ → ℕ → Link → Option (Link × Bool)
  wait_gone zero started l = none
  wait_gone (suc fuel) started l =
      let checked = looked_up l in
      let again = wait_gone fuel started (delayed checked) in
      if is_not_connected (found l)
      then some (checked, true)
      else if not (is_success (found l))
          || leb disconnect_timeout_ticks
              ((checked.now % 2 ^ 32 + 2 ^ 32 - started % 2 ^ 32) % 2 ^ 32)
      then some (checked, false)
      else again

  -- What follows a wait: the confirmation, or the next attempt.
  abbrev pub or_next : Option (Link × Bool) → (Link → Option (Link × Bool)) → Option (Link × Bool)
  or_next none next = none
  or_next (some (l, true)) next = some (l, true)
  or_next (some (l, false)) next = next l

  -- One attempt, before `next`.
  unfoldable pub attempt : ℕ → Link → (Link → Option (Link × Bool)) → Option (Link × Bool)
  attempt fuel l next =
      let checked = looked_up l in
      let ended = record checked { requests = l.requests + 1 } in
      if is_not_connected (found l)
      then some (checked, true)
      else if not (is_success (found l))
      then next checked
      else if is_ending (host.terminate l.requests (host.handle l.lookups))
      then or_next (wait_gone fuel checked.now ended) next
      else next ended

  -- The attempts that are left, each after a delay; then the last lookup.
  unfoldable pub retries : ℕ → ℕ → Link → Option (Link × Bool)
  retries fuel zero l = some (looked_up l, is_not_connected (found l))
  retries fuel (suc left) l = attempt fuel (delayed l) (retries fuel left)

  unfoldable pub ble_disconnect_peer : ℕ → Link → Option (Link × Bool)
  ble_disconnect_peer fuel l = attempt fuel l (retries fuel (disconnect_attempts - 1))
