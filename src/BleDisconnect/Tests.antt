-- ===== src/BleDisconnect/Tests.antt =====
-- Runs in the manner of tests/test_ble_disconnect.cpp.
use power.Prelude.{ℕ, zero, suc, ◌^◌, ◌≤◌, ◌<◌, ◌≡◌, refl, Bool, true, some, arith}
use power.BleDisconnect.{
  BleHost, HostResult, success, not_connected, Link, wait_gone, attempt, retries,
  ble_disconnect_peer,
}
use power.BleDisconnect.Confirmed.{ble_disconnect_peer-Confirmed}
use power.BleDisconnect.Bounded.{Within, ble_disconnect_peer-Within}

-- The peer is there for three lookups.
abbrev lookups : ℕ → HostResult
lookups zero = success
lookups (suc zero) = success
lookups (suc (suc zero)) = success
lookups (suc (suc (suc n))) = not_connected

abbrev leaving : BleHost
leaving = record {
  find = lookups;
  handle = λ n. 7;
  terminate = λ n handle. success;
  passing = λ n. 1;
}

abbrev linked : Link
linked = record { lookups = 0; requests = 0; now = 4294967290 }

abbrev left : Link × Bool
left = (record { lookups = 4; requests = 1; now = 4294967344 }, true)

disconnect-leaving : ble_disconnect_peer leaving 21 linked ≡ some left
unfolding ble_disconnect_peer attempt wait_gone retries
disconnect-leaving = refl

ble_disconnect_peer-Confirmed_example : (1 ≤ 4) × (true ≡ true)
ble_disconnect_peer-Confirmed_example =
    ble_disconnect_peer-Confirmed leaving 21 linked left disconnect-leaving

leaving-short : (n : ℕ) → leaving.passing n < 2 ^ 31
leaving-short n = omega arith

ble_disconnect_peer-Within_example :
    Within leaving leaving-short (ble_disconnect_peer leaving 21 linked) linked 67 3
ble_disconnect_peer-Within_example = ble_disconnect_peer-Within leaving leaving-short linked
