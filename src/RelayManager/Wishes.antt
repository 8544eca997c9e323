-- ===== src/RelayManager/Wishes.antt =====
-- main/relay_manager.cpp, seen from outside: what the messages and the time ask of a relay.
use power.Prelude.{
  ℕ, zero, suc, ◌+◌, ◌*◌, ◌≤◌, ◌≡◌, refl, ap, ◌∙◌, Bool, true, false, ◌&&◌, Option, none, some,
  List, [], ◌∷◌, ltb, leb, ◌==◌, max, if◌then◌else◌, Result, arith,
}
use power.RelayManager.{
  RelayManager, RelayState, RelayMessage, RelayForce, MessageType, relay_state, desired,
  valid_relay,
}
use power.RelayManager.Driver.{apply_output}
use power.RelayManager.Task.{
  set_timer, obey, expire_relay, expire_from, expire_timers, handle_message, relay_task_round,
}
use power.RelayManager.Levels.{apply_relay-table}
use power.RelayManager.Rounds.{expire_relay-count, stopped}
use power.RelayManager.Timers.{IsSized, expire_relay-table, handle_message-table}
use power.RelayManager.Expiry.{Round}

-- A relay may be forced on or off, and may be asked to be on up to a time in microseconds.
pub record Wish : Type 0 where
  pub forced : Option Bool
  pub until : Option ℕ

-- A force decides; without one the relay is on while a time is set.
abbrev pub is_on : Option Bool → Option ℕ → Bool
is_on (some on) until = on
is_on none (some time) = true
is_on none none = false

-- "On for so many seconds" never shortens a time that is set; 0 seconds end it.
abbrev pub extended : Option ℕ → ℕ → ℕ → Option ℕ
extended until zero now = none
extended none (suc n) now = some (now + suc n * 1000000)
extended (some time) (suc n) now = some (max time (now + suc n * 1000000))

abbrev pub hear : Wish → MessageType → ℕ → ℕ → Wish
hear w MessageType.on_for seconds now = record w { until = extended w.until seconds now }
hear w MessageType.force_on seconds now = record w { forced = some true }
hear w MessageType.force_off seconds now = record w { forced = some false }
hear w MessageType.clear_force seconds now = record w { forced = none }
hear w MessageType.query seconds now = w

-- A time that is reached is no longer set.
abbrev pub elapsed : Option ℕ → ℕ → Option ℕ
elapsed none now = none
elapsed (some time) now = if leb time now then none else some time

abbrev pub elapse : Wish → ℕ → Wish
elapse w now = record w { until = elapsed w.until now }

-- The messages for other relays change nothing.
abbrev pub hear_if : ℕ → Wish → Option RelayMessage → ℕ → Wish
hear_if q w none now = w
hear_if q w (some message) now =
    if message.relay == q then hear w message.type message.seconds now else w

-- A round hears its message, and then looks at the clock.
abbrev pub wish_round : ℕ → Wish → Round → Wish
wish_round q w x = elapse (hear_if q w x.message x.now) x.last

unfoldable pub wish_run : ℕ → Wish → List Round → Wish
wish_run q w [] = w
wish_run q w (x ∷ xs) = wish_run q (wish_round q w x) xs

abbrev pub force_of : RelayForce → Option Bool
force_of RelayForce.on = some true
force_of RelayForce.off = some false
force_of RelayForce.none = none

-- The wish that the code records for a relay.
abbrev pub wish_of : RelayState → Wish
wish_of s = record {
  forced = force_of s.force;
  until = if s.timer_active then some s.off_at_us else none;
}

pub desired-is_on : (s : RelayState) → desired s ≡ is_on (wish_of s).forced (wish_of s).until
unfolding desired
desired-is_on s = ground arith

stopped-wish :
    (s : RelayState) (now : ℕ)
    → wish_of (if s.timer_active && leb s.off_at_us now then stopped s else s)
      ≡ elapse (wish_of s) now
stopped-wish s now = ground arith

obey-wish :
    (s : RelayState) (message : RelayMessage) (now : ℕ)
    → wish_of (obey s message now) ≡ hear (wish_of s) message.type message.seconds now
unfolding obey set_timer
obey-wish s message now = ground arith

module _ (answer : ℕ → Result (Unit {0})) where
  -- The output that is recorded is no part of the wish.
  apply_output-wish :
      (m : RelayManager) (r : ℕ) (s : RelayState)
      → wish_of (apply_output answer m r s).1 ≡ wish_of s
  unfolding apply_output
  apply_output-wish m r s = ground arith

  expire_relay-wish :
      (m : RelayManager) (now r q : ℕ)
      → IsSized m
      → 1 ≤ r
      → r ≤ 8
      → 1 ≤ q
      → wish_of (relay_state (expire_relay answer m now r) q)
        ≡ (if r == q then elapse (wish_of (relay_state m q)) now else wish_of (relay_state m q))
  unfolding expire_relay
  expire_relay-wish m now r q v p1 p2 q1 =
      let s = stopped (relay_state m r) in
      ground (
        arith,
        apply_relay-table answer m r q s v.slots p1 p2 q1,
        apply_output-wish m r s,
        stopped-wish (relay_state m r) now,
      )

  expire_from-wish :
      (left : ℕ) (m : RelayManager) (now r q : ℕ)
      → IsSized m
      → 1 ≤ r
      → r + left ≡ m.hardware.count + 1
      → 1 ≤ q
      → wish_of (relay_state (expire_from answer m now left r) q) ≡ (
          if leb r q && ltb q (r + left)
          then elapse (wish_of (relay_state m q)) now
          else wish_of (relay_state m q))
  unfolding expire_from
  expire_from-wish zero m now r q v p e q1 = ground arith
  expire_from-wish (suc left) m now r q v p e q1 =
      let m' = expire_relay answer m now r in
      let few = v.few in
      let v' = (expire_relay-table answer m now r r v p (omega arith) p).0 in
      let rest =
        expire_from-wish left m' now (r + 1) q v' (omega arith)
          (omega (arith, expire_relay-count answer m now r)) q1 in
      ground (arith, rest, expire_relay-wish m now r q v p (omega arith) q1)

  handle_message-wish :
      (m : RelayManager) (message : RelayMessage) (now later q : ℕ)
      → IsSized m
      → 1 ≤ q
      → q ≤ m.hardware.count
      → wish_of (relay_state (handle_message answer m message now later).0 q)
        ≡ hear_if q (wish_of (relay_state m q)) (some message) now
  unfolding handle_message valid_relay
  handle_message-wish m message now later q v q1 q2 =
      let s = obey (relay_state m message.relay) message now in
      ground (
        arith,
        v.few,
        apply_relay-table answer m message.relay q s v.slots,
        apply_output-wish m message.relay s,
        obey-wish (relay_state m message.relay) message now,
      )

  expire_from-count :
      (left : ℕ) (m : RelayManager) (now r : ℕ)
      → (expire_from answer m now left r).hardware.count ≡ m.hardware.count
  unfolding expire_from
  expire_from-count zero m now r = refl
  expire_from-count (suc left) m now r =
      expire_from-count left (expire_relay answer m now r) now (r + 1)
      ∙ expire_relay-count answer m now r

  pub relay_task_round-count :
      (m : RelayManager) (x : Round)
      → IsSized m
      → (relay_task_round answer m x.message x.now x.later x.last).hardware.count ≡ m.hardware.count
  unfolding relay_task_round expire_timers
  relay_task_round-count m x v = by_message x.message
    where
      by_message :
          (message : Option RelayMessage)
          → (relay_task_round answer m message x.now x.later x.last).hardware.count
            ≡ m.hardware.count
      by_message none = expire_from-count m.hardware.count m x.last 1
      by_message (some message) =
          let m' = (handle_message answer m message x.now x.later).0 in
          expire_from-count m'.hardware.count m' x.last 1
          ∙ (handle_message-table answer m message x.now x.later 1 v (omega arith)).1

  pub relay_task_round-wish :
      (m : RelayManager) (x : Round) (q : ℕ)
      → IsSized m
      → 1 ≤ q
      → q ≤ m.hardware.count
      → wish_of (relay_state (relay_task_round answer m x.message x.now x.later x.last) q)
        ≡ wish_round q (wish_of (relay_state m q)) x
  unfolding relay_task_round expire_timers
  relay_task_round-wish m x q v q1 q2 = by_message x.message
    where
      expired :
          (n : RelayManager)
          → IsSized n
          → q ≤ n.hardware.count
          → wish_of (relay_state (expire_timers answer n x.last) q)
            ≡ elapse (wish_of (relay_state n q)) x.last
      expired n w q2 =
          ground
            (arith, expire_from-wish n.hardware.count n x.last 1 q w (omega arith) (omega arith) q1)

      by_message :
          (message : Option RelayMessage)
          → wish_of (relay_state (relay_task_round answer m message x.now x.later x.last) q)
            ≡ elapse (hear_if q (wish_of (relay_state m q)) message x.now) x.last
      by_message none = expired m v q2
      by_message (some message) =
          let (w, count, kept) = handle_message-table answer m message x.now x.later q v q1 in
          expired (handle_message answer m message x.now x.later).0 w (omega (arith, count))
          ∙ ap (λ w. elapse w x.last) (handle_message-wish m message x.now x.later q v q1 q2)
