-- ===== src/RelayManager/Timers.antt =====
-- The timers of main/relay_manager.cpp.
use power.Prelude.{
  ℕ, zero, suc, ◌+◌, ◌≤◌, ◌<◌, ◌≡◌, ◌≢◌, refl, ap, sym, ◌∙◌, true, false, Option, none, some,
  Result, arith, length, subst,
}
use native.Mathlib.Decide.{ℕ_discrete}
use power.BoardConfig.{RelayHardwareConfig}
use power.RelayManager.{RelayManager, RelayState, RelayMessage, relay_state, valid_relay}
use power.RelayManager.Driver.{apply_output}
use power.RelayManager.Task.{
  expire_relay, expire_from, expire_timers, handle_message, relay_task_round, obey,
}
use power.RelayManager.Levels.{apply_relay-table}
use power.RelayManager.Rounds.{stopped, expire_relay-count}

-- A relay whose timer is not overdue.
abbrev pub IsCurrent : ℕ → RelayState → Type 0
IsCurrent now s = s.timer_active ≡ true → now < s.off_at_us

-- The table has its size, and the board no more relays than that.
pub record IsSized (m : RelayManager) : Type 0 where
  pub few : m.hardware.count ≤ 8
  pub slots : length m.relays ≡ 8

module _ (answer : ℕ → Result (Unit {0})) where
  apply_output-timer :
      (m : RelayManager) (r : ℕ) (s : RelayState)
      → let s' = (apply_output answer m r s).1 in
        (s'.timer_active ≡ s.timer_active) × (s'.off_at_us ≡ s.off_at_us) × (s'.force ≡ s.force)
  unfolding apply_output
  apply_output-timer m r s = ground arith

  pub expire_relay-table :
      (m : RelayManager) (now r q : ℕ)
      → IsSized m
      → 1 ≤ r
      → r ≤ 8
      → 1 ≤ q
      → let m' = expire_relay answer m now r in
        IsSized m'
        × (r ≢ q → relay_state m' q ≡ relay_state m q)
        × IsCurrent now (relay_state m' r)
        × ((relay_state m r).timer_active ≡ false → m' ≡ m)
  unfolding expire_relay
  expire_relay-table m now r q v p1 p2 q1 =
      let s = stopped (relay_state m r) in
      ground (
        arith,
        apply_relay-table answer m r q s v.slots p1 p2 q1,
        apply_relay-table answer m r r s v.slots p1 p2 p1,
        apply_output-timer m r s,
        ap (λ (h : RelayHardwareConfig). h.count)
            (apply_relay-table answer m r q s v.slots p1 p2 q1).0,
      )

  expire_relay-quiet :
      (m : RelayManager) (now r q : ℕ)
      → IsSized m
      → 1 ≤ r
      → r ≤ 8
      → 1 ≤ q
      → (relay_state m q).timer_active ≡ false
      → relay_state (expire_relay answer m now r) q ≡ relay_state m q
  expire_relay-quiet m now r q v p1 p2 q1 h = elim (ℕ_discrete r q) [
    | yes same ↦
        let idle = subst (λ k. (relay_state m k).timer_active ≡ false) (sym same) h in
        ap (λ n. relay_state n q) ((expire_relay-table m now r q v p1 p2 q1).3 idle)
    | no other ↦ (expire_relay-table m now r q v p1 p2 q1).1 other
  ]

  pub expire_from-IsCurrent :
      (left : ℕ) (m : RelayManager) (now r : ℕ)
      → IsSized m
      → 1 ≤ r
      → r + left ≡ m.hardware.count + 1
      → let m' = expire_from answer m now left r in
        ((q : ℕ) → 1 ≤ q → q < r → relay_state m' q ≡ relay_state m q)
        × ((q : ℕ) → r ≤ q → q < r + left → IsCurrent now (relay_state m' q))
        × ((q : ℕ)
            → 1 ≤ q
            → (relay_state m q).timer_active ≡ false
            → relay_state m' q ≡ relay_state m q)
  unfolding expire_from
  expire_from-IsCurrent zero m now r v p e =
      (λ q a b. refl, λ q a b. absurd (omega arith), λ q a b. refl)
  expire_from-IsCurrent (suc left) m now r v p e =
      let m' = expire_relay answer m now r in
      let few = v.few in
      let v' = (expire_relay-table m now r r v p (omega arith) p).0 in
      let (before, after, quiet) =
        expire_from-IsCurrent left m' now (r + 1) v' (omega arith)
          (omega (arith, expire_relay-count answer m now r)) in
      (
        λ q a b.
            before q a (omega arith)
            ∙ (expire_relay-table m now r q v p (omega arith) a).1 (omega arith),
        λ q a b. elim (ℕ_discrete r q) [
          | yes same ↦
              subst (λ k. IsCurrent now (relay_state (expire_from answer m' now left (r + 1)) k))
                same
                (rw (before r p (omega arith)) (expire_relay-table m now r r v p (omega arith) p).2)
          | no other ↦ after q (omega arith) (omega arith)
        ],
        λ q a b.
            let same = expire_relay-quiet m now r q v p (omega arith) a b in
            quiet q a (rw same b) ∙ same,
      )

  pub handle_message-table :
      (m : RelayManager) (message : RelayMessage) (now later q : ℕ)
      → IsSized m
      → 1 ≤ q
      → let m' = (handle_message answer m message now later).0 in
        IsSized m'
        × (m'.hardware.count ≡ m.hardware.count)
        × (message.relay ≢ q → relay_state m' q ≡ relay_state m q)
  unfolding handle_message valid_relay
  handle_message-table m message now later q v q1 =
      let s = obey (relay_state m message.relay) message now in
      ground (
        arith,
        apply_relay-table answer m message.relay q s v.slots,
        λ (p : 1 ≤ message.relay) (r : message.relay ≤ 8).
            ap (λ (h : RelayHardwareConfig). h.count)
              (apply_relay-table answer m message.relay q s v.slots p r q1).0,
      )

  -- Whatever the drivers answer, on a table of eight relays and a board with no more, after a
  -- round of the relay task no timer of a relay of the board is overdue at the last reading of the
  -- clock.
  pub relay_task_round-IsCurrent :
      (m : RelayManager) (message : Option RelayMessage) (now later last : ℕ)
      → IsSized m
      → (q : ℕ) → 1 ≤ q
      → q ≤ m.hardware.count
      → IsCurrent last (relay_state (relay_task_round answer m message now later last) q)
  unfolding relay_task_round expire_timers
  relay_task_round-IsCurrent m none now later last v q a b =
      (expire_from-IsCurrent m.hardware.count m last 1 v (omega arith) (omega arith)).1 q a
        (omega arith)
  relay_task_round-IsCurrent m (some message) now later last v q a b =
      let m' = (handle_message answer m message now later).0 in
      let table = handle_message-table m message now later q v a in
      (expire_from-IsCurrent m'.hardware.count m' last 1 table.0 (omega arith) (omega arith)).1 q a
        (omega (arith, table.1))
