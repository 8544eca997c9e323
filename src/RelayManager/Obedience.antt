-- ===== src/RelayManager/Obedience.antt =====
-- The relay task of main/relay_manager.cpp while its drivers answer.
use power.Prelude.{
  ℕ, zero, suc, ◌+◌, ◌≤◌, ◌≡◌, ◌≢◌, refl, ◌∙◌, ap, Option, none, some, Result, ok, arith, List, [],
  ◌∷◌, length,
}
use power.BoardConfig.{RelayHardwareConfig, RelayBackendKind}
use power.RelayManager.{RelayManager, RelayState, RelayMessage, relay_state, valid_relay}
use power.RelayManager.Driver.{call, hardware_set_output, apply_output}
use power.RelayManager.Task.{
  expire_relay, apply_relay, expire_from, expire_timers, handle_message, relay_task_round, obey,
}
use power.RelayManager.Levels.{apply_relay-table}
use power.RelayManager.Rounds.{expire_relay-hardware, stopped}
use power.RelayManager.Timers.{IsSized}
use power.RelayManager.Wishes.{
  Wish, is_on, wish_of, wish_run, desired-is_on, relay_task_round-wish, relay_task_round-count,
}
use power.RelayManager.Expiry.{Round, run}

-- Every relay of the board is on exactly if the wish that is recorded for it says so.
pub record IsObeyed (m : RelayManager) : Type 0 where
  pub few : m.hardware.count ≤ 8
  pub slots : length m.relays ≡ 8
  pub backed : m.hardware.kind ≢ RelayBackendKind.none
  pub obeyed :
      (q : ℕ)
      → 1 ≤ q
      → q ≤ m.hardware.count
      → (relay_state m q).output_on
        ≡ is_on (wish_of (relay_state m q)).forced (wish_of (relay_state m q)).until

module _ (answer : ℕ → Result (Unit {0})) (answers : (n : ℕ) → answer n ≡ ok tt) where
  apply_output-obeys :
      (m : RelayManager) (r : ℕ) (s : RelayState)
      → m.hardware.kind ≢ RelayBackendKind.none
      → let s' = (apply_output answer m r s).1 in
        s'.output_on ≡ is_on (wish_of s').forced (wish_of s').until
  unfolding apply_output hardware_set_output call
  apply_output-obeys m r s h = ground (arith, answers m.calls, desired-is_on s)

  apply_relay-IsObeyed :
      (m : RelayManager) (r : ℕ) (s : RelayState)
      → IsObeyed m
      → 1 ≤ r
      → r ≤ m.hardware.count
      → IsObeyed (apply_relay answer m r s)
  apply_relay-IsObeyed m r s v p q =
      let few = v.few in
      let (hw, size, _) = apply_relay-table answer m r 1 s v.slots p (omega arith) (omega arith) in
      record {
        few = omega (arith, ap (λ (h : RelayHardwareConfig). h.count) hw);
        slots = size;
        backed = rw hw v.backed;
        obeyed = λ k a b.
            let same = (apply_relay-table answer m r k s v.slots p (omega arith) a).2 in
            let b' : k ≤ m.hardware.count =
              omega (arith, ap (λ (h : RelayHardwareConfig). h.count) hw) in
            ground (arith, same, v.obeyed k a b', apply_output-obeys m r s v.backed);
      }

  expire_relay-IsObeyed :
      (m : RelayManager) (now r : ℕ)
      → IsObeyed m
      → 1 ≤ r
      → r ≤ m.hardware.count
      → IsObeyed (expire_relay answer m now r)
  unfolding expire_relay
  expire_relay-IsObeyed m now r v p q =
      ground (arith, apply_relay-IsObeyed m r (stopped (relay_state m r)) v p q)

  expire_from-IsObeyed :
      (left : ℕ) (m : RelayManager) (now r : ℕ)
      → IsObeyed m
      → 1 ≤ r
      → r + left ≡ m.hardware.count + 1
      → IsObeyed (expire_from answer m now left r)
  unfolding expire_from
  expire_from-IsObeyed zero m now r v p e = v
  expire_from-IsObeyed (suc left) m now r v p e =
      expire_from-IsObeyed left (expire_relay answer m now r) now (r + 1)
        (expire_relay-IsObeyed m now r v p (omega arith)) (omega arith)
        (omega
          (arith, ap (λ (h : RelayHardwareConfig). h.count) (expire_relay-hardware answer m now r)))

  expire_timers-IsObeyed :
      (m : RelayManager) (now : ℕ) → IsObeyed m → IsObeyed (expire_timers answer m now)
  unfolding expire_timers
  expire_timers-IsObeyed m now v =
      expire_from-IsObeyed m.hardware.count m now 1 v (omega arith) (omega arith)

  handle_message-IsObeyed :
      (m : RelayManager) (message : RelayMessage) (now later : ℕ)
      → IsObeyed m
      → IsObeyed (handle_message answer m message now later).0
  unfolding handle_message valid_relay
  handle_message-IsObeyed m message now later v = ground (
    arith,
    apply_relay-IsObeyed m message.relay (obey (relay_state m message.relay) message now) v,
  )

  relay_task_round-IsObeyed :
      (m : RelayManager) (x : Round)
      → IsObeyed m
      → IsObeyed (relay_task_round answer m x.message x.now x.later x.last)
  unfolding relay_task_round
  relay_task_round-IsObeyed m x v = by_message x.message
    where
      by_message :
          (message : Option RelayMessage)
          → IsObeyed (relay_task_round answer m message x.now x.later x.last)
      by_message none = expire_timers-IsObeyed m x.last v
      by_message (some message) =
          expire_timers-IsObeyed _ x.last (handle_message-IsObeyed m message x.now x.later v)

  run-wish :
      (xs : List Round) (m : RelayManager) (q : ℕ)
      → IsObeyed m
      → 1 ≤ q
      → q ≤ m.hardware.count
      → IsObeyed (run answer m xs)
        × (q ≤ (run answer m xs).hardware.count)
        × (wish_of (relay_state (run answer m xs) q) ≡ wish_run q (wish_of (relay_state m q)) xs)
  unfolding run wish_run
  run-wish [] m q v a b = (v, b, refl)
  run-wish (x ∷ xs) m q v a b =
      let m' = relay_task_round answer m x.message x.now x.later x.last in
      let sized : IsSized m = record { few = v.few; slots = v.slots } in
      let (v', b', same) =
        run-wish xs m' q (relay_task_round-IsObeyed m x v) a
          (omega (arith, relay_task_round-count answer m x sized)) in
      (v', b', same ∙ ap (λ w. wish_run q w xs) (relay_task_round-wish answer m x q sized a b))

  -- If the output of every relay of the board is recorded as its wish says, then after any rounds
  -- of the relay task in which every driver call succeeds it is so again, and the wish of each
  -- relay is what the rounds make of the old one: a message to force it on or off, or to end the
  -- force, does so; "on for n seconds" sets its time to n million microseconds after now, or to
  -- the later time that was set, and 0 seconds end it; and a time that the clock has reached at
  -- the end of a round is ended. The relay is on exactly if it is forced on, or has no force and a
  -- time is set.
  pub run-IsObeyed :
      (xs : List Round) (m : RelayManager) (q : ℕ)
      → IsObeyed m
      → 1 ≤ q
      → q ≤ m.hardware.count
      → let after = relay_state (run answer m xs) q in
        let wish = wish_run q (wish_of (relay_state m q)) xs in
        IsObeyed (run answer m xs)
        × (wish_of after ≡ wish)
        × (after.output_on ≡ is_on wish.forced wish.until)
  run-IsObeyed xs m q v a b =
      let (v', b', same) = run-wish xs m q v a b in
      (v', same, v'.obeyed q a b' ∙ ap (λ (w : Wish). is_on w.forced w.until) same)
