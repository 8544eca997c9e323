-- ===== src/RelayManager/Expiry.antt =====
-- Rounds of the relay task of main/relay_manager.cpp, and a timer that ends while the hardware does
-- not answer.
use power.Prelude.{
  ℕ, zero, suc, ◌+◌, ◌≤◌, ◌<◌, ◌≡◌, ◌≢◌, refl, ap, sym, ◌∙◌, Bool, true, false, Option, none, some,
  List, [], ◌∷◌, Result, ok, arith, subst,
}
use native.Mathlib.Decide.{ℕ_discrete}
use power.RelayManager.{RelayManager, RelayState, RelayForce, RelayMessage, relay_state, desired}
use power.RelayManager.Driver.{call, hardware_set_output, apply_output}
use power.RelayManager.Task.{
  expire_relay, expire_from, expire_timers, handle_message, relay_task_round,
}
use power.RelayManager.Levels.{apply_relay-table}
use power.RelayManager.Timers.{
  IsSized, expire_relay-table, expire_from-IsCurrent, handle_message-table,
}
use power.RelayManager.Rounds.{expire_relay-count, stopped}

-- One round: the message, if any, and the three readings of the clock.
pub record Round : Type 0 where
  pub message : Option RelayMessage
  pub now : ℕ
  pub later : ℕ
  pub last : ℕ

-- The message is for relay `r`.
abbrev pub IsFor : ℕ → Option RelayMessage → Type 0
IsFor r none = ⊥
IsFor r (some message) = message.relay ≡ r

-- No message of the rounds is for relay `r`.
abbrev pub Ignored : ℕ → List Round → Type 0
Ignored r [] = Unit {0}
Ignored r (x ∷ xs) = (IsFor r x.message → ⊥) × Ignored r xs

module _ (answer : ℕ → Result (Unit {0})) where
  -- The rounds of `relay_task`, in order.
  unfoldable pub run : RelayManager → List Round → RelayManager
  run m [] = m
  run m (x ∷ xs) = run (relay_task_round answer m x.message x.now x.later x.last) xs

  expire_from-table :
      (left : ℕ) (m : RelayManager) (now r : ℕ)
      → IsSized m
      → 1 ≤ r
      → r + left ≡ m.hardware.count + 1
      → IsSized (expire_from answer m now left r)
        × ((expire_from answer m now left r).hardware.count ≡ m.hardware.count)
  unfolding expire_from
  expire_from-table zero m now r v p e = (v, refl)
  expire_from-table (suc left) m now r v p e =
      let m' = expire_relay answer m now r in
      let count = expire_relay-count answer m now r in
      let few = v.few in
      let (v', same) =
        expire_from-table left m' now (r + 1)
          (expire_relay-table answer m now r r v p (omega arith) p).0 (omega arith)
          (omega (arith, count)) in
      (v', same ∙ count)

  round-table :
      (m : RelayManager) (x : Round) (q : ℕ)
      → IsSized m
      → 1 ≤ q
      → (relay_state m q).timer_active ≡ false
      → (IsFor q x.message → ⊥)
      → let m' = relay_task_round answer m x.message x.now x.later x.last in
        IsSized m' × (relay_state m' q ≡ relay_state m q)
  unfolding relay_task_round expire_timers
  round-table m x q v a h i = by_message x.message i
    where
      expired :
          (n : RelayManager)
          → IsSized n
          → (relay_state n q).timer_active ≡ false
          → IsSized (expire_timers answer n x.last)
            × (relay_state (expire_timers answer n x.last) q ≡ relay_state n q)
      expired n w b = (
        (expire_from-table n.hardware.count n x.last 1 w (omega arith) (omega arith)).0,
        (expire_from-IsCurrent answer n.hardware.count n x.last 1 w (omega arith) (omega arith)).2 q
            a b,
      )

      by_message :
          (message : Option RelayMessage)
          → (IsFor q message → ⊥)
          → let m' = relay_task_round answer m message x.now x.later x.last in
            IsSized m' × (relay_state m' q ≡ relay_state m q)
      by_message none i = expired m v h
      by_message (some message) i =
          let (w, count, kept) = handle_message-table answer m message x.now x.later q v a in
          let same = kept (λ e. i e) in
          let (w', e) = expired (handle_message answer m message x.now x.later).0 w (rw same h) in
          (w', e ∙ same)

  -- On a table of eight relays and a board with no more, a relay whose timer does not run keeps
  -- its recorded state through any rounds with no message for it, whatever the drivers answer.
  run-quiet :
      (xs : List Round) (m : RelayManager) (q : ℕ)
      → IsSized m
      → 1 ≤ q
      → (relay_state m q).timer_active ≡ false
      → Ignored q xs
      → relay_state (run m xs) q ≡ relay_state m q
  unfolding run
  run-quiet [] m q v a h i = refl
  run-quiet (x ∷ xs) m q v a h (i, is) =
      let (w, same) = round-table m x q v a h i in
      run-quiet xs (relay_task_round answer m x.message x.now x.later x.last) q w a (rw same h) is
      ∙ same

module _ (answer : ℕ → Result (Unit {0})) (failing : (n : ℕ) → answer n ≢ ok tt) where
  hardware-fails :
      (m : RelayManager) (r : ℕ) (on : Bool) → (hardware_set_output answer m r on).1 ≢ ok tt
  unfolding hardware_set_output call
  hardware-fails m r on = ground (arith, failing m.calls)

  apply_output-fails :
      (m : RelayManager) (r : ℕ) (s : RelayState) → (apply_output answer m r s).1 ≡ s
  unfolding apply_output
  apply_output-fails m r s = ground (arith, hardware-fails m r (desired s))

  expire_relay-fails :
      (m : RelayManager) (now r : ℕ)
      → IsSized m
      → 1 ≤ r
      → r ≤ 8
      → (relay_state m r).timer_active ≡ true
      → (relay_state m r).off_at_us ≤ now
      → relay_state (expire_relay answer m now r) r ≡ stopped (relay_state m r)
  unfolding expire_relay
  expire_relay-fails m now r v p q t due =
      let s = stopped (relay_state m r) in
      ground (arith, apply_relay-table answer m r r s v.slots p q p, apply_output-fails m r s)

  expire_from-fails :
      (left : ℕ) (m : RelayManager) (now i r : ℕ)
      → IsSized m
      → 1 ≤ i
      → i + left ≡ m.hardware.count + 1
      → i ≤ r
      → r < i + left
      → (relay_state m r).timer_active ≡ true
      → (relay_state m r).off_at_us ≤ now
      → relay_state (expire_from answer m now left i) r ≡ stopped (relay_state m r)
  unfolding expire_from
  expire_from-fails zero m now i r v p e a b t due = absurd (omega arith)
  expire_from-fails (suc left) m now i r v p e a b t due =
      let m' = expire_relay answer m now i in
      let few = v.few in
      let v' = (expire_relay-table answer m now i i v p (omega arith) p).0 in
      let count = expire_relay-count answer m now i in
      elim (ℕ_discrete i r) [
        | yes same ↦
            let e' : i + 1 + left ≡ m'.hardware.count + 1 = omega (arith, count) in
            let (before, _, _) =
              expire_from-IsCurrent answer left m' now (i + 1) v' (omega arith) e' in
            before r (omega arith) (omega arith)
            ∙ subst (λ k. relay_state (expire_relay answer m now k) r ≡ stopped (relay_state m r))
                (sym same) (expire_relay-fails m now r v (omega arith) (omega arith) t due)
        | no other ↦
            let same =
              (expire_relay-table answer m now i r v p (omega arith) (omega arith)).1 other in
            expire_from-fails left m' now (i + 1) r v' (omega arith) (omega (arith, count))
              (omega arith) (omega arith) (rw same t) (rw same due)
            ∙ ap stopped same
      ]

  -- On a table of eight relays and a board with no more, when the timer of a relay that is on
  -- without a force ends in a round without a message whose driver calls all fail, the relay is
  -- recorded as on, although it should be off, after that round and any later ones with no message
  -- for it, whatever the drivers answer in these.
  pub failed_expiry_stays_on :
      (answer' : ℕ → Result (Unit {0})) (m : RelayManager) (r now later last : ℕ) (xs : List Round)
      → IsSized m
      → 1 ≤ r
      → r ≤ m.hardware.count
      → (relay_state m r).timer_active ≡ true
      → (relay_state m r).off_at_us ≤ last
      → (relay_state m r).force ≡ RelayForce.none
      → (relay_state m r).output_on ≡ true
      → Ignored r xs
      → let m' = run answer' (relay_task_round answer m none now later last) xs in
        ((relay_state m' r).output_on ≡ true) × (desired (relay_state m' r) ≡ false)
  unfolding desired
  failed_expiry_stays_on answer' m r now later last xs v p q t due f o i =
      let n = relay_task_round answer m none now later last in
      let ended : relay_state n r ≡ stopped (relay_state m r) =
        unfold relay_task_round expire_timers in
        expire_from-fails m.hardware.count m last 1 r v (omega arith) (omega arith) p (omega arith)
          t due in
      let w : IsSized n =
        unfold relay_task_round expire_timers in
        (expire_from-table answer m.hardware.count m last 1 v (omega arith) (omega arith)).0 in
      let kept = run-quiet answer' xs n r w p (rw ended) i in ground (arith, kept, ended)
