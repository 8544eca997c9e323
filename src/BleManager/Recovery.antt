-- ===== src/BleManager/Recovery.antt =====
-- main/ble_manager.cpp: in which order a recovery goes.
use power.Prelude.{
  ◌≡◌, refl, Bool, true, false, ◌&&◌, not, some, List, [], ◌∷◌, if◌then◌else◌, ok, arith,
  Bool-cases, Option-cases, inl, inr,
}
use power.BleManager.{
  BleManager, StartAnswers, initial, ble_on_reset, ble_on_sync, ble_reset_requested, synchronized,
  ble_manager_start,
}
use power.BleManager.System.{
  System, Caller, outside, exchanged, cleared, waiting, Event, exchange, clear, put, return, handle,
  reset, sync, step, run, reset_exchange, reset_clear, reset_put, started,
}

-- The caller has asked, and the event is not yet queued.
abbrev pub is_asking : Caller → Bool
is_asking outside = false
is_asking exchanged = true
is_asking cleared = true
is_asking waiting = false

-- How the flags go together: without a recovery all are down; while it is asked for, the event is
-- on its way to the handler, and never in two places.
unfoldable pub flags : Bool → Bool → Bool → Bool → Bool → Bool
flags asking queued pending reset_started observed =
    if not pending
    then not reset_started && not observed && not queued && not asking
    else if reset_started
    then not queued && not asking
    else not observed && (if asking then not queued else queued)

abbrev pub IsConsistent : System → Type 0
IsConsistent s =
    (s.manager.started ≡ true)
    × (s.manager.has_events ≡ true)
    × (flags (is_asking s.caller) s.queued s.manager.reset_pending s.manager.reset_started
          s.manager.reset_observed
        ≡ true)

step-IsConsistent :
    (s s' : System) (e : Event) → IsConsistent s → step s e ≡ some s' → IsConsistent s'
unfolding step flags reset_exchange reset_clear reset_put ble_on_reset ble_on_sync
    ble_reset_requested synchronized
step-IsConsistent s s' exchange good h = ground arith
step-IsConsistent s s' clear good h = ground arith
step-IsConsistent s s' put good h = ground arith
step-IsConsistent s s' return good h = ground arith
step-IsConsistent s s' handle good h = ground arith
step-IsConsistent s s' reset good h = ground arith
step-IsConsistent s s' (sync host) good h = ground arith

pub run-IsConsistent :
    (s s' : System) (es : List Event) → IsConsistent s → run s es ≡ some s' → IsConsistent s'
unfolding run
run-IsConsistent s s' [] good h = ground arith
run-IsConsistent s s' (e ∷ es) good h = elim (Option-cases (step s e)) [
  | inl n ↦ absurd (ground arith)
  | inr (t, m) ↦
      let rest : run t es ≡ some s' = ground arith in
      run-IsConsistent t s' es (step-IsConsistent s t e good m) rest
]

-- The stages of a recovery.
pub data Stage : Type 0 where
  handling resetting syncing : Stage

unfoldable pub reaches : Stage → Event → Bool
reaches handling handle = true
reaches resetting reset = true
reaches syncing (sync host) = true
reaches _ _ = false

-- The events have the stages among them, in this order.
unfoldable pub completes : List Stage → List Event → Bool
completes [] es = true
completes (stage ∷ stages) [] = false
completes (stage ∷ stages) (e ∷ es) =
    let now = completes stages es in
    let later = completes (stage ∷ stages) es in if reaches stage e then now else later

-- The stages that a state has before it.
unfoldable pub missing : System → List Stage
missing s =
    if not s.manager.reset_pending
    then []
    else if s.manager.reset_observed
    then syncing ∷ []
    else if s.manager.reset_started
    then resetting ∷ syncing ∷ []
    else handling ∷ resetting ∷ syncing ∷ []

step-completes :
    (s s' : System) (e : Event) (es : List Event)
    → IsConsistent s
    → step s e ≡ some s'
    → completes (missing s') es ≡ true
    → s.manager.reset_pending ≡ true
    → completes (missing s) (e ∷ es) ≡ true
unfolding step flags reset_exchange reset_clear reset_put ble_on_reset ble_on_sync
    ble_reset_requested synchronized missing reaches completes
step-completes s s' exchange es good h m p = ground arith
step-completes s s' clear es good h m p = ground arith
step-completes s s' put es good h m p = ground arith
step-completes s s' return es good h m p = ground arith
step-completes s s' handle es good h m p = ground arith
step-completes s s' reset es good h m p = ground arith
step-completes s s' (sync host) es good h m p = ground arith

run-completes :
    (s s' : System) (es : List Event)
    → IsConsistent s
    → run s es ≡ some s'
    → s'.manager.reset_pending ≡ false
    → completes (missing s) es ≡ true
unfolding run missing completes
run-completes s s' [] good h ended = ground arith
run-completes s s' (e ∷ es) good h ended = elim (Option-cases (step s e)) [
  | inl n ↦ absurd (ground arith)
  | inr (t, m) ↦
      let rest : run t es ≡ some s' = ground arith in
      let later = run-completes t s' es (step-IsConsistent s t e good m) rest ended in
      elim (Bool-cases s.manager.reset_pending) [
        | inl p ↦ step-completes s t e es good m later p
        | inr p ↦ rw p refl
      ]
]

pub start-IsConsistent :
    (m : BleManager) (answers : StartAnswers)
    → ble_manager_start initial answers ≡ (m, ok tt)
    → IsConsistent (started m)
unfolding ble_manager_start flags started
start-IsConsistent m answers h = ground arith

-- When ble_manager_start has succeeded and any events have come, with no reset pending: if a
-- reset is asked for, and no reset is pending any more after some events, then among these events
-- are the handling of the request, after it a reset of the host, and after that a sync, so that a
-- sync from before the reset does not end the recovery.
pub recovery-completes :
    (m : BleManager) (answers : StartAnswers) (before after : List Event) (s s' : System)
    → ble_manager_start initial answers ≡ (m, ok tt)
    → run (started m) before ≡ some s
    → s.manager.reset_pending ≡ false
    → run s (exchange ∷ after) ≡ some s'
    → s'.manager.reset_pending ≡ false
    → completes (handling ∷ resetting ∷ syncing ∷ []) after ≡ true
unfolding run step missing completes reset_exchange flags
recovery-completes m answers before after s s' h b idle a ended =
    let good = run-IsConsistent (started m) s before (start-IsConsistent m answers h) b in
    let asked = run-completes (reset_exchange s) s' after in ground (arith, asked)
