-- ===== src/BatteryScanner/Cleanup.antt =====
-- main/battery_scanner.cpp: a connection is begun only when the one before has been cleaned up.
use power.Prelude.{
  ℕ, ◌≡◌, refl, Bool, true, false, List, [], ◌∷◌, ◌++◌, if◌then◌else◌, err, fail, arith, Bool-cases,
  inl, inr,
}
use power.Prelude.Float.{Float}
use power.BatteryScanner.Candidates.{BatteryCandidate}
use power.BatteryScanner.Sequence.{Step, Session, next}
use power.BatteryScanner.Probing.{disconnect_probe, probe_battery}
use power.BatteryScanner.Scan.{
  ScanEvent, delayed, probe_all, scan_clean, scan_events, no_scan, run_scan, task_round,
}
use power.BatteryScanner.Connects.{
  disconnect_probe-Keeps, disconnect_probe-clean, probe_battery-connects,
}

abbrev pub AllClean : List Bool → Type 0
AllClean [] = Unit
AllClean (pending ∷ rest) = (pending ≡ false) × AllClean rest

AllClean-append : (xs ys : List Bool) → AllClean xs → AllClean ys → AllClean (xs ++ ys)
AllClean-append [] ys p q = q
AllClean-append (x ∷ xs) ys (p, ps) q = (p, AllClean-append xs ys ps q)

either :
    {A : Type 0} (P : A → Type 0) (b : Bool) (x y : A)
    → (b ≡ true → P x)
    → (b ≡ false → P y)
    → P (if b then x else y)
either P true x y h k = h refl
either P false x y h k = k refl

module _ {F : Type 0} where
  module _ (f : Float F) (env : ℕ → Step) where
    probe_all-AllClean :
        (s : Session F) (cs : List BatteryCandidate)
        → s.cleanup_pending ≡ false
        → AllClean s.connects
        → AllClean (probe_all f env s cs).0.connects
    unfolding probe_all
    probe_all-AllClean s [] clean h = h
    probe_all-AllClean s (c ∷ rest) clean h =
        let s' = probe_battery f env s c in
        let kept : AllClean s'.connects =
          rw (probe_battery-connects f env s c)
            (AllClean-append s.connects (s.cleanup_pending ∷ []) h (clean, tt)) in
        either (λ z. AllClean z.0.connects) s'.cleanup_pending (s', err fail)
          (probe_all f env (delayed f env s') rest) (λ pending. kept)
          (λ cleaned. probe_all-AllClean (delayed f env s') rest cleaned kept)

    scan_clean-AllClean :
        (x : Session F × Bool) (events : List ScanEvent)
        → (x.1 ≡ true → x.0.cleanup_pending ≡ false)
        → AllClean x.0.connects
        → AllClean (scan_clean f env x events).0.connects
    scan_clean-AllClean (s, false) events clean h = h
    scan_clean-AllClean (s, true) events clean h = elim (Bool-cases (env s.step).accepted) [
      | inl started ↦
          rw started
            (probe_all-AllClean (next s) (scan_events no_scan events).candidates (clean refl) h)
      | inr refused ↦ rw refused h
    ]

    run_scan-AllClean :
        (s : Session F) (events : List ScanEvent)
        → AllClean s.connects
        → AllClean (run_scan f env s events).0.connects
    unfolding run_scan
    run_scan-AllClean s events h =
        either (λ z. AllClean (scan_clean f env z events).0.connects) s.cleanup_pending
          (disconnect_probe f env s) (s, true)
          (λ pending.
            scan_clean-AllClean (disconnect_probe f env s) events
              (λ gone. ground (arith, disconnect_probe-clean f env s))
              (rw (disconnect_probe-Keeps f env s) h))
          (λ clean. scan_clean-AllClean (s, true) events (λ _. clean) h)

    -- The rounds of the task, each with what the host and the scan give.
    unfoldable pub run_rounds : Session F → List (Bool × List ScanEvent) → Session F
    run_rounds s [] = s
    run_rounds s ((synced, events) ∷ rest) = run_rounds (task_round f env s synced events) rest

    -- Over any rounds of the scanner task, whatever the BLE host answers and whichever callbacks run,
    -- a connection is begun only when no cleanup of an earlier probe is pending, if that was so of the
    -- connections before these rounds.
    pub run_rounds-AllClean :
        (s : Session F) (rounds : List (Bool × List ScanEvent))
        → AllClean s.connects
        → AllClean (run_rounds s rounds).connects
    unfolding task_round run_rounds
    run_rounds-AllClean s [] h = h
    run_rounds-AllClean s ((true, events) ∷ rest) h =
        run_rounds-AllClean (task_round f env s true events) rest (run_scan-AllClean s events h)
    run_rounds-AllClean s ((false, events) ∷ rest) h =
        run_rounds-AllClean (task_round f env s false events) rest h
