-- ===== src/RelayManager/Levels.antt =====
-- What the hardware puts out, against what main/relay_manager.cpp records of it.
use power.Prelude.{
  ℕ, ◌-◌, ◌≤◌, ◌<◌, ◌≡◌, ◌≢◌, ◌⊎◌, refl, subst, ap₂, sym, Bool, not, Option, none, some, List, [],
  ◌∷◌, ◌==◌, if◌then◌else◌, length, length-set, get_or-set_self, get_or-set_ne, Result, ok, err,
  arith, inl, inr,
}
use power.BoardConfig.{RelayHardwareConfig, RelayBackendKind}
use power.RelayManager.{
  RelayManager, RelayState, DriverCall, gpio_set_level, tca_write_register, tca_output_register,
  channel_of, output_level_for, relay_state, idle_relay, desired,
}
use power.RelayManager.Driver.{call, hardware_set_output, apply_output}
use power.RelayManager.Task.{apply_relay}
use power.RelayManager.Registers.{bit, write_bit_lem}

-- The level that was last set on a pin.
unfoldable pub pin_level : ℕ → List DriverCall → Option ℕ
pin_level pin [] = none
pin_level pin (gpio_set_level p level ∷ done) = if p == pin then some level else pin_level pin done
pin_level pin (c ∷ done) = pin_level pin done

-- The value that was last written to the output register of the TCA9554.
unfoldable pub register_value : List DriverCall → Option ℕ
register_value [] = none
register_value (tca_write_register r value ∷ done) =
    if r == tca_output_register then some value else register_value done
register_value (c ∷ done) = register_value done

-- A description that the board configuration has accepted.
pub record Wired (h : RelayHardwareConfig) : Type 0 where
  pub few : h.count ≤ 8
  pub level : h.active_level ≤ 1
  pub backed : h.kind ≢ RelayBackendKind.none
  pub distinct :
      (r q : ℕ)
      → 1 ≤ r
      → r ≤ h.count
      → 1 ≤ q
      → q ≤ h.count
      → channel_of h r ≡ channel_of h q
      → r ≡ q
  pub bits : h.kind ≡ RelayBackendKind.tca9554 → (r : ℕ) → 1 ≤ r → r ≤ h.count → channel_of h r < 8

-- The level at the output of a relay.
abbrev pub LevelIs : RelayManager → ℕ → ℕ → Type 0
LevelIs m relay level = elim m.hardware.kind [
  | RelayBackendKind.gpio ↦ pin_level (channel_of m.hardware relay) m.done ≡ some level
  | RelayBackendKind.tca9554 ↦
      (register_value m.done ≡ some m.tca_output)
      × (m.tca_output < 256)
      × (bit m.tca_output (channel_of m.hardware relay) ≡ level)
  | RelayBackendKind.none ↦ ⊥
]

-- Every relay's output has the level of the state that is recorded for it.
pub record IsDriven (m : RelayManager) : Type 0 where
  pub wired : Wired m.hardware
  pub slots : length m.relays ≡ 8
  pub levels :
      (r : ℕ)
      → 1 ≤ r
      → r ≤ m.hardware.count
      → LevelIs m r (output_level_for m.hardware (relay_state m r).output_on)

module _ (answer : ℕ → Result (Unit {0})) where
  -- A write for relay `r` that succeeds sets its level and no other's; one that fails changes none.
  hardware-levels :
      (m : RelayManager) (r q level : ℕ) (on : Bool)
      → Wired m.hardware
      → 1 ≤ r
      → r ≤ m.hardware.count
      → 1 ≤ q
      → q ≤ m.hardware.count
      → LevelIs m q level
      → let (m', result) = hardware_set_output answer m r on in
        (m'.hardware ≡ m.hardware)
        × (m'.relays ≡ m.relays)
        × ((result ≡ ok tt)
            → LevelIs m' q (if r == q then output_level_for m.hardware on else level))
        × ((result ≢ ok tt) → LevelIs m' q level)
  unfolding hardware_set_output call pin_level register_value output_level_for
  hardware-levels m r q level on w p1 p2 q1 q2 h = ground (
    arith,
    w.distinct r q p1 p2 q1 q2,
    λ (e : m.hardware.kind ≡ RelayBackendKind.tca9554). w.bits e r p1 p2,
    λ (e : m.hardware.kind ≡ RelayBackendKind.tca9554). w.bits e q q1 q2,
    write_bit_lem m.tca_output (channel_of m.hardware r) (channel_of m.hardware q)
        (not (output_level_for m.hardware on == 0)),
  )

  pub Result-cases : (r : Result (Unit {0})) → (r ≡ ok tt) ⊎ (r ≢ ok tt)
  Result-cases (ok _) = inl refl
  Result-cases (err e) = inr (λ h. cc)

  hardware-kept :
      (m : RelayManager) (r : ℕ) (on : Bool)
      → let (m', result) = hardware_set_output answer m r on in
        (m'.hardware ≡ m.hardware) × (m'.relays ≡ m.relays)
  unfolding hardware_set_output call
  hardware-kept m r on = ground arith

  -- What `apply_relay` leaves in the table: the relay's new state, its output as before if the
  -- write failed.
  pub apply_relay-table :
      (m : RelayManager) (r q : ℕ) (s : RelayState)
      → length m.relays ≡ 8
      → 1 ≤ r
      → r ≤ 8
      → 1 ≤ q
      → let m' = apply_relay answer m r s in
        (m'.hardware ≡ m.hardware)
        × (length m'.relays ≡ 8)
        × (relay_state m' q ≡ (if r == q then (apply_output answer m r s).1 else relay_state m q))
  unfolding apply_relay apply_output
  apply_relay-table m r q s e p1 p2 q1 = ground (
    arith,
    hardware-kept m r (desired s),
    length-set m.relays (r - 1) (apply_output answer m r s).1,
    get_or-set_self m.relays (r - 1) (apply_output answer m r s).1 idle_relay,
    get_or-set_ne m.relays (r - 1) (q - 1) (apply_output answer m r s).1 idle_relay,
  )

  -- The state that `apply_output` returns is that of the level which it leaves behind.
  apply_output-level :
      (m : RelayManager) (r q : ℕ) (s : RelayState)
      → IsDriven m
      → 1 ≤ r
      → r ≤ m.hardware.count
      → 1 ≤ q
      → q ≤ m.hardware.count
      → s.output_on ≡ (relay_state m r).output_on
      → let (m', s') = apply_output answer m r s in
        LevelIs m' q
          (output_level_for m.hardware (if r == q then s' else relay_state m q).output_on)
  unfolding apply_output
  apply_output-level m r q s d p1 p2 q1 q2 same = ground (
    arith,
    Result-cases (hardware_set_output answer m r (desired s)).1,
    hardware-levels m r q (output_level_for m.hardware (relay_state m q).output_on) (desired s)
        d.wired p1 p2 q1 q2 (d.levels q q1 q2),
    d.levels q q1 q2,
  )

  LevelIs-kept :
      (m m' : RelayManager) (q level : ℕ)
      → m'.hardware ≡ m.hardware
      → m'.done ≡ m.done
      → m'.tca_output ≡ m.tca_output
      → LevelIs m q level
      → LevelIs m' q level
  LevelIs-kept m m' q level h1 h2 h3 h = ground arith

  pub apply_relay-IsDriven :
      (m : RelayManager) (r : ℕ) (s : RelayState)
      → IsDriven m
      → 1 ≤ r
      → r ≤ m.hardware.count
      → s.output_on ≡ (relay_state m r).output_on
      → IsDriven (apply_relay answer m r s)
  apply_relay-IsDriven m r s d p1 p2 same = record {
    wired =
        subst Wired
          (sym (apply_relay-table m r 1 s d.slots p1 (omega (arith, d.wired.few)) (omega arith)).0)
          d.wired;
    slots = (apply_relay-table m r 1 s d.slots p1 (omega (arith, d.wired.few)) (omega arith)).1;
    levels = λ q q1 q2.
        let (hw, len, st) = apply_relay-table m r q s d.slots p1 (omega (arith, d.wired.few)) q1 in
        let q2' : q ≤ m.hardware.count = rw (← hw) q2 in
        let level = ap₂ (λ h (t : RelayState). output_level_for h t.output_on) hw st in
        subst (LevelIs (apply_relay answer m r s) q) (sym level) (
          LevelIs-kept (apply_output answer m r s).0 (apply_relay answer m r s) q _
            (unfold apply_relay in refl) (unfold apply_relay in refl) (unfold apply_relay in refl)
            (apply_output-level m r q s d p1 p2 q1 q2' same));
  }

  pub apply_relay-hardware :
      (m : RelayManager) (r : ℕ) (s : RelayState) → (apply_relay answer m r s).hardware ≡ m.hardware
  unfolding apply_relay apply_output
  apply_relay-hardware m r s = ground (arith, hardware-kept m r (desired s))
