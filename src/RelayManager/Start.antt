-- ===== src/RelayManager/Start.antt =====
-- What `relay_manager_start` of main/relay_manager.cpp leaves behind when it succeeds.
use power.Prelude.{
  ℕ, zero, suc, ◌+◌, ◌-◌, ◌≤◌, ◌<◌, ◌≡◌, ◌≢◌, refl, ap₂, sym, Bool, true, false, ◌==◌,
  if◌then◌else◌, ==_iff, some, Result, ok, arith, subst, List, [], ◌∷◌, length, length-take, get_or,
  take, replicate, all_below, all_below_sound,
}
use power.BoardConfig.{BoardConfig, RelayHardwareConfig, RelayBackendKind}
use power.RelayManager.{
  RelayManager, RelayState, relay_state, idle_relay, channel_of, output_level_for, gpio_set_level,
  max_relays,
}
use power.RelayManager.Driver.{
  call, preload_from, configure_gpio_backend, configure_tca9554_backend,
}
use power.RelayManager.Api.{relay_manager_start}
use power.RelayManager.Levels.{Wired, LevelIs, IsDriven, pin_level, register_value, Result-cases}
use power.RelayManager.Registers.{bit}
use power.RelayManager.Wishes.{wish_of, is_on}
use power.RelayManager.Obedience.{IsObeyed}

idle-states : (q : ℕ) → get_or (replicate max_relays idle_relay) q idle_relay ≡ idle_relay
idle-states zero = refl
idle-states (suc zero) = refl
idle-states (suc (suc zero)) = refl
idle-states (suc (suc (suc zero))) = refl
idle-states (suc (suc (suc (suc zero)))) = refl
idle-states (suc (suc (suc (suc (suc zero))))) = refl
idle-states (suc (suc (suc (suc (suc (suc zero)))))) = refl
idle-states (suc (suc (suc (suc (suc (suc (suc zero))))))) = refl
idle-states (suc (suc (suc (suc (suc (suc (suc (suc q)))))))) = refl

bit_table : all_below 8 (λ c. (bit 0xff c == 1)) ≡ true
unfolding all_below
bit_table = refl

zero_table : all_below 8 (λ c. (bit 0 c == 0)) ≡ true
unfolding all_below
zero_table = refl

get_or-take : (n : ℕ) (xs : List ℕ) (i : ℕ) → i < n → get_or (take n xs) i 0 ≡ get_or xs i 0
get_or-take zero xs i h = absurd (omega arith)
get_or-take (suc n) [] i h = refl
get_or-take (suc n) (x ∷ xs) zero h = refl
get_or-take (suc n) (x ∷ xs) (suc i) h = get_or-take n xs i (omega arith)

module _ (answer : ℕ → Result (Unit {0})) where
  abbrev off_level : RelayManager → ℕ
  off_level m = output_level_for m.hardware false

  -- One preload: on success the pin has the level of an open relay; no other call is undone.
  preload-call :
      (m : RelayManager) (c pin : ℕ)
      → let (m', result) = call answer (gpio_set_level c (off_level m)) m in
        (m'.hardware ≡ m.hardware)
        × (m'.relays ≡ m.relays)
        × (pin_level pin m.done ≡ some (off_level m) → pin_level pin m'.done ≡ some (off_level m))
        × (result ≡ ok tt → c ≡ pin → pin_level pin m'.done ≡ some (off_level m))
  unfolding call pin_level
  preload-call m c pin = ground (arith, Result-cases answer (answer m.calls))

  preload_from-kept :
      (pins : List ℕ) (m : RelayManager) (pin : ℕ)
      → let m' = (preload_from answer pins m).0 in
        (m'.hardware ≡ m.hardware)
        × (m'.relays ≡ m.relays)
        × (pin_level pin m.done ≡ some (off_level m) → pin_level pin m'.done ≡ some (off_level m))
  unfolding preload_from
  preload_from-kept [] m pin = (refl, refl, λ h. h)
  preload_from-kept (c ∷ rest) m pin = ground (
    arith,
    preload-call m c pin,
    preload_from-kept rest (call answer (gpio_set_level c (off_level m)) m).0 pin,
  )

  preload_from-set :
      (pins : List ℕ) (m : RelayManager) (i : ℕ)
      → i < length pins
      → (preload_from answer pins m).1 ≡ ok tt
      → pin_level (get_or pins i 0) (preload_from answer pins m).0.done ≡ some (off_level m)
  unfolding preload_from
  preload_from-set [] m i p h = absurd (omega arith)
  preload_from-set (c ∷ rest) m zero p h = ground (
    arith,
    preload-call m c c,
    preload_from-kept rest (call answer (gpio_set_level c (off_level m)) m).0 c,
  )
  preload_from-set (c ∷ rest) m (suc i) p h = ground (
    arith,
    preload-call m c c,
    preload_from-set rest (call answer (gpio_set_level c (off_level m)) m).0 i (omega arith),
  )

  configure_gpio-kept :
      (m : RelayManager)
      → let m' = (configure_gpio_backend answer m).0 in
        (m'.hardware ≡ m.hardware) × (m'.relays ≡ m.relays)
  unfolding configure_gpio_backend call
  configure_gpio-kept m =
      ground (arith, preload_from-kept (take m.hardware.count m.hardware.channels) m 0)

  configure_gpio-levels :
      (m : RelayManager) (i : ℕ)
      → length m.hardware.channels ≡ 8
      → m.hardware.count ≤ 8
      → i < m.hardware.count
      → let (m', result) = configure_gpio_backend answer m in
        (m'.hardware ≡ m.hardware)
        × (m'.relays ≡ m.relays)
        × (result ≡ ok tt → pin_level (get_or m.hardware.channels i 0) m'.done ≡ some (off_level m))
  unfolding configure_gpio_backend call pin_level
  configure_gpio-levels m i e few p =
      let pins = take m.hardware.count m.hardware.channels in
      ground (
        arith,
        preload_from-kept pins m 0,
        preload_from-set pins m i,
        length-take m.hardware.count m.hardware.channels,
        get_or-take m.hardware.count m.hardware.channels i p,
        answer ((preload_from answer pins m).0).calls,
      )

  configure_tca9554-register :
      (m : RelayManager) (hz : ℕ)
      → let (m', result) = configure_tca9554_backend answer m hz in
        (m'.hardware ≡ m.hardware)
        × (m'.relays ≡ m.relays)
        × (result ≡ ok tt
            → (register_value m'.done ≡ some m'.tca_output)
              × (m'.tca_output ≡ (if m.hardware.active_level == 0 then 0xff else 0x00)))
  unfolding configure_tca9554_backend call register_value
  configure_tca9554-register m hz = ground (
    arith,
    Result-cases answer (answer m.calls),
    Result-cases answer (answer (m.calls + 1)),
    Result-cases answer (answer (m.calls + 1 + 1)),
  )

  tca_off :
      (active channel : ℕ)
      → active ≤ 1
      → channel < 8
      → let output : ℕ = if active == 0 then 0xff else 0x00 in
        (output < 256) × (bit output channel ≡ (if active == 0 then 1 else 0))
  tca_off zero channel h c = (omega arith, (==_iff _ 1).0 (all_below_sound 8 _ channel bit_table c))
  tca_off (suc zero) channel h c =
      (omega arith, (==_iff _ 0).0 (all_below_sound 8 _ channel zero_table c))
  tca_off (suc (suc n)) channel h c = absurd (omega arith)

  abbrev start : RelayManager → BoardConfig → Bool → Bool → RelayManager × Result (Unit {0})
  start = relay_manager_start answer

  module _ (m : RelayManager) (board : BoardConfig) (queue_ok task_ok : Bool) where
    start-table :
        m.queue_created ≡ false
        → (start m board queue_ok task_ok).1 ≡ ok tt
        → let m' = (start m board queue_ok task_ok).0 in
          (m'.hardware ≡ board.relay)
          × (m'.relays ≡ replicate max_relays idle_relay)
          × (m'.queue_created ≡ true)
    unfolding relay_manager_start
    start-table e h = ground (
      arith,
      configure_tca9554-register
          (record m { relays = replicate max_relays idle_relay; hardware = board.relay })
          board.i2c.frequency_hz,
      configure_gpio-kept
          (record m { relays = replicate max_relays idle_relay; hardware = board.relay }),
    )

    start-level :
        (q : ℕ)
        → m.queue_created ≡ false
        → Wired board.relay
        → length board.relay.channels ≡ 8
        → 1 ≤ q
        → q ≤ board.relay.count
        → (start m board queue_ok task_ok).1 ≡ ok tt
        → LevelIs (start m board queue_ok task_ok).0 q (output_level_for board.relay false)
    unfolding relay_manager_start output_level_for
    start-level q e w len a b h =
        let fresh : RelayManager = record m {
          relays = replicate max_relays idle_relay;
          hardware = board.relay;
        } in
        ground (
          arith,
          configure_tca9554-register fresh board.i2c.frequency_hz,
          w.level,
          λ (k : board.relay.kind ≡ RelayBackendKind.tca9554).
              tca_off board.relay.active_level (channel_of board.relay q) w.level (w.bits k q a b),
          w.few,
          configure_gpio-levels fresh (q - 1) len w.few,
        )

  -- A first start that succeeds, on eight channels of an accepted description, leaves every relay
  -- of the board open: each output has the level of an open relay, and the records say so.
  pub relay_manager_start-open :
      (m : RelayManager) (board : BoardConfig) (queue_ok task_ok : Bool)
      → m.queue_created ≡ false
      → Wired board.relay
      → length board.relay.channels ≡ 8
      → (relay_manager_start answer m board queue_ok task_ok).1 ≡ ok tt
      → let m' = (relay_manager_start answer m board queue_ok task_ok).0 in
        IsDriven m' × IsObeyed m' × (m'.relays ≡ replicate max_relays idle_relay)
  relay_manager_start-open m board queue_ok task_ok e w len h =
      let m' = (relay_manager_start answer m board queue_ok task_ok).0 in
      let (hw, rs, _) = start-table m board queue_ok task_ok e h in
      let size : length m'.relays ≡ 8 = rw rs refl in
      let idle : (q : ℕ) → relay_state m' q ≡ idle_relay = λ q. rw rs (idle-states (q - 1)) in
      (
        record {
          wired = subst Wired (sym hw) w;
          slots = size;
          levels = λ q a b.
              let b' = subst (λ (k : RelayHardwareConfig). q ≤ k.count) hw b in
              let level = ap₂ (λ k (s : RelayState). output_level_for k s.output_on) hw (idle q) in
              subst (LevelIs m' q) (sym level)
                (start-level m board queue_ok task_ok q e w len a b' h);
        },
        record {
          few = subst (λ (k : RelayHardwareConfig). k.count ≤ 8) (sym hw) w.few;
          slots = size;
          backed =
              subst (λ (k : RelayHardwareConfig). k.kind ≢ RelayBackendKind.none) (sym hw) w.backed;
          obeyed = λ q a b.
              subst (λ s. s.output_on ≡ is_on (wish_of s).forced (wish_of s).until) (sym (idle q))
                refl;
        },
        rs,
      )
