-- ===== src/RelayManager/Driver.antt =====
-- main/relay_manager.cpp: the functions that drive the relay hardware.
use power.Prelude.{
  ℕ, ◌+◌, Bool, false, not, List, [], ◌∷◌, ◌==◌, eqb, if◌then◌else◌, take, Result, ok, err,
  not_supported,
}
use power.BoardConfig.{RelayBackendKind}
use power.RelayManager.{
  RelayManager, RelayState, DriverCall, gpio_set_level, gpio_config, i2c_add_device,
  tca_write_register, tca_output_register, tca_configuration_register, channel_of, output_level_for,
  write_bit, desired,
}

module _ (answer : ℕ → Result (Unit {0})) where
  -- One call of a driver.
  unfoldable pub call : DriverCall → RelayManager → RelayManager × Result (Unit {0})
  call c m = elim (answer m.calls) [
    | ok _ ↦ (record m { calls = m.calls + 1; done = c ∷ m.done }, ok tt)
    | err e ↦ (record m { calls = m.calls + 1 }, err e)
  ]

  -- ESP_RETURN_ON_ERROR: go on, or return the error.
  abbrev pub and_then :
      RelayManager × Result (Unit {0})
      → (RelayManager → RelayManager × Result (Unit {0}))
      → RelayManager × Result (Unit {0})
  and_then (m, ok _) next = next m
  and_then (m, err e) next = (m, err e)

  -- The loop that preloads the pins, over the channels still to do.
  unfoldable pub preload_from : List ℕ → RelayManager → RelayManager × Result (Unit {0})
  preload_from [] m = (m, ok tt)
  preload_from (channel ∷ rest) m =
      and_then (call (gpio_set_level channel (output_level_for m.hardware false)) m)
        (preload_from rest)

  -- `gpio_config` is handed the pins of the mask.
  unfoldable pub configure_gpio_backend : RelayManager → RelayManager × Result (Unit {0})
  configure_gpio_backend m =
      let pins = take m.hardware.count m.hardware.channels in
      and_then (preload_from pins m) (call (gpio_config pins))

  unfoldable pub configure_tca9554_backend : RelayManager → ℕ → RelayManager × Result (Unit {0})
  configure_tca9554_backend m i2c_frequency_hz =
      and_then (call (i2c_add_device m.hardware.i2c_address i2c_frequency_hz) m) λ m1.
        let output : ℕ = if m1.hardware.active_level == 0 then 0xff else 0x00 in
        and_then
          (call (tca_write_register tca_output_register output) (record m1 { tca_output = output }))
          λ m2. call (tca_write_register tca_configuration_register 0x00) m2

  unfoldable pub hardware_set_output : RelayManager → ℕ → Bool → RelayManager × Result (Unit {0})
  hardware_set_output m relay output_on =
      let channel = channel_of m.hardware relay in
      let level = output_level_for m.hardware output_on in
      elim m.hardware.kind [
        | RelayBackendKind.gpio ↦ call (gpio_set_level channel level) m
        | RelayBackendKind.tca9554 ↦
            let next = write_bit m.tca_output channel (not (level == 0)) in
            and_then (call (tca_write_register tca_output_register next) m)
              λ m'. (record m' { tca_output = next }, ok tt)
        | RelayBackendKind.none ↦ (m, err not_supported)
      ]

  -- The state of the relay comes back changed; the caller stores it.
  unfoldable pub apply_output : RelayManager → ℕ → RelayState → RelayManager × RelayState
  apply_output m relay state =
      let desired_on = desired state in
      if eqb state.output_on desired_on
      then (m, state)
      else let (m', result) = hardware_set_output m relay desired_on in
        elim result [ err e ↦ (m', state) | ok _ ↦ (m', record state { output_on = desired_on }) ]
