-- ===== src/BoardConfig/Accepted.antt =====
-- main/board_config.cpp: accepted descriptions and the code that uses them.
use power.Prelude.{
  ℕ, zero, suc, ◌-◌, ◌≤◌, ◌<◌, ◌≡◌, ◌≢◌, refl, sym, ◌∙◌, Bool, true, false, List, [], ◌∷◌, ltb,
  ==_refl, take, length, get_or, ok, arith, length-take,
}
use power.Prelude.Int.{ℤ, pos, int_eq_refl}
use power.BoardConfig.{BoardConfig, RelayBackendKind, DigitalInputBackendKind}
use power.BoardConfig.Validate.{
  contains, all_unique, unique_channels, uses, all_channels, relay_accepted, inputs_accepted,
  input_accepted, validate_config, relay_uses_gpio, ethernet_uses_gpio,
}
use power.RelayManager.{channel_of}
use power.RelayManager.Levels.{Wired}

take-get_or : (n : ℕ) (xs : List ℕ) (i : ℕ) → i < n → get_or (take n xs) i 0 ≡ get_or xs i 0
take-get_or zero xs i h = absurd (omega arith)
take-get_or (suc n) [] i h = refl
take-get_or (suc n) (x ∷ xs) zero h = refl
take-get_or (suc n) (x ∷ xs) (suc i) h = take-get_or n xs i (omega arith)

contains-get_or : (xs : List ℕ) (i : ℕ) → i < length xs → contains (get_or xs i 0) xs ≡ true
contains-get_or [] i h = absurd (omega arith)
contains-get_or (x ∷ xs) zero h = ground (arith, ==_refl x)
contains-get_or (x ∷ xs) (suc i) h = ground (arith, contains-get_or xs i)

all_unique-get_or :
    (xs : List ℕ) (i j : ℕ)
    → all_unique xs ≡ true
    → i < length xs
    → j < length xs
    → get_or xs i 0 ≡ get_or xs j 0
    → i ≡ j
unfolding all_unique
all_unique-get_or [] i j u p q e = absurd (omega arith)
all_unique-get_or (x ∷ xs) zero zero u p q e = refl
all_unique-get_or (x ∷ xs) zero (suc j) u p q e = ground (arith, contains-get_or xs j)
all_unique-get_or (x ∷ xs) (suc i) zero u p q e = ground (arith, contains-get_or xs i)
all_unique-get_or (x ∷ xs) (suc i) (suc j) u p q e = ground (arith, all_unique-get_or xs i j)

all_channels-get_or :
    (p : ℕ → Bool) (xs : List ℕ) (i : ℕ)
    → all_channels p xs ≡ true
    → i < length xs
    → p (get_or xs i 0) ≡ true
all_channels-get_or p [] i h q = absurd (omega arith)
all_channels-get_or p (x ∷ xs) zero h q = ground arith
all_channels-get_or p (x ∷ xs) (suc i) h q = ground (arith, all_channels-get_or p xs i)

uses-get_or : (xs : List ℕ) (i : ℕ) → i < length xs → uses xs (pos (get_or xs i 0)) ≡ true
unfolding uses
uses-get_or [] i h = absurd (omega arith)
uses-get_or (x ∷ xs) zero h = ground (arith, int_eq_refl (pos x))
uses-get_or (x ∷ xs) (suc i) h = ground (arith, uses-get_or xs i)

module _ (valid_gpio valid_output : ℤ → Bool) (config : BoardConfig) where
  record Passed : Type 0 where
    relays : relay_accepted valid_gpio valid_output config ≡ true
    inputs : inputs_accepted valid_gpio valid_output config ≡ true

  passed : validate_config valid_gpio valid_output config ≡ ok tt → Passed
  unfolding validate_config
  passed h = ground arith

  used : List ℕ
  used = take config.relay.count config.relay.channels

  record RelaysPassed : Type 0 where
    few : config.relay.count ≤ 8
    level : config.relay.active_level ≤ 1
    backed : config.relay.kind ≢ RelayBackendKind.none
    unique : all_unique used ≡ true
    bits : config.relay.kind ≡ RelayBackendKind.tca9554 → all_channels (λ c. ltb c 8) used ≡ true

  relays_passed : relay_accepted valid_gpio valid_output config ≡ true → RelaysPassed
  unfolding relay_accepted unique_channels used
  relays_passed h = ground arith

  module _ (size : length config.relay.channels ≡ 8) (few : config.relay.count ≤ 8) where
    length-used : length used ≡ config.relay.count
    unfolding used
    length-used = omega (arith, length-take config.relay.count config.relay.channels)

    used-channel :
        (r : ℕ) → 1 ≤ r → r ≤ config.relay.count → get_or used (r - 1) 0 ≡ channel_of config.relay r
    unfolding used
    used-channel r a b = take-get_or config.relay.count config.relay.channels (r - 1) (omega arith)

  -- The relays of an accepted description, in a table of eight channels, are at most eight, with
  -- different channels, which on a TCA9554 are bits of its register.
  pub validate_config-Wired :
      length config.relay.channels ≡ 8
      → validate_config valid_gpio valid_output config ≡ ok tt
      → Wired config.relay
  validate_config-Wired size h =
      let p = relays_passed (passed h).relays in
      let few = p.few in
      let n = length-used size few in
      let at = used-channel size few in
      record {
        few = few;
        level = p.level;
        backed = p.backed;
        distinct = λ r q a b c d e.
            let same : r - 1 ≡ q - 1 =
              all_unique-get_or used (r - 1) (q - 1) p.unique (omega arith) (omega arith)
                (at r a b ∙ e ∙ sym (at q c d)) in
            omega arith;
        bits = λ k r a b.
            let small = all_channels-get_or (λ c. ltb c 8) used (r - 1) (p.bits k) (omega arith) in
            ground (arith, at r a b);
      }

  input_free :
      (c : ℕ)
      → input_accepted valid_gpio valid_output config c ≡ true
      → (valid_gpio (pos c) ≡ true)
        × (relay_uses_gpio config.relay (pos c) ≡ false)
        × (ethernet_uses_gpio config.ethernet (pos c) ≡ false)
  unfolding input_accepted
  input_free c h = ground arith

  inputs_passed :
      inputs_accepted valid_gpio valid_output config ≡ true
      → config.digital_input.kind ≡ DigitalInputBackendKind.gpio
      → (config.digital_input.count ≤ 8)
        × (all_channels
              (input_accepted valid_gpio valid_output config)
              (take config.digital_input.count config.digital_input.channels)
            ≡ true)
  unfolding inputs_accepted
  inputs_passed h k = ground arith

  relay-used :
      (r : ℕ)
      → length config.relay.channels ≡ 8
      → config.relay.count ≤ 8
      → config.relay.kind ≡ RelayBackendKind.gpio
      → 1 ≤ r
      → r ≤ config.relay.count
      → relay_uses_gpio config.relay (pos (channel_of config.relay r)) ≡ true
  unfolding relay_uses_gpio used
  relay-used r size few k a b =
      let found = uses-get_or used (r - 1) (omega (arith, length-used size few)) in
      ground (arith, used-channel size few r a b)

  -- In an accepted description with relays and inputs on pins, in tables of eight channels, the
  -- pin of an input is a valid one and neither a relay's nor one of the W5500.
  pub validate_config-inputs_free :
      length config.relay.channels ≡ 8
      → length config.digital_input.channels ≡ 8
      → validate_config valid_gpio valid_output config ≡ ok tt
      → config.relay.kind ≡ RelayBackendKind.gpio
      → config.digital_input.kind ≡ DigitalInputBackendKind.gpio
      → (r i : ℕ) → 1 ≤ r
      → r ≤ config.relay.count
      → i < config.digital_input.count
      → let pin = get_or config.digital_input.channels i 0 in
        (valid_gpio (pos pin) ≡ true)
        × (channel_of config.relay r ≢ pin)
        × (ethernet_uses_gpio config.ethernet (pos pin) ≡ false)
  validate_config-inputs_free size size' h k k' r i a b c =
      let (few, all) = inputs_passed (passed h).inputs k' in
      let n = length-take config.digital_input.count config.digital_input.channels in
      let checked =
        all_channels-get_or (input_accepted valid_gpio valid_output config)
          (take config.digital_input.count config.digital_input.channels) i all (omega arith) in
      let same = take-get_or config.digital_input.count config.digital_input.channels i c in
      let (valid, relay, ethernet) =
        input_free (get_or config.digital_input.channels i 0) (rw (← same) checked) in
      (
        valid,
        λ e. absurd (
            let taken = relay-used r size (relays_passed (passed h).relays).few k a b in
            ground arith),
        ethernet,
      )
