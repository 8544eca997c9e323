-- ===== src/InputManager/Tests.antt =====
-- A run of main/input_manager.cpp.
use power.Prelude.{ℕ, ◌≡◌, Bool, true, List, [], ◌∷◌, Result, ok}
use power.BoardConfig.{BoardConfig, default_config, DigitalInputBackendKind, GpioPullKind}
use power.InputManager.{InputManager, input_manager_start, input_manager_query, input_manager_count}
use power.InputManager.Query.{reading, start-query}

abbrev two_inputs : BoardConfig
two_inputs = record default_config {
  digital_input = record {
    kind = DigitalInputBackendKind.gpio;
    count = 2;
    active_level = 0;
    pull = GpioPullKind.up;
    channels = 4 ∷ 5 ∷ [];
  };
}

abbrev accept : List ℕ → Bool → Bool → Result (Unit {0})
accept pins up down = ok tt

-- The pin 5 is low, which is the active level.
abbrev low : ℕ → ℕ
low pin = 0

started : InputManager
started = (input_manager_start accept two_inputs).0

start-query_example :
    (input_manager_query started low 2 true ≡ ok (reading two_inputs low 2))
    × (input_manager_count started ≡ 2)
unfolding started input_manager_start
start-query_example = start-query accept two_inputs low 2
