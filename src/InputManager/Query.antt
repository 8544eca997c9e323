-- ===== src/InputManager/Query.antt =====
-- What main/input_manager.cpp answers after its start.
use power.Prelude.{
  ℕ, ◌-◌, ◌≡◌, Bool, true, ◌&&◌, List, leb, ◌==◌, if◌then◌else◌, get_or, Result, ok, err,
  invalid_arg, invalid_state, not_supported, arith,
}
use power.BoardConfig.{BoardConfig}
use power.BoardConfig.Validate.{is_input_gpio}
use power.InputManager.{
  InputStatus, input_manager_start, input_manager_count, input_manager_query, succeeded,
}

-- Input `n` of the board is on while its pin has the active level.
abbrev pub reading : BoardConfig → (ℕ → ℕ) → ℕ → InputStatus
reading board level_of n =
    let h = board.digital_input in
    let pin = get_or h.channels (n - 1) 0 in
    record {
      input = n;
      backend = h.kind;
      gpio_pin = pin;
      active_level = h.active_level;
      level = level_of pin;
      on = level_of pin == h.active_level;
    }

-- After a start on any board, with any answer of the driver: without inputs a query is not
-- supported and the count is 0. Where the driver failed, the state is invalid and the count is 0.
-- Otherwise the inputs from 1 to the board's count, and no others, are read at their pins.
pub start-query :
    (configure : List ℕ → Bool → Bool → Result (Unit {0})) (board : BoardConfig) (level_of : ℕ → ℕ)
    (n : ℕ)
    → let (m, result) = input_manager_start configure board in
      (input_manager_query m level_of n true ≡ (
        if is_input_gpio board.digital_input.kind
        then if succeeded result
          then if leb 1 n && leb n board.digital_input.count
            then ok (reading board level_of n)
            else err invalid_arg
          else err invalid_state
        else err not_supported))
      × (input_manager_count m ≡ (if succeeded result then board.digital_input.count else 0))
unfolding input_manager_start input_manager_query input_manager_count
start-query configure board level_of n = ground arith
