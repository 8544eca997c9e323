-- ===== src/PolicyTask/Cycle.antt =====
-- main/policy_task.cpp: the run of a program, the cycle, and the loop of the task.
-- Ticks are 32-bit, a hundredth of a second.
use power.Prelude.{
  ℕ, suc, ◌+◌, ◌-◌, ◌%◌, ◌^◌, Bool, true, false, not, Option, none, some, List, [], ◌∷◌, ◌++◌, ltb,
  if◌then◌else◌, length, take, Text, codes, Result, ok, err, fail, no_mem, invalid_arg,
}
use power.Checksum.{checksum_sha1}
use power.ConfigFlags.Store.{Config}
use power.ConfigFlags.Listing.{config_flags_expire}
use power.PolicyStorage
use power.PolicyStorage.{PolicySlot, policy_storage_read_alloc}
use power.PolicyState.{begin_cycle, finish_cycle, clear}
use power.PolicyTask.Lua.{Value, Outcome, returned, raised, timed_out}
use power.PolicyTask.Moments.{Libraries, Moment, Policy}
use power.PolicyTask.Commands.{Function, call_function}

abbrev pub policy_period_ticks : ℕ
policy_period_ticks = 6000

-- syslog("power4 policy: no active configuration") and a newline
abbrev pub empty_policy_source : Text
empty_policy_source =
    codes "syslog("
    ++ (34 ∷ [])
    ++ codes "power4 policy: no active configuration"
    ++ (34 ∷ b')' ∷ 10 ∷ [])

unfoldable pub tick_reached : ℕ → ℕ → Bool
tick_reached now deadline = ltb ((now + 2 ^ 32 - deadline) % 2 ^ 32) (2 ^ 31)

-- What a program does: it calls a function, or the hook runs, and it goes on with the outcome, an
-- error included, which it may catch; at the end lua_pcall gives whether it succeeded.
pub data Program (Arg : Type 0) (F : Type 0) : Type 0 where
  finished : Bool → Program Arg F
  call : Function → List Arg → (Outcome (List (Value Arg F)) → Program Arg F) → Program Arg F
  hooked : (Outcome (Unit {0}) → Program Arg F) → Program Arg F

-- luaL_loadbuffer: the program, or the message of the error.
pub data Loaded (Arg : Type 0) (F : Type 0) : Type 0 where
  program : Program Arg F → Loaded Arg F
  refused : Option Text → Loaded Arg F

-- `deadline` is `none` where there is no context.
unfoldable pub policy_lua_hook : Option ℕ → ℕ → Outcome (Unit {0})
policy_lua_hook none now = returned tt
policy_lua_hook (some deadline) now =
    if tick_reached now deadline then raised timed_out else returned tt

abbrev pub forget : Policy → Policy
forget p = record p { memory = clear p.memory }

abbrev pub source_of : List ℕ → List ℕ
source_of active_source =
    if ltb 0 (length active_source) then active_source else empty_policy_source

abbrev pub begun : Policy → List ℕ → Policy
begun p digest = record p { memory = begin_cycle p.memory digest }

abbrev pub ended : Policy × Bool → Policy
ended (p, success) = record p { memory = finish_cycle p.memory success }

-- `copied` is the message that goes to the caller: strlcpy of at most `size` - 1 characters.
abbrev pub message_or_unknown : Option Text → Text
message_or_unknown none = codes "unknown Lua error"
message_or_unknown (some message) = message

abbrev pub copied : Bool → ℕ → Text → Option Text
copied given size message =
    if given then (if ltb 0 size then some (take (size - 1) message) else none) else none

module _ {Arg F : Type 0} (load : List ℕ → Loaded Arg F) where
  -- The result, and what is written to `error_message`, if anything is.
  unfoldable pub policy_validate :
      Option (List ℕ) → Bool → Bool → ℕ → Result (Unit {0}) × Option Text
  policy_validate none created given size = (err invalid_arg, copied given size [])
  policy_validate (some source) created given size =
      if not created then (err no_mem, copied given size []) else elim (load source) [
        | program script ↦ (ok tt, copied given size [])
        | refused message ↦ (err fail, copied given size (message_or_unknown message))
      ]

module _ {Arg F Double Flash Banks Chip : Type 0} (l : Libraries Arg F Double Flash Banks Chip)
    (moments : ℕ → Moment F Flash Banks Chip) (deadline : ℕ) where
  -- The n-th call and the n-th run of the hook find the n-th moment.
  unfoldable pub run_program : ℕ → Policy → Program Arg F → Policy × Bool
  run_program n p (finished success) = (p, success)
  run_program n p (call function args next) =
      let (p', outcome) = call_function l (moments n) p function args in
      run_program (suc n) p' (next outcome)
  run_program n p (hooked next) =
      run_program (suc n) p (next (policy_lua_hook (some deadline) (moments n).ticks))

  abbrev pub run_loaded : Policy → Loaded Arg F → Policy × Bool
  run_loaded p (refused message) = (p, false)
  run_loaded p (program script) = run_program 0 p script

  module _ (load : List ℕ → Loaded Arg F) where
    -- `created`: there is memory for a Lua state.
    unfoldable pub run_lua_policy : Policy → List ℕ → Bool → Policy × Bool
    run_lua_policy p source false = (p, false)
    run_lua_policy p source true = run_loaded p (load source)

    -- What follows checksum_sha1.
    abbrev pub run_identified : Policy → List ℕ → Bool → Result (List ℕ) → Policy
    run_identified p source created (err e) = forget p
    run_identified p source created (ok digest) =
        ended (run_lua_policy (begun p digest) source created)

    module _ (hash : List ℕ → Result (List ℕ × ℕ)) where
      abbrev pub run_source : Policy → List ℕ → Bool → Policy
      run_source p source created =
          run_identified p source created (checksum_sha1 hash (some source) (length source) true)

      -- What follows policy_storage_read_alloc.
      abbrev pub run_read : Policy → Bool → Result (List ℕ) → Policy
      run_read p created (err e) = forget p
      run_read p created (ok active_source) = run_source p (source_of active_source) created

      module _ {Store Stats : Type 0} (programs : PolicyStorage.Nvs Store Stats) where
        -- A failure of the expiry is only logged.
        unfoldable pub run_policy_cycle :
            Policy → Config Flash → Store → ℕ → Bool → Bool → Policy × Config Flash
        run_policy_cycle p flags flash now_s allocated created = (
          run_read p created
              (policy_storage_read_alloc programs flash PolicySlot.active true allocated),
          (config_flags_expire l.flags l.numbers flags now_s).0,
        )

-- A round of `policy_task_main`: the deadline of the cycle, and how long the task then waits; `none`
-- where it only yields. `now` and `later` are read after the cycle, one after the other.
unfoldable pub cycle_deadline : ℕ → ℕ
cycle_deadline cycle_start = (cycle_start + policy_period_ticks) % 2 ^ 32

unfoldable pub next_delay : ℕ → ℕ → ℕ → Option ℕ
next_delay cycle_start now later =
    let next_cycle = cycle_deadline cycle_start in
    if not (tick_reached later next_cycle)
    then some ((next_cycle + 2 ^ 32 - now) % 2 ^ 32)
    else none

-- Whether the task runs, and the result; `created` is what xTaskCreate answers.
unfoldable pub policy_task_start : Bool → Bool → Bool × Result (Unit {0})
policy_task_start running created =
    if running then (running, ok tt) else if created then (true, ok tt) else (false, err no_mem)
