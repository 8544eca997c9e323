-- ===== src/PolicyTask/Parameters.antt =====
-- main/policy_task.cpp: the registered functions that read the parameters of the policy.
use power.Prelude.{Bool, true, false, not, Option, none, some, List, [], ◌∷◌, if◌then◌else◌, Text}
use power.ConfigFlags.{
  ConfigNumber, config_number_parse, config_number_text_max_bytes, config_flags_valid_name,
}
use power.ConfigFlags.Store.{config_flags_is_set, config_flags_get_bool, config_flags_get_number}
use power.PolicyTask.Lua.{
  nil, boolean, integer, number, Value, scalar, argument, Outcome, returned, called, argument_at,
  check_string, ◌>>=◌,
}
use power.PolicyTask.Moments.{Libraries, Moment}
use power.PolicyTask.Reading.{Values}

module _ {Arg F Double Flash Banks Chip : Type 0}
    (l : Libraries Arg F Double Flash Banks Chip) where
  -- The second argument, or nil.
  unfoldable pub lua_push_config_default : List Arg → Values l
  lua_push_config_default args = elim (argument_at args 2) [
    | none ↦ scalar nil ∷ []
    | some a ↦ argument a ∷ []
  ]

  abbrev pub number_value : ConfigNumber Double → Value Arg F
  number_value n =
      if n.is_integer
      then scalar (integer (l.lua.wrap n.integer))
      else scalar (number (l.lua.narrow n.value))

  -- The text of a number that was found; else the default.
  abbrev pub number_or_default : List Arg → Option Text → Values l
  number_or_default args none = lua_push_config_default args
  number_or_default args (some text) = elim (config_number_parse l.numbers (some text)) [
    | none ↦ lua_push_config_default args
    | some n ↦ number_value n ∷ []
  ]

  abbrev pub bool_or_default : List Arg → Option Bool → Values l
  bool_or_default args none = lua_push_config_default args
  bool_or_default args (some value) = scalar (boolean value) ∷ []

  module _ (m : Moment F Flash Banks Chip) where
    abbrev pub is_set_named : Text → Outcome (Values l)
    is_set_named name =
        if not (config_flags_valid_name (some name))
        then returned (scalar (boolean false) ∷ [])
        else do
          is_set ← called (config_flags_is_set l.flags m.flags (some name) true)
          returned (scalar (boolean is_set) ∷ [])

    unfoldable pub lua_config_is_set : List Arg → Outcome (Values l)
    lua_config_is_set args = do name ← check_string l.lua args 1; is_set_named name

    abbrev pub number_named : List Arg → Text → Outcome (Values l)
    number_named args name =
        if not (config_flags_valid_name (some name))
        then returned (lua_push_config_default args)
        else do
          text ← called (
              config_flags_get_number l.flags m.flags (some name) true config_number_text_max_bytes)
          returned (number_or_default args text)

    unfoldable pub lua_config_number : List Arg → Outcome (Values l)
    lua_config_number args = do name ← check_string l.lua args 1; number_named args name

    abbrev pub bool_named : List Arg → Text → Outcome (Values l)
    bool_named args name =
        if not (config_flags_valid_name (some name))
        then returned (lua_push_config_default args)
        else do
          value ← called (config_flags_get_bool l.flags m.flags (some name) true)
          returned (bool_or_default args value)

    unfoldable pub lua_config_bool : List Arg → Outcome (Values l)
    lua_config_bool args = do name ← check_string l.lua args 1; bool_named args name
