-- ===== src/ConfigFlags.antt =====
-- main/config_flags.hpp and main/config_flags.cpp: the parameters of the policy program.
-- A parameter has a name and a text in NVS: "true", "false" or a number. One with a lifetime has
-- an entry of the same name in a second namespace, and a deadline in a table in memory.
-- This module has the names, the texts and their types. Deadlines has the table, Store the
-- operations on NVS, Listing the two loops over the entries of NVS.
pub mod Deadlines
pub mod Store
pub mod Listing
pub mod Table
pub mod Kept
pub mod Parameters
pub mod Due
pub mod Rounds
pub mod Expired
mod Tests
use power.Prelude.{
  ℕ, zero, suc, Bool, true, false, ◌&&◌, ◌||◌, not, Option, none, some, List, [], ◌∷◌, ltb, leb,
  ◌==◌, if◌then◌else◌, length, Text, codes, str_eq, Result, ok, err, invalid_arg,
}
use power.Prelude.Int.{ℤ, pos}

-- NVS_KEY_NAME_MAX_SIZE
abbrev pub config_flag_name_max_bytes : ℕ
config_flag_name_max_bytes = 16

abbrev pub config_flag_list_max : ℕ
config_flag_list_max = 32

abbrev pub config_number_text_max_bytes : ℕ
config_number_text_max_bytes = 32

pub data ConfigFlagType : Type 0 where
  not_set boolean number : ConfigFlagType

-- `Double` is the type of double.
pub record ConfigNumber (Double : Type 0) : Type 0 where
  pub is_integer : Bool
  pub integer : ℤ
  pub value : Double

abbrev pub is_digit : ℕ → Bool
is_digit c = leb b'0' c && leb c b'9'

-- isalnum, '_' and '-'
unfoldable pub is_name_char : ℕ → Bool
is_name_char c =
    (leb b'a' c && leb c b'z') || (leb b'A' c && leb c b'Z') || is_digit c || c == b'_' || c == b'-'

abbrev pub all_chars : (ℕ → Bool) → Text → Bool
all_chars test [] = true
all_chars test (c ∷ rest) = test c && all_chars test rest

unfoldable pub validate_name : Option Text → Result (Unit {0})
validate_name none = err invalid_arg
validate_name (some []) = err invalid_arg
validate_name (some (c ∷ rest)) =
    if leb config_flag_name_max_bytes (length (c ∷ rest))
    then err invalid_arg
    else if all_chars is_name_char (c ∷ rest)
    then ok tt
    else err invalid_arg

abbrev pub is_ok : Result (Unit {0}) → Bool
is_ok (ok _) = true
is_ok (err e) = false

unfoldable pub config_flags_valid_name : Option Text → Bool
config_flags_valid_name name = is_ok (validate_name name)

-- The value of a Boolean's text, and nothing for another text.
unfoldable pub boolean_text_value : Text → Option Bool
boolean_text_value text =
    if str_eq text (codes "true")
    then some true
    else if str_eq text (codes "false")
    then some false
    else none

unfoldable pub config_flag_type_name : ConfigFlagType → Text
config_flag_type_name boolean = codes "boolean"
config_flag_type_name number = codes "number"
config_flag_type_name not_set = codes "unknown"

-- The characters that a number may have.
unfoldable pub is_number_char : ℕ → Bool
is_number_char c = is_digit c || c == b'+' || c == b'-' || c == b'.' || c == b'e' || c == b'E'

-- strtoll and strtod: the number, when they read the whole text without an error, and for strtod
-- when it is finite; and the conversion of an integer.
pub record Numbers (Double : Type 0) : Type 0 where
  pub strtoll : Text → Option ℤ
  pub strtod : Text → Option Double
  pub of_integer : ℤ → Double

module _ {Double : Type 0} (numbers : Numbers Double) where
  -- The text has passed the checks of its characters.
  abbrev pub parse_checked : Text → Option (ConfigNumber Double)
  parse_checked text = elim (numbers.strtoll text) [
    | some as_integer ↦
        some (record {
          is_integer = true;
          integer = as_integer;
          value = numbers.of_integer as_integer;
        })
    | none ↦ elim (numbers.strtod text) [
      | some as_double ↦ some (record { is_integer = false; integer = pos 0; value = as_double })
      | none ↦ none
    ]
  ]

  unfoldable pub config_number_parse : Option Text → Option (ConfigNumber Double)
  config_number_parse none = none
  config_number_parse (some []) = none
  config_number_parse (some (c ∷ rest)) =
      if leb config_number_text_max_bytes (length (c ∷ rest))
      then none
      else if not (all_chars is_number_char (c ∷ rest))
      then none
      else parse_checked (c ∷ rest)

  -- The type of the text that a parameter has.
  unfoldable pub text_type : Text → ConfigFlagType
  text_type text = elim (boolean_text_value text) [
    | some value ↦ boolean
    | none ↦ elim (config_number_parse (some text)) [ some value ↦ number | none ↦ not_set ]
  ]
