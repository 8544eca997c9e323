-- ===== src/PolicyTask/Lua.antt =====
-- main/policy_task.cpp: the values that go to Lua and the checks of what comes from it.
use power.Prelude.{
  ℕ, zero, suc, Bool, true, false, ◌&&◌, Option, none, some, List, [], ◌∷◌, leb, if◌then◌else◌,
  Text, c_string, Result, ok, err, EspErr,
}
use power.Prelude.Int.{ℤ, pos, negsuc}

-- What the functions push; `F` is lua_Number.
pub data Scalar (F : Type 0) : Type 0 where
  nil : Scalar F
  boolean : Bool → Scalar F
  integer : ℤ → Scalar F
  number : F → Scalar F
  text : Text → Scalar F

-- `argument` is a value of the caller that is handed back; a table has fields or is an array.
pub data Value (Arg : Type 0) (F : Type 0) : Type 0 where
  scalar : Scalar F → Value Arg F
  argument : Arg → Value Arg F
  fields : List (Text × Scalar F) → Value Arg F
  array : List Text → Value Arg F

-- The errors that a function raises, with the number of a bad argument.
pub data LuaError : Type 0 where
  bad_argument : ℕ → LuaError
  call_failed : EspErr → LuaError
  out_of_memory state_full timed_out : LuaError

-- An error leaves the function at once.
pub data Outcome (A : Type 0) : Type 0 where
  returned : A → Outcome A
  raised : LuaError → Outcome A

infixl 5 ◌>>=◌ ◌>>◌
abbrev pub ◌>>=◌ : {A B : Type 0} → Outcome A → (A → Outcome B) → Outcome B
returned a >>= next = next a
raised e >>= next = raised e

abbrev pub ◌>>◌ : {B : Type 0} → Outcome (Unit {0}) → Outcome B → Outcome B
first >> second = first >>= λ done. second

abbrev pub unless : Bool → LuaError → Outcome (Unit {0})
unless true e = raised e
unless false e = returned tt

-- luaL_error after a call that failed.
abbrev pub called : {A : Type 0} → Result A → Outcome A
called (ok a) = returned a
called (err e) = raised (call_failed e)

-- What the code calls of Lua on an argument; `none` where Lua raises an error. `narrow` is the
-- conversion of a double to lua_Number, `wrap` that of an integer to lua_Integer.
pub record LuaLibrary (Arg : Type 0) (F : Type 0) (Double : Type 0) : Type 0 where
  pub to_integer : Arg → Option ℤ
  pub to_text : Arg → Option (List ℕ)
  pub is_nil : Arg → Bool
  pub to_boolean : Arg → Option Bool
  pub tolstring : Arg → Text
  pub narrow : Double → F
  pub wrap : ℤ → ℤ

abbrev pub argument_at : {A : Type 0} → List A → ℕ → Option A
argument_at [] i = none
argument_at (a ∷ rest) zero = none
argument_at (a ∷ rest) (suc zero) = some a
argument_at (a ∷ rest) (suc (suc i)) = argument_at rest (suc i)

-- An argument that is not there is refused by the luaL_check functions.
abbrev pub checked : {A B : Type 0} → (A → Option B) → Option A → ℕ → Outcome B
checked convert none i = raised (bad_argument i)
checked convert (some a) i = elim (convert a) [
  | none ↦ raised (bad_argument i)
  | some b ↦ returned b
]

-- low <= z <= high
abbrev pub in_range : ℕ → ℕ → ℤ → Option ℕ
in_range low high (pos n) = if leb low n && leb n high then some n else none
in_range low high (negsuc n) = none

abbrev pub or_bad : {A : Type 0} → Option A → ℕ → Outcome A
or_bad none i = raised (bad_argument i)
or_bad (some a) i = returned a

module _ {Arg F Double : Type 0} (lua : LuaLibrary Arg F Double) where
  abbrev pub check_integer : List Arg → ℕ → Outcome ℤ
  check_integer args i = checked lua.to_integer (argument_at args i) i

  abbrev pub check_lstring : List Arg → ℕ → Outcome (List ℕ)
  check_lstring args i = checked lua.to_text (argument_at args i) i

  -- luaL_checkstring, read as a C string.
  abbrev pub check_string : List Arg → ℕ → Outcome Text
  check_string args i = do bytes ← check_lstring args i; returned (c_string bytes)

  -- luaL_checktype with LUA_TBOOLEAN, and lua_toboolean.
  abbrev pub check_boolean : List Arg → ℕ → Outcome Bool
  check_boolean args i = checked lua.to_boolean (argument_at args i) i

  abbrev pub none_or_nil : List Arg → ℕ → Bool
  none_or_nil args i = elim (argument_at args i) [ none ↦ true | some a ↦ lua.is_nil a ]
