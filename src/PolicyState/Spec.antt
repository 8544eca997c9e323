-- ===== src/PolicyState/Spec.antt =====
-- What the policy's memory promises (main/policy_state.hpp): at most eight named Booleans that
-- belong to one program, in the order in which they were first set.
use power.Prelude.{
  ℕ, ◌≡◌, refl, Bool, true, false, ◌&&◌, not, Option, none, some, List, [], ◌∷◌, ◌==◌,
  if◌then◌else◌, length, Text, str_eq, str_eq_iff, arith,
}
use power.PolicyState.{valid_name, policy_state_capacity}

pub record Memo : Type 0 where
  pub program : Option (List ℕ)
  pub values : List (Text × Bool)

abbrev pub forgotten : Memo
forgotten = record { program = none; values = [] }

unfoldable pub lookup : Text → List (Text × Bool) → Option Bool
lookup name [] = none
lookup name ((k, v) ∷ m) = if str_eq k name then some v else lookup name m

unfoldable pub insert : Text → Bool → List (Text × Bool) → List (Text × Bool)
insert name v [] = (name, v) ∷ []
insert name v ((k, w) ∷ m) = if str_eq k name then (k, v) ∷ m else (k, w) ∷ insert name v m

lookup-insert :
    (a b : Text) (v : Bool) (m : List (Text × Bool))
    → lookup b (insert a v m) ≡ (if str_eq a b then some v else lookup b m)
unfolding lookup insert
lookup-insert a b v [] = refl
lookup-insert a b v ((k, w) ∷ m) =
    ground (arith, str_eq_iff k a, str_eq_iff k b, str_eq_iff a b, lookup-insert a b v m)

abbrev pub runs : Memo → List ℕ → Bool
runs m program = elim m.program [ none ↦ false | some p ↦ str_eq p program ]

unfoldable pub begin_cycle : Memo → List ℕ → Memo
begin_cycle m program = if runs m program then m else record { program = some program; values = [] }

unfoldable pub finish_cycle : Memo → Bool → Memo
finish_cycle m success = if success then m else forgotten

abbrev pub or_default : Option Bool → Bool → Bool
or_default none d = d
or_default (some v) d = v

unfoldable pub get : Memo → Option Text → Bool → Bool
get m none default_value = default_value
get m (some name) default_value =
    if valid_name (some name)
    then or_default (lookup name m.values) default_value
    else default_value

abbrev is_none : Option Bool → Bool
is_none none = true
is_none (some v) = false

unfoldable pub set : Memo → Option Text → Bool → Memo × Bool
unfolding insert
set m none value = (m, false)
set m (some name) value =
    if not (valid_name (some name))
    then (m, false)
    else if is_none (lookup name m.values) && length m.values == policy_state_capacity
    then (m, false)
    else (record m { values = insert name value m.values }, true)
