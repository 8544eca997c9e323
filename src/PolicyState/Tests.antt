-- ===== src/PolicyState/Tests.antt =====
-- Runs of tests/test_policy_state.cpp.
use power.Prelude.{◌≡◌, refl, true, false, Option, some, List, [], ◌∷◌, Text, codes, str_eq}
use power.PolicyState.{
  initial, valid_name, name_from, is_name_char, get, set, find_entry, begin_cycle, finish_cycle,
  clear,
}
use power.PolicyState.Spec
use power.PolicyState.Spec.{forgotten}
use power.PolicyState.Refine.{
  Event, begins, finishes, sets, run, step, spec_run, IsValid, run-initial-refines,
}

abbrev mode : Option Text
mode = some (codes "night_mode")

abbrev cycles : List Event
cycles = begins (1 ∷ 2 ∷ []) ∷ sets mode true ∷ finishes true ∷ begins (1 ∷ 2 ∷ []) ∷ []

get-cycles : get (run initial cycles) mode false ≡ true
unfolding run step begin_cycle finish_cycle clear set get valid_name name_from is_name_char
    find_entry str_eq
get-cycles = refl

-- Another program begins: its memory is empty.
get-other :
    get (run initial (begins (1 ∷ []) ∷ sets mode true ∷ begins (2 ∷ []) ∷ [])) mode false ≡ false
unfolding run step begin_cycle finish_cycle clear set get valid_name name_from is_name_char
    find_entry str_eq
get-other = refl

run-initial-refines_example :
    (get (run initial cycles) mode false ≡ Spec.get (spec_run forgotten cycles) mode false)
    × IsValid (run initial cycles)
run-initial-refines_example = run-initial-refines cycles mode false
