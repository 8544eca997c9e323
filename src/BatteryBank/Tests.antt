-- ===== src/BatteryBank/Tests.antt =====
-- A run of main/battery_bank.cpp on a flash that holds one struct.
use power.Prelude.{
  ℕ, ◌+◌, ◌-◌, ◌≡◌, ◌↔◌, refl, true, ltb, Result, err, none, Option, some, List, [], ◌∷◌, map, Text,
  codes, str_eq, ok, if◌then◌else◌, inr, arith,
}
use mathlib.Core.Option
use power.Prelude.Int.{pos_part}
use power.Prelude.Float.{Float}
use power.BatteryStore.Operations.{empty_slot, battery_store_get, battery_record_cell_summary}
use power.BatteryBank.State.{
  BatteryBankState, bank_state, add_batteries, add_record, add_cells, add_values,
  battery_bank_get_state,
}
use power.BatteryBank.Ready.{IsOrder, Seen}
use power.BatteryBank.Reported.{AreValid, Reports, bank_batteries, battery_bank_get_state-Reports}
use power.BatteryStore.{
  BatteryStore, BatteryRecord, find_by_name, battery_store_valid_name, printable_from,
}
use power.BatteryBank.{
  StoredBatteryBanks, BatteryBankDefinition, Nvs, init_empty, validate_bank_definition,
  battery_bank_valid_name, valid_batteries, load_banks, find_bank, find_among, battery_bank_create,
  battery_bank_list, stored_bytes, text_of,
}
use power.BatteryBank.Created.{IsStored, IsKept, HasRoom, bank_of, battery_bank_create-list}

abbrev flash : Nvs StoredBatteryBanks
flash = record {
  nvs_open = λ write s. ok tt;
  get_blob = λ s. ok (s, stored_bytes);
  set_blob = λ s new. (new, ok tt);
  commit = λ s. (s, ok tt);
}

abbrev flash-IsKept : IsKept flash
flash-IsKept = record {
  contents = λ s. s;
  opens = λ write s. refl;
  reads = λ s. refl;
  writes = λ s new h. (refl, refl);
  commits = λ s. (refl, refl);
}

empty-IsStored : IsStored init_empty
unfolding init_empty
empty-IsStored = record { magic = refl; version = refl; few = omega arith; size = refl }

empty-HasRoom : HasRoom init_empty (codes "house")
unfolding init_empty
empty-HasRoom = inr (omega arith)

abbrev two : List (Option Text)
two = some (codes "left") ∷ some (codes "right") ∷ []

two-valid : validate_bank_definition (some (codes "house")) (some two) ≡ true
unfolding validate_bank_definition battery_bank_valid_name valid_batteries battery_store_valid_name
    printable_from str_eq
two-valid = refl

battery_bank_create-list_example :
    let (s, result) = battery_bank_create flash init_empty (some (codes "house")) (some two) true in
    (result ≡ ok tt)
    × IsStored s
    × ((old : List BatteryBankDefinition) × (new : List BatteryBankDefinition) × (battery_bank_list
            flash init_empty true true
          ≡ ok old)
        × (battery_bank_list flash s true true ≡ ok new)
        × (bank_of (codes "house") new ≡ (
            if str_eq (codes "house") (codes "house")
            then some (map text_of two)
            else bank_of (codes "house") old)))
battery_bank_create-list_example =
    battery_bank_create-list flash flash-IsKept init_empty (codes "house") (codes "house") two
      empty-IsStored two-valid empty-HasRoom

-- Whole numbers in place of `float`.
abbrev whole : Float ℕ
whole = record {
  of_int = pos_part;
  add = λ a b. a + b;
  sub = λ a b. a - b;
  div = λ a b. a;
  lt = ltb;
}

whole-IsOrder : IsOrder whole
whole-IsOrder = record { irreflexive = λ a. ground arith; transitive = λ a b c p q. ground arith }

abbrev house : StoredBatteryBanks
house = record init_empty {
  bank_count = 1;
  banks = record { name = codes "house"; battery_count = 1; batteries = codes "left" ∷ [] } ∷ [];
}

abbrev left_store : BatteryStore ℕ
left_store = record {
  slots =
      record {
        occupied = true;
        battery = record (empty_slot whole).battery { name = codes "left"; protection_status = 3 };
      }
      ∷ [];
  mutex_created = true;
}

house-loaded : load_banks flash house ≡ ok house
unfolding init_empty load_banks
house-loaded = refl

battery_bank_get_state-Reports_example :
    (state : BatteryBankState ℕ) × (battery_bank_get_state whole flash house left_store
        (some (codes "house"))
        true
        true
        true
        9
      ≡ ok state)
    × ((state.ready ≡ true) ↔ (
        (rs : List (BatteryRecord ℕ)) × Seen whole left_store true (bank_batteries house 0) rs
        × Reports whole rs state))
unfolding AreValid battery_bank_valid_name battery_store_valid_name printable_from find_bank
    find_among str_eq init_empty
battery_bank_get_state-Reports_example =
    battery_bank_get_state-Reports whole whole-IsOrder flash house left_store (codes "house") house
      0 9 refl house-loaded refl refl (refl, tt)

abbrev answer {ℓ} : {A : Type ℓ} → Result A → Option A
answer (ok a) = some a
answer (err e) = none

-- The flag of the bank is that of its battery.
house-protects :
    Option.map
      (λ (s : BatteryBankState ℕ). s.cell_undervoltage_protection)
      (answer (
        battery_bank_get_state whole flash house left_store
          (some (codes "house"))
          true
          true
          true
          9))
    ≡ some true
unfolding battery_bank_get_state battery_bank_valid_name printable_from load_banks find_bank
    find_among init_empty str_eq bank_state add_batteries battery_store_get battery_store_valid_name
    find_by_name add_record add_cells battery_record_cell_summary add_values
house-protects = refl
