-- ===== src/BatteryBank/State.antt =====
-- main/battery_bank.cpp: battery_bank_get_state, the state of a bank from the battery store.
-- The names in a stored bank are whole texts. `store_taken` says whether each call of
-- battery_store_get takes the mutex; the store is the same during the call.
use power.Prelude.{
  ℕ, bit_and, bit_or, Bool, true, false, ◌&&◌, ◌||◌, not, Option, none, some, List, [], ◌∷◌, ltb,
  ◌==◌, if◌then◌else◌, get_or, take, Text, Result, ok, err, invalid_arg, no_mem, not_found, guard,
  ◌>>=◌, ◌>>◌,
}
use power.Prelude.Float.{Float, of_nat}
use power.JbdProtocol.{jbd_protection_cell_undervoltage}
use power.BatteryStore.{BatteryStore, BatteryRecord, BatteryCellSummary, battery_name_max}
use power.BatteryStore.Operations.{
  battery_store_get, battery_record_cell_summary, battery_record_cell_age_s,
}
use power.BatteryBank.{
  Nvs, StoredBatteryBank, empty_bank, battery_bank_valid_name, find_bank, load_banks,
}

pub record BatteryBankState (F : Type 0) : Type 0 where
  pub ready : Bool
  pub voltage_v : F
  pub current_a : F
  pub soc_percent : F
  pub protection_status : ℕ
  pub cell_data_ready : Bool
  pub min_cell_voltage_v : F
  pub cell_age_s : ℕ
  pub min_cell_battery : Text
  pub min_cell_number : ℕ
  pub cell_undervoltage_protection : Bool

module _ {F : Type 0} (f : Float F) where
  -- BatteryBankState {}
  abbrev pub zero_state : BatteryBankState F
  zero_state = record {
    ready = false;
    voltage_v = of_nat f 0;
    current_a = of_nat f 0;
    soc_percent = of_nat f 0;
    protection_status = 0;
    cell_data_ready = false;
    min_cell_voltage_v = of_nat f 0;
    cell_age_s = 0;
    min_cell_battery = [];
    min_cell_number = 0;
    cell_undervoltage_protection = false;
  }

  -- `computed` before the loop.
  abbrev pub first_state : BatteryBankState F
  first_state = record zero_state {
    ready = true;
    soc_percent = of_nat f 100;
    cell_data_ready = true;
  }

  -- The four values that every battery has part in; `first` is `i == 0`.
  unfoldable pub add_values : BatteryBankState F → Bool → BatteryRecord F → BatteryBankState F
  add_values c first r = record c {
    voltage_v = f.add c.voltage_v r.voltage_v;
    current_a = if first || f.lt c.current_a r.current_a then r.current_a else c.current_a;
    soc_percent = if f.lt r.soc_percent c.soc_percent then r.soc_percent else c.soc_percent;
    protection_status = bit_or c.protection_status r.protection_status;
  }

  abbrev pub older : BatteryBankState F → ℕ → BatteryBankState F
  older c age_s = if ltb c.cell_age_s age_s then record c { cell_age_s = age_s } else c

  abbrev pub lowest_cell :
      BatteryBankState F → BatteryCellSummary F → BatteryRecord F → BatteryBankState F
  lowest_cell c cells r =
      if c.min_cell_number == 0 || f.lt cells.min_voltage_v c.min_cell_voltage_v
      then record c {
        min_cell_voltage_v = cells.min_voltage_v;
        min_cell_number = cells.min_cell_number;
        min_cell_battery = take battery_name_max r.name;
      }
      else c

  unfoldable pub add_cells :
      BatteryBankState F → BatteryRecord F → Option (BatteryCellSummary F) → ℕ → BatteryBankState F
  add_cells c r none now_us = record c { cell_data_ready = false }
  add_cells c r (some cells) now_us =
      lowest_cell (older c (battery_record_cell_age_s (some r) now_us)) cells r

  -- The body of the loop, once the record is there.
  unfoldable pub add_record : BatteryBankState F → Bool → ℕ → BatteryRecord F → BatteryBankState F
  add_record c first now_us r =
      add_cells (add_values c first r) r (battery_record_cell_summary f (some r) true) now_us

  -- What follows a call of battery_store_get; `none` where the battery has not been seen.
  abbrev pub next_battery :
      Result (BatteryRecord F)
      → (BatteryRecord F → Result (Option (BatteryBankState F)))
      → Result (Option (BatteryBankState F))
  next_battery (ok r) next = next r
  next_battery (err not_found) next = ok none
  next_battery (err e) next = err e

  -- The loop over the batteries.
  unfoldable pub add_batteries :
      BatteryStore F
      → Bool
      → ℕ
      → List Text
      → Bool
      → BatteryBankState F
      → Result (Option (BatteryBankState F))
  add_batteries store store_taken now_us [] first c = ok (some c)
  add_batteries store store_taken now_us (name ∷ rest) first c =
      next_battery (battery_store_get f store (some name) true store_taken)
        (λ r. add_batteries store store_taken now_us rest false (add_record c first now_us r))

  abbrev pub without_cells : BatteryBankState F → BatteryBankState F
  without_cells c = if c.cell_data_ready then c else record c {
    min_cell_voltage_v = of_nat f 0;
    cell_age_s = 0;
    min_cell_battery = [];
    min_cell_number = 0;
  }

  abbrev pub finished : BatteryBankState F → BatteryBankState F
  finished c = record (without_cells c) {
    cell_undervoltage_protection =
        not (bit_and c.protection_status jbd_protection_cell_undervoltage == 0);
  }

  abbrev pub or_zero_state : Option (BatteryBankState F) → BatteryBankState F
  or_zero_state none = zero_state
  or_zero_state (some c) = finished c

  unfoldable pub bank_state :
      BatteryStore F → Bool → ℕ → StoredBatteryBank → Result (BatteryBankState F)
  bank_state store store_taken now_us bank = do
    result ←
        add_batteries store store_taken now_us (take bank.battery_count bank.batteries) true
          first_state
    ok (or_zero_state result)

  module _ {Store : Type 0} (nvs : Nvs Store) where
    unfoldable pub battery_bank_get_state :
        Store → BatteryStore F → Option Text → Bool → Bool → Bool → ℕ → Result (BatteryBankState F)
    battery_bank_get_state flash store none given allocated store_taken now_us = err invalid_arg
    battery_bank_get_state flash store (some name) given allocated store_taken now_us = do
      guard (battery_bank_valid_name (some name) && given) invalid_arg
      guard allocated no_mem
      banks ← load_banks nvs flash
      elim (find_bank banks name) [
        | none ↦ err not_found
        | some i ↦ bank_state store store_taken now_us (get_or banks.banks i empty_bank)
      ]
