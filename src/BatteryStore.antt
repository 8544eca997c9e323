-- ===== src/BatteryStore.antt =====
-- main/battery_store.hpp and main/battery_store.cpp: the last observation of each battery.
-- `float` is a type with operations (Prelude/Float). Time is an argument, and so is whether the
-- mutex was created or taken. A slot index of -1 is `none`. A pointer that a result goes through
-- is a Boolean that says whether it is given.
pub mod Operations
pub mod Slots
pub mod Written
pub mod Update
pub mod Others
pub mod Cells
pub mod Init
mod Tests
use power.Prelude.{
  ℕ, zero, suc, ◌+◌, ◌-◌, ◌*◌, ◌/◌, ◌%◌, ◌^◌, Bool, true, false, ◌&&◌, ◌||◌, not, Option, none,
  some, List, [], ◌∷◌, ◌++◌, ltb, leb, ◌==◌, if◌then◌else◌, get_or, set, replicate, take, drop,
  length, Text, str_eq, Result, ok, err, invalid_arg, invalid_state, not_found, no_mem, guard,
  ◌>>=◌, ◌>>◌,
}
use power.Prelude.Float.{Float, of_nat}
use mathlib.Core.Option

-- CONFIG_POWER4_MAX_BATTERIES of the sdkconfig
abbrev pub max_batteries : ℕ
max_batteries = 16

abbrev pub battery_name_max : ℕ
battery_name_max = 31

abbrev pub battery_cell_max : ℕ
battery_cell_max = 32

module _ (F : Type 0) where
  pub record BatteryObservation : Type 0 where
    pub voltage_v : F
    pub current_a : F
    pub soc_percent : F
    pub cycle_count : ℕ
    pub protection_status : ℕ
    pub reported_cell_count : ℕ
    pub temperature_valid : Bool
    pub temperature_c : F
    pub cell_voltages_valid : Bool
    pub cell_voltage_count : ℕ
    pub cell_voltages_mv : List ℕ

  pub record BatteryRecord : Type 0 where
    pub name : Text
    pub voltage_v : F
    pub current_a : F
    pub soc_percent : F
    pub cycle_count : ℕ
    pub protection_status : ℕ
    pub reported_cell_count : ℕ
    pub temperature_valid : Bool
    pub temperature_c : F
    pub cell_voltages_valid : Bool
    pub cell_voltage_count : ℕ
    pub cell_voltages_mv : List ℕ
    pub cell_last_seen_us : ℕ
    pub last_seen_us : ℕ

  pub record BatteryCellSummary : Type 0 where
    pub min_voltage_v : F
    pub max_voltage_v : F
    pub delta_voltage_v : F
    pub min_cell_number : ℕ
    pub max_cell_number : ℕ

  pub record BatterySlot : Type 0 where
    pub occupied : Bool
    pub battery : BatteryRecord

  pub record BatteryStore : Type 0 where
    pub slots : List BatterySlot
    pub mutex_created : Bool

-- The loop of `battery_store_valid_name` from index `i`.
unfoldable pub printable_from : Text → ℕ → ℕ → Bool
printable_from [] max_length i = ltb 0 i
printable_from (c ∷ rest) max_length i =
    let continue = printable_from rest max_length (i + 1) in
    if leb max_length i || leb c b' ' || ltb b'~' c then false else continue

unfoldable pub battery_store_valid_name : Option Text → Bool
battery_store_valid_name none = false
battery_store_valid_name (some []) = false
battery_store_valid_name (some (c ∷ rest)) = printable_from (c ∷ rest) battery_name_max 0

unfoldable pub battery_store_capacity : ℕ
battery_store_capacity = max_batteries

module _ {F : Type 0} where
  unfoldable pub find_by_name : List (BatterySlot F) → Text → Option ℕ
  find_by_name [] name = none
  find_by_name (s ∷ rest) name =
      if s.occupied && str_eq s.battery.name name
      then some 0
      else Option.map suc (find_by_name rest name)

  unfoldable pub find_empty : List (BatterySlot F) → Option ℕ
  find_empty [] = none
  find_empty (s ∷ rest) = if not s.occupied then some 0 else Option.map suc (find_empty rest)

  -- The loop of `find_least_recently_seen` over the slots from index `i` on; `seen` is the time of
  -- the slot `oldest`.
  unfoldable pub least_from : List (BatterySlot F) → ℕ → ℕ → ℕ → ℕ
  least_from [] i oldest seen = oldest
  least_from (s ∷ rest) i oldest seen =
      if ltb s.battery.last_seen_us seen
      then least_from rest (i + 1) i s.battery.last_seen_us
      else least_from rest (i + 1) oldest seen

  unfoldable pub find_least_recently_seen : List (BatterySlot F) → ℕ
  find_least_recently_seen [] = 0
  find_least_recently_seen (s ∷ rest) = least_from rest 1 0 s.battery.last_seen_us

  unfoldable pub write_record : BatterySlot F → Text → BatteryObservation F → ℕ → BatterySlot F
  write_record slot name o now_us =
      let r = slot.battery in
      let preserve_cells =
        slot.occupied && r.cell_voltages_valid && r.reported_cell_count == o.reported_cell_count in
      let seen : BatteryRecord F = record r {
        name = name;
        voltage_v = o.voltage_v;
        current_a = o.current_a;
        soc_percent = o.soc_percent;
        cycle_count = o.cycle_count;
        protection_status = o.protection_status;
        reported_cell_count = o.reported_cell_count;
        temperature_valid = o.temperature_valid;
        temperature_c = o.temperature_c;
        last_seen_us = now_us;
      } in
      record {
        occupied = true;
        battery =
            if o.cell_voltages_valid
            then record seen {
              cell_voltages_valid = true;
              cell_voltage_count = o.cell_voltage_count;
              cell_voltages_mv =
                  take o.cell_voltage_count o.cell_voltages_mv
                  ++ drop o.cell_voltage_count r.cell_voltages_mv;
              cell_last_seen_us = now_us;
            }
            else if not preserve_cells
            then record seen {
              cell_voltages_valid = false;
              cell_voltage_count = 0;
              cell_voltages_mv = replicate battery_cell_max 0;
              cell_last_seen_us = 0;
            }
            else seen;
      }

  -- The checks of `battery_store_record_observation` on its arguments.
  unfoldable pub accepts : Option Text → Option (BatteryObservation F) → Bool
  accepts name none = false
  accepts name (some o) =
      battery_store_valid_name name
      && not (
          o.cell_voltages_valid
          && (o.cell_voltage_count == 0
              || ltb battery_cell_max o.cell_voltage_count
              || not (o.cell_voltage_count == o.reported_cell_count)))
