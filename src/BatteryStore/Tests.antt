-- ===== src/BatteryStore/Tests.antt =====
-- Runs of main/battery_store.cpp.
use power.Prelude.{
  ℕ, zero, suc, ◌+◌, ◌-◌, ◌^◌, ◌<◌, ◌≡◌, ◌⊎◌, refl, true, false, some, get_elem?, str_eq, [], ◌∷◌,
  get_or, ltb, Text, codes, ok, err, not_found, arith, replicate, if◌then◌else◌,
}
use mathlib.Core.Option
use power.Prelude.Int.{ℤ, pos, negsuc}
use power.Prelude.Float.{Float}
use power.BatteryStore.{
  BatteryObservation, BatteryRecord, BatteryCellSummary, BatteryStore, BatterySlot, accepts,
  write_record, find_by_name, find_empty, find_least_recently_seen, least_from,
  battery_store_valid_name, printable_from,
}
use power.BatteryStore.Operations.{
  battery_store_init, battery_store_record_observation, battery_store_get,
  battery_record_cell_summary, empty_slot, slot_index,
}
use power.BatteryStore.Init.{battery_store_init-IsValid}
use power.BatteryStore.Written.{Reports, HasCells, Unmeasured}
use power.BatteryStore.Update.{IsValid, record_observation-get}
use power.BatteryStore.Others.{IsEvicted, record_observation-others}
use power.BatteryStore.Cells.{Summarizes, battery_record_cell_summary-Summarizes}

-- Whole numbers in place of `float`, which are not divided.
abbrev natural : ℤ → ℕ
natural (pos n) = n
natural (negsuc n) = 0

abbrev whole : Float ℕ
whole = record {
  of_int = natural;
  add = λ a b. a + b;
  sub = λ a b. a - b;
  div = λ a b. a;
  lt = ltb;
}

abbrev before : BatteryStore ℕ
before = record { slots = []; mutex_created = false }

ready : BatteryStore ℕ
ready = (battery_store_init whole before true).0

abbrev house : Text
house = codes "house"

abbrev van : Text
van = codes "van"

abbrev observed : BatteryObservation ℕ
observed = record {
  voltage_v = 13;
  current_a = 2;
  soc_percent = 80;
  cycle_count = 44;
  protection_status = 0;
  reported_cell_count = 2;
  temperature_valid = true;
  temperature_c = 24;
  cell_voltages_valid = true;
  cell_voltage_count = 2;
  cell_voltages_mv = 3875 ∷ 3868 ∷ replicate 30 0;
}

ready-IsValid : IsValid whole ready
unfolding ready
ready-IsValid =
    (battery_store_init-IsValid whole before house refl
      (unfold battery_store_valid_name printable_from in refl)).0

observed-accepted :
    (name : Text)
    → battery_store_valid_name (some name) ≡ true
    → accepts (some name) (some observed) ≡ true
unfolding accepts
observed-accepted name h = rw h refl

record_observation-get_example :
    let (s, result) =
      battery_store_record_observation whole ready (some house) (some observed) true 500 in
    (result ≡ ok tt)
    × IsValid whole s
    × ((r : BatteryRecord ℕ) × (battery_store_get whole s (some house) true true ≡ ok r)
        × Reports r house observed 500
        × (if observed.cell_voltages_valid
            then HasCells r observed 500
            else Unmeasured whole ready.slots r observed
                (battery_store_get whole ready (some house) true true)))
record_observation-get_example =
    record_observation-get whole ready house observed 500 ready-IsValid
      (observed-accepted house (unfold battery_store_valid_name printable_from in refl))

-- A full store, in which every battery has two cells.
abbrev full : BatteryStore ℕ
full = record {
  slots = replicate 16 (write_record (empty_slot whole) van observed 400);
  mutex_created = true;
}

-- A battery that was not stored, observed without cells, has the cells of the one that it replaces.
inherits-cells :
    Option.map
      (λ (s : BatterySlot ℕ). s.battery.cell_voltages_mv)
      (get_elem?
        (battery_store_record_observation whole full
          (some house)
          (some (record observed { cell_voltages_valid = false }))
          true
          500).0.slots
        0)
    ≡ some (3875 ∷ 3868 ∷ replicate 30 0)
unfolding battery_store_record_observation accepts battery_store_valid_name printable_from
    slot_index find_by_name find_empty find_least_recently_seen least_from write_record str_eq
inherits-cells = refl

record_observation-others_example :
    let s =
      (battery_store_record_observation whole ready (some house) (some observed) true 500).0 in
    (battery_store_get whole s (some van) true true
      ≡ battery_store_get whole ready (some van) true true)
    ⊎ ((r : BatteryRecord ℕ) × (battery_store_get whole ready (some van) true true ≡ ok r)
        × (battery_store_get whole s (some van) true true ≡ err not_found)
        × IsEvicted whole ready.slots house r)
record_observation-others_example =
    record_observation-others whole ready house observed 500 van ready-IsValid
      (observed-accepted house (unfold battery_store_valid_name printable_from in refl)) (λ h. cc)

abbrev two_cells : BatteryRecord ℕ
two_cells = record (empty_slot whole).battery {
  cell_voltages_valid = true;
  cell_voltage_count = 2;
  cell_voltages_mv = 3875 ∷ 3868 ∷ [];
}

two_cells-words : (i : ℕ) → get_or two_cells.cell_voltages_mv i 0 < 2 ^ 16
two_cells-words zero = omega arith
two_cells-words (suc zero) = omega arith
two_cells-words (suc (suc i)) = omega arith

battery_record_cell_summary-Summarizes_example :
    (c : BatteryCellSummary ℕ) × (battery_record_cell_summary whole (some two_cells) true ≡ some c)
    × Summarizes whole two_cells.cell_voltages_mv c 2
    × (c.delta_voltage_v ≡ c.max_voltage_v - c.min_voltage_v)
battery_record_cell_summary-Summarizes_example =
    battery_record_cell_summary-Summarizes whole two_cells (λ a b p q. refl) two_cells-words refl
      (omega arith) (omega arith)
