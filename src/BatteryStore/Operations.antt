-- ===== src/BatteryStore/Operations.antt =====
-- main/battery_store.cpp: the operations on the store, and what a record says of its cells.
use power.Prelude.{
  ℕ, zero, suc, ◌+◌, ◌-◌, ◌/◌, ◌^◌, Bool, true, false, ◌&&◌, ◌||◌, not, Option, none, some, List,
  [], ◌∷◌, ltb, leb, ◌==◌, if◌then◌else◌, get_or, set, replicate, map, Text, Result, ok, err,
  invalid_arg, invalid_state, not_found, no_mem, guard, ◌>>◌,
}
use power.Prelude.Float.{Float, of_nat}
use power.BatteryStore.{
  BatteryObservation, BatteryRecord, BatteryCellSummary, BatterySlot, BatteryStore, max_batteries,
  battery_cell_max, battery_store_valid_name, find_by_name, find_empty, find_least_recently_seen,
  write_record, accepts,
}

abbrev pub first_of_two : Option ℕ → Option ℕ → ℕ → ℕ
first_of_two (some i) e d = i
first_of_two none (some i) d = i
first_of_two none none d = d

module _ {F : Type 0} (f : Float F) where
  -- The all-zero slot of `memset`.
  abbrev pub empty_slot : BatterySlot F
  empty_slot = record {
    occupied = false;
    battery = record {
      name = [];
      voltage_v = of_nat f 0;
      current_a = of_nat f 0;
      soc_percent = of_nat f 0;
      cycle_count = 0;
      protection_status = 0;
      reported_cell_count = 0;
      temperature_valid = false;
      temperature_c = of_nat f 0;
      cell_voltages_valid = false;
      cell_voltage_count = 0;
      cell_voltages_mv = replicate battery_cell_max 0;
      cell_last_seen_us = 0;
      last_seen_us = 0;
    };
  }

  unfoldable pub battery_store_init : BatteryStore F → Bool → BatteryStore F × Result (Unit {0})
  battery_store_init s mutex_ok =
      if s.mutex_created
      then (s, ok tt)
      else if not mutex_ok
      then (s, err no_mem)
      else (record { slots = replicate max_batteries empty_slot; mutex_created = true }, ok tt)

  -- The slot of the name, or else the first free one, or else the least recently seen.
  unfoldable pub slot_index : List (BatterySlot F) → Text → ℕ
  slot_index slots name =
      first_of_two (find_by_name slots name) (find_empty slots) (find_least_recently_seen slots)

  abbrev write_slot : List (BatterySlot F) → Text → BatteryObservation F → ℕ → List (BatterySlot F)
  write_slot slots name o now_us =
      let i = slot_index slots name in
      set slots i (write_record (get_or slots i empty_slot) name o now_us)

  abbrev locked : BatteryStore F → Bool → Bool
  locked s taken = s.mutex_created && taken

  abbrev record_checked :
      BatteryStore F
      → Option Text
      → Option (BatteryObservation F)
      → Bool
      → ℕ
      → BatteryStore F × Result (Unit {0})
  record_checked s (some name) (some o) taken now_us =
      if not (locked s taken)
      then (s, err invalid_state)
      else (record s { slots = write_slot s.slots name o now_us }, ok tt)
  record_checked s (some name) none taken now_us = (s, err invalid_arg)
  record_checked s none o taken now_us = (s, err invalid_arg)

  unfoldable pub battery_store_record_observation :
      BatteryStore F
      → Option Text
      → Option (BatteryObservation F)
      → Bool
      → ℕ
      → BatteryStore F × Result (Unit {0})
  battery_store_record_observation s name observation taken now_us =
      if not (accepts name observation)
      then (s, err invalid_arg)
      else record_checked s name observation taken now_us

  abbrev pub lookup : BatteryStore F → Option Text → Result (BatteryRecord F)
  lookup s none = err invalid_arg
  lookup s (some name) = elim (find_by_name s.slots name) [
    | none ↦ err not_found
    | some i ↦ ok (get_or s.slots i empty_slot).battery
  ]

  unfoldable pub battery_store_get :
      BatteryStore F → Option Text → Bool → Bool → Result (BatteryRecord F)
  battery_store_get s name given taken = do
    guard (battery_store_valid_name name && given) invalid_arg
    guard (locked s taken) invalid_state
    lookup s name

  -- The records of the occupied slots, in the order of the slots.
  unfoldable pub occupied_records : List (BatterySlot F) → List (BatteryRecord F)
  occupied_records [] = []
  occupied_records (s ∷ rest) =
      if not s.occupied then occupied_records rest else s.battery ∷ occupied_records rest

  unfoldable pub battery_store_list_names : BatteryStore F → Bool → Bool → Result (List Text)
  battery_store_list_names s given taken = do
    guard given invalid_arg
    guard (locked s taken) invalid_state
    ok (map (λ r. r.name) (occupied_records s.slots))

  unfoldable pub battery_store_snapshot :
      BatteryStore F → Bool → Bool → ℕ → Bool → Result (List (BatteryRecord F))
  battery_store_snapshot s records count capacity taken = do
    guard (records && count && leb max_batteries capacity) invalid_arg
    guard (locked s taken) invalid_state
    ok (occupied_records s.slots)

  abbrev pub volts : ℕ → F
  volts mv = f.div (of_nat f mv) (of_nat f 1000)

  -- The body of the loop of `battery_record_cell_summary`, for the cell of index `i`.
  unfoldable pub see_cell : BatteryCellSummary F → ℕ → ℕ → BatteryCellSummary F
  see_cell c mv i =
      let voltage_v = volts mv in
      let low =
        if f.lt voltage_v c.min_voltage_v
        then record c { min_voltage_v = voltage_v; min_cell_number = i + 1 }
        else c in
      if f.lt low.max_voltage_v voltage_v
      then record low { max_voltage_v = voltage_v; max_cell_number = i + 1 }
      else low

  -- The loop over the cells from index `i`, with the rounds left.
  unfoldable pub cells_from : List ℕ → ℕ → ℕ → BatteryCellSummary F → BatteryCellSummary F
  cells_from cells zero i c = c
  cells_from cells (suc left) i c = cells_from cells left (i + 1) (see_cell c (get_or cells i 0) i)

  unfoldable pub battery_record_cell_summary :
      Option (BatteryRecord F) → Bool → Option (BatteryCellSummary F)
  battery_record_cell_summary none given = none
  battery_record_cell_summary (some r) given =
      if not given
        || not r.cell_voltages_valid
        || r.cell_voltage_count == 0
        || ltb battery_cell_max r.cell_voltage_count
      then none
      else let first = volts (get_or r.cell_voltages_mv 0 0) in
        let c = cells_from r.cell_voltages_mv (r.cell_voltage_count - 1) 1 (record {
          min_voltage_v = first;
          max_voltage_v = first;
          delta_voltage_v = of_nat f 0;
          min_cell_number = 1;
          max_cell_number = 1;
        }) in
        some (record c { delta_voltage_v = f.sub c.max_voltage_v c.min_voltage_v })

unfoldable pub battery_record_cell_age_s : {F : Type 0} → Option (BatteryRecord F) → ℕ → ℕ
battery_record_cell_age_s none now_us = 0
battery_record_cell_age_s (some r) now_us =
    if not r.cell_voltages_valid || r.cell_last_seen_us == 0 || leb now_us r.cell_last_seen_us
    then 0
    else let age_s = (now_us - r.cell_last_seen_us) / 1000000 in
      if ltb (2 ^ 32 - 1) age_s then 2 ^ 32 - 1 else age_s
