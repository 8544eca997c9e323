-- ===== src/BatteryStore/Written.antt =====
-- main/battery_store.cpp: what an observation writes to a slot.
use power.Prelude.{
  ℕ, ◌<◌, ◌≡◌, ◌⊎◌, Result, true, false, ◌&&◌, ◌==◌, if◌then◌else◌, List, length, get_or, drop,
  replicate, get_or-take_append, Text, arith, ok, err,
}
use power.Prelude.Float.{Float}
use power.BatteryStore.{
  battery_cell_max, BatteryObservation, BatteryRecord, BatterySlot, write_record,
}
use power.BatteryStore.Slots.{slot}

-- The cells of the record are those of an observation at the time `now`.
pub record HasCells {F : Type 0} (r : BatteryRecord F) (o : BatteryObservation F) (now : ℕ)
    : Type 0 where
  pub valid : r.cell_voltages_valid ≡ true
  pub count : r.cell_voltage_count ≡ o.cell_voltage_count
  pub voltages :
      (i : ℕ)
      → i < o.cell_voltage_count
      → i < length o.cell_voltages_mv
      → get_or r.cell_voltages_mv i 0 ≡ get_or o.cell_voltages_mv i 0
  pub cells_seen : r.cell_last_seen_us ≡ now

-- The cells of the record are those of another one.
pub record KeepsCells {F : Type 0} (r old : BatteryRecord F) : Type 0 where
  pub valid : r.cell_voltages_valid ≡ old.cell_voltages_valid
  pub count : r.cell_voltage_count ≡ old.cell_voltage_count
  pub voltages : r.cell_voltages_mv ≡ old.cell_voltages_mv
  pub cells_seen : r.cell_last_seen_us ≡ old.cell_last_seen_us

pub record HasNoCells {F : Type 0} (r : BatteryRecord F) : Type 0 where
  pub valid : r.cell_voltages_valid ≡ false
  pub count : r.cell_voltage_count ≡ 0
  pub voltages : r.cell_voltages_mv ≡ replicate battery_cell_max 0
  pub cells_seen : r.cell_last_seen_us ≡ 0

-- What the cells of a record are after an observation without cells: those the battery had, where
-- their count is still the reported one, and none otherwise. A battery that was not stored has
-- none, unless every slot of the store was occupied.
abbrev pub Unmeasured :
    {F : Type 0}
    → (f : Float F) → List (BatterySlot F)
    → BatteryRecord F
    → BatteryObservation F
    → Result (BatteryRecord F)
    → Type 0
Unmeasured f slots r o (ok old) =
    if old.cell_voltages_valid && old.reported_cell_count == o.reported_cell_count
    then KeepsCells r old
    else HasNoCells r
Unmeasured f slots r o (err e) =
    HasNoCells r ⊎ ((j : ℕ) → j < length slots → (slot f slots j).occupied ≡ true)

-- The record is of the battery `name`, as it was observed at the time `now`.
pub record Reports {F : Type 0} (r : BatteryRecord F) (name : Text) (o : BatteryObservation F)
    (now : ℕ) : Type 0 where
  pub named : r.name ≡ name
  pub voltage : r.voltage_v ≡ o.voltage_v
  pub current : r.current_a ≡ o.current_a
  pub charge : r.soc_percent ≡ o.soc_percent
  pub cycles : r.cycle_count ≡ o.cycle_count
  pub protection : r.protection_status ≡ o.protection_status
  pub cells : r.reported_cell_count ≡ o.reported_cell_count
  pub temperature :
      (r.temperature_valid ≡ o.temperature_valid) × (r.temperature_c ≡ o.temperature_c)
  pub seen : r.last_seen_us ≡ now

pub write_record-Reports :
    {F : Type 0} (s : BatterySlot F) (name : Text) (o : BatteryObservation F) (now : ℕ)
    → ((write_record s name o now).occupied ≡ true)
      × Reports (write_record s name o now).battery name o now
unfolding write_record
write_record-Reports s name o now = ground arith

pub write_record-HasCells :
    {F : Type 0} (s : BatterySlot F) (name : Text) (o : BatteryObservation F) (now : ℕ)
    → o.cell_voltages_valid ≡ true
    → HasCells (write_record s name o now).battery o now
unfolding write_record
write_record-HasCells s name o now h = ground (
  arith,
  λ (i : ℕ).
      get_or-take_append o.cell_voltage_count i o.cell_voltages_mv
        (drop o.cell_voltage_count s.battery.cell_voltages_mv) 0,
)

-- Without new cells, an occupied slot keeps those that fit the reported count.
pub write_record-kept :
    {F : Type 0} (s : BatterySlot F) (name : Text) (o : BatteryObservation F) (now : ℕ)
    → s.occupied ≡ true
    → o.cell_voltages_valid ≡ false
    → if s.battery.cell_voltages_valid && s.battery.reported_cell_count == o.reported_cell_count
      then KeepsCells (write_record s name o now).battery s.battery
      else HasNoCells (write_record s name o now).battery
unfolding write_record
write_record-kept s name o now h k = ground arith

pub write_record-fresh :
    {F : Type 0} (s : BatterySlot F) (name : Text) (o : BatteryObservation F) (now : ℕ)
    → s.occupied ≡ false
    → o.cell_voltages_valid ≡ false
    → HasNoCells (write_record s name o now).battery
unfolding write_record
write_record-fresh s name o now h k = ground arith
