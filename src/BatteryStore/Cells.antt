-- ===== src/BatteryStore/Cells.antt =====
-- main/battery_store.cpp: the summary of the cell voltages of a record.
use power.Prelude.{
  ℕ, zero, suc, ◌+◌, ◌-◌, ◌^◌, ◌≤◌, ◌<◌, ◌≡◌, refl, sym, ap, ◌∙◌, Bool, true, false, some, List,
  get_or, ltb, if◌then◌else◌, arith, Bool-cases, inl, inr, subst,
}
use power.Prelude.Float.{Float, of_nat}
use power.BatteryStore.{BatteryRecord, BatteryCellSummary}
use power.BatteryStore.Operations.{volts, see_cell, cells_from, battery_record_cell_summary}

module _ {F : Type 0} (f : Float F) where
  see_cell-min :
      (c : BatteryCellSummary F) (mv i : ℕ) (lower : Bool)
      → f.lt (volts f mv) c.min_voltage_v ≡ lower
      → ((see_cell f c mv i).min_cell_number ≡ (if lower then i + 1 else c.min_cell_number))
        × ((see_cell f c mv i).min_voltage_v ≡ (if lower then volts f mv else c.min_voltage_v))
  unfolding see_cell
  see_cell-min c mv i lower h = ground arith

  see_cell-max :
      (c : BatteryCellSummary F) (mv i : ℕ) (higher : Bool)
      → f.lt c.max_voltage_v (volts f mv) ≡ higher
      → ((see_cell f c mv i).max_cell_number ≡ (if higher then i + 1 else c.max_cell_number))
        × ((see_cell f c mv i).max_voltage_v ≡ (if higher then volts f mv else c.max_voltage_v))
  unfolding see_cell
  see_cell-max c mv i higher h = ground arith

module _ {F : Type 0} (f : Float F) (cells : List ℕ) where
  abbrev pub cell : ℕ → ℕ
  cell i = get_or cells i 0

  -- Cell `k` is a lowest of the first `n`, with its number and voltage.
  abbrev pub Lowest : F → ℕ → ℕ → ℕ → Type 0
  Lowest voltage number n k =
      (k < n)
      × (number ≡ k + 1)
      × (voltage ≡ volts f (cell k))
      × ((j : ℕ) → j < n → cell k ≤ cell j)

  abbrev pub Highest : F → ℕ → ℕ → ℕ → Type 0
  Highest voltage number n k =
      (k < n)
      × (number ≡ k + 1)
      × (voltage ≡ volts f (cell k))
      × ((j : ℕ) → j < n → cell j ≤ cell k)

  -- The summary is right for the first `n` cells.
  abbrev pub Summarizes : BatteryCellSummary F → ℕ → Type 0
  Summarizes c n =
      ((k : ℕ) × Lowest c.min_voltage_v c.min_cell_number n k)
      × ((k : ℕ) × Highest c.max_voltage_v c.max_cell_number n k)

  module _ (words : (i : ℕ) → cell i < 2 ^ 16)
      (ordered : (a b : ℕ) → a < 2 ^ 16 → b < 2 ^ 16 → f.lt (volts f a) (volts f b) ≡ ltb a b) where
    below :
        (n k : ℕ)
        → ((j : ℕ) → j < n → cell k ≤ cell j)
        → cell k ≤ cell n
        → (j : ℕ) → j < n + 1
        → cell k ≤ cell j
    below n k h e j p = elim (Bool-cases (ltb j n)) [
      | inl before ↦ h j (ground arith)
      | inr last ↦ let same : n ≡ j = ground arith in subst (λ i. cell k ≤ cell i) same e
    ]

    above :
        (n k : ℕ)
        → ((j : ℕ) → j < n → cell j ≤ cell k)
        → cell n ≤ cell k
        → (j : ℕ) → j < n + 1
        → cell j ≤ cell k
    above n k h e j p = elim (Bool-cases (ltb j n)) [
      | inl before ↦ h j (ground arith)
      | inr last ↦ let same : n ≡ j = ground arith in subst (λ i. cell i ≤ cell k) same e
    ]

    see_low :
        (c : BatteryCellSummary F) (n k : ℕ)
        → Lowest c.min_voltage_v c.min_cell_number n k
        → let c' = see_cell f c (cell n) n in
          (k' : ℕ) × Lowest c'.min_voltage_v c'.min_cell_number (n + 1) k'
    see_low c n k (p, number, voltage, least) =
        let compared =
          ap (f.lt (volts f (cell n))) voltage ∙ ordered (cell n) (cell k) (words n) (words k) in
        elim (Bool-cases (ltb (cell n) (cell k))) [
          | inl lower ↦
              let (e, v) = see_cell-min f c (cell n) n true (compared ∙ lower) in
              (n, (omega arith, e, v, below n n (λ j q. ground (arith, least j q)) (omega arith)))
          | inr not_lower ↦
              let (e, v) = see_cell-min f c (cell n) n false (compared ∙ not_lower) in
              (k, (omega arith, e ∙ number, v ∙ voltage, below n k least (ground arith)))
        ]

    see_high :
        (c : BatteryCellSummary F) (n k : ℕ)
        → Highest c.max_voltage_v c.max_cell_number n k
        → let c' = see_cell f c (cell n) n in
          (k' : ℕ) × Highest c'.max_voltage_v c'.max_cell_number (n + 1) k'
    see_high c n k (p, number, voltage, greatest) =
        let compared =
          ap (λ v. f.lt v (volts f (cell n))) voltage
          ∙ ordered (cell k) (cell n) (words k) (words n) in
        elim (Bool-cases (ltb (cell k) (cell n))) [
          | inl higher ↦
              let (e, v) = see_cell-max f c (cell n) n true (compared ∙ higher) in
              (
                n,
                (omega arith, e, v, above n n (λ j q. ground (arith, greatest j q)) (omega arith)),
              )
          | inr not_higher ↦
              let (e, v) = see_cell-max f c (cell n) n false (compared ∙ not_higher) in
              (k, (omega arith, e ∙ number, v ∙ voltage, above n k greatest (ground arith)))
        ]

    cells_from-Summarizes :
        (left n m : ℕ) (c : BatteryCellSummary F)
        → n + left ≡ m
        → Summarizes c n
        → Summarizes (cells_from f cells left n c) m
    unfolding cells_from
    cells_from-Summarizes zero n m c e h =
        let same : n ≡ m = omega arith in subst (λ i. Summarizes c i) same h
    cells_from-Summarizes (suc left) n m c e ((k, low), (l, high)) =
        cells_from-Summarizes left (n + 1) m (see_cell f c (cell n) n) (omega arith)
          (see_low c n k low, see_high c n l high)

abbrev first_cell : {F : Type 0} → Float F → List ℕ → BatteryCellSummary F
first_cell f cells = record {
  min_voltage_v = volts f (get_or cells 0 0);
  max_voltage_v = volts f (get_or cells 0 0);
  delta_voltage_v = of_nat f 0;
  min_cell_number = 1;
  max_cell_number = 1;
}

first_cell-Summarizes :
    {F : Type 0} (f : Float F) (cells : List ℕ) → Summarizes f cells (first_cell f cells) 1
first_cell-Summarizes f cells =
    let only : (j : ℕ) → j < 1 → j ≡ 0 = λ j p. omega arith in
    (
      (
        0,
        (
          omega arith,
          refl,
          refl,
          λ j p. subst (λ i. get_or cells 0 0 ≤ get_or cells i 0) (sym (only j p)) (omega arith),
        ),
      ),
      (
        0,
        (
          omega arith,
          refl,
          refl,
          λ j p. subst (λ i. get_or cells i 0 ≤ get_or cells 0 0) (sym (only j p)) (omega arith),
        ),
      ),
    )

-- Where voltages of 16-bit millivolts are ordered as the millivolts are, the summary of 1 to 32
-- valid cells names a lowest and a highest cell with their voltages, and the difference of these.
pub battery_record_cell_summary-Summarizes :
    {F : Type 0} (f : Float F) (r : BatteryRecord F)
    → ((a b : ℕ) → a < 2 ^ 16 → b < 2 ^ 16 → f.lt (volts f a) (volts f b) ≡ ltb a b)
    → ((i : ℕ) → get_or r.cell_voltages_mv i 0 < 2 ^ 16)
    → r.cell_voltages_valid ≡ true
    → 1 ≤ r.cell_voltage_count
    → r.cell_voltage_count ≤ 32
    → (c : BatteryCellSummary F) × (battery_record_cell_summary f (some r) true ≡ some c)
      × Summarizes f r.cell_voltages_mv c r.cell_voltage_count
      × (c.delta_voltage_v ≡ f.sub c.max_voltage_v c.min_voltage_v)
unfolding battery_record_cell_summary
battery_record_cell_summary-Summarizes f r ordered words valid p q =
    let cells = r.cell_voltages_mv in
    let c = cells_from f cells (r.cell_voltage_count - 1) 1 (first_cell f cells) in
    let whole : BatteryCellSummary _ = record c {
      delta_voltage_v = f.sub c.max_voltage_v c.min_voltage_v;
    } in
    (
      whole,
      ground arith,
      cells_from-Summarizes f cells words ordered (r.cell_voltage_count - 1) 1 r.cell_voltage_count
          (first_cell f cells) (omega arith) (first_cell-Summarizes f cells),
      refl,
    )
