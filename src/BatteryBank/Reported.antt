-- ===== src/BatteryBank/Reported.antt =====
-- main/battery_bank.cpp: battery_bank_get_state as a whole.
use power.Prelude.{
  ℕ, ◌≡◌, ◌↔◌, refl, sym, subst, Bool, true, false, Option, none, some, List, [], ◌∷◌, get_or, take,
  Text, ok, err, not_found, ◌⊎◌, inl, inr, ◌>>=◌, arith, Option-cases,
}
use power.Prelude.Float.{Float, of_nat}
use power.BatteryStore.{BatteryStore, BatteryRecord, battery_store_valid_name, find_by_name}
use power.BatteryStore.Operations.{battery_store_get, empty_slot, lookup}
use power.BatteryBank.{
  Nvs, StoredBatteryBank, StoredBatteryBanks, empty_bank, battery_bank_valid_name, find_bank,
  load_banks,
}
use power.BatteryBank.State.{
  BatteryBankState, first_state, add_record, add_batteries, bank_state, finished,
  battery_bank_get_state, or_zero_state,
}
use power.BatteryBank.Attained.{Some, add_all-current_attained, add_all-soc_attained}
use power.BatteryBank.Ready.{
  IsOrder, All, total, all_have_cells, some_protects, Seen, add_all, add_all-ready, add_all-voltage,
  add_all-cells, add_all-protection, add_all-soc, add_all-current, add_batteries-Seen,
}

-- The names of the batteries in the bank of an index.
abbrev pub bank_batteries : StoredBatteryBanks → ℕ → List Text
bank_batteries banks i =
    let bank = get_or banks.banks i empty_bank in take bank.battery_count bank.batteries

module _ {F : Type 0} (f : Float F) where
  -- What a state says of the records of its batteries.
  pub record Reports (rs : List (BatteryRecord F)) (state : BatteryBankState F) : Type 0 where
    pub voltage : state.voltage_v ≡ total f (of_nat f 0) rs
    pub no_lower_soc : All (λ r. f.lt r.soc_percent state.soc_percent ≡ false) rs
    pub no_higher_current : All (λ r. f.lt state.current_a r.current_a ≡ false) rs
    pub current : (rs ≡ []) ⊎ Some (λ r. state.current_a ≡ r.current_a) rs
    pub soc : (state.soc_percent ≡ of_nat f 100) ⊎ Some (λ r. state.soc_percent ≡ r.soc_percent) rs
    pub protection : state.cell_undervoltage_protection ≡ some_protects f rs
    pub cells : state.cell_data_ready ≡ all_have_cells f rs

  finished-soc : (c : BatteryBankState F) → (finished f c).soc_percent ≡ c.soc_percent
  finished-soc c = ground arith

  finished-current : (c : BatteryBankState F) → (finished f c).current_a ≡ c.current_a
  finished-current c = ground arith

  current_attained :
      (rs : List (BatteryRecord F)) (now : ℕ)
      → let state = finished f (add_all f rs true now (first_state f)) in
        (rs ≡ []) ⊎ Some (λ r. state.current_a ≡ r.current_a) rs
  current_attained [] now = inl refl
  current_attained (r ∷ rs) now = inr (
      subst (λ v. Some (λ s. v ≡ s.current_a) (r ∷ rs))
        (sym (finished-current (add_all f (r ∷ rs) true now (first_state f))))
        (add_all-current_attained f r rs now (first_state f)))

  module _ (order : IsOrder f) where
    finished-Reports :
        (rs : List (BatteryRecord F)) (now : ℕ)
        → Reports rs (finished f (add_all f rs true now (first_state f)))
    finished-Reports rs now =
        let c = add_all f rs true now (first_state f) in
        record {
          voltage = ground (arith, add_all-voltage f rs true now (first_state f));
          no_lower_soc = rw (finished-soc c) (add_all-soc f order rs true now (first_state f));
          no_higher_current =
              rw (finished-current c) (add_all-current f order rs true now (first_state f));
          current = current_attained rs now;
          soc =
              subst (λ v. (v ≡ of_nat f 100) ⊎ Some (λ s. v ≡ s.soc_percent) rs)
                (sym (finished-soc (add_all f rs true now (first_state f))))
                (add_all-soc_attained f rs true now (first_state f));
          protection = ground (arith, add_all-protection f rs true now (first_state f));
          cells = ground (arith, add_all-cells f rs true now (first_state f));
        }

  Seen-add_batteries :
      (store : BatteryStore F) (taken : Bool) (now : ℕ) (names : List Text)
      (rs : List (BatteryRecord F)) (first : Bool) (c : BatteryBankState F)
      → Seen f store taken names rs
      → add_batteries f store taken now names first c ≡ ok (some (add_all f rs first now c))
  unfolding add_batteries add_all
  Seen-add_batteries store taken now [] [] first c seen = refl
  Seen-add_batteries store taken now [] (r ∷ rs) first c seen = elim seen [ ]
  Seen-add_batteries store taken now (name ∷ names) [] first c seen = elim seen [ ]
  Seen-add_batteries store taken now (name ∷ names) (r ∷ rs) first c (found, seen) =
      rw found (Seen-add_batteries store taken now names rs false (add_record f c first now r) seen)

  battery_store_get-cases :
      (store : BatteryStore F) (name : Text)
      → battery_store_valid_name (some name) ≡ true
      → store.mutex_created ≡ true
      → (battery_store_get f store (some name) true true ≡ err not_found)
        ⊎ ((r : BatteryRecord F) × (battery_store_get f store (some name) true true ≡ ok r))
  unfolding battery_store_get
  battery_store_get-cases store name valid made =
      elim (Option-cases (find_by_name store.slots name)) [
        | inl missing ↦ inl (rw (valid, made, missing, lookup) refl)
        | inr (i, found) ↦
            inr
              ((get_or store.slots i (empty_slot f)).battery, rw (valid, made, found, lookup) refl)
      ]

  unfoldable pub AreValid : List Text → Type 0
  AreValid = All (λ name. battery_store_valid_name (some name) ≡ true)

  -- The loop ends with a state, or with a battery that has not been seen.
  add_batteries-total :
      (store : BatteryStore F) (now : ℕ) (names : List Text) (first : Bool) (c : BatteryBankState F)
      → store.mutex_created ≡ true
      → AreValid names
      → (result : Option (BatteryBankState F)) × (add_batteries f store true now names first c
          ≡ ok result)
  unfolding add_batteries AreValid
  add_batteries-total store now [] first c made valid = (some c, refl)
  add_batteries-total store now (name ∷ names) first c made (valid, rest) =
      elim (battery_store_get-cases store name valid made) [
        | inl missing ↦ (none, rw missing refl)
        | inr (r, found) ↦
            rw found
              (add_batteries-total store now names false (add_record f c first now r) made rest)
      ]

  module _ (order : IsOrder f) where
    ended-Reports :
        (store : BatteryStore F) (now : ℕ) (names : List Text)
        (result : Option (BatteryBankState F))
        → add_batteries f store true now names true (first_state f) ≡ ok result
        → ((or_zero_state f result).ready ≡ true) ↔ (
            (rs : List (BatteryRecord F)) × Seen f store true names rs
            × Reports rs (or_zero_state f result))
    ended-Reports store now names none ended = (
      λ h. cc,
      λ (rs, seen, reports).
          cc (Seen-add_batteries store true now names rs true (first_state f) seen),
    )
    ended-Reports store now names (some c) ended =
        let (rs, seen, same) =
          add_batteries-Seen f store true now names true (first_state f) c ended in
        (
          λ h. (rs, seen, rw same (finished-Reports order rs now)),
          λ _. ground (arith, add_all-ready f rs true now (first_state f)),
        )

    bank_state-Reports :
        (store : BatteryStore F) (now : ℕ) (bank : StoredBatteryBank)
        → store.mutex_created ≡ true
        → AreValid (take bank.battery_count bank.batteries)
        → (state : BatteryBankState F) × (bank_state f store true now bank ≡ ok state)
          × ((state.ready ≡ true) ↔ (
              (rs : List (BatteryRecord F)) × Seen f store true
                (take bank.battery_count bank.batteries)
                rs
              × Reports rs state))
    unfolding bank_state
    bank_state-Reports store now bank made valid =
        let names = take bank.battery_count bank.batteries in
        let (result, ended) = add_batteries-total store now names true (first_state f) made valid in
        (or_zero_state f result, rw ended refl, ended-Reports store now names result ended)

    module _ {Store : Type 0} (nvs : Nvs Store) where
      -- The state of a bank that flash holds: it is always answered, provided the mutex of the
      -- battery store exists and is taken, and the names in the bank are valid. It is ready exactly
      -- when the store has a record for each battery of the bank. Then the voltage is the sum over
      -- the records in order, no record has a lower charge than the bank or a higher current, the
      -- current is that of a record where the bank has one, the charge that of a record or 100, the
      -- undervoltage flag is set exactly when some record has that bit, and the cell data is ready
      -- exactly when every record has cell voltages. Comparison of floats is taken to be
      -- irreflexive and transitive.
      pub battery_bank_get_state-Reports :
          (flash : Store) (store : BatteryStore F) (name : Text) (banks : StoredBatteryBanks)
          (i now : ℕ)
          → battery_bank_valid_name (some name) ≡ true
          → load_banks nvs flash ≡ ok banks
          → find_bank banks name ≡ some i
          → store.mutex_created ≡ true
          → AreValid (bank_batteries banks i)
          → (state : BatteryBankState F) × (battery_bank_get_state f nvs flash store
                (some name)
                true
                true
                true
                now
              ≡ ok state)
            × ((state.ready ≡ true) ↔ (
                (rs : List (BatteryRecord F)) × Seen f store true (bank_batteries banks i) rs
                × Reports rs state))
      unfolding battery_bank_get_state
      battery_bank_get_state-Reports flash store name banks i now named loaded found made valid =
          let (state, result, meaning) =
            bank_state-Reports store now (get_or banks.banks i empty_bank) made valid in
          (state, rw (named, loaded, ◌>>=◌, found) result, meaning)
