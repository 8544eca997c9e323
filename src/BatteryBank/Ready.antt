-- ===== src/BatteryBank/Ready.antt =====
-- main/battery_bank.cpp: what the state of a bank says of the batteries in it.
use power.Prelude.{
  ℕ, ◌≡◌, ◌⊎◌, refl, ap, ◌∙◌, bit_and, Bool, true, false, ◌&&◌, ◌||◌, not, Option, none, some, List,
  [], ◌∷◌, ◌==◌, Text, Result, ok, err, not_found, arith, inl, inr,
}
use power.Prelude.Bits.{bit_and-bit_or_two}
use power.Prelude.Float.{Float}
use power.BatteryStore.{BatteryStore, BatteryRecord}
use power.BatteryStore.Operations.{battery_store_get, battery_record_cell_summary}
use power.BatteryBank.State.{
  BatteryBankState, next_battery, add_values, add_cells, add_record, add_batteries,
}

-- What comparisons of `float` satisfy, NaN included.
pub record IsOrder {F : Type 0} (f : Float F) : Type 0 where
  pub irreflexive : (a : F) → f.lt a a ≡ false
  pub transitive : (a b c : F) → f.lt a b ≡ true → f.lt b c ≡ true → f.lt a c ≡ true

abbrev pub All : {A : Type 0} → (A → Type 0) → List A → Type 0
All P [] = Unit
All P (x ∷ xs) = P x × All P xs

module _ {F : Type 0} (f : Float F) where
  abbrev pub total : F → List (BatteryRecord F) → F
  total v [] = v
  total v (r ∷ rs) = total (f.add v r.voltage_v) rs

  abbrev pub has_cells : BatteryRecord F → Bool
  has_cells r = elim (battery_record_cell_summary f (some r) true) [
    | none ↦ false
    | some cells ↦ true
  ]

  abbrev pub all_have_cells : List (BatteryRecord F) → Bool
  all_have_cells [] = true
  all_have_cells (r ∷ rs) = has_cells r && all_have_cells rs

  abbrev pub protects : BatteryRecord F → Bool
  protects r = not (bit_and r.protection_status 2 == 0)

  abbrev pub some_protects : List (BatteryRecord F) → Bool
  some_protects [] = false
  some_protects (r ∷ rs) = protects r || some_protects rs

  -- The store has these records for these names.
  abbrev pub Seen : BatteryStore F → Bool → List Text → List (BatteryRecord F) → Type 0
  Seen store taken [] [] = Unit
  Seen store taken (name ∷ names) (r ∷ rs) =
      (battery_store_get f store (some name) true taken ≡ ok r) × Seen store taken names rs
  Seen store taken _ _ = ⊥

  -- The loop over records that are there.
  unfoldable pub add_all :
      List (BatteryRecord F) → Bool → ℕ → BatteryBankState F → BatteryBankState F
  add_all [] first now c = c
  add_all (r ∷ rs) first now c = add_all rs false now (add_record f c first now r)

  next_battery-some :
      (result : Result (BatteryRecord F))
      (next : BatteryRecord F → Result (Option (BatteryBankState F))) (c : BatteryBankState F)
      → next_battery f result next ≡ ok (some c)
      → (r : BatteryRecord F) × (result ≡ ok r) × (next r ≡ ok (some c))
  next_battery-some (ok r) next c h = (r, refl, h)
  next_battery-some (err not_found) next c h = cc
  next_battery-some (err e) next c h = cc

  pub add_batteries-Seen :
      (store : BatteryStore F) (taken : Bool) (now : ℕ) (names : List Text) (first : Bool)
      (c c' : BatteryBankState F)
      → add_batteries f store taken now names first c ≡ ok (some c')
      → (rs : List (BatteryRecord F)) × Seen store taken names rs × (c' ≡ add_all rs first now c)
  unfolding add_batteries add_all
  add_batteries-Seen store taken now [] first c c' h = ([], tt, cc)
  add_batteries-Seen store taken now (name ∷ names) first c c' h =
      let (r, found, more) =
        next_battery-some (battery_store_get f store (some name) true taken)
          (λ r. add_batteries f store taken now names false (add_record f c first now r)) c' h in
      let (rs, seen, same) =
        add_batteries-Seen store taken now names false (add_record f c first now r) c' more in
      (r ∷ rs, (found, seen), same)

  -- The cells have no part in the other values, and clear the flag where a battery has none.
  pub add_record-values :
      (c : BatteryBankState F) (first : Bool) (now : ℕ) (r : BatteryRecord F)
      → let c' = add_record f c first now r in
        let v = add_values f c first r in
        (c'.ready ≡ v.ready)
        × (c'.voltage_v ≡ v.voltage_v)
        × (c'.current_a ≡ v.current_a)
        × (c'.soc_percent ≡ v.soc_percent)
        × (c'.protection_status ≡ v.protection_status)
        × (c'.cell_data_ready ≡ (v.cell_data_ready && has_cells r))
  unfolding add_record add_cells
  add_record-values c first now r = ground arith

  pub add_all-ready :
      (rs : List (BatteryRecord F)) (first : Bool) (now : ℕ) (c : BatteryBankState F)
      → (add_all rs first now c).ready ≡ c.ready
  unfolding add_all add_values
  add_all-ready [] first now c = refl
  add_all-ready (r ∷ rs) first now c =
      add_all-ready rs false now (add_record f c first now r) ∙ (add_record-values c first now r).0

  pub add_all-voltage :
      (rs : List (BatteryRecord F)) (first : Bool) (now : ℕ) (c : BatteryBankState F)
      → (add_all rs first now c).voltage_v ≡ total c.voltage_v rs
  unfolding add_all add_values
  add_all-voltage [] first now c = refl
  add_all-voltage (r ∷ rs) first now c =
      add_all-voltage rs false now (add_record f c first now r)
      ∙ ap (λ v. total v rs) (add_record-values c first now r).1

  pub add_all-cells :
      (rs : List (BatteryRecord F)) (first : Bool) (now : ℕ) (c : BatteryBankState F)
      → (add_all rs first now c).cell_data_ready ≡ (c.cell_data_ready && all_have_cells rs)
  unfolding add_all add_values
  add_all-cells [] first now c = ground arith
  add_all-cells (r ∷ rs) first now c = ground (
    arith,
    add_all-cells rs false now (add_record f c first now r),
    add_record-values c first now r,
  )

  pub add_all-protection :
      (rs : List (BatteryRecord F)) (first : Bool) (now : ℕ) (c : BatteryBankState F)
      → not (bit_and (add_all rs first now c).protection_status 2 == 0)
        ≡ (not (bit_and c.protection_status 2 == 0) || some_protects rs)
  unfolding add_all add_values
  add_all-protection [] first now c = ground arith
  add_all-protection (r ∷ rs) first now c = ground (
    arith,
    add_all-protection rs false now (add_record f c first now r),
    ap (λ p. bit_and p 2 == 0) (add_record-values c first now r).4,
    bit_and-bit_or_two c.protection_status r.protection_status,
  )

  module _ (order : IsOrder f) where
    add_record-soc :
        (c : BatteryBankState F) (first : Bool) (now : ℕ) (r : BatteryRecord F) (x : F)
        → (f.lt x c.soc_percent ≡ false) ⊎ (x ≡ r.soc_percent)
        → f.lt x (add_record f c first now r).soc_percent ≡ false
    unfolding add_values
    add_record-soc c first now r x h = ground (
      arith,
      add_record-values c first now r,
      order.irreflexive r.soc_percent,
      order.transitive x r.soc_percent c.soc_percent,
    )

    add_all-soc_keep :
        (rs : List (BatteryRecord F)) (first : Bool) (now : ℕ) (c : BatteryBankState F) (x : F)
        → f.lt x c.soc_percent ≡ false
        → f.lt x (add_all rs first now c).soc_percent ≡ false
    unfolding add_all
    add_all-soc_keep [] first now c x h = h
    add_all-soc_keep (r ∷ rs) first now c x h =
        add_all-soc_keep rs false now (add_record f c first now r) x
          (add_record-soc c first now r x (inl h))

    pub add_all-soc :
        (rs : List (BatteryRecord F)) (first : Bool) (now : ℕ) (c : BatteryBankState F)
        → All (λ r. f.lt r.soc_percent (add_all rs first now c).soc_percent ≡ false) rs
    unfolding add_all
    add_all-soc [] first now c = tt
    add_all-soc (r ∷ rs) first now c = (
      add_all-soc_keep rs false now (add_record f c first now r) r.soc_percent
          (add_record-soc c first now r r.soc_percent (inr refl)),
      add_all-soc rs false now (add_record f c first now r),
    )

    add_record-current :
        (c : BatteryBankState F) (first : Bool) (now : ℕ) (r : BatteryRecord F) (x : F)
        → ((first ≡ false) × (f.lt c.current_a x ≡ false)) ⊎ (x ≡ r.current_a)
        → f.lt (add_record f c first now r).current_a x ≡ false
    unfolding add_values
    add_record-current c first now r x h = ground (
      arith,
      add_record-values c first now r,
      order.irreflexive r.current_a,
      order.transitive c.current_a r.current_a x,
    )

    add_all-current_keep :
        (rs : List (BatteryRecord F)) (now : ℕ) (c : BatteryBankState F) (x : F)
        → f.lt c.current_a x ≡ false
        → f.lt (add_all rs false now c).current_a x ≡ false
    unfolding add_all
    add_all-current_keep [] now c x h = h
    add_all-current_keep (r ∷ rs) now c x h =
        add_all-current_keep rs now (add_record f c false now r) x
          (add_record-current c false now r x (inl (refl, h)))

    pub add_all-current :
        (rs : List (BatteryRecord F)) (first : Bool) (now : ℕ) (c : BatteryBankState F)
        → All (λ r. f.lt (add_all rs first now c).current_a r.current_a ≡ false) rs
    unfolding add_all
    add_all-current [] first now c = tt
    add_all-current (r ∷ rs) first now c = (
      add_all-current_keep rs now (add_record f c first now r) r.current_a
          (add_record-current c first now r r.current_a (inr refl)),
      add_all-current rs false now (add_record f c first now r),
    )
