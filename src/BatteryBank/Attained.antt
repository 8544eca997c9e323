-- ===== src/BatteryBank/Attained.antt =====
-- main/battery_bank.cpp: the current and the charge of a bank are those of one of its batteries.
use power.Prelude.{ℕ, ◌≡◌, ◌⊎◌, refl, ◌∙◌, Bool, true, false, List, [], ◌∷◌, inl, inr, arith}
use power.Prelude.Float.{Float}
use power.BatteryStore.{BatteryRecord}
use power.BatteryBank.State.{BatteryBankState, add_values, add_record}
use power.BatteryBank.Ready.{add_all, add_record-values}

abbrev pub Some : {A : Type 0} → (A → Type 0) → List A → Type 0
Some P [] = ⊥
Some P (x ∷ xs) = P x ⊎ Some P xs

module _ {F : Type 0} (f : Float F) where
  add_record-current_of :
      (c : BatteryBankState F) (first : Bool) (now : ℕ) (r : BatteryRecord F)
      → let c' = add_record f c first now r in
        ((first ≡ false) × (c'.current_a ≡ c.current_a)) ⊎ (c'.current_a ≡ r.current_a)
  unfolding add_values
  add_record-current_of c first now r = ground (arith, add_record-values f c first now r)

  add_record-soc_of :
      (c : BatteryBankState F) (first : Bool) (now : ℕ) (r : BatteryRecord F)
      → let c' = add_record f c first now r in
        (c'.soc_percent ≡ c.soc_percent) ⊎ (c'.soc_percent ≡ r.soc_percent)
  unfolding add_values
  add_record-soc_of c first now r = ground (arith, add_record-values f c first now r)

  add_all-current_of :
      (rs : List (BatteryRecord F)) (now : ℕ) (c : BatteryBankState F)
      → let c' = add_all f rs false now c in
        (c'.current_a ≡ c.current_a) ⊎ Some (λ r. c'.current_a ≡ r.current_a) rs
  unfolding add_all
  add_all-current_of [] now c = inl refl
  add_all-current_of (r ∷ rs) now c =
      elim (add_all-current_of rs now (add_record f c false now r)) [
        | inr later ↦ inr (inr later)
        | inl same ↦ elim (add_record-current_of c false now r) [
          | inl (e, kept) ↦ inl (same ∙ kept)
          | inr new ↦ inr (inl (same ∙ new))
        ]
      ]

  pub add_all-current_attained :
      (r : BatteryRecord F) (rs : List (BatteryRecord F)) (now : ℕ) (c : BatteryBankState F)
      → let c' = add_all f (r ∷ rs) true now c in Some (λ s. c'.current_a ≡ s.current_a) (r ∷ rs)
  unfolding add_all
  add_all-current_attained r rs now c =
      elim (add_all-current_of rs now (add_record f c true now r)) [
        | inr later ↦ inr later
        | inl same ↦ elim (add_record-current_of c true now r) [
          | inl (e, kept) ↦ cc
          | inr new ↦ inl (same ∙ new)
        ]
      ]

  pub add_all-soc_attained :
      (rs : List (BatteryRecord F)) (first : Bool) (now : ℕ) (c : BatteryBankState F)
      → let c' = add_all f rs first now c in
        (c'.soc_percent ≡ c.soc_percent) ⊎ Some (λ r. c'.soc_percent ≡ r.soc_percent) rs
  unfolding add_all
  add_all-soc_attained [] first now c = inl refl
  add_all-soc_attained (r ∷ rs) first now c =
      elim (add_all-soc_attained rs false now (add_record f c first now r)) [
        | inr later ↦ inr (inr later)
        | inl same ↦ elim (add_record-soc_of c first now r) [
          | inl kept ↦ inl (same ∙ kept)
          | inr new ↦ inr (inl (same ∙ new))
        ]
      ]
