-- ===== src/BatteryStore/Others.antt =====
-- main/battery_store.cpp: what an observation does to the records of the other batteries.
use power.Prelude.{
  ℕ, ◌≤◌, ◌<◌, ◌≡◌, ◌≢◌, ◌⊎◌, inl, inr, refl, sym, ap, ◌∙◌, Bool, true, false, some, List, length,
  Text, arith, Bool-cases, Option-cases, subst, ok, err, not_found,
}
use native.Mathlib.Decide.{ℕ_discrete}
use power.Prelude.Float.{Float}
use power.BatteryStore.{
  BatteryObservation, BatteryRecord, BatterySlot, BatteryStore, accepts, battery_store_valid_name,
  find_by_name,
}
use power.BatteryStore.Operations.{battery_store_record_observation, battery_store_get}
use power.BatteryStore.Slots.{
  slot, Holds, Chosen, seen_at, slot_index-Chosen, find_by_name-some, find_by_name-none,
}
use power.BatteryStore.Written.{write_record-Reports}
use power.BatteryStore.Update.{
  IsValid, find_by_name-Holds, find_by_name-absent, set_other, Holds-set_self, Holds-set_other,
  get-found, get-absent, record_observation-updated, updated-IsValid, chosen, written, updated,
}

module _ {F : Type 0} (f : Float F) where
  -- Every slot is occupied, the name has none, and the record was seen no later than any other.
  pub record IsEvicted (slots : List (BatterySlot F)) (name : Text) (r : BatteryRecord F)
      : Type 0 where
    pub absent : (j : ℕ) → Holds f slots j name → ⊥
    pub full : (j : ℕ) → j < length slots → (slot f slots j).occupied ≡ true
    pub oldest : (j : ℕ) → j < length slots → r.last_seen_us ≤ seen_at f slots j

  module _ (s : BatteryStore F) (name : Text) (o : BatteryObservation F) (now : ℕ)
      (other : Text) where
    abbrev Outcome : Type 0
    Outcome =
        (battery_store_get f (updated f s name o now) (some other) true true
          ≡ battery_store_get f s (some other) true true)
        ⊎ ((r : BatteryRecord F) × (battery_store_get f s (some other) true true ≡ ok r)
            × (battery_store_get f (updated f s name o now) (some other) true true ≡ err not_found)
            × IsEvicted s.slots name r)

    index : ℕ
    index = chosen f s name o now

    within : IsValid f s → index < length s.slots
    unfolding index chosen
    within v = let size = v.size in (slot_index-Chosen f s.slots name (omega arith)).0

    choice : IsValid f s → Chosen f s.slots name index
    unfolding index chosen
    choice v = let size = v.size in (slot_index-Chosen f s.slots name (omega arith)).1

    -- In a slot that holds the other battery now, it was before, and the slot is not the chosen.
    was_there :
        other ≢ name
        → IsValid f s
        → (j : ℕ) → Holds f (updated f s name o now).slots j other
        → (index ≢ j) × Holds f s.slots j other
    unfolding updated written chosen index
    was_there ne v j h = elim (ℕ_discrete index j) [
      | yes same ↦
          let own = write_record-Reports (slot f s.slots index) name o now in
          absurd (
            ne (
              sym (
                Holds-set_self f s.slots index (written f s name o now) (within v) other
                  (subst (λ k. Holds f (updated f s name o now).slots k other) (sym same) h))
              ∙ own.1.named))
      | no differ ↦ (
        differ,
        Holds-set_other f s.slots index (written f s name o now) (within v) j other differ h,
      )
    ]

    still_there :
        IsValid f s
        → (j : ℕ) → index ≢ j
        → slot f (updated f s name o now).slots j ≡ slot f s.slots j
    unfolding updated written chosen index
    still_there v j ne = set_other f s.slots index (written f s name o now) (within v) j ne

    abbrev now_in : BatteryStore F
    now_in = updated f s name o now

    outcome_known :
        other ≢ name
        → IsValid f s
        → battery_store_valid_name (some other) ≡ true
        → (k : ℕ) → find_by_name s.slots other ≡ some k
        → Outcome
    unfolding updated Chosen
    outcome_known ne v good k e = elim (ℕ_discrete index k) [
      | no differ ↦ inl (
          get-found f now_in other k good valid.created (
            find_by_name-Holds f now_in.slots k other valid.distinct
              (rw (still_there v k differ) here))
          ∙ ap (λ (x : BatterySlot F). ok x.battery) (still_there v k differ)
          ∙ sym (get-found f s other k good v.created e))
      | yes same ↦ elim (choice v) [
        | inl own ↦
            absurd (ne (sym here.1 ∙ ap (λ j. (slot f s.slots j).battery.name) (sym same) ∙ own.1))
        | inr (absent, inl free) ↦
            absurd (occupied_twice (ap (λ j. (slot f s.slots j).occupied) (sym same) ∙ free) here.0)
        | inr (absent, inr (full, oldest)) ↦ inr (
          (slot f s.slots k).battery,
          get-found f s other k good v.created e,
          get-absent f now_in other good valid.created (
              find_by_name-absent f now_in.slots other (λ j h.
                (was_there ne v j h).0 (same ∙ v.distinct k j other here (was_there ne v j h).1))),
          record {
            absent = absent;
            full = full;
            oldest =
                λ j p. subst (λ i. seen_at f s.slots i ≤ seen_at f s.slots j) same (oldest j p);
          },
        )
      ]
    ]
      where
        valid : IsValid f now_in
        valid = updated-IsValid f s name o now v

        here : Holds f s.slots k other
        here = find_by_name-some f s.slots other k e

        occupied_twice : {b : Bool} → b ≡ false → b ≡ true → ⊥
        occupied_twice p q = cc

    outcome : other ≢ name → IsValid f s → battery_store_valid_name (some other) ≡ true → Outcome
    unfolding updated
    outcome ne v good = elim (Option-cases (find_by_name s.slots other)) [
      | inr (k, e) ↦ outcome_known ne v good k e
      | inl e ↦
          let still =
            find_by_name-absent f (updated f s name o now).slots other
              (λ j h. find_by_name-none f s.slots other j e (was_there ne v j h).1) in
          inl (
            get-absent f (updated f s name o now) other good v.created still
            ∙ sym (get-absent f s other good v.created e))
    ]

    -- An accepted observation of one battery in a well-formed store leaves what is found of any
    -- other battery as it was, unless the store was full, the observed battery was not in it, and
    -- no record was seen before the other's: then the other battery is found no more.
    pub record_observation-others :
        IsValid f s
        → accepts (some name) (some o) ≡ true
        → other ≢ name
        → let s' = (battery_store_record_observation f s (some name) (some o) true now).0 in
          (battery_store_get f s' (some other) true true
            ≡ battery_store_get f s (some other) true true)
          ⊎ ((r : BatteryRecord F) × (battery_store_get f s (some other) true true ≡ ok r)
              × (battery_store_get f s' (some other) true true ≡ err not_found)
              × IsEvicted s.slots name r)
    record_observation-others v h ne =
        rw (record_observation-updated f s name o now v.created h)
          (elim (Bool-cases (battery_store_valid_name (some other))) [
            | inl good ↦ outcome ne v good
            | inr bad ↦ inl (unfold battery_store_get in rw (bad) refl)
          ])
