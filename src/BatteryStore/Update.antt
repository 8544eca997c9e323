-- ===== src/BatteryStore/Update.antt =====
-- main/battery_store.cpp: what an observation does to the records of the batteries.
use power.Prelude.{
  ℕ, ◌<◌, ◌≡◌, ◌≢◌, inl, inr, refl, sym, ap, ◌∙◌, true, false, if◌then◌else◌, none, some, List,
  length, set, get_or-set_self, get_or-set_ne, length-set, Text, arith, Option-cases, if-either,
  subst, ok, err, not_found,
}
use native.Mathlib.Decide.{ℕ_discrete}
use power.Prelude.Float.{Float}
use power.BatteryStore.{
  BatteryObservation, BatteryRecord, BatterySlot, BatteryStore, accepts, battery_store_valid_name,
  find_by_name, write_record,
}
use power.BatteryStore.Operations.{
  empty_slot, slot_index, battery_store_record_observation, battery_store_get,
}
use power.BatteryStore.Written.{
  Reports, HasCells, Unmeasured, write_record-Reports, write_record-HasCells, write_record-kept,
  write_record-fresh,
}
use power.BatteryStore.Slots.{
  slot, Holds, Distinct, Chosen, slot_index-Chosen, find_by_name-some, find_by_name-none,
}

module _ {F : Type 0} (f : Float F) where
  -- Sixteen slots, and no battery in two of them.
  pub record IsValid (s : BatteryStore F) : Type 0 where
    pub size : length s.slots ≡ 16
    pub distinct : Distinct f s.slots
    pub created : s.mutex_created ≡ true

  pub find_by_name-Holds :
      (slots : List (BatterySlot F)) (i : ℕ) (name : Text)
      → Distinct f slots
      → Holds f slots i name
      → find_by_name slots name ≡ some i
  find_by_name-Holds slots i name d h = elim (Option-cases (find_by_name slots name)) [
    | inl absent ↦ absurd (find_by_name-none f slots name i absent h)
    | inr (k, e) ↦ e ∙ ap some (d k i name (find_by_name-some f slots name k e) h)
  ]

  pub find_by_name-absent :
      (slots : List (BatterySlot F)) (name : Text)
      → ((i : ℕ) → Holds f slots i name → ⊥)
      → find_by_name slots name ≡ none
  find_by_name-absent slots name h = elim (Option-cases (find_by_name slots name)) [
    | inl absent ↦ absent
    | inr (k, e) ↦ absurd (h k (find_by_name-some f slots name k e))
  ]

  module _ (slots : List (BatterySlot F)) (i : ℕ) (v : BatterySlot F)
      (within : i < length slots) where
    set_self : slot f (set slots i v) i ≡ v
    set_self = get_or-set_self slots i v (empty_slot f) within

    pub set_other : (j : ℕ) → i ≢ j → slot f (set slots i v) j ≡ slot f slots j
    set_other j ne = get_or-set_ne slots i j v (empty_slot f) ne

    pub Holds-set_self : (name : Text) → Holds f (set slots i v) i name → v.battery.name ≡ name
    Holds-set_self name h = ap (λ (s : BatterySlot F). s.battery.name) (sym set_self) ∙ h.1

    pub Holds-set_other :
        (j : ℕ) (name : Text) → i ≢ j → Holds f (set slots i v) j name → Holds f slots j name
    Holds-set_other j name ne h = rw (← set_other j ne) h

    -- Where the slot was chosen for the name of `v`, no battery gets into two slots.
    Distinct-set :
        (name : Text)
        → Distinct f slots
        → Chosen f slots name i
        → v.battery.name ≡ name
        → Distinct f (set slots i v)
    unfolding Chosen
    Distinct-set name d c e j k n hj hk = elim (ℕ_discrete i j) [
      | yes ij ↦ elim (ℕ_discrete i k) [
        | yes ik ↦ sym ij ∙ ik
        | no ik ↦ absurd (clash k n ik (subst (λ x. Holds f (set slots i v) x n) (sym ij) hj) hk)
      ]
      | no ij ↦ elim (ℕ_discrete i k) [
        | yes ik ↦ absurd (clash j n ij (subst (λ x. Holds f (set slots i v) x n) (sym ik) hk) hj)
        | no ik ↦ d j k n (Holds-set_other j n ij hj) (Holds-set_other k n ik hk)
      ]
    ]
      where
        clash :
            (k : ℕ) (n : Text)
            → i ≢ k
            → Holds f (set slots i v) i n
            → Holds f (set slots i v) k n
            → ⊥
        clash k n ne hi hk =
            let same : n ≡ name = sym (Holds-set_self n hi) ∙ e in
            let there : Holds f slots k name =
              subst (λ t. Holds f slots k t) same (Holds-set_other k n ne hk) in
            elim c [ inl own ↦ ne (d i k name own there) | inr (absent, _) ↦ absent k there ]

  pub get-found :
      (s : BatteryStore F) (name : Text) (i : ℕ)
      → battery_store_valid_name (some name) ≡ true
      → s.mutex_created ≡ true
      → find_by_name s.slots name ≡ some i
      → battery_store_get f s (some name) true true ≡ ok (slot f s.slots i).battery
  unfolding battery_store_get
  get-found s name i good there_is e = ground arith

  pub get-absent :
      (s : BatteryStore F) (name : Text)
      → battery_store_valid_name (some name) ≡ true
      → s.mutex_created ≡ true
      → find_by_name s.slots name ≡ none
      → battery_store_get f s (some name) true true ≡ err not_found
  unfolding battery_store_get
  get-absent s name good there_is e = ground arith

  accepts-name :
      (name : Text) (o : BatteryObservation F)
      → accepts (some name) (some o) ≡ true
      → battery_store_valid_name (some name) ≡ true
  unfolding accepts
  accepts-name name o h = ground arith

  module _ (s : BatteryStore F) (name : Text) (o : BatteryObservation F) (now : ℕ) where
    unfoldable pub chosen : ℕ
    chosen = slot_index f s.slots name

    unfoldable pub written : BatterySlot F
    written = write_record (slot f s.slots chosen) name o now

    unfoldable pub updated : BatteryStore F
    updated = record s { slots = set s.slots chosen written }

    pub record_observation-updated :
        s.mutex_created ≡ true
        → accepts (some name) (some o) ≡ true
        → battery_store_record_observation f s (some name) (some o) true now ≡ (updated, ok tt)
    unfolding battery_store_record_observation updated written chosen
    record_observation-updated there_is h = rw (h, there_is)

    pub updated-IsValid : IsValid s → IsValid updated
    unfolding updated written chosen
    updated-IsValid v =
        let size = v.size in
        let (within, choice) = slot_index-Chosen f s.slots name (omega arith) in
        record {
          size = length-set s.slots chosen written ∙ size;
          distinct =
              Distinct-set s.slots chosen written within name v.distinct choice
                (write_record-Reports (slot f s.slots chosen) name o now).1.named;
          created = v.created;
        }

    updated-Holds : IsValid s → Holds f updated.slots chosen name
    unfolding updated written chosen
    updated-Holds v =
        let size = v.size in
        let here =
          set_self s.slots chosen written (slot_index-Chosen f s.slots name (omega arith)).0 in
        let (occupied, reports) = write_record-Reports (slot f s.slots chosen) name o now in
        rw here (occupied, reports.named)

    slot-Unmeasured :
        (i : ℕ)
        → IsValid s
        → accepts (some name) (some o) ≡ true
        → o.cell_voltages_valid ≡ false
        → Chosen f s.slots name i
        → Unmeasured f s.slots
            (write_record (slot f s.slots i) name o now).battery
            o
            (battery_store_get f s (some name) true true)
    unfolding Chosen
    slot-Unmeasured i v h not_measured (inl own) =
        rw
          (get-found s name i (accepts-name name o h) v.created
            (find_by_name-Holds s.slots i name v.distinct own))
          (write_record-kept (slot f s.slots i) name o now own.0 not_measured)
    slot-Unmeasured i v h not_measured (inr (absent, room)) =
        rw
          (get-absent s name (accepts-name name o h) v.created
            (find_by_name-absent s.slots name absent))
          (elim room [
            | inl empty ↦ inl (write_record-fresh (slot f s.slots i) name o now empty not_measured)
            | inr (full, oldest) ↦ inr full
          ])

    -- The cells of the record that is written.
    written-cells :
        IsValid s
        → accepts (some name) (some o) ≡ true
        → if o.cell_voltages_valid
          then HasCells written.battery o now
          else Unmeasured f s.slots written.battery o (battery_store_get f s (some name) true true)
    unfolding written chosen
    written-cells v h =
        let size = v.size in
        if-either o.cell_voltages_valid
          (λ measured.
            write_record-HasCells (slot f s.slots (slot_index f s.slots name)) name o now measured)
          (λ not_measured.
            slot-Unmeasured (slot_index f s.slots name) v h not_measured
              (slot_index-Chosen f s.slots name (omega arith)).1)

    -- In a well-formed store an accepted observation is stored, the store stays well formed, and
    -- the battery is found with what was observed and the time. Its cells are the observed ones,
    -- seen at that time, where there are any. An observation without cells leaves a battery the
    -- cells it had, where their count is still the reported one, and none otherwise; a battery that
    -- was not stored has none then, unless every slot was occupied.
    pub record_observation-get :
        IsValid s
        → accepts (some name) (some o) ≡ true
        → let (s', result) = battery_store_record_observation f s (some name) (some o) true now in
          (result ≡ ok tt)
          × IsValid s'
          × ((r : BatteryRecord F) × (battery_store_get f s' (some name) true true ≡ ok r)
              × Reports r name o now
              × (if o.cell_voltages_valid
                  then HasCells r o now
                  else Unmeasured f s.slots r o (battery_store_get f s (some name) true true)))
    unfolding written
    record_observation-get v h =
        let size = v.size in
        let there = updated-Holds v in
        let valid = updated-IsValid v in
        let found = find_by_name-Holds updated.slots chosen name valid.distinct there in
        let here : slot f updated.slots chosen ≡ written =
          unfold updated in
          set_self s.slots chosen written
            (unfold chosen in (slot_index-Chosen f s.slots name (omega arith)).0) in
        rw (record_observation-updated v.created h) (
          refl,
          valid,
          (
            written.battery,
            get-found updated name chosen (accepts-name name o h) valid.created found
                ∙ ap (λ (x : BatterySlot F). ok x.battery) here,
            (write_record-Reports (slot f s.slots chosen) name o now).1,
            written-cells v h,
          ),
        )
