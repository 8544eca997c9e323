-- ===== src/BatteryStore/Init.antt =====
-- main/battery_store.cpp: the store that `battery_store_init` makes.
use power.Prelude.{
  ℕ, zero, suc, ◌≡◌, refl, sym, ap, ◌∙◌, true, false, err, not_found, some, replicate, get_or, Text,
}
use power.Prelude.Float.{Float}
use power.BatteryStore.{BatteryStore, BatterySlot, battery_store_valid_name, max_batteries}
use power.BatteryStore.Operations.{battery_store_init, battery_store_get, empty_slot}
use power.BatteryStore.Slots.{Holds}
use power.BatteryStore.Update.{IsValid, get-absent, find_by_name-absent}

get_or-replicate : {A : Type 0} (n : ℕ) (a : A) (i : ℕ) → get_or (replicate n a) i a ≡ a
get_or-replicate zero a i = refl
get_or-replicate (suc n) a zero = refl
get_or-replicate (suc n) a (suc i) = get_or-replicate n a i

module _ {F : Type 0} (f : Float F) where
  nothing_held : (i : ℕ) (name : Text) → Holds f (replicate 16 (empty_slot f)) i name → ⊥
  nothing_held i name h =
      let free : false ≡ true =
        sym (ap (λ (s : BatterySlot F). s.occupied) (get_or-replicate 16 (empty_slot f) i)) ∙ h.0 in
      cc

  -- The first init whose mutex is created makes a well-formed store in which no battery is found.
  pub battery_store_init-IsValid :
      (s : BatteryStore F) (name : Text)
      → s.mutex_created ≡ false
      → battery_store_valid_name (some name) ≡ true
      → let s' = (battery_store_init f s true).0 in
        IsValid f s' × (battery_store_get f s' (some name) true true ≡ err not_found)
  unfolding battery_store_init
  battery_store_init-IsValid s name e good =
      let ready : BatteryStore F = record {
        slots = replicate max_batteries (empty_slot f);
        mutex_created = true;
      } in
      rw e (
        record { size = refl; distinct = λ i j n a b. absurd (nothing_held i n a); created = refl },
        get-absent f ready name good refl
            (find_by_name-absent f ready.slots name (λ i h. nothing_held i name h)),
      )
