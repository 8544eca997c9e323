-- ===== src/BatteryStore/Slots.antt =====
-- main/battery_store.cpp: which slot a name has, and which slot an observation goes to.
use power.Prelude.{
  ℕ, zero, suc, ◌+◌, ◌≤◌, ◌<◌, ◌≡◌, ◌⊎◌, inl, inr, refl, true, false, ltb, none, some, List, [],
  ◌∷◌, length, get_or, Text, str_eq_iff, arith, Bool-cases, Option-cases,
}
use power.Prelude.Float.{Float}
use power.BatteryStore.{BatterySlot, find_by_name, find_empty, least_from, find_least_recently_seen}
use power.BatteryStore.Operations.{empty_slot, slot_index}

module _ {F : Type 0} (f : Float F) where
  abbrev pub slot : List (BatterySlot F) → ℕ → BatterySlot F
  slot slots i = get_or slots i (empty_slot f)

  -- The slot is occupied by the battery of the name.
  abbrev pub Holds : List (BatterySlot F) → ℕ → Text → Type 0
  Holds slots i name = ((slot slots i).occupied ≡ true) × ((slot slots i).battery.name ≡ name)

  -- No two occupied slots have the same name.
  abbrev pub Distinct : List (BatterySlot F) → Type 0
  Distinct slots = (i j : ℕ) (name : Text) → Holds slots i name → Holds slots j name → i ≡ j

  Holds-within :
      (slots : List (BatterySlot F)) (i : ℕ) (name : Text) → Holds slots i name → i < length slots
  Holds-within [] i name h = absurd cc
  Holds-within (s ∷ rest) zero name h = omega arith
  Holds-within (s ∷ rest) (suc i) name h = omega (arith, Holds-within rest i name h)

  pub find_by_name-some :
      (slots : List (BatterySlot F)) (name : Text) (i : ℕ)
      → find_by_name slots name ≡ some i
      → Holds slots i name
  unfolding find_by_name
  find_by_name-some [] name i h = absurd cc
  find_by_name-some (s ∷ rest) name zero h = ground (arith, str_eq_iff s.battery.name name)
  find_by_name-some (s ∷ rest) name (suc i) h = ground (arith, find_by_name-some rest name i)

  pub find_by_name-none :
      (slots : List (BatterySlot F)) (name : Text) (i : ℕ)
      → find_by_name slots name ≡ none
      → Holds slots i name
      → ⊥
  unfolding find_by_name
  find_by_name-none [] name i h p = cc
  find_by_name-none (s ∷ rest) name zero h p = ground (arith, str_eq_iff s.battery.name name)
  find_by_name-none (s ∷ rest) name (suc i) h p = ground (arith, find_by_name-none rest name i)

  find_empty-some :
      (slots : List (BatterySlot F)) (i : ℕ)
      → find_empty slots ≡ some i
      → (i < length slots) × ((slot slots i).occupied ≡ false)
  unfolding find_empty
  find_empty-some [] i h = absurd cc
  find_empty-some (s ∷ rest) zero h = ground arith
  find_empty-some (s ∷ rest) (suc i) h = ground (arith, find_empty-some rest i)

  find_empty-none :
      (slots : List (BatterySlot F)) (i : ℕ)
      → find_empty slots ≡ none
      → i < length slots
      → (slot slots i).occupied ≡ true
  unfolding find_empty
  find_empty-none [] i h p = absurd (omega arith)
  find_empty-none (s ∷ rest) zero h p = ground arith
  find_empty-none (s ∷ rest) (suc i) h p = ground (arith, find_empty-none rest i)

  abbrev pub seen_at : List (BatterySlot F) → ℕ → ℕ
  seen_at slots i = (slot slots i).battery.last_seen_us

  -- No slot was seen before the time.
  abbrev Since : List (BatterySlot F) → ℕ → Type 0
  Since slots time = (j : ℕ) → j < length slots → time ≤ seen_at slots j

  Since-cons :
      (s : BatterySlot F) (rest : List (BatterySlot F)) (time : ℕ)
      → time ≤ s.battery.last_seen_us
      → Since rest time
      → Since (s ∷ rest) time
  Since-cons s rest time h all zero p = h
  Since-cons s rest time h all (suc j) p = all j (omega arith)

  -- The search from index `i` returns the best slot so far, or a later one that was seen earlier.
  Least : List (BatterySlot F) → ℕ → ℕ → ℕ → ℕ → Type 0
  Least slots i oldest seen r =
      ((r ≡ oldest) × Since slots seen)
      ⊎ ((k : ℕ) × (r ≡ i + k)
          × (k < length slots)
          × (seen_at slots k < seen)
          × Since slots (seen_at slots k))

  least_from-lem :
      (slots : List (BatterySlot F)) (i oldest seen : ℕ)
      → Least slots i oldest seen (least_from slots i oldest seen)
  unfolding least_from Least
  least_from-lem [] i oldest seen = inl (refl, λ j p. absurd (omega arith))
  least_from-lem (s ∷ rest) i oldest seen =
      let time = s.battery.last_seen_us in
      elim (Bool-cases (ltb time seen)) [
        | inl earlier ↦ rw earlier (elim (least_from-lem rest (i + 1) i time) [
          | inl (e, all) ↦
              inr (
                0,
                omega arith,
                omega arith,
                ground arith,
                Since-cons s rest time (omega arith) all,
              )
          | inr (k, e, within, less, all) ↦
              inr (
                suc k,
                omega arith,
                omega arith,
                ground arith,
                Since-cons s rest _ (omega arith) all,
              )
        ])
        | inr later ↦ rw later (elim (least_from-lem rest (i + 1) oldest seen) [
          | inl (e, all) ↦ inl (e, Since-cons s rest seen (ground arith) all)
          | inr (k, e, within, less, all) ↦
              inr (suc k, omega arith, omega arith, less, Since-cons s rest _ (ground arith) all)
        ])
      ]

  find_least-lem :
      (slots : List (BatterySlot F))
      → 1 ≤ length slots
      → let i = find_least_recently_seen slots in (i < length slots) × Since slots (seen_at slots i)
  unfolding find_least_recently_seen Least
  find_least-lem [] h = absurd (omega arith)
  find_least-lem (s ∷ rest) h =
      let time = s.battery.last_seen_us in
      elim (least_from-lem rest 1 0 time) [
        | inl (e, all) ↦ rw e (omega arith, Since-cons s rest time (omega arith) all)
        | inr (k, e, within, less, all) ↦
            rw (e, let same : 1 + k ≡ suc k = omega arith in same)
              (omega arith, Since-cons s rest _ (omega arith) all)
      ]

  -- The slot that an observation of the name goes to: its own, or a free one, or, where the
  -- store is full, one that was seen no later than any other.
  unfoldable pub Chosen : List (BatterySlot F) → Text → ℕ → Type 0
  Chosen slots name i =
      Holds slots i name
      ⊎ (((j : ℕ) → Holds slots j name → ⊥)
          × (((slot slots i).occupied ≡ false)
              ⊎ (((j : ℕ) → j < length slots → (slot slots j).occupied ≡ true)
                  × ((j : ℕ) → j < length slots → seen_at slots i ≤ seen_at slots j))))

  pub slot_index-Chosen :
      (slots : List (BatterySlot F)) (name : Text)
      → 1 ≤ length slots
      → (slot_index f slots name < length slots) × Chosen slots name (slot_index f slots name)
  unfolding slot_index Chosen
  slot_index-Chosen slots name h = elim (Option-cases (find_by_name slots name)) [
    | inr (i, e) ↦
        rw e (let p = find_by_name-some slots name i e in (Holds-within slots i name p, inl p))
    | inl absent ↦ elim (Option-cases (find_empty slots)) [
      | inr (i, e) ↦
          rw (absent, e) (let p = find_empty-some slots i e in (p.0, inr (no absent, inl p.1)))
      | inl full ↦
          rw (absent, full)
            (let p = find_least-lem slots h in
              (p.0, inr (no absent, inr (λ j q. find_empty-none slots j full q, p.1))))
    ]
  ]
    where
      no : find_by_name slots name ≡ none → (j : ℕ) → Holds slots j name → ⊥
      no absent j h = find_by_name-none slots name j absent h
