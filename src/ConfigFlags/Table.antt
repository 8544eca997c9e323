-- ===== src/ConfigFlags/Table.antt =====
-- main/config_flags.cpp: the table of deadlines as a map from the names.
use power.Prelude.{
  ℕ, suc, ◌+◌, ◌≡◌, refl, ap, ◌∙◌, ◌⊎◌, inl, inr, true, false, not, Option, none, some, List, [],
  ◌∷◌, if◌then◌else◌, take, set, Text, str_eq, str_eq_iff, arith, Option-cases, Bool-cases,
}
use mathlib.Core.Option
use power.ConfigFlags.Deadlines.{
  FlagDeadline, is_for, deadline_drop, find_slot, new_deadline, deadline_refresh, remaining,
  find_remaining,
}

-- The deadline of a name.
unfoldable pub lookup : List FlagDeadline → Text → Option FlagDeadline
lookup [] name = none
lookup (d ∷ ds) name = if is_for name d then some d else lookup ds name

-- No two entries in use have the same name.
unfoldable pub IsUnique : List FlagDeadline → Type 0
IsUnique [] = Unit {0}
IsUnique (d ∷ ds) = (d.used ≡ true → lookup ds d.name ≡ none) × IsUnique ds

pub find_remaining-lookup :
    (ds : List FlagDeadline) (name : Text) (now : ℕ)
    → find_remaining ds name now ≡ Option.map (λ d. remaining d.deadline_us now) (lookup ds name)
unfolding find_remaining lookup
find_remaining-lookup [] name now = refl
find_remaining-lookup (d ∷ ds) name now = ground (arith, find_remaining-lookup ds name now)

lookup-drop :
    (ds : List FlagDeadline) (name q : Text)
    → IsUnique ds
    → lookup (deadline_drop ds name) q ≡ (if str_eq name q then none else lookup ds q)
unfolding lookup IsUnique deadline_drop
lookup-drop [] name q u = ground arith
lookup-drop (d ∷ ds) name q u =
    ground
      (arith, str_eq_iff name q, str_eq_iff d.name q, str_eq_iff d.name name, lookup-drop ds name q)

-- The entry with index `j` is the one to be replaced for the name.
PutsAt : List FlagDeadline → FlagDeadline → ℕ → Type 0
PutsAt ds new j =
    IsUnique (set ds j new)
    × ((q : Text) → lookup (set ds j new) q ≡ (if str_eq new.name q then some new else lookup ds q))

PutsAt-first :
    (e : FlagDeadline) (ds : List FlagDeadline) (new : FlagDeadline)
    → IsUnique (e ∷ ds)
    → new.used ≡ true
    → (is_for new.name e ≡ true) ⊎ ((e.used ≡ false) × (lookup ds new.name ≡ none))
    → PutsAt (e ∷ ds) new 0
unfolding lookup IsUnique PutsAt
PutsAt-first e ds new u fresh replaces = (
  (ground (arith, str_eq_iff e.name new.name), u.1),
  λ q. ground (arith, str_eq_iff e.name new.name, str_eq_iff new.name q, str_eq_iff e.name q),
)

PutsAt-later :
    (e : FlagDeadline) (ds : List FlagDeadline) (new : FlagDeadline) (j : ℕ)
    → IsUnique (e ∷ ds)
    → new.used ≡ true
    → is_for new.name e ≡ false
    → PutsAt ds new j
    → PutsAt (e ∷ ds) new (suc j)
unfolding lookup IsUnique PutsAt
PutsAt-later e ds new j u fresh other (unique, same) = (
  (
    λ used. ground (arith, same e.name, str_eq_iff e.name new.name, str_eq_iff new.name e.name),
    unique,
  ),
  λ q.
      ground
        (arith, same q, str_eq_iff e.name new.name, str_eq_iff new.name q, str_eq_iff e.name q),
)

find_slot-found :
    (ds : List FlagDeadline) (i : ℕ) (slot : Option ℕ) (new d : FlagDeadline)
    → IsUnique ds
    → new.used ≡ true
    → lookup ds new.name ≡ some d
    → (j : ℕ) × (find_slot ds i slot new.name ≡ some (i + j)) × PutsAt ds new j
unfolding lookup IsUnique find_slot PutsAt
find_slot-found [] i slot new d u fresh found = absurd (ground arith)
find_slot-found (e ∷ ds) i slot new d u fresh found = elim (Bool-cases (is_for new.name e)) [
  | inl here ↦ (0, ground arith, PutsAt-first e ds new u fresh (inl here))
  | inr other ↦
      let next : Option ℕ = elim slot [
        | some k ↦ some k
        | none ↦ if not e.used then some i else none
      ] in
      let found' : lookup ds new.name ≡ some d = ground arith in
      let (j, at, puts) = find_slot-found ds (suc i) next new d u.1 fresh found' in
      (suc j, ground arith, PutsAt-later e ds new j u fresh other puts)
]

-- A name that is not there gets the first free entry, if one came before.
find_slot-earlier :
    (ds : List FlagDeadline) (i k : ℕ) (name : Text)
    → lookup ds name ≡ none
    → find_slot ds i (some k) name ≡ some k
unfolding lookup find_slot
find_slot-earlier [] i k name absent = refl
find_slot-earlier (e ∷ ds) i k name absent = ground (arith, find_slot-earlier ds (suc i) k name)

find_slot-absent :
    (ds : List FlagDeadline) (i : ℕ) (new : FlagDeadline)
    → IsUnique ds
    → new.used ≡ true
    → lookup ds new.name ≡ none
    → (find_slot ds i none new.name ≡ none)
      ⊎ ((j : ℕ) × (find_slot ds i none new.name ≡ some (i + j)) × PutsAt ds new j)
unfolding lookup IsUnique find_slot
find_slot-absent [] i new u fresh absent = inl refl
find_slot-absent (e ∷ ds) i new u fresh absent =
    let absent' : lookup ds new.name ≡ none = ground arith in
    let other : is_for new.name e ≡ false = ground arith in
    elim (Bool-cases e.used) [
      | inr free ↦ inr (
        0,
        ground (arith, find_slot-earlier ds (suc i) i new.name),
        PutsAt-first e ds new u fresh (inr (free, absent')),
      )
      | inl used ↦ elim (find_slot-absent ds (suc i) new u.1 fresh absent') [
        | inl full ↦ inl (ground arith)
        | inr (j, at, puts) ↦ inr (suc j, ground arith, PutsAt-later e ds new j u fresh other puts)
      ]
    ]

-- What a refresh leaves: a table with the new entry and the old ones of the other names.
unfoldable pub IsPut : List FlagDeadline → List FlagDeadline → FlagDeadline → Type 0
IsPut ds ds' new =
    IsUnique ds'
    × ((q : Text) → lookup ds' q ≡ (if str_eq new.name q then some new else lookup ds q))

zero_add : (j : ℕ) → 0 + j ≡ j
zero_add j = omega arith

-- A refresh fails only for a name that is not there.
pub deadline_refresh-IsPut :
    (ds : List FlagDeadline) (name : Text) (lifetime_s now : ℕ)
    → IsUnique ds
    → take 15 name ≡ name
    → ((deadline_refresh ds name lifetime_s now ≡ none) × (lookup ds name ≡ none))
      ⊎ ((ds' : List FlagDeadline) × (deadline_refresh ds name lifetime_s now ≡ some ds')
          × IsPut ds ds' (record (new_deadline name lifetime_s now) { name = name }))
unfolding deadline_refresh IsPut PutsAt
deadline_refresh-IsPut ds name lifetime_s now u short =
    let new : FlagDeadline = record (new_deadline name lifetime_s now) { name = name } in
    elim (Option-cases (lookup ds name)) [
      | inr (d, found) ↦
          let (j, at, puts) = find_slot-found ds 0 none new d u refl found in
          inr (set ds j new, rw (at ∙ ap some (zero_add j), deadline_refresh, short) refl, puts)
      | inl absent ↦ elim (find_slot-absent ds 0 new u refl absent) [
        | inl full ↦ inl (rw (full, deadline_refresh) refl, absent)
        | inr (j, at, puts) ↦
            inr (set ds j new, rw (at ∙ ap some (zero_add j), deadline_refresh, short) refl, puts)
      ]
    ]

deadline_drop-IsUnique :
    (ds : List FlagDeadline) (name : Text) → IsUnique ds → IsUnique (deadline_drop ds name)
unfolding IsUnique deadline_drop lookup
deadline_drop-IsUnique [] name u = u
deadline_drop-IsUnique (d ∷ ds) name u = elim (Bool-cases (is_for name d)) [
  | inl here ↦ rw here ((λ used. ground arith), u.1)
  | inr other ↦ rw other (
    (λ used. ground (arith, lookup-drop ds name d.name, str_eq_iff name d.name)),
    deadline_drop-IsUnique ds name u.1,
  )
]

-- What a drop leaves: the entries of the other names.
pub deadline_drop-lookup :
    (ds : List FlagDeadline) (name : Text)
    → IsUnique ds
    → IsUnique (deadline_drop ds name)
      × ((q : Text)
          → lookup (deadline_drop ds name) q ≡ (if str_eq name q then none else lookup ds q))
deadline_drop-lookup ds name u = (deadline_drop-IsUnique ds name u, λ q. lookup-drop ds name q u)
