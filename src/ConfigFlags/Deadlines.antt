-- ===== src/ConfigFlags/Deadlines.antt =====
-- main/config_flags.cpp: g_deadlines, the countdowns of the parameters that have a lifetime.
-- `now` is esp_timer_get_time() in microseconds. The int64_t holds every sum that comes up: a
-- lifetime is below 2 ^ 32 seconds.
use power.Prelude.{
  ℕ, suc, ◌+◌, ◌-◌, ◌*◌, ◌/◌, Bool, true, false, ◌&&◌, not, Option, none, some, List, [], ◌∷◌, ltb,
  if◌then◌else◌, take, set, replicate, Text, str_eq,
}
use power.ConfigFlags.{config_flag_list_max}

pub record FlagDeadline : Type 0 where
  pub used : Bool
  pub name : Text
  pub lifetime_s : ℕ
  pub deadline_us : ℕ

abbrev pub no_deadline : FlagDeadline
no_deadline = record { used = false; name = []; lifetime_s = 0; deadline_us = 0 }

abbrev pub no_deadlines : List FlagDeadline
no_deadlines = replicate config_flag_list_max no_deadline

abbrev pub is_for : Text → FlagDeadline → Bool
is_for name d = d.used && str_eq d.name name

unfoldable pub deadline_drop : List FlagDeadline → Text → List FlagDeadline
deadline_drop [] name = []
deadline_drop (d ∷ ds) name =
    let rest = deadline_drop ds name in if is_for name d then no_deadline ∷ ds else d ∷ rest

-- The loop of `deadline_refresh` from the index `i`, where `slot` is the first free entry so far.
unfoldable pub find_slot : List FlagDeadline → ℕ → Option ℕ → Text → Option ℕ
find_slot [] i slot name = slot
find_slot (d ∷ ds) i slot name =
    let slot' : Option ℕ = elim slot [
      | some j ↦ some j
      | none ↦ if not d.used then some i else none
    ] in
    let rest = find_slot ds (suc i) slot' name in if is_for name d then some i else rest

-- strlcpy cuts the name to 15 characters.
abbrev pub new_deadline : Text → ℕ → ℕ → FlagDeadline
new_deadline name lifetime_s now = record {
  used = true;
  name = take 15 name;
  lifetime_s = lifetime_s;
  deadline_us = now + lifetime_s * 1000000;
}

unfoldable pub deadline_refresh : List FlagDeadline → Text → ℕ → ℕ → Option (List FlagDeadline)
deadline_refresh ds name lifetime_s now = elim (find_slot ds 0 none name) [
  | none ↦ none
  | some i ↦ some (set ds i (new_deadline name lifetime_s now))
]

-- The seconds that are left, rounded up.
unfoldable pub remaining : ℕ → ℕ → ℕ
remaining deadline_us now =
    if ltb now deadline_us then (deadline_us - now + 999999) / 1000000 else 0

-- The loop of `deadline_query`.
unfoldable pub find_remaining : List FlagDeadline → Text → ℕ → Option ℕ
find_remaining [] name now = none
find_remaining (d ∷ ds) name now =
    let rest = find_remaining ds name now in
    if is_for name d then some (remaining d.deadline_us now) else rest

-- The table, and the seconds that are left, where an entry could be made.
unfoldable pub deadline_query : List FlagDeadline → Text → ℕ → ℕ → List FlagDeadline × Option ℕ
deadline_query ds name lifetime_s now = elim (find_remaining ds name now) [
  | some seconds ↦ (ds, some seconds)
  | none ↦ elim (deadline_refresh ds name lifetime_s now) [
    | none ↦ (ds, none)
    | some ds' ↦ (ds', some lifetime_s)
  ]
]
