-- ===== src/ConfigFlags/Due.antt =====
-- main/config_flags.cpp, deadline_query: a query creates a deadline, and never one that is due.
use power.Prelude.{
  ℕ, ◌<◌, ◌≡◌, refl, ◌∙◌, inl, inr, Bool, false, Option, none, some, List, leb, ◌==◌, take, Text,
  str_eq, str_eq_iff, arith, Option-cases,
}
use power.ConfigFlags.Deadlines.{FlagDeadline, deadline_refresh, deadline_query, remaining}
use power.ConfigFlags.Table.{lookup, IsUnique, IsPut, deadline_refresh-IsPut, find_remaining-lookup}

-- The countdown of a name has ended.
unfoldable pub is_due : Option FlagDeadline → ℕ → Bool
is_due none now = false
is_due (some d) now = leb d.deadline_us now

remaining_zero : (deadline now : ℕ) → (remaining deadline now == 0) ≡ leb deadline now
unfolding remaining
remaining_zero deadline now = ground arith

abbrev pub says_due : Option ℕ → Bool
says_due none = false
says_due (some seconds) = seconds == 0

-- What a query leaves, and answers: the other names have their deadlines, no name becomes due or
-- stops to be, and the answer is 0 seconds when the name was due.
pub record Outcome (ds : List FlagDeadline) (name : Text) (now : ℕ)
    (after : List FlagDeadline × Option ℕ) : Type 0 where
  pub unique : IsUnique after.0
  pub due : (q : Text) → is_due (lookup after.0 q) now ≡ is_due (lookup ds q) now
  pub others : (q : Text) → str_eq name q ≡ false → lookup after.0 q ≡ lookup ds q
  pub answer : says_due after.1 ≡ is_due (lookup ds name) now

query-found :
    (ds : List FlagDeadline) (name : Text) (lifetime_s now : ℕ) (d : FlagDeadline)
    → lookup ds name ≡ some d
    → deadline_query ds name lifetime_s now ≡ (ds, some (remaining d.deadline_us now))
unfolding deadline_query
query-found ds name lifetime_s now d found =
    rw (find_remaining-lookup ds name now, deadline_query, found) refl

query-absent :
    (ds : List FlagDeadline) (name : Text) (lifetime_s now : ℕ)
    → lookup ds name ≡ none
    → deadline_query ds name lifetime_s now ≡ (elim (deadline_refresh ds name lifetime_s now) [
      | none ↦ (ds, none)
      | some ds' ↦ (ds', some lifetime_s)
    ])
unfolding deadline_query
query-absent ds name lifetime_s now absent =
    rw (find_remaining-lookup ds name now, deadline_query, absent) refl

pub query-outcome :
    (ds : List FlagDeadline) (name : Text) (lifetime_s now : ℕ)
    → IsUnique ds
    → take 15 name ≡ name
    → 0 < lifetime_s
    → Outcome ds name now (deadline_query ds name lifetime_s now)
unfolding is_due IsPut
query-outcome ds name lifetime_s now u short timed = elim (Option-cases (lookup ds name)) [
  | inr (d, found) ↦ rw (query-found ds name lifetime_s now d found) (record {
    unique = u;
    due = λ q. refl;
    others = λ q h. refl;
    answer = remaining_zero d.deadline_us now ∙ rw found refl;
  })
  | inl absent ↦ elim (deadline_refresh-IsPut ds name lifetime_s now u short) [
    | inl (full, missing) ↦
        rw (query-absent ds name lifetime_s now absent, full)
          (record { unique = u; due = λ q. refl; others = λ q h. refl; answer = rw absent refl })
    | inr (ds', refreshed, (unique, puts)) ↦
        rw (query-absent ds name lifetime_s now absent, refreshed)
          (record {
            unique = unique;
            due = λ q. ground (arith, puts q, str_eq_iff name q);
            others = λ q h. puts q ∙ rw h refl;
            answer = ground arith;
          })
  ]
]
