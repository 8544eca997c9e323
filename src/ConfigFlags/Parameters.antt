-- ===== src/ConfigFlags/Parameters.antt =====
-- main/config_flags.cpp: what set and unset make of a parameter, and what is read back.
use power.Prelude.{
  take-short, ℕ, ◌+◌, ◌*◌, ◌<◌, ◌≡◌, refl, ap, sym, ◌∙◌, ◌⊎◌, inl, inr, Bool, true, false, Option,
  none, some, [], ◌∷◌, ltb, if◌then◌else◌, take, Text, str_eq, str_eq_refl, str_eq_iff, Result, ok,
  err, no_mem, arith, Bool-cases, ltb→lt, subst,
}
use power.ConfigFlags.{validate_name, boolean_text_value}
use power.ConfigFlags.Deadlines.{FlagDeadline}
use power.ConfigFlags.Table.{lookup, IsUnique, IsPut, deadline_refresh-IsPut, deadline_drop-lookup}
use power.ConfigFlags.Store.{
  Nvs, Config, config, and_then, ttl_erase, with_flash, with_name, ttl_put, put_text, bool_text,
  record_lifetime, keep_or_drop, drop_deadline, config_flags_set, read_value_text, text_or_none,
  config_flags_get_bool,
}
use power.ConfigFlags.Kept.{
  IsKept, ttl_erase-Leaves, ttl_put-Leaves, put_text-Leaves, and_then-ok, read_text,
}

-- All that is kept for one name.
pub record Parameter : Type 0 where
  pub text : Option Text
  pub lifetime_s : Option ℕ
  pub deadline : Option FlagDeadline

abbrev pub no_parameter : Parameter
no_parameter = record { text = none; lifetime_s = none; deadline = none }

-- The deadline of a lifetime that begins at `now`: a million microseconds for every second of it.
abbrev pub deadline_at : Text → ℕ → ℕ → FlagDeadline
deadline_at name lifetime_s now = record {
  used = true;
  name = name;
  lifetime_s = lifetime_s;
  deadline_us = now + lifetime_s * 1000000;
}

keep_or_drop-ok :
    {Flash : Type 0} (after : Config Flash × Result (Unit {0})) (name : Text)
    → after.1 ≡ ok tt
    → keep_or_drop after name ≡ (after.0, ok tt)
keep_or_drop-ok (s, ok u) name done = refl
keep_or_drop-ok (s, err e) name done = cc

pub with_name-valid :
    {Flash : Type 0} (s : Config Flash) (name : Text)
    (next : Text → Config Flash × Result (Unit {0}))
    → validate_name (some name) ≡ ok tt
    → with_name s (some name) next ≡ next name
with_name-valid s name next valid = rw (valid, with_name) refl

-- The new content of a parameter that is set.
abbrev pub set_to : Text → Text → ℕ → ℕ → Parameter
set_to name text lifetime_s now =
    if ltb 0 lifetime_s
    then record {
      text = some text;
      lifetime_s = some lifetime_s;
      deadline = some (deadline_at name lifetime_s now);
    }
    else record no_parameter { text = some text }

set_to-text :
    (name text : Text) (lifetime_s now : ℕ) (old : Parameter)
    → (if str_eq name name then set_to name text lifetime_s now else old).text ≡ some text
set_to-text name text lifetime_s now old = ground (arith, str_eq_refl name)

pub validate_name-short : (name : Text) → validate_name (some name) ≡ ok tt → take 15 name ≡ name
unfolding validate_name
validate_name-short [] valid = refl
validate_name-short (c ∷ rest) valid = take-short 15 (c ∷ rest) (ground arith)

module _ {Flash : Type 0} (nvs : Nvs Flash) (kept : IsKept nvs) where
  unfoldable pub parameter : Config Flash → Text → Parameter
  parameter s q = record {
    text = kept.value s.flash q;
    lifetime_s = kept.lifetime s.flash q;
    deadline = lookup s.deadlines q;
  }

  -- One name has new content, the others have theirs.
  unfoldable pub IsChanged : Config Flash → Config Flash → Text → Parameter → Type 0
  IsChanged s s' name new =
      IsUnique s'.deadlines
      × ((q : Text) → parameter s' q ≡ (if str_eq name q then new else parameter s q))

  -- With a lifetime: there is no room, or the lifetime and the deadline are there.
  record_lifetime-timed :
      (s : Config Flash) (name : Text) (lifetime_s now : ℕ)
      → IsUnique s.deadlines
      → take 15 name ≡ name
      → ltb 0 lifetime_s ≡ true
      → ((record_lifetime nvs s name lifetime_s now ≡ (s, err no_mem))
          × (lookup s.deadlines name ≡ none))
        ⊎ (((record_lifetime nvs s name lifetime_s now).1 ≡ ok tt)
            × IsChanged s (record_lifetime nvs s name lifetime_s now).0 name (record {
              text = kept.value s.flash name;
              lifetime_s = some lifetime_s;
              deadline = some (deadline_at name lifetime_s now);
            }))
  unfolding record_lifetime IsChanged IsPut parameter
  record_lifetime-timed s name lifetime_s now u short timed =
      elim (deadline_refresh-IsPut s.deadlines name lifetime_s now u short) [
        | inl (full, absent) ↦ inl (rw (timed, full) refl, absent)
        | inr (ds, refreshed, (unique, puts)) ↦
            let (done, v, l) = ttl_put-Leaves nvs kept s.flash name lifetime_s in
            let written =
              with_flash (record s { deadlines = ds }) (ttl_put nvs s.flash name lifetime_s) in
            inr (
              rw (timed, refreshed, record_lifetime, keep_or_drop-ok written name done)
                (refl, (unique, λ q. ground (arith, v q, l q, puts q, str_eq_iff name q))))
      ]

  record_lifetime-permanent :
      (s : Config Flash) (name : Text) (lifetime_s now : ℕ)
      → IsUnique s.deadlines
      → ltb 0 lifetime_s ≡ false
      → ((record_lifetime nvs s name lifetime_s now).1 ≡ ok tt)
        × IsChanged s
            (record_lifetime nvs s name lifetime_s now).0
            name
            (record no_parameter { text = kept.value s.flash name })
  unfolding record_lifetime IsChanged parameter
  record_lifetime-permanent s name lifetime_s now u permanent =
      let (done, v, l) = ttl_erase-Leaves nvs kept s.flash name in
      let (unique, drops) = deadline_drop-lookup s.deadlines name u in
      rw
        (
          permanent,
          and_then-ok (with_flash s (ttl_erase nvs s.flash name))
              (λ s. (drop_deadline s name, ok tt)) done,
        )
        (refl, (unique, λ q. ground (arith, v q, l q, drops q, str_eq_iff name q)))

  put_text-IsChanged :
      (s t : Config Flash) (name text : Text) (new : Parameter)
      → IsChanged s t name new
      → ((put_text nvs t name text).1 ≡ ok tt)
        × IsChanged s (put_text nvs t name text).0 name (record new { text = some text })
  unfolding IsChanged parameter
  put_text-IsChanged s t name text new (unique, same) =
      let (table, (done, v, l)) = put_text-Leaves nvs kept t name text in
      (
        done,
        (
          subst IsUnique (sym table) unique,
          λ q. ground (arith, v q, l q, same q, ap (λ ds. lookup ds q) table, str_eq_iff name q),
        ),
      )

  -- The two steps of a set, the lifetime and the text.
  record-put :
      (s : Config Flash) (name text : Text) (lifetime_s now : ℕ)
      → IsUnique s.deadlines
      → take 15 name ≡ name
      → let after =
          and_then (record_lifetime nvs s name lifetime_s now) (λ s. put_text nvs s name text) in
        ((after ≡ (s, err no_mem)) × (0 < lifetime_s) × (lookup s.deadlines name ≡ none))
        ⊎ ((after.1 ≡ ok tt) × IsChanged s after.0 name (set_to name text lifetime_s now))
  record-put s name text lifetime_s now u short =
      let recorded = record_lifetime nvs s name lifetime_s now in
      elim (Bool-cases (ltb 0 lifetime_s)) [
        | inl timed ↦ elim (record_lifetime-timed s name lifetime_s now u short timed) [
          | inl (full, absent) ↦ inl (rw full refl, ltb→lt 0 lifetime_s timed, absent)
          | inr (done, changed) ↦ inr (
              rw (timed, and_then-ok recorded (λ s. put_text nvs s name text) done)
                (put_text-IsChanged s recorded.0 name text _ changed))
        ]
        | inr permanent ↦
            let (done, changed) = record_lifetime-permanent s name lifetime_s now u permanent in
            inr (
              rw (permanent, and_then-ok recorded (λ s. put_text nvs s name text) done)
                (put_text-IsChanged s recorded.0 name text _ changed))
      ]

  pub read_value_text-kept :
      (flash : Flash) (name : Text)
      → read_value_text nvs flash name 32 ≡ text_or_none (read_text (kept.value flash name) 32)
  unfolding read_value_text
  read_value_text-kept flash name =
      rw (kept.opens config false flash, read_value_text, kept.reads_text flash name 32) refl

  get_bool-text :
      (flash : Flash) (name : Text) (value : Bool)
      → validate_name (some name) ≡ ok tt
      → kept.value flash name ≡ some (bool_text value)
      → config_flags_get_bool nvs flash (some name) true ≡ ok (some value)
  unfolding config_flags_get_bool boolean_text_value str_eq
  get_bool-text flash name true valid e = rw (valid, read_value_text-kept flash name, e) refl
  get_bool-text flash name false valid e = rw (valid, read_value_text-kept flash name, e) refl

  config_flags_set-valid :
      (s : Config Flash) (name : Text) (value : Bool) (lifetime_s now : ℕ)
      → validate_name (some name) ≡ ok tt
      → config_flags_set nvs s (some name) value lifetime_s now
        ≡ and_then
            (record_lifetime nvs s name lifetime_s now)
            (λ s. put_text nvs s name (bool_text value))
  unfolding config_flags_set
  config_flags_set-valid s name value lifetime_s now valid =
      with_name-valid s name
        (λ name.
          and_then (record_lifetime nvs s name lifetime_s now)
            (λ s. put_text nvs s name (bool_text value)))
        valid

  -- On a flash that holds what is written, with a table of deadlines in which no name is twice:
  -- setting a valid name to a Boolean either changes nothing and reports no_mem, which happens only
  -- with a lifetime and a name without a deadline; or it succeeds, and then the Boolean is
  -- read back, and the name has the lifetime and a deadline that many seconds, of a million
  -- microseconds each, after now, or none of both without a lifetime. The text, the lifetime and
  -- the deadline of every other name are as before.
  pub config_flags_set-get_bool :
      (s : Config Flash) (name q : Text) (value : Bool) (lifetime_s now : ℕ)
      → IsUnique s.deadlines
      → validate_name (some name) ≡ ok tt
      → let after = config_flags_set nvs s (some name) value lifetime_s now in
        ((after ≡ (s, err no_mem)) × (0 < lifetime_s) × (lookup s.deadlines name ≡ none))
        ⊎ ((after.1 ≡ ok tt)
            × (config_flags_get_bool nvs after.0.flash (some name) true ≡ ok (some value))
            × IsUnique after.0.deadlines
            × (parameter after.0 q ≡ (
                if str_eq name q
                then set_to name (bool_text value) lifetime_s now
                else parameter s q)))
  unfolding IsChanged parameter
  config_flags_set-get_bool s name q value lifetime_s now u valid =
      let put =
        record-put s name (bool_text value) lifetime_s now u (validate_name-short name valid) in
      rw (config_flags_set-valid s name value lifetime_s now valid) (elim put [
        | inl nothing ↦ inl nothing
        | inr (done, (unique, same)) ↦ inr (
          done,
          get_bool-text _ name value valid (
              ap (λ p. p.text) (same name)
              ∙ set_to-text name (bool_text value) lifetime_s now (parameter s name)),
          unique,
          same q,
        )
      ])
