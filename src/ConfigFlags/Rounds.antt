-- ===== src/ConfigFlags/Rounds.antt =====
-- main/config_flags.cpp, config_flags_expire: what a round of its loop leaves.
use power.Prelude.{
  ℕ, ◌<◌, ◌≡◌, refl, ap, ◌∙◌, inl, inr, Bool, true, false, ◌&&◌, Option, none, some, List, ◌==◌,
  if◌then◌else◌, take, Text, str_eq, str_eq_iff, ◌>>=◌, Result, ok, err, arith, Bool-cases,
}
use power.ConfigFlags.{Numbers, ConfigFlagType, not_set, boolean, number, validate_name, text_type}
use power.ConfigFlags.Deadlines.{FlagDeadline}
use power.ConfigFlags.Table.{lookup, IsUnique, deadline_drop-lookup}
use power.ConfigFlags.Store.{
  Nvs, Config, config, and_then, erase_commit, ttl_erase, with_flash, drop_deadline,
  config_flags_type, config_flags_unset, text_or_none,
}
use power.ConfigFlags.Listing.{TtlEntry, unset_if_due, query_deadline, expire_one}
use power.ConfigFlags.Due.{is_due, query-outcome, Outcome}
use power.ConfigFlags.Kept.{IsKept, ttl_erase-Leaves, erase_text-Leaves, and_then-ok, read_text}
use power.ConfigFlags.Parameters.{
  no_parameter, parameter, IsChanged, with_name-valid, validate_name-short, read_value_text-kept,
}

module _ {Double : Type 0} (numbers : Numbers Double) where
  -- The type of what is kept for a name.
  unfoldable pub type_of : Option Text → Result ConfigFlagType
  type_of kept_text = text_or_none (read_text kept_text 32) >>= λ text.
      ok (elim text [ none ↦ not_set | some t ↦ text_type numbers t ])

  unfoldable pub is_typed : Option Text → Bool
  is_typed kept_text = elim (type_of kept_text) [
    | err e ↦ false
    | ok not_set ↦ false
    | ok type ↦ true
  ]

-- An entry as a set with a lifetime makes it.
pub record IsTimed (e : TtlEntry) : Type 0 where
  pub valid : validate_name (some e.name) ≡ ok tt
  pub timed : 0 < e.lifetime_s

module _ {Flash : Type 0} (nvs : Nvs Flash) (kept : IsKept nvs) where
  -- The part of `config_flags_unset` behind the value.
  abbrev forget : Text → Config Flash → Config Flash × Result (Unit {0})
  forget name s =
      let (s, result) = with_flash s (ttl_erase nvs s.flash name) in (drop_deadline s name, result)

  unset-opened :
      (s : Config Flash) (name : Text)
      → validate_name (some name) ≡ ok tt
      → config_flags_unset nvs s (some name)
        ≡ forget name (with_flash s (erase_commit nvs config s.flash name)).0
  unfolding config_flags_unset
  unset-opened s name valid =
      let (done, v, l) = erase_text-Leaves nvs kept s.flash name in
      with_name-valid s name
        (λ name. elim (nvs.nvs_open config true s.flash) [
          | err e ↦ (s, err e)
          | ok _ ↦ and_then (with_flash s (erase_commit nvs config s.flash name)) (forget name)
        ])
        valid
      ∙ rw (kept.opens config true s.flash)
          (and_then-ok (with_flash s (erase_commit nvs config s.flash name)) (forget name) done)

  -- An unset leaves nothing of the parameter.
  unset-IsChanged :
      (s : Config Flash) (name : Text)
      → IsUnique s.deadlines
      → validate_name (some name) ≡ ok tt
      → ((config_flags_unset nvs s (some name)).1 ≡ ok tt)
        × IsChanged nvs kept s (config_flags_unset nvs s (some name)).0 name no_parameter
  unfolding IsChanged parameter
  unset-IsChanged s name u valid =
      let (done, v, l) = erase_text-Leaves nvs kept s.flash name in
      let (done', v', l') =
        ttl_erase-Leaves nvs kept (erase_commit nvs config s.flash name).0 name in
      let (unique, drops) = deadline_drop-lookup s.deadlines name u in
      rw (unset-opened s name valid)
        (done', (unique, λ q. ground (arith, v q, l q, v' q, l' q, drops q)))

  module _ {Double : Type 0} (numbers : Numbers Double) where
    -- The parameter has a value of a type, and its countdown has ended.
    abbrev pub is_expired : Config Flash → Text → ℕ → Bool
    is_expired s q now =
        is_typed numbers (kept.value s.flash q) && is_due (lookup s.deadlines q) now

    config_flags_type-type_of :
        (flash : Flash) (name : Text)
        → validate_name (some name) ≡ ok tt
        → config_flags_type nvs numbers flash (some name) true
          ≡ type_of numbers (kept.value flash name)
    unfolding config_flags_type type_of
    config_flags_type-type_of flash name valid =
        rw (valid, read_value_text-kept nvs kept flash name) refl

    -- What a round of the loop leaves.
    pub record Round (s : Config Flash) (name : Text) (now : ℕ) (after : Config Flash)
        : Type 0 where
      pub unique : IsUnique after.deadlines
      pub text :
          (q : Text)
          → kept.value after.flash q
            ≡ (if str_eq name q && is_expired s q now then none else kept.value s.flash q)
      pub expired :
          (q : Text)
          → is_expired after q now ≡ (if str_eq name q then false else is_expired s q now)

    -- The type that is found is not one of a value.
    Round-same :
        (s : Config Flash) (name : Text) (now : ℕ)
        → IsUnique s.deadlines
        → is_typed numbers (kept.value s.flash name) ≡ false
        → Round s name now s
    Round-same s name now u untyped = record {
      unique = u;
      text = λ q. ground (arith, str_eq_iff name q);
      expired = λ q. ground (arith, str_eq_iff name q);
    }

    -- An entry without a parameter is dropped.
    Round-orphan :
        (s : Config Flash) (name : Text) (now : ℕ)
        → IsUnique s.deadlines
        → is_typed numbers (kept.value s.flash name) ≡ false
        → Round s name now (drop_deadline (with_flash s (ttl_erase nvs s.flash name)).0 name)
    Round-orphan s name now u untyped =
        let (done, v, l) = ttl_erase-Leaves nvs kept s.flash name in
        let (unique, drops) = deadline_drop-lookup s.deadlines name u in
        record {
          unique = unique;
          text = λ q. ground (arith, v q, str_eq_iff name q);
          expired = λ q. ground (arith, v q, drops q, str_eq_iff name q);
        }

    Round-unset :
        (s : Config Flash) (name : Text) (now : ℕ) (ds : List FlagDeadline) (answer : Option ℕ)
        → Outcome s.deadlines name now (ds, answer)
        → validate_name (some name) ≡ ok tt
        → is_expired s name now ≡ true
        → Round s name now (config_flags_unset nvs (record s { deadlines = ds }) (some name)).0
    unfolding IsChanged parameter is_typed type_of is_due
    Round-unset s name now ds answer o valid expired =
        let (done, (unique, changed)) =
          unset-IsChanged (record s { deadlines = ds }) name o.unique valid in
        record {
          unique = unique;
          text = λ q. ground (arith, ap (λ p. p.text) (changed q), str_eq_iff name q);
          expired = λ q. ground (
            arith,
            ap (λ p. p.text) (changed q),
            ap (λ p. p.deadline) (changed q),
            o.due q,
            str_eq_iff name q,
          );
        }

    Round-kept :
        (s : Config Flash) (name : Text) (now : ℕ) (ds : List FlagDeadline) (answer : Option ℕ)
        → Outcome s.deadlines name now (ds, answer)
        → is_expired s name now ≡ false
        → Round s name now (record s { deadlines = ds })
    Round-kept s name now ds answer o alive = record {
      unique = o.unique;
      text = λ q. ground (arith, o.due q, str_eq_iff name q);
      expired = λ q. ground (arith, o.due q, str_eq_iff name q);
    }

    Round-typed :
        (s : Config Flash) (e : TtlEntry) (now : ℕ)
        → IsUnique s.deadlines
        → validate_name (some e.name) ≡ ok tt
        → take 15 e.name ≡ e.name
        → 0 < e.lifetime_s
        → is_typed numbers (kept.value s.flash e.name) ≡ true
        → Round s e.name now (unset_if_due nvs (query_deadline s e now) e.name)
    Round-typed s e now u valid short timed typed =
        let o = query-outcome s.deadlines e.name e.lifetime_s now u short timed in by_answer _ _ o
      where
        by_answer :
            (ds : List FlagDeadline) (answer : Option ℕ)
            → Outcome s.deadlines e.name now (ds, answer)
            → Round s e.name now (unset_if_due nvs (record s { deadlines = ds }, answer) e.name)
        by_answer ds none o = Round-kept s e.name now ds none o (ground (arith, o.answer))
        by_answer ds (some seconds) o = elim (Bool-cases (seconds == 0)) [
          | inl over ↦
              rw over
                (Round-unset s e.name now ds (some seconds) o valid (ground (arith, o.answer)))
          | inr left ↦
              rw left (Round-kept s e.name now ds (some seconds) o (ground (arith, o.answer)))
        ]

    by_type :
        (s : Config Flash) (e : TtlEntry) (now : ℕ) (r : Result ConfigFlagType)
        → IsUnique s.deadlines
        → validate_name (some e.name) ≡ ok tt
        → take 15 e.name ≡ e.name
        → 0 < e.lifetime_s
        → type_of numbers (kept.value s.flash e.name) ≡ r
        → Round s e.name now (expire_one nvs numbers s e now)
    unfolding is_typed expire_one
    by_type s e now r u valid short timed t =
        let found = config_flags_type-type_of s.flash e.name valid ∙ t in
        elim r
            as (λ r.
              config_flags_type nvs numbers s.flash (some e.name) true ≡ r
              → type_of numbers (kept.value s.flash e.name) ≡ r
              → Round s e.name now (expire_one nvs numbers s e now)) [
                | err code ↦
                    λ f t. rw (f, expire_one) (Round-same s e.name now u (rw (t, is_typed) refl))
                | ok not_set ↦
                    λ f t. rw (f, expire_one) (Round-orphan s e.name now u (rw (t, is_typed) refl))
                | ok boolean ↦ λ f t.
                    rw (f, expire_one)
                      (Round-typed s e now u valid short timed (rw (t, is_typed) refl))
                | ok number ↦ λ f t.
                    rw (f, expire_one)
                      (Round-typed s e now u valid short timed (rw (t, is_typed) refl))
              ]
          found t

    pub expire_one-Round :
        (s : Config Flash) (e : TtlEntry) (now : ℕ)
        → IsUnique s.deadlines
        → IsTimed e
        → Round s e.name now (expire_one nvs numbers s e now)
    expire_one-Round s e now u good =
        by_type s e now _ u good.valid (validate_name-short e.name good.valid) good.timed refl
