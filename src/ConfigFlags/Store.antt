-- ===== src/ConfigFlags/Store.antt =====
-- main/config_flags.cpp: the operations on one parameter.
-- NVS is the parameter `nvs`, and `Flash` is what it holds. The globals are the flash and the table
-- of deadlines. `now` is the time of the call.
use power.Prelude.{
  ℕ, Bool, true, false, ◌&&◌, Option, none, some, List, ltb, leb, if◌then◌else◌, Text, codes,
  str_eq, Result, ok, err, EspErr, invalid_arg, no_mem, nvs_not_found, nvs_type_mismatch, guard,
  ◌>>=◌, ◌>>◌,
}
use power.ConfigFlags.{
  Numbers, ConfigFlagType, not_set, validate_name, boolean_text_value, config_number_parse,
  text_type, config_number_text_max_bytes,
}
use power.ConfigFlags.Deadlines.{FlagDeadline, deadline_drop, deadline_refresh}

-- The two namespaces of NVS.
pub data Namespace : Type 0 where
  config policy_ttl : Namespace

-- What an iteration of NVS answers from an entry on: the end, a failure, or the entry's info.
pub data Entries : Type 0 where
  no_more : Entries
  failed : EspErr → Entries
  entry : Result Text → Entries → Entries

-- `nvs_open` takes whether it opens for writing, `get_str` the size of the buffer. Texts are kept
-- in the one namespace and lifetimes in the other.
pub record Nvs (Flash : Type 0) : Type 0 where
  pub nvs_open : Namespace → Bool → Flash → Result (Unit {0})
  pub get_str : Flash → Text → ℕ → Result Text
  pub set_str : Flash → Text → Text → Flash × Result (Unit {0})
  pub get_u32 : Flash → Text → Result ℕ
  pub set_u32 : Flash → Text → ℕ → Flash × Result (Unit {0})
  pub erase_key : Namespace → Flash → Text → Flash × Result (Unit {0})
  pub commit : Namespace → Flash → Flash × Result (Unit {0})
  pub entries : Namespace → Flash → Entries

pub record Config (Flash : Type 0) : Type 0 where
  pub flash : Flash
  pub deadlines : List FlagDeadline

-- To erase a key that is not there is no failure.
abbrev pub missing_ok : Result (Unit {0}) → Result (Unit {0})
missing_ok (ok u) = ok u
missing_ok (err nvs_not_found) = ok tt
missing_ok (err e) = err e

-- The next step, where the one before succeeded.
abbrev pub and_then :
    {A : Type 0} → A × Result (Unit {0}) → (A → A × Result (Unit {0})) → A × Result (Unit {0})
and_then (s, err e) next = (s, err e)
and_then (s, ok _) next = next s

-- A missing lifetime is 0.
abbrev pub or_zero : Result ℕ → Result ℕ
or_zero (ok n) = ok n
or_zero (err nvs_not_found) = ok 0
or_zero (err e) = err e

-- A name without a text, or with a value that is no text, is not there.
abbrev pub text_or_none : Result Text → Result (Option Text)
text_or_none (ok text) = ok (some text)
text_or_none (err nvs_not_found) = ok none
text_or_none (err nvs_type_mismatch) = ok none
text_or_none (err e) = err e

abbrev pub bool_text : Bool → Text
bool_text true = codes "true"
bool_text false = codes "false"

abbrev pub number_text : Text → Option Text
number_text t = elim (boolean_text_value t) [ some value ↦ none | none ↦ some t ]

module _ {Flash : Type 0} where
  abbrev pub with_flash :
      Config Flash → Flash × Result (Unit {0}) → Config Flash × Result (Unit {0})
  with_flash s (flash, result) = (record s { flash = flash }, result)

  abbrev pub drop_deadline : Config Flash → Text → Config Flash
  drop_deadline s name = record s { deadlines = deadline_drop s.deadlines name }

  -- On an error of NVS the deadline is dropped again.
  abbrev pub keep_or_drop :
      Config Flash × Result (Unit {0}) → Text → Config Flash × Result (Unit {0})
  keep_or_drop (s, ok _) name = (s, ok tt)
  keep_or_drop (s, err e) name = (drop_deadline s name, err e)

  -- A name is given where the checks have passed.
  abbrev pub with_name :
      Config Flash
      → Option Text
      → (Text → Config Flash × Result (Unit {0}))
      → Config Flash × Result (Unit {0})
  with_name s none next = (s, err invalid_arg)
  with_name s (some name) next = elim (validate_name (some name)) [
    | err e ↦ (s, err e)
    | ok _ ↦ next name
  ]

module _ {Flash : Type 0} (nvs : Nvs Flash) where
  abbrev pub erase_commit : Namespace → Flash → Text → Flash × Result (Unit {0})
  erase_commit space flash name =
      let (erased, result) = nvs.erase_key space flash name in
      and_then (erased, missing_ok result) (nvs.commit space)

  unfoldable pub ttl_erase : Flash → Text → Flash × Result (Unit {0})
  ttl_erase flash name = elim (nvs.nvs_open policy_ttl true flash) [
    | ok _ ↦ erase_commit policy_ttl flash name
    | err e ↦ (flash, missing_ok (err e))
  ]

  unfoldable pub ttl_get : Flash → Text → Result ℕ
  ttl_get flash name = elim (nvs.nvs_open policy_ttl false flash) [
    | ok _ ↦ or_zero (nvs.get_u32 flash name)
    | err e ↦ or_zero (err e)
  ]

  abbrev pub ttl_put : Flash → Text → ℕ → Flash × Result (Unit {0})
  ttl_put flash name lifetime_s = elim (nvs.nvs_open policy_ttl true flash) [
    | err e ↦ (flash, err e)
    | ok _ ↦ and_then (nvs.set_u32 flash name lifetime_s) (nvs.commit policy_ttl)
  ]

  unfoldable pub record_lifetime : Config Flash → Text → ℕ → ℕ → Config Flash × Result (Unit {0})
  record_lifetime s name lifetime_s now =
      if ltb 0 lifetime_s
      then elim (deadline_refresh s.deadlines name lifetime_s now) [
        | none ↦ (s, err no_mem)
        | some deadlines ↦
            keep_or_drop
              (with_flash (record s { deadlines = deadlines }) (ttl_put s.flash name lifetime_s))
              name
      ]
      else and_then (with_flash s (ttl_erase s.flash name)) (λ s. (drop_deadline s name, ok tt))

  unfoldable pub read_value_text : Flash → Text → ℕ → Result (Option Text)
  read_value_text flash name text_bytes = elim (nvs.nvs_open config false flash) [
    | ok _ ↦ text_or_none (nvs.get_str flash name text_bytes)
    | err nvs_not_found ↦ ok none
    | err e ↦ err e
  ]

  abbrev pub put_text : Config Flash → Text → Text → Config Flash × Result (Unit {0})
  put_text s name text = elim (nvs.nvs_open config true s.flash) [
    | err e ↦ (s, err e)
    | ok _ ↦ with_flash s (and_then (nvs.set_str s.flash name text) (nvs.commit config))
  ]

  unfoldable pub config_flags_set :
      Config Flash → Option Text → Bool → ℕ → ℕ → Config Flash × Result (Unit {0})
  config_flags_set s name value lifetime_s now = with_name s name (λ name.
      and_then (record_lifetime s name lifetime_s now) (λ s. put_text s name (bool_text value)))

  unfoldable pub config_flags_unset : Config Flash → Option Text → Config Flash × Result (Unit {0})
  config_flags_unset s name = with_name s name (λ name. elim (nvs.nvs_open config true s.flash) [
    | err e ↦ (s, err e)
    | ok _ ↦ and_then (with_flash s (erase_commit config s.flash name)) (λ s.
        let (s, result) = with_flash s (ttl_erase s.flash name) in (drop_deadline s name, result))
  ])

  -- The text of a parameter, with the checks before.
  abbrev pub value_text : Flash → Option Text → Bool → Result (Option Text)
  value_text flash name given = do
    guard given invalid_arg
    validate_name name
    elim name [
      | none ↦ err invalid_arg
      | some name ↦ read_value_text flash name config_number_text_max_bytes
    ]

  unfoldable pub config_flags_is_set : Flash → Option Text → Bool → Result Bool
  config_flags_is_set flash name given = do
    text ← value_text flash name given
    ok (elim text [ none ↦ false | some t ↦ str_eq t (codes "true") ])

  -- `none` where it is not found.
  unfoldable pub config_flags_get_bool : Flash → Option Text → Bool → Result (Option Bool)
  config_flags_get_bool flash name given = do
    text ← value_text flash name given
    ok (elim text [ none ↦ none | some t ↦ boolean_text_value t ])

  -- `text_bytes` is the size of the buffer.
  unfoldable pub config_flags_get_number : Flash → Option Text → Bool → ℕ → Result (Option Text)
  config_flags_get_number flash name given text_bytes = do
    guard (given && leb config_number_text_max_bytes text_bytes) invalid_arg
    validate_name name
    text ← elim name [ none ↦ err invalid_arg | some name ↦ read_value_text flash name text_bytes ]
    ok (elim text [ none ↦ none | some t ↦ number_text t ])

  module _ {Double : Type 0} (numbers : Numbers Double) where
    unfoldable pub config_flags_set_number :
        Config Flash → Option Text → Option Text → ℕ → ℕ → Config Flash × Result (Unit {0})
    config_flags_set_number s name none lifetime_s now =
        with_name s name (λ name. (s, err invalid_arg))
    config_flags_set_number s name (some text) lifetime_s now = with_name s name (λ name.
        elim (config_number_parse numbers (some text)) [
          | none ↦ (s, err invalid_arg)
          | some parsed ↦
              and_then (record_lifetime s name lifetime_s now) (λ s. put_text s name text)
        ])

    unfoldable pub config_flags_type : Flash → Option Text → Bool → Result ConfigFlagType
    config_flags_type flash name given = do
      text ← value_text flash name given
      ok (elim text [ none ↦ not_set | some t ↦ text_type numbers t ])
