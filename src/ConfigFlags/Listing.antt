-- ===== src/ConfigFlags/Listing.antt =====
-- main/config_flags.cpp: config_flags_list and config_flags_expire, the loops over NVS.
use power.Prelude.{
  ℕ, zero, suc, Bool, true, false, not, Option, none, some, List, [], ◌∷◌, ◌++◌, ltb, ◌==◌,
  if◌then◌else◌, length, take, Text, Result, ok, err, EspErr, invalid_arg, nvs_not_found,
}
use power.ConfigFlags.{
  Numbers, ConfigFlagType, not_set, config_flag_list_max, config_number_text_max_bytes, text_type,
}
use power.ConfigFlags.Deadlines.{FlagDeadline, deadline_query}
use power.ConfigFlags.Store.{
  Nvs, Config, Entries, no_more, failed, entry, config, policy_ttl, ttl_get, ttl_erase,
  config_flags_type, config_flags_unset, drop_deadline, with_flash,
}

-- One row of the arrays of ConfigFlagList.
pub record ListedFlag : Type 0 where
  pub name : Text
  pub type : ConfigFlagType
  pub value : Text
  pub lifetime_s : ℕ
  pub remaining_s : ℕ

-- `count` is the number of rows.
pub record ConfigFlagList : Type 0 where
  pub rows : List ListedFlag
  pub truncated : Bool

abbrev pub empty_list : ConfigFlagList
empty_list = record { rows = []; truncated = false }

-- An entry of the second namespace, as `config_flags_expire` collects it.
pub record TtlEntry : Type 0 where
  pub name : Text
  pub lifetime_s : ℕ

-- The entries that were collected; on a failure of NVS nothing expires.
abbrev pub or_nothing : EspErr → Result (List TtlEntry)
or_nothing nvs_not_found = ok []
or_nothing e = err e

abbrev pub listed_value : {Double : Type 0} → Numbers Double → Result Text → Text × ConfigFlagType
listed_value numbers (err e) = ([], not_set)
listed_value numbers (ok text) = (text, text_type numbers text)

abbrev pub or_no_time : Option ℕ → ℕ
or_no_time none = 0
or_no_time (some seconds) = seconds

abbrev pub listed_times : List FlagDeadline → Text → Result ℕ → ℕ → List FlagDeadline × ℕ × ℕ
listed_times ds key (err e) now = (ds, 0, 0)
listed_times ds key (ok lifetime_s) now =
    let (ds', seconds) = deadline_query ds key lifetime_s now in
    if ltb 0 lifetime_s then (ds', lifetime_s, or_no_time seconds) else (ds, 0, 0)

abbrev pub query_deadline : {Flash : Type 0} → Config Flash → TtlEntry → ℕ → Config Flash × Option ℕ
query_deadline s e now =
    let (ds, seconds) = deadline_query s.deadlines e.name e.lifetime_s now in
    (record s { deadlines = ds }, seconds)

module _ {Flash : Type 0} (nvs : Nvs Flash) where
  -- The first loop of `config_flags_expire`, with the room that is left in `entries`.
  unfoldable pub collect : Flash → Entries → ℕ → Result (List TtlEntry)
  collect flash no_more room = ok []
  collect flash (failed e) room = or_nothing e
  collect flash (entry info rest) zero = ok []
  collect flash (entry (err e) rest) (suc room) = err e
  collect flash (entry (ok key) rest) (suc room) = elim (ttl_get nvs flash key) [
    | err e ↦ collect flash rest (suc room)
    | ok lifetime_s ↦ elim (collect flash rest room) [
      | err e ↦ err e
      | ok more ↦ ok (record { name = take 15 key; lifetime_s = lifetime_s } ∷ more)
    ]
  ]

  abbrev pub unset_if_due : Config Flash × Option ℕ → Text → Config Flash
  unset_if_due (s, none) name = s
  unset_if_due (s, some seconds) name =
      if seconds == 0 then (config_flags_unset nvs s (some name)).0 else s

module _ {Flash Double : Type 0} (nvs : Nvs Flash) (numbers : Numbers Double) where
  -- The row of an entry; strlcpy cuts the name.
  unfoldable pub listed_flag : Config Flash → Text → ℕ → Config Flash × ListedFlag
  listed_flag s key now =
      let (text, type) =
        listed_value numbers (nvs.get_str s.flash key config_number_text_max_bytes) in
      let (ds, lifetime_s, remaining_s) =
        listed_times s.deadlines key (ttl_get nvs s.flash key) now in
      (
        record s { deadlines = ds },
        record {
          name = take 15 key;
          type = type;
          value = text;
          lifetime_s = lifetime_s;
          remaining_s = remaining_s;
        },
      )

  unfoldable pub list_entries :
      Config Flash
      → ConfigFlagList
      → Entries
      → ℕ
      → Config Flash × ConfigFlagList × Result (Unit {0})
  list_entries s list no_more now = (s, list, ok tt)
  list_entries s list (failed nvs_not_found) now = (s, list, ok tt)
  list_entries s list (failed e) now = (s, list, err e)
  list_entries s list (entry (err e) rest) now = (s, list, err e)
  list_entries s list (entry (ok key) rest) now =
      let (s', row) = listed_flag s key now in
      let more = list_entries s' (record list { rows = list.rows ++ (row ∷ []) }) rest now in
      let full = list_entries s (record list { truncated = true }) rest now in
      if ltb (length list.rows) config_flag_list_max then more else full

  unfoldable pub config_flags_list :
      Config Flash → Bool → ℕ → Config Flash × ConfigFlagList × Result (Unit {0})
  config_flags_list s given now =
      if not given
      then (s, empty_list, err invalid_arg)
      else elim (nvs.nvs_open config false s.flash) [
        | err nvs_not_found ↦ (s, empty_list, ok tt)
        | err e ↦ (s, empty_list, err e)
        | ok _ ↦ list_entries s empty_list (nvs.entries config s.flash) now
      ]

  -- A round of the second loop.
  unfoldable pub expire_one : Config Flash → TtlEntry → ℕ → Config Flash
  expire_one s e now = elim (config_flags_type nvs numbers s.flash (some e.name) true) [
    | err code ↦ s
    | ok not_set ↦ drop_deadline (with_flash s (ttl_erase nvs s.flash e.name)).0 e.name
    | ok type ↦ unset_if_due nvs (query_deadline s e now) e.name
  ]

  unfoldable pub expire_all : Config Flash → List TtlEntry → ℕ → Config Flash
  expire_all s [] now = s
  expire_all s (e ∷ es) now = expire_all (expire_one s e now) es now

  unfoldable pub config_flags_expire : Config Flash → ℕ → Config Flash × Result (Unit {0})
  config_flags_expire s now =
      elim (collect nvs s.flash (nvs.entries policy_ttl s.flash) config_flag_list_max) [
        | err e ↦ (s, err e)
        | ok entries ↦ (expire_all s entries now, ok tt)
      ]
