-- ===== src/BatteryBank.antt =====
-- main/battery_bank.cpp: the named banks of batteries that are kept in flash.
-- NVS is the parameter `nvs`: `Store` is what the flash holds, and a blob is the struct that is
-- written. `allocated` says whether malloc succeeded. An array of `battery_count` names is a list
-- of that length; a name in it may be null. In a stored bank, the entries of `batteries` behind
-- those that were written are empty.
pub mod Created
pub mod State
pub mod Ready
pub mod Attained
pub mod Reported
mod Tests
use power.Prelude.{
  ℕ, zero, suc, ◌+◌, ◌-◌, Bool, true, false, ◌&&◌, ◌||◌, not, Option, none, some, List, [], ◌∷◌,
  ◌++◌, map, ltb, leb, ◌==◌, if◌then◌else◌, get_or, set, replicate, take, drop, length, Text,
  str_eq, Result, ok, err, EspErr, invalid_arg, no_mem, not_found, nvs_not_found, guard, ◌>>=◌,
  ◌>>◌,
}
use mathlib.Core.Option
use power.BatteryStore.{printable_from, battery_store_valid_name, max_batteries}

abbrev pub battery_bank_name_max : ℕ
battery_bank_name_max = 31

-- CONFIG_POWER4_MAX_BANKS of the sdkconfig
abbrev pub battery_bank_max_banks : ℕ
battery_bank_max_banks = 4

abbrev pub banks_magic : ℕ
banks_magic = 0x5034424b

abbrev pub banks_version : ℕ
banks_version = 1

-- sizeof(StoredBatteryBanks): 8 bytes, and 4 banks of 32 + 1 + 16 * 32 bytes
abbrev pub stored_bytes : ℕ
stored_bytes = 2188

pub record StoredBatteryBank : Type 0 where
  pub name : Text
  pub battery_count : ℕ
  pub batteries : List Text

pub record StoredBatteryBanks : Type 0 where
  pub magic : ℕ
  pub version : ℕ
  pub bank_count : ℕ
  pub banks : List StoredBatteryBank

pub record BatteryBankDefinition : Type 0 where
  pub name : Text
  pub batteries : List Text

abbrev pub empty_bank : StoredBatteryBank
empty_bank = record { name = []; battery_count = 0; batteries = replicate max_batteries [] }

unfoldable pub init_empty : StoredBatteryBanks
init_empty = record {
  magic = banks_magic;
  version = banks_version;
  bank_count = 0;
  banks = replicate battery_bank_max_banks empty_bank;
}

-- `valid_printable_name` is the loop of `battery_store_valid_name` with another bound.
unfoldable pub battery_bank_valid_name : Option Text → Bool
battery_bank_valid_name none = false
battery_bank_valid_name (some []) = false
battery_bank_valid_name (some (c ∷ rest)) = printable_from (c ∷ rest) battery_bank_name_max 0

abbrev pub same_name : Option Text → Option Text → Bool
same_name (some a) (some b) = str_eq a b
same_name _ _ = false

abbrev pub named_in : Option Text → List (Option Text) → Bool
named_in name [] = false
named_in name (x ∷ rest) = same_name name x || named_in name rest

-- The double loop of `validate_bank_definition`.
unfoldable pub valid_batteries : List (Option Text) → Bool
valid_batteries [] = true
valid_batteries (x ∷ rest) =
    battery_store_valid_name x && not (named_in x rest) && valid_batteries rest

unfoldable pub validate_bank_definition : Option Text → Option (List (Option Text)) → Bool
validate_bank_definition name none = false
validate_bank_definition name (some batteries) =
    battery_bank_valid_name name
    && not (length batteries == 0)
    && leb (length batteries) max_batteries
    && valid_batteries batteries

-- The loop over the first `n` banks: the index of the one with the name.
unfoldable pub find_among : List StoredBatteryBank → ℕ → Text → Option ℕ
find_among [] n name = none
find_among (b ∷ rest) zero name = none
find_among (b ∷ rest) (suc n) name =
    if str_eq b.name name then some 0 else Option.map suc (find_among rest n name)

unfoldable pub find_bank : StoredBatteryBanks → Text → Option ℕ
find_bank s name = find_among s.banks s.bank_count name

abbrev pub text_of : Option Text → Text
text_of none = []
text_of (some t) = t

unfoldable pub new_bank : Text → List (Option Text) → StoredBatteryBank
new_bank name batteries = record {
  name = name;
  battery_count = length batteries;
  batteries = map text_of batteries ++ replicate (max_batteries - length batteries) [];
}

-- What `battery_bank_create` makes of the banks; `none` where there is no room.
unfoldable pub put_bank : StoredBatteryBanks → Text → List (Option Text) → Option StoredBatteryBanks
put_bank s name batteries = elim (find_bank s name) [
  | some i ↦ some (record s { banks = set s.banks i (new_bank name batteries) })
  | none ↦
      if leb battery_bank_max_banks s.bank_count
      then none
      else some (record s {
        bank_count = s.bank_count + 1;
        banks = set s.banks s.bank_count (new_bank name batteries);
      })
]

-- The loop of `battery_bank_remove`: the banks behind the index move down by one, within the first
-- `n`, and the last of these is cleared.
unfoldable pub close_gap : List StoredBatteryBank → ℕ → ℕ → List StoredBatteryBank
close_gap banks index n =
    take index banks
    ++ (take (n - index - 1) (drop (index + 1) banks) ++ (empty_bank ∷ drop n banks))

pub record Nvs (Store : Type 0) : Type 0 where
  pub nvs_open : Bool → Store → Result (Unit {0})
  pub get_blob : Store → Result (StoredBatteryBanks × ℕ)
  pub set_blob : Store → StoredBatteryBanks → Store × Result (Unit {0})
  pub commit : Store → Store × Result (Unit {0})

-- What `load_banks` makes of the blob that was read.
abbrev pub accepted : StoredBatteryBanks × ℕ → StoredBatteryBanks
accepted (s, bytes) =
    if not (bytes == stored_bytes)
      || not (s.magic == banks_magic)
      || not (s.version == banks_version)
      || ltb battery_bank_max_banks s.bank_count
    then init_empty
    else s

abbrev pub or_empty : {A : Type 0} → Result A → (A → StoredBatteryBanks) → Result StoredBatteryBanks
or_empty (ok a) next = ok (next a)
or_empty (err nvs_not_found) next = ok init_empty
or_empty (err e) next = err e

-- The first `n` banks, as definitions.
abbrev pub definitions : List StoredBatteryBank → ℕ → List BatteryBankDefinition
definitions [] n = []
definitions (b ∷ rest) zero = []
definitions (b ∷ rest) (suc n) =
    record { name = b.name; batteries = take b.battery_count b.batteries } ∷ definitions rest n

module _ {Store : Type 0} (nvs : Nvs Store) where
  abbrev pub load_opened : Store → Result (Unit {0}) → Result StoredBatteryBanks
  load_opened flash (ok _) = or_empty (nvs.get_blob flash) accepted
  load_opened flash (err nvs_not_found) = ok init_empty
  load_opened flash (err e) = err e

  unfoldable pub load_banks : Store → Result StoredBatteryBanks
  load_banks flash = load_opened flash (nvs.nvs_open false flash)

  unfoldable pub save_banks : Store → StoredBatteryBanks → Store × Result (Unit {0})
  save_banks flash s = elim (nvs.nvs_open true flash) [
    | err e ↦ (flash, err e)
    | ok _ ↦
        let (written, result) = nvs.set_blob flash s in
        elim result [ err e ↦ (written, err e) | ok _ ↦ nvs.commit written ]
  ]

  unfoldable pub battery_bank_init : Store → Bool → Result (Unit {0})
  battery_bank_init flash allocated = do guard allocated no_mem; _ ← load_banks flash; ok tt

  abbrev pub store_put : Store → Option StoredBatteryBanks → Store × Result (Unit {0})
  store_put flash none = (flash, err no_mem)
  store_put flash (some s) = save_banks flash s

  -- The arguments are accepted here.
  abbrev pub create_valid :
      Store → Option Text → Option (List (Option Text)) → Store × Result (Unit {0})
  create_valid flash (some name) (some batteries) = elim (load_banks flash) [
    | err e ↦ (flash, err e)
    | ok s ↦ store_put flash (put_bank s name batteries)
  ]
  create_valid flash (some name) none = (flash, err invalid_arg)
  create_valid flash none batteries = (flash, err invalid_arg)

  unfoldable pub battery_bank_create :
      Store → Option Text → Option (List (Option Text)) → Bool → Store × Result (Unit {0})
  battery_bank_create flash name batteries allocated =
      if not (validate_bank_definition name batteries)
      then (flash, err invalid_arg)
      else if not allocated
      then (flash, err no_mem)
      else create_valid flash name batteries

  abbrev pub remove_valid : Store → Option Text → Store × Result (Unit {0})
  remove_valid flash none = (flash, err invalid_arg)
  remove_valid flash (some name) = elim (load_banks flash) [
    | err e ↦ (flash, err e)
    | ok s ↦ elim (find_bank s name) [
      | none ↦ (flash, err not_found)
      | some i ↦
          save_banks flash
            (record s { bank_count = s.bank_count - 1; banks = close_gap s.banks i s.bank_count })
    ]
  ]

  unfoldable pub battery_bank_remove : Store → Option Text → Bool → Store × Result (Unit {0})
  battery_bank_remove flash name allocated =
      if not (battery_bank_valid_name name)
      then (flash, err invalid_arg)
      else if not allocated
      then (flash, err no_mem)
      else remove_valid flash name

  -- The banks of the list; there are `count` of them.
  unfoldable pub battery_bank_list : Store → Bool → Bool → Result (List BatteryBankDefinition)
  battery_bank_list flash given allocated = do
    guard given invalid_arg
    guard allocated no_mem
    s ← load_banks flash
    ok (definitions s.banks s.bank_count)
