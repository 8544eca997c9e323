-- ===== src/PolicyStorage.antt =====
-- main/policy_storage.hpp and main/policy_storage.cpp: the active and the staged policy program.
-- NVS is the parameter `nvs`: `Store` is what the flash holds, and a blob is the list of its bytes.
-- `allocated` says whether malloc succeeded. The program that is handed out is the list of its
-- bytes, and its length the length of that list; the NUL behind it is left out.
pub mod Spec
pub mod Contents
mod Tests
use power.Prelude.{
  ℕ, ◌*◌, Bool, true, false, not, Option, none, some, List, [], ltb, ◌==◌, if◌then◌else◌, take,
  Text, codes, Result, ok, err, EspErr, invalid_arg, invalid_size, no_mem, not_found, nvs_not_found,
  nvs_no_free_pages, nvs_new_version_found, guard, ◌>>=◌, ◌>>◌,
}

abbrev pub policy_program_max_bytes : ℕ
policy_program_max_bytes = 16 * 1024

pub data PolicySlot : Type 0 where
  active staged : PolicySlot

abbrev pub active_key : Text
active_key = codes "policy_active"

abbrev pub staged_key : Text
staged_key = codes "policy_staged"

unfoldable pub key_for : PolicySlot → Text
key_for active = active_key
key_for staged = staged_key

unfoldable pub policy_storage_slot_name : PolicySlot → Text
policy_storage_slot_name active = codes "active"
policy_storage_slot_name staged = codes "staged"

-- What the code calls of NVS; `Stats` is nvs_stats_t. `nvs_open` takes whether it opens for writing.
pub record Nvs (Store : Type 0) (Stats : Type 0) : Type 0 where
  pub flash_init : Store → Store × Result (Unit {0})
  pub flash_erase : Store → Store × Result (Unit {0})
  pub nvs_open : Bool → Store → Result (Unit {0})
  pub blob_length : Store → Text → Result ℕ
  pub get_blob : Store → Text → ℕ → Result (List ℕ)
  pub set_blob : Store → Text → List ℕ → Store × Result (Unit {0})
  pub erase_key : Store → Text → Store × Result (Unit {0})
  pub commit : Store → Store × Result (Unit {0})
  pub get_stats : Store → Result Stats
  -- the size of the NVS partition, when there is one
  pub partition_size : Option ℕ

-- A missing key has length 0.
abbrev pub length_or_zero : Result ℕ → Result ℕ
length_or_zero (ok n) = ok n
length_or_zero (err nvs_not_found) = ok 0
length_or_zero (err e) = err e

-- To erase a key that is not there is no failure.
abbrev pub missing_ok : Result (Unit {0}) → Result (Unit {0})
missing_ok (ok u) = ok u
missing_ok (err nvs_not_found) = ok tt
missing_ok (err e) = err e

-- The codes on which `policy_storage_init` erases the flash.
abbrev pub needs_erase : Result (Unit {0}) → Bool
needs_erase (err nvs_no_free_pages) = true
needs_erase (err nvs_new_version_found) = true
needs_erase _ = false

module _ {Store Stats : Type 0} (nvs : Nvs Store Stats) where
  -- The next step on the flash, where the one before succeeded.
  abbrev pub and_then :
      Store × Result (Unit {0}) → (Store → Store × Result (Unit {0})) → Store × Result (Unit {0})
  and_then (flash, err e) next = (flash, err e)
  and_then (flash, ok _) next = next flash

  unfoldable pub read_blob_alloc : Store → Text → Bool → Result (List ℕ)
  read_blob_alloc flash key allocated = do
    stored_length ← length_or_zero (nvs.blob_length flash key)
    guard (not (ltb policy_program_max_bytes stored_length)) invalid_size
    guard allocated no_mem
    if ltb 0 stored_length then nvs.get_blob flash key stored_length else ok []

  abbrev pub erase_or_none : Store → Text → Store × Result (Unit {0})
  erase_or_none flash key =
      let (flash, result) = nvs.erase_key flash key in (flash, missing_ok result)

  -- An empty program erases the key.
  abbrev pub put_program : Store → Text → ℕ → List ℕ → Store × Result (Unit {0})
  put_program flash key length contents =
      if length == 0 then erase_or_none flash key else nvs.set_blob flash key contents

  unfoldable pub policy_storage_init : Store → Store × Result (Unit {0})
  policy_storage_init flash =
      let first = nvs.flash_init flash in
      let ready =
        if needs_erase first.1 then and_then (nvs.flash_erase first.0) nvs.flash_init else first in
      and_then ready (λ flash. (flash, nvs.nvs_open true flash))

  -- `given` says that neither out pointer is null.
  unfoldable pub policy_storage_read_alloc : Store → PolicySlot → Bool → Bool → Result (List ℕ)
  policy_storage_read_alloc flash slot given allocated = do
    guard given invalid_arg
    nvs.nvs_open false flash
    read_blob_alloc flash (key_for slot) allocated

  -- The arguments are accepted here.
  abbrev pub write_opened : Store → List ℕ → ℕ → Store × Result (Unit {0})
  write_opened flash contents length = elim (nvs.nvs_open true flash) [
    | err e ↦ (flash, err e)
    | ok _ ↦ and_then (put_program flash staged_key length contents) nvs.commit
  ]

  -- `contents` may be null; the program is its first `length` bytes.
  unfoldable pub policy_storage_write_staged :
      Store → Option (List ℕ) → ℕ → Store × Result (Unit {0})
  policy_storage_write_staged flash none length =
      if ltb 0 length then (flash, err invalid_arg) else write_opened flash [] length
  policy_storage_write_staged flash (some contents) length =
      if ltb policy_program_max_bytes length
      then (flash, err invalid_size)
      else write_opened flash (take length contents) length

  abbrev pub accept_read : Store → Result (List ℕ) → Store × Result (Unit {0})
  accept_read flash (err e) = (flash, err e)
  accept_read flash (ok program) =
      and_then (put_program flash active_key (power.Prelude.length program) program) nvs.commit

  unfoldable pub policy_storage_accept_staged : Store → Bool → Store × Result (Unit {0})
  policy_storage_accept_staged flash allocated = elim (nvs.nvs_open true flash) [
    | err e ↦ (flash, err e)
    | ok _ ↦ accept_read flash (read_blob_alloc flash staged_key allocated)
  ]

  unfoldable pub policy_storage_get_stats : Store → Bool → Result Stats
  policy_storage_get_stats flash given = do guard given invalid_arg; nvs.get_stats flash

  unfoldable pub policy_storage_get_partition_size : Bool → Result ℕ
  policy_storage_get_partition_size given = do
    guard given invalid_arg
    elim nvs.partition_size [ none ↦ err not_found | some bytes ↦ ok bytes ]
