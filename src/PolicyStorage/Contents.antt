-- ===== src/PolicyStorage/Contents.antt =====
-- main/policy_storage.cpp: what the code relies on in NVS.
use power.Prelude.{
  ℕ, ◌≡◌, refl, Bool, true, false, Option, none, some, List, [], if◌then◌else◌, length, Text,
  str_eq, Result, ok, err, nvs_not_found,
}
use power.PolicyStorage.{Nvs, missing_ok}

abbrev pub or_empty : Option (List ℕ) → List ℕ
or_empty none = []
or_empty (some bytes) = bytes

abbrev pub blob_size : Option (List ℕ) → Result ℕ
blob_size none = err nvs_not_found
blob_size (some bytes) = ok (length bytes)

-- A flash that opens, holds what was written to it, and keeps the other keys.
pub record IsKept {Store Stats : Type 0} (nvs : Nvs Store Stats) : Type 0 where
  pub contents : Store → Text → Option (List ℕ)
  pub opens : (write : Bool) (flash : Store) → nvs.nvs_open write flash ≡ ok tt
  pub sizes :
      (flash : Store) (key : Text) → nvs.blob_length flash key ≡ blob_size (contents flash key)
  pub reads :
      (flash : Store) (key : Text) (bytes : List ℕ)
      → contents flash key ≡ some bytes
      → nvs.get_blob flash key (length bytes) ≡ ok bytes
  pub writes :
      (flash : Store) (key : Text) (bytes : List ℕ)
      → ((nvs.set_blob flash key bytes).1 ≡ ok tt)
        × ((other : Text)
            → contents (nvs.set_blob flash key bytes).0 other
              ≡ (if str_eq key other then some bytes else contents flash other))
  pub erases :
      (flash : Store) (key : Text)
      → ((nvs.erase_key flash key).1
          ≡ (elim (contents flash key) [ none ↦ err nvs_not_found | some bytes ↦ ok tt ]))
        × ((other : Text)
            → contents (nvs.erase_key flash key).0 other
              ≡ (if str_eq key other then none else contents flash other))
  pub commits :
      (flash : Store)
      → ((nvs.commit flash).1 ≡ ok tt)
        × ((key : Text) → contents (nvs.commit flash).0 key ≡ contents flash key)

pub missing_ok-found :
    (o : Option (List ℕ))
    → missing_ok (elim o [ none ↦ err nvs_not_found | some bytes ↦ ok tt ]) ≡ ok tt
missing_ok-found none = refl
missing_ok-found (some bytes) = refl

pub or_empty-erased :
    (same : Bool) (o : Option (List ℕ))
    → or_empty (if same then none else o) ≡ (if same then [] else or_empty o)
or_empty-erased true o = refl
or_empty-erased false o = refl

pub or_empty-put :
    (same : Bool) (bytes : List ℕ) (o : Option (List ℕ))
    → or_empty (if same then some bytes else o) ≡ (if same then bytes else or_empty o)
or_empty-put true bytes o = refl
or_empty-put false bytes o = refl
