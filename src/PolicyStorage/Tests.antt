-- ===== src/PolicyStorage/Tests.antt =====
-- A run of main/policy_storage.cpp on a flash that is a function from the keys.
use power.Prelude.{
  ℕ, ◌≡◌, refl, true, Option, none, some, List, [], ◌∷◌, if◌then◌else◌, Text, str_eq, Result, ok,
  err, nvs_not_found, arith,
}
use power.PolicyStorage.{Nvs, active, policy_storage_read_alloc}
use power.PolicyStorage.Spec.{
  Command, write, accept, IsSized, run, view, spec_run, program_of, policy_storage_read_alloc-Agree,
}
use power.PolicyStorage.Contents.{IsKept, blob_size}

abbrev Flash : Type 0
Flash = Text → Option (List ℕ)

abbrev read_or : Option (List ℕ) → Result (List ℕ)
read_or none = err nvs_not_found
read_or (some bytes) = ok bytes

abbrev keys : Nvs Flash (Unit {0})
keys = record {
  flash_init = λ flash. (flash, ok tt);
  flash_erase = λ flash. ((λ key. none), ok tt);
  nvs_open = λ write flash. ok tt;
  blob_length = λ flash key. blob_size (flash key);
  get_blob = λ flash key room. read_or (flash key);
  set_blob =
      λ flash key bytes. ((λ other. if str_eq key other then some bytes else flash other), ok tt);
  erase_key = λ flash key. (
    (λ other. if str_eq key other then none else flash other),
    elim (flash key) [ none ↦ err nvs_not_found | some bytes ↦ ok tt ],
  );
  commit = λ flash. (flash, ok tt);
  get_stats = λ flash. ok tt;
  partition_size = some 0x6000;
}

keys-IsKept : IsKept keys
keys-IsKept = record {
  contents = λ flash. flash;
  opens = λ write flash. refl;
  sizes = λ flash key. refl;
  reads = λ flash key bytes e. rw e refl;
  writes = λ flash key bytes. (refl, λ other. refl);
  erases = λ flash key. (refl, λ other. refl);
  commits = λ flash. (refl, λ key. refl);
}

abbrev blank : Flash
blank key = none

blank-IsSized : IsSized (view keys keys-IsKept blank)
unfolding view keys-IsKept
blank-IsSized = (omega arith, omega arith)

abbrev session : List Command
session = write (1 ∷ 2 ∷ []) ∷ accept true ∷ write (3 ∷ []) ∷ []

policy_storage_read_alloc-Agree_example :
    policy_storage_read_alloc keys (run keys keys-IsKept blank session) active true true
    ≡ ok (program_of (spec_run (view keys keys-IsKept blank) session) active)
policy_storage_read_alloc-Agree_example =
    policy_storage_read_alloc-Agree keys keys-IsKept blank session active blank-IsSized
