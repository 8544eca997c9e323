-- ===== src/ConfigFlags/Tests.antt =====
-- Runs of main/config_flags.cpp on a flash that is two functions from the names.
use power.Prelude.{
  ℕ, ◌<◌, ◌≡◌, refl, true, ◌&&◌, Option, none, some, List, [], ◌∷◌, ◌⊎◌, if◌then◌else◌, Text, codes,
  str_eq, Result, ok, err, no_mem, arith, set, zero, suc, replicate,
}
use power.ConfigFlags.{Numbers, validate_name, is_name_char}
use power.ConfigFlags.Deadlines.{no_deadline, no_deadlines, new_deadline}
use power.ConfigFlags.Table.{lookup, IsUnique}
use power.ConfigFlags.Store.{
  Nvs, Config, Namespace, config, policy_ttl, no_more, entry, bool_text, config_flags_set,
  config_flags_get_bool, ttl_get,
}
use power.ConfigFlags.Listing.{TtlEntry, collect, config_flags_expire}
use power.ConfigFlags.Kept.{IsKept, read_text, read_u32, erased}
use power.ConfigFlags.Parameters.{parameter, set_to, config_flags_set-get_bool}
use power.ConfigFlags.Due.{is_due}
use power.ConfigFlags.Rounds.{is_typed}
use power.ConfigFlags.Expired.{AreTimed, is_named, config_flags_expire-value}

record Flash : Type 0 where
  texts : Text → Option Text
  lifetimes : Text → Option ℕ

abbrev write : {A : Type 0} → Text → Option A → (Text → Option A) → Text → Option A
write key new old q = if str_eq key q then new else old q

abbrev erase : Namespace → Flash → Text → Flash × Result (Unit {0})
erase config flash key =
    (record flash { texts = write key none flash.texts }, erased (flash.texts key))
erase policy_ttl flash key =
    (record flash { lifetimes = write key none flash.lifetimes }, erased (flash.lifetimes key))

abbrev pump : Text
pump = codes "pump"

-- The iteration finds the one name that has a lifetime here.
abbrev keys : Nvs Flash
keys = record {
  nvs_open = λ space write flash. ok tt;
  get_str = λ flash key room. read_text (flash.texts key) room;
  set_str = λ flash key text. (record flash { texts = write key (some text) flash.texts }, ok tt);
  get_u32 = λ flash key. read_u32 (flash.lifetimes key);
  set_u32 = λ flash key n. (record flash { lifetimes = write key (some n) flash.lifetimes }, ok tt);
  erase_key = erase;
  commit = λ space flash. (flash, ok tt);
  entries = λ space flash. entry (ok pump) no_more;
}

keys-IsKept : IsKept keys
keys-IsKept = record {
  value = λ flash. flash.texts;
  lifetime = λ flash. flash.lifetimes;
  opens = λ space write flash. refl;
  reads_text = λ flash key room. refl;
  reads_u32 = λ flash key. refl;
  writes_text = λ flash key text. (refl, (λ q. refl), refl);
  writes_u32 = λ flash key n. (refl, refl, (λ q. refl));
  erases_text = λ flash key. (refl, (λ q. refl), refl);
  erases_u32 = λ flash key. (refl, refl, (λ q. refl));
  commits = λ space flash. (refl, refl, refl);
}

-- No text is a number.
abbrev no_numbers : Numbers ℕ
no_numbers = record { strtoll = λ t. none; strtod = λ t. none; of_integer = λ z. 0 }

abbrev blank : Config Flash
blank = record {
  flash = record { texts = λ q. none; lifetimes = λ q. none };
  deadlines = no_deadlines;
}

-- A pump that is on for a minute from the second 1 on.
abbrev timed : Config Flash
timed = record {
  flash = record {
    texts = write pump (some (codes "true")) (λ q. none);
    lifetimes = write pump (some 60) (λ q. none);
  };
  deadlines = set no_deadlines 0 (new_deadline pump 60 1000000);
}

free-IsUnique : (n : ℕ) → IsUnique (replicate n no_deadline)
unfolding IsUnique lookup
free-IsUnique zero = tt
free-IsUnique (suc n) = ((λ used. absurd (ground arith)), free-IsUnique n)

blank-IsUnique : IsUnique no_deadlines
blank-IsUnique = free-IsUnique 32

timed-IsUnique : IsUnique timed.deadlines
unfolding IsUnique lookup
timed-IsUnique = ((λ used. refl), free-IsUnique 31)

pump-valid : validate_name (some pump) ≡ ok tt
unfolding validate_name is_name_char
pump-valid = refl

config_flags_set-get_bool_example :
    let after = config_flags_set keys blank (some pump) true 60 1000000 in
    ((after ≡ (blank, err no_mem)) × (0 < 60) × (lookup no_deadlines pump ≡ none))
    ⊎ ((after.1 ≡ ok tt)
        × (config_flags_get_bool keys after.0.flash (some pump) true ≡ ok (some true))
        × IsUnique after.0.deadlines
        × (parameter keys keys-IsKept after.0 pump ≡ (
            if str_eq pump pump
            then set_to pump (bool_text true) 60 1000000
            else parameter keys keys-IsKept blank pump)))
config_flags_set-get_bool_example =
    config_flags_set-get_bool keys keys-IsKept blank pump pump true 60 1000000 blank-IsUnique
      pump-valid

abbrev listed : List TtlEntry
listed = record { name = pump; lifetime_s = 60 } ∷ []

listed-collect : collect keys timed.flash (keys.entries policy_ttl timed.flash) 32 ≡ ok listed
unfolding collect ttl_get str_eq
listed-collect = refl

listed-AreTimed : AreTimed listed
unfolding AreTimed
listed-AreTimed = (record { valid = pump-valid; timed = omega arith }, tt)

config_flags_expire-value_example :
    let (s, result) = config_flags_expire keys no_numbers timed 61000000 in
    (result ≡ ok tt)
    × (keys-IsKept.value s.flash pump ≡ (
        if is_named pump listed
          && (is_typed no_numbers (keys-IsKept.value timed.flash pump)
              && is_due (lookup timed.deadlines pump) 61000000)
        then none
        else keys-IsKept.value timed.flash pump))
config_flags_expire-value_example =
    config_flags_expire-value keys keys-IsKept no_numbers timed listed pump 61000000 timed-IsUnique
      listed-collect listed-AreTimed
