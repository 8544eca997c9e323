-- ===== src/ConfigFlags/Expired.antt =====
-- main/config_flags.cpp, config_flags_expire: which parameters are removed.
use power.Prelude.{
  ℕ, ◌≡◌, refl, Bool, false, ◌&&◌, ◌||◌, none, List, [], ◌∷◌, if◌then◌else◌, Text, str_eq, ok,
  arith,
}
use power.ConfigFlags.{Numbers}
use power.ConfigFlags.Table.{lookup, IsUnique}
use power.ConfigFlags.Store.{Nvs, Config, policy_ttl}
use power.ConfigFlags.Listing.{TtlEntry, expire_one, expire_all, config_flags_expire, collect}
use power.ConfigFlags.Due.{is_due}
use power.ConfigFlags.Kept.{IsKept}
use power.ConfigFlags.Rounds.{IsTimed, is_typed, is_expired, expire_one-Round}

unfoldable pub AreTimed : List TtlEntry → Type 0
AreTimed [] = Unit {0}
AreTimed (e ∷ es) = IsTimed e × AreTimed es

unfoldable pub is_named : Text → List TtlEntry → Bool
is_named q [] = false
is_named q (e ∷ es) = str_eq e.name q || is_named q es

module _ {Flash Double : Type 0} (nvs : Nvs Flash) (kept : IsKept nvs)
    (numbers : Numbers Double) where
  expire_all-text :
      (s : Config Flash) (es : List TtlEntry) (q : Text) (now : ℕ)
      → IsUnique s.deadlines
      → AreTimed es
      → kept.value (expire_all nvs numbers s es now).flash q ≡ (
          if is_named q es && is_expired nvs kept numbers s q now
          then none
          else kept.value s.flash q)
  unfolding expire_all is_named AreTimed
  expire_all-text s [] q now u set = refl
  expire_all-text s (e ∷ es) q now u (first, rest) =
      let round = expire_one-Round nvs kept numbers s e now u first in
      let after = expire_all-text (expire_one nvs numbers s e now) es q now round.unique rest in
      ground (arith, after, round.text q, round.expired q)

  -- On a flash that holds what is written, with a table of deadlines in which no name is twice,
  -- where the entries that are collected have valid names and lifetimes above 0:
  -- config_flags_expire succeeds, and removes the value of exactly those names among the
  -- collected ones that have a Boolean or a number and a deadline that is not later than now.
  -- The value of every other name stays.
  pub config_flags_expire-value :
      (s : Config Flash) (es : List TtlEntry) (q : Text) (now : ℕ)
      → IsUnique s.deadlines
      → collect nvs s.flash (nvs.entries policy_ttl s.flash) 32 ≡ ok es
      → AreTimed es
      → let (s', result) = config_flags_expire nvs numbers s now in
        (result ≡ ok tt)
        × (kept.value s'.flash q ≡ (
            if is_named q es
              && (is_typed numbers (kept.value s.flash q) && is_due (lookup s.deadlines q) now)
            then none
            else kept.value s.flash q))
  unfolding config_flags_expire
  config_flags_expire-value s es q now u listed set =
      rw (listed, config_flags_expire) (refl, expire_all-text s es q now u set)
