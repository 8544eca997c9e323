-- ===== src/TimeManager/Timezones.antt =====
-- main/time_manager.hpp and main/time_manager.cpp: the table of the time zones.
use power.Prelude.{
  ℕ, ltb, Option, none, some, List, [], ◌∷◌, if◌then◌else◌, length, get_elem?, Text, codes, str_eq,
}

pub record TimezoneInfo : Type 0 where
  pub human_name : Text
  pub posix_rule : Text
  pub short_name : Text

abbrev pub timezone : Text → Text → Text → TimezoneInfo
timezone human_name posix_rule short_name = record {
  human_name = human_name;
  posix_rule = posix_rule;
  short_name = short_name;
}

abbrev pub default_timezone : Text
default_timezone = codes "UTC"

abbrev pub timezones : List TimezoneInfo
timezones =
    timezone (codes "UTC") (codes "UTC0") (codes "UTC")
    ∷ timezone (codes "US/Hawaii") (codes "HST10") (codes "HST")
    ∷ timezone (codes "US/Alaska") (codes "AKST9AKDT,M3.2.0/2,M11.1.0/2") (codes "AKST")
    ∷ timezone (codes "US/Pacific") (codes "PST8PDT,M3.2.0/2,M11.1.0/2") (codes "PST")
    ∷ timezone (codes "US/Mountain") (codes "MST7MDT,M3.2.0/2,M11.1.0/2") (codes "MST")
    ∷ timezone (codes "US/Arizona") (codes "MST7") (codes "MST")
    ∷ timezone (codes "US/Central") (codes "CST6CDT,M3.2.0/2,M11.1.0/2") (codes "CST")
    ∷ timezone (codes "Mexico/Central") (codes "CST6") (codes "CST")
    ∷ timezone (codes "US/Eastern") (codes "EST5EDT,M3.2.0/2,M11.1.0/2") (codes "EST")
    ∷ timezone (codes "Canada/Atlantic") (codes "AST4ADT,M3.2.0/2,M11.1.0/2") (codes "AST")
    ∷ timezone (codes "Colombia") (codes "COT5") (codes "COT")
    ∷ timezone (codes "Argentina") (codes "ART3") (codes "ART")
    ∷ timezone (codes "Brazil/East") (codes "BRT3") (codes "BRT")
    ∷ timezone (codes "UK") (codes "GMT0BST,M3.5.0/1,M10.5.0/2") (codes "GMT")
    ∷ timezone (codes "Europe/Central") (codes "CET-1CEST,M3.5.0/2,M10.5.0/3") (codes "CET")
    ∷ timezone (codes "Europe/Eastern") (codes "EET-2EEST,M3.5.0/3,M10.5.0/4") (codes "EET")
    ∷ timezone (codes "SouthAfrica") (codes "SAST-2") (codes "SAST")
    ∷ timezone (codes "EastAfrica") (codes "EAT-3") (codes "EAT")
    ∷ timezone (codes "Russia/Moscow") (codes "MSK-3") (codes "MSK")
    ∷ timezone (codes "Gulf") (codes "GST-4") (codes "GST")
    ∷ timezone (codes "Pakistan") (codes "PKT-5") (codes "PKT")
    ∷ timezone (codes "India") (codes "IST-5:30") (codes "IST")
    ∷ timezone (codes "Bangladesh") (codes "BST-6") (codes "BST")
    ∷ timezone (codes "Indochina") (codes "ICT-7") (codes "ICT")
    ∷ timezone (codes "China") (codes "CST-8") (codes "CST")
    ∷ timezone (codes "Japan") (codes "JST-9") (codes "JST")
    ∷ timezone (codes "Australia/West") (codes "AWST-8") (codes "AWST")
    ∷ timezone (codes "Australia/Central") (codes "ACST-9:30ACDT,M10.1.0/2,M4.1.0/3") (codes "ACST")
    ∷ timezone (codes "Australia/East") (codes "AEST-10AEDT,M10.1.0/2,M4.1.0/3") (codes "AEST")
    ∷ timezone (codes "NewZealand") (codes "NZST-12NZDT,M9.5.0/2,M4.1.0/3") (codes "NZST")
    ∷ []

abbrev pub find_among : List TimezoneInfo → Text → Option TimezoneInfo
find_among [] name = none
find_among (z ∷ zs) name =
    let rest = find_among zs name in if str_eq name z.human_name then some z else rest

unfoldable pub find_timezone : Option Text → Option TimezoneInfo
find_timezone none = none
find_timezone (some name) = find_among timezones name

unfoldable pub time_manager_timezone_count : ℕ
time_manager_timezone_count = length timezones

unfoldable pub time_manager_timezone_at : ℕ → Option TimezoneInfo
time_manager_timezone_at index =
    if ltb index (length timezones) then get_elem? timezones index else none
