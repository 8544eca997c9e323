-- ===== src/BatteryScanner/Candidates.antt =====
-- main/battery_scanner.cpp: the batteries and the reports that a scan has seen. The arrays with
-- their counts are lists; an RSSI is a number.
use power.Prelude.{
  c_string, ℕ, ◌-◌, Bool, true, false, ◌&&◌, ◌||◌, Option, none, some, List, [], ◌∷◌, ◌++◌, ltb,
  leb, ◌==◌, if◌then◌else◌, length, take, Text,
}
use power.Prelude.Int.{ℤ}
use power.BatteryStore.{battery_store_valid_name}
use power.BatteryScanner.{BleAddr, same_addr, seen_devices_max}

pub record SeenReport : Type 0 where
  pub addr : BleAddr
  pub event_type : ℕ

pub record BatteryCandidate : Type 0 where
  pub addr : BleAddr
  pub rssi : ℤ
  pub name : Text

abbrev pub is_seen : BleAddr → ℕ → SeenReport → Bool
is_seen addr event_type r = same_addr r.addr addr && r.event_type == event_type

abbrev pub has_report : List SeenReport → BleAddr → ℕ → Bool
has_report [] addr event_type = false
has_report (r ∷ rs) addr event_type = is_seen addr event_type r || has_report rs addr event_type

-- The reports, and whether this one is new.
unfoldable pub mark_seen_report : List SeenReport → BleAddr → ℕ → List SeenReport × Bool
mark_seen_report reports addr event_type =
    if has_report reports addr event_type
    then (reports, false)
    else if ltb (length reports) seen_devices_max
    then (reports ++ (record { addr = addr; event_type = event_type } ∷ []), true)
    else (reports, true)

-- isgraph(ch) and at most '~', in the C locale
unfoldable pub is_graphic_ascii : ℕ → Bool
is_graphic_ascii ch = leb b'!' ch && leb ch b'~'

abbrev pub trim_start : List ℕ → List ℕ
trim_start [] = []
trim_start (c ∷ rest) =
    let trimmed = trim_start rest in if is_graphic_ascii c then c ∷ rest else trimmed

abbrev pub trim_more : ℕ → List ℕ → List ℕ
trim_more c [] = if is_graphic_ascii c then c ∷ [] else []
trim_more c (d ∷ ds) = c ∷ (d ∷ ds)

-- Without the characters at the end that are not graphic.
abbrev pub trim_end : List ℕ → List ℕ
trim_end [] = []
trim_end (c ∷ rest) = trim_more c (trim_end rest)

-- The text in `out`, which has `out_size` bytes, and the result.
unfoldable pub copy_trimmed_adv_name : Option (List ℕ) → ℕ → Text × Bool
copy_trimmed_adv_name none out_size = ([], false)
copy_trimmed_adv_name (some name) out_size =
    let out = c_string (take (out_size - 1) (trim_end (trim_start name))) in
    if ltb 0 out_size then (out, battery_store_valid_name (some out)) else ([], false)

abbrev pub renamed : BatteryCandidate → ℤ → Option Text → BatteryCandidate
renamed c rssi none = record c { rssi = rssi }
renamed c rssi (some name) = record c { rssi = rssi; name = name }

abbrev pub has_candidate : List BatteryCandidate → BleAddr → Bool
has_candidate [] addr = false
has_candidate (c ∷ cs) addr = same_addr c.addr addr || has_candidate cs addr

abbrev pub update_candidate :
    List BatteryCandidate → BleAddr → ℤ → Option Text → List BatteryCandidate
update_candidate [] addr rssi name = []
update_candidate (c ∷ cs) addr rssi name =
    let rest = update_candidate cs addr rssi name in
    if same_addr c.addr addr then renamed c rssi name ∷ cs else c ∷ rest

abbrev pub given_name : Text × Bool → Option Text
given_name (name, true) = some name
given_name (name, false) = none

-- The candidates, and whether this one is new; the name has 31 characters at most.
unfoldable pub mark_candidate :
    List BatteryCandidate → BleAddr → ℤ → Option (List ℕ) → List BatteryCandidate × Bool
mark_candidate cs addr rssi adv_name =
    let name = given_name (copy_trimmed_adv_name adv_name 32) in
    if has_candidate cs addr
    then (update_candidate cs addr rssi name, false)
    else if ltb (length cs) seen_devices_max
    then (cs ++ (renamed (record { addr = addr; rssi = rssi; name = [] }) rssi name ∷ []), true)
    else (cs, true)
