-- ===== src/BatteryScanner/Adv.antt =====
-- main/battery_scanner.cpp: parse_raw_adv_summary. The bytes of an advertisement are a list, whose
-- length is the argument `length`; a pointer into them, with its length, is the list of the bytes
-- there. The types of the fields are the numbers that Bluetooth assigns.
use power.Prelude.{
  ℕ, zero, suc, ◌+◌, ◌*◌, Bool, true, false, ◌||◌, Option, none, some, List, [], ◌∷◌, ltb, ◌==◌,
  if◌then◌else◌, length, take, drop,
}
use power.BatteryScanner.{jbd_service_uuid}

pub record AdvSummary : Type 0 where
  pub has_jbd_service : Bool
  pub uuids16 : Option (List ℕ)
  pub sol_uuids16 : Option (List ℕ)
  pub name : Option (List ℕ)
  pub name_complete : Bool
  pub svc_data_uuid16 : Option (List ℕ)
  pub mfg_data : Option (List ℕ)

abbrev pub empty_summary : AdvSummary
empty_summary = record {
  has_jbd_service = false;
  uuids16 = none;
  sol_uuids16 = none;
  name = none;
  name_complete = false;
  svc_data_uuid16 = none;
  mfg_data = none;
}

abbrev pub incomp_uuids16 : ℕ
incomp_uuids16 = 0x02

abbrev pub comp_uuids16 : ℕ
comp_uuids16 = 0x03

abbrev pub incomp_name : ℕ
incomp_name = 0x08

abbrev pub comp_name : ℕ
comp_name = 0x09

abbrev pub sol_uuids16_type : ℕ
sol_uuids16_type = 0x14

abbrev pub svc_data_uuid16_type : ℕ
svc_data_uuid16_type = 0x16

abbrev pub mfg_data_type : ℕ
mfg_data_type = 0xff

-- The two bytes at the start; bytes are below 256.
abbrev pub uuid16_from_le : ℕ → ℕ → ℕ
uuid16_from_le low high = low + 256 * high

-- A byte that is left over at the end is not read.
unfoldable pub uuid16_field_has_service : List ℕ → ℕ → Bool
uuid16_field_has_service [] uuid = false
uuid16_field_has_service (low ∷ []) uuid = false
uuid16_field_has_service (low ∷ (high ∷ rest)) uuid =
    uuid16_from_le low high == uuid || uuid16_field_has_service rest uuid

unfoldable pub starts_with_service : List ℕ → ℕ → Bool
starts_with_service (low ∷ (high ∷ rest)) uuid = uuid16_from_le low high == uuid
starts_with_service (low ∷ []) uuid = false
starts_with_service [] uuid = false

-- The switch over the type of a field.
unfoldable pub see_field : AdvSummary → ℕ → List ℕ → AdvSummary
see_field s type field_data =
    if type == incomp_uuids16 || type == comp_uuids16
    then record s {
      uuids16 = some field_data;
      has_jbd_service = uuid16_field_has_service field_data jbd_service_uuid || s.has_jbd_service;
    }
    else if type == sol_uuids16_type
    then record s {
      sol_uuids16 = some field_data;
      has_jbd_service = uuid16_field_has_service field_data jbd_service_uuid || s.has_jbd_service;
    }
    else if type == svc_data_uuid16_type
    then record s {
      svc_data_uuid16 = some field_data;
      has_jbd_service = starts_with_service field_data jbd_service_uuid || s.has_jbd_service;
    }
    else if type == incomp_name || type == comp_name
    then record s { name = some field_data; name_complete = type == comp_name }
    else if type == mfg_data_type
    then record s { mfg_data = some field_data }
    else s

-- The loop, on the bytes from the offset on; each round takes two of them at least, so as many
-- rounds as there are bytes are enough.
unfoldable pub parse_from : ℕ → List ℕ → AdvSummary → AdvSummary × Bool
parse_from rounds [] s = (s, true)
parse_from zero (field_length ∷ rest) s = (s, true)
parse_from (suc rounds) (zero ∷ rest) s = (s, true)
parse_from (suc rounds) (suc data_len ∷ []) s = (s, false)
parse_from (suc rounds) (suc data_len ∷ (type ∷ rest)) s =
    let next = parse_from rounds (drop data_len rest) (see_field s type (take data_len rest)) in
    if data_len == 0 || ltb (length rest) data_len then (s, false) else next

-- The summary, and whether it is complete.
unfoldable pub parse_raw_adv_summary : List ℕ → Bool → Option AdvSummary × Bool
parse_raw_adv_summary bytes false = (none, false)
parse_raw_adv_summary bytes true =
    let (s, complete) = parse_from (length bytes) bytes empty_summary in (some s, complete)
