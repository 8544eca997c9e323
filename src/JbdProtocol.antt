-- ===== src/JbdProtocol.antt =====
-- main/jbd_protocol.hpp and main/jbd_protocol.cpp: frames of the JBD battery management system.
-- A buffer is a `Memory`, and a pointer that may be null is an option; for the pointers through
-- which results go out, `Out` says whether they are null. A `bool` that tells whether the results
-- were written is an option of the results.
pub mod Find
pub mod Frame
pub mod Bounds
mod Tests
use power.Prelude.{
  ℕ, zero, suc, ◌+◌, ◌-◌, ◌*◌, ◌/◌, ◌%◌, ◌^◌, Bool, true, false, ◌&&◌, ◌||◌, not, Option, none,
  some, List, [], ◌∷◌, ltb, ◌==◌, if◌then◌else◌, get_elem?, Text, codes,
}
use power.Prelude.Int.{ℤ, pos, sub_ℕ}
use power.Prelude.Float.{Float, of_nat}
use power.Prelude.Memory.{Memory, shift}

abbrev pub jbd_basic_info_command : ℕ
jbd_basic_info_command = 0x03

abbrev pub jbd_cell_info_command : ℕ
jbd_cell_info_command = 0x04

abbrev pub jbd_max_cells : ℕ
jbd_max_cells = 32

abbrev pub jbd_protection_cell_undervoltage : ℕ
jbd_protection_cell_undervoltage = 0x0002

-- A pointer that a result is written through.
pub data Out : Type 0 where
  null_out given : Out

pub record JbdBasicInfo (F : Type 0) : Type 0 where
  pub voltage_v : F
  pub current_a : F
  pub residual_ah : F
  pub nominal_ah : F
  pub cycle_count : ℕ
  pub protection_status : ℕ
  pub version : ℕ
  pub soc_percent : ℕ
  pub fet_status : ℕ
  pub cell_count : ℕ
  pub ntc_count : ℕ
  pub temperature_valid : Bool
  pub average_temperature_c : F

-- The list holds the first `count` entries of `voltage_mv`; the others are zero.
pub record JbdCellInfo : Type 0 where
  pub count : ℕ
  pub voltage_mv : List ℕ

-- The bytes are below 256, so `hi << 8 | lo` is a sum.
abbrev pub read_be16 : Memory → ℕ
read_be16 data_ = (data_ 0 * 256 + data_ 1) % 2 ^ 16

-- The cast to int16_t: bit patterns from 2^15 on stand for negative numbers.
unfoldable pub read_be16_signed : Memory → ℤ
read_be16_signed data_ =
    let raw = read_be16 data_ in if ltb raw (2 ^ 15) then pos raw else sub_ℕ raw (2 ^ 16)

-- The loop of `jbd_checksum` from index `i`, with the rounds left.
unfoldable pub sum_from : Memory → ℕ → ℕ → ℕ → ℕ
sum_from data_ zero i sum = sum
sum_from data_ (suc left) i sum = sum_from data_ left (i + 1) ((sum + data_ i) % 2 ^ 16)

unfoldable pub jbd_checksum : Memory → ℕ → ℕ
unfolding sum_from
jbd_checksum data_ length = (2 ^ 16 - sum_from data_ length 0 0) % 2 ^ 16

unfoldable pub checksum_matches : Memory → ℕ → Bool
checksum_matches frame data_len =
    let received = read_be16 (shift frame (4 + data_len)) in
    if received == jbd_checksum (shift frame 2) (data_len + 2)
    then true
    else received == jbd_checksum (shift frame 1) (data_len + 3)

-- The frame is not null here.
unfoldable pub valid_frame : Memory → ℕ → ℕ → Bool
valid_frame frame length command =
    if ltb length 7 || not (frame 0 == 0xdd) || not (frame 1 == command)
    then false
    else let data_len = frame 3 in
      let expected_length = data_len + 7 in
      length == expected_length
      && frame (expected_length - 1) == 0x77
      && checksum_matches frame data_len

-- The loop of `jbd_find_packet` from index `i`, with the rounds left.
unfoldable pub find_from : Memory → ℕ → ℕ → ℕ → ℕ → Option (ℕ × ℕ)
find_from data_ length expected_command zero i = none
find_from data_ length expected_command (suc left) i =
    let continue = find_from data_ length expected_command left (i + 1) in
    if not (data_ i == 0xdd)
    then continue
    else if ltb (length - i) 7
    then none
    else if not (data_ (i + 1) == expected_command)
    then continue
    else let total_len = data_ (i + 3) + 7 in
      if ltb (length - i) total_len
      then none
      else if not (valid_frame (shift data_ i) total_len expected_command)
      then continue
      else some (i, total_len)

-- The offset and the length of the packet.
unfoldable pub jbd_find_packet : Option Memory → ℕ → ℕ → Out → Out → Option (ℕ × ℕ)
unfolding find_from
jbd_find_packet none length expected_command offset packet_len = none
jbd_find_packet (some data_) length expected_command null_out packet_len = none
jbd_find_packet (some data_) length expected_command given null_out = none
jbd_find_packet (some data_) length expected_command given given =
    find_from data_ length expected_command length 0

module _ {F : Type 0} (f : Float F) where
  open f use {of_int, add, div}

  -- The loop over the temperature sensors from sensor `i`, with the rounds left.
  unfoldable pub temperature_from : Memory → ℕ → ℕ → F → F
  temperature_from frame zero i acc = acc
  temperature_from frame (suc left) i acc =
      temperature_from frame left (i + 1)
        (add acc (div (of_int (sub_ℕ (read_be16 (shift frame (27 + i * 2))) 2731)) (of_nat f 10)))

  unfoldable pub read_basic_info : Memory → ℕ → JbdBasicInfo F
  unfolding temperature_from read_be16_signed
  read_basic_info frame ntc_count =
      let sum = temperature_from frame ntc_count 0 (of_nat f 0) in
      record {
        voltage_v = div (of_nat f (read_be16 (shift frame 4))) (of_nat f 100);
        current_a = div (of_int (read_be16_signed (shift frame 6))) (of_nat f 100);
        residual_ah = div (of_nat f (read_be16 (shift frame 8))) (of_nat f 100);
        nominal_ah = div (of_nat f (read_be16 (shift frame 10))) (of_nat f 100);
        cycle_count = read_be16 (shift frame 12);
        protection_status = read_be16 (shift frame 20);
        version = frame 22;
        soc_percent = frame 23;
        fet_status = frame 24;
        cell_count = frame 25;
        ntc_count = ntc_count;
        temperature_valid = ltb 0 ntc_count;
        average_temperature_c = if ltb 0 ntc_count then div sum (of_nat f ntc_count) else sum;
      }

  unfoldable pub jbd_parse_basic_info : Option Memory → ℕ → Out → Option (JbdBasicInfo F)
  unfolding read_basic_info
  jbd_parse_basic_info none length info = none
  jbd_parse_basic_info (some frame) length null_out = none
  jbd_parse_basic_info (some frame) length given =
      if not (valid_frame frame length jbd_basic_info_command)
        || not (frame 2 == 0x00)
        || ltb (frame 3) 23
      then none
      else let ntc_count = frame 26 in
        if ltb (frame 3) (23 + ntc_count * 2) then none else some (read_basic_info frame ntc_count)

-- The cell voltages from cell `i` on, with the rounds left.
unfoldable pub cells_from : Memory → ℕ → ℕ → List ℕ
cells_from frame zero i = []
cells_from frame (suc left) i = read_be16 (shift frame (4 + i * 2)) ∷ cells_from frame left (i + 1)

unfoldable pub jbd_parse_cell_info : Option Memory → ℕ → ℕ → Out → Option JbdCellInfo
unfolding cells_from
jbd_parse_cell_info none length expected_cell_count info = none
jbd_parse_cell_info (some frame) length expected_cell_count null_out = none
jbd_parse_cell_info (some frame) length expected_cell_count given =
    if not (valid_frame frame length jbd_cell_info_command) || not (frame 2 == 0x00)
    then none
    else let data_len = frame 3 in
      if ltb data_len 2 || ltb (jbd_max_cells * 2) data_len || not (data_len % 2 == 0)
      then none
      else let count = data_len / 2 in
        if expected_cell_count == 0 || not (count == expected_cell_count)
        then none
        else some (record { count = count; voltage_mv = cells_from frame count 0 })

abbrev pub descriptions : List Text
descriptions =
    codes "cell overvoltage"
    ∷ codes "cell undervoltage"
    ∷ codes "pack overvoltage"
    ∷ codes "pack undervoltage"
    ∷ codes "charge overtemperature"
    ∷ codes "charge undertemperature"
    ∷ codes "discharge overtemperature"
    ∷ codes "discharge undertemperature"
    ∷ codes "charge overcurrent"
    ∷ codes "discharge overcurrent"
    ∷ codes "short circuit"
    ∷ codes "front-end IC error"
    ∷ codes "charge/discharge FET locked by configuration"
    ∷ []

unfoldable pub jbd_protection_description : ℕ → Option Text
jbd_protection_description bit = if ltb bit 13 then get_elem? descriptions bit else none
