-- ===== src/RtcManager/Device.antt =====
-- Setting and reading the clock of main/rtc_manager.cpp.
use power.Prelude.{
  ℕ, zero, suc, ◌+◌, ◌-◌, ◌/◌, ◌%◌, Bool, ◌==◌, all_below, all_below_sound, ◌^◌, ◌≤◌, ◌<◌, ◌≡◌,
  refl, true, false, ◌&&◌, ltb, leb, if◌then◌else◌, arith, get_or, length, List, [], ◌∷◌, ok, some,
  bit_or,
}
use power.BoardConfig.{RtcHardwareConfig}
use power.RtcManager.{
  RtcDateTime, days_table, days_in_month, rtc_weekday, rtc_datetime_valid, decode, encode,
  register_field, from_bcd, Bus, write_registers, read_datetime_unlocked, set_stopped,
  set_datetime_unlocked, adjust_control, confirms, seconds_register, control1_register,
  control1_stop,
}
use power.RtcManager.Bcd.{from_bcd-to_bcd, to_bcd-stop}

-- The date with the weekday that the clock is given for it, on a running oscillator.
abbrev pub stored : RtcDateTime → RtcDateTime
stored v = record v { weekday = rtc_weekday v.year v.month v.day; oscillator_stopped = false }

field-lem :
    (registers : List ℕ) (i mask v : ℕ)
    → from_bcd (get_or registers i 0) mask ≡ some v
    → register_field registers i mask ≡ ok v
unfolding register_field
field-lem registers i mask v h = rw (h, register_field)

-- The parts of a valid date are in the ranges of their registers.
record InRange (v : RtcDateTime) : Type 0 where
  year_from : 2000 ≤ v.year
  year_to : v.year ≤ 2099
  month_to : v.month ≤ 12
  day_to : v.day ≤ 31
  hour_to : v.hour ≤ 23
  minute_to : v.minute ≤ 59
  second_to : v.second ≤ 59

days_table-le : (i : ℕ) → get_or days_table i 0 ≤ 31
days_table-le zero = omega arith
days_table-le (suc zero) = omega arith
days_table-le (suc (suc zero)) = omega arith
days_table-le (suc (suc (suc zero))) = omega arith
days_table-le (suc (suc (suc (suc zero)))) = omega arith
days_table-le (suc (suc (suc (suc (suc zero))))) = omega arith
days_table-le (suc (suc (suc (suc (suc (suc zero)))))) = omega arith
days_table-le (suc (suc (suc (suc (suc (suc (suc i))))))) = rest i
  where
    rest : (i : ℕ) → get_or (31 ∷ 30 ∷ 31 ∷ 30 ∷ 31 ∷ []) i 0 ≤ 31
    rest zero = omega arith
    rest (suc zero) = omega arith
    rest (suc (suc zero)) = omega arith
    rest (suc (suc (suc zero))) = omega arith
    rest (suc (suc (suc (suc zero)))) = omega arith
    rest (suc (suc (suc (suc (suc i))))) = omega arith

days_in_month-le : (year month : ℕ) → days_in_month year month ≤ 31
unfolding days_in_month
days_in_month-le year month = ground (arith, days_table-le (month - 1))

valid-InRange : (v : RtcDateTime) → rtc_datetime_valid v ≡ true → InRange v
unfolding rtc_datetime_valid
valid-InRange v h = ground (arith, days_in_month-le v.year v.month)

rtc_weekday-lt : (year month day : ℕ) → rtc_weekday year month day < 7
unfolding rtc_weekday
rtc_weekday-lt year month day = omega arith

valid-stored : (v : RtcDateTime) → rtc_datetime_valid (stored v) ≡ rtc_datetime_valid v
unfolding rtc_datetime_valid
valid-stored v = refl

-- The registers of a valid date are read back as that date.
decode-encode : (v : RtcDateTime) → rtc_datetime_valid v ≡ true → decode (encode v) ≡ ok (stored v)
unfolding decode encode
decode-encode v h =
    let r = valid-InRange v h in
    let w = rtc_weekday v.year v.month v.day in
    let byte = (v.year + 2 ^ 16 - 2000) % 2 ^ 8 in
    let year : 2000 + byte ≡ v.year = omega arith in
    rw
      (
        field-lem (unfold encode in encode v) 0 0x7f v.second
            ((from_bcd-to_bcd v.second).0 (omega arith)),
        field-lem (unfold encode in encode v) 1 0x7f v.minute
            ((from_bcd-to_bcd v.minute).0 (omega arith)),
        field-lem (unfold encode in encode v) 2 0x3f v.hour
            ((from_bcd-to_bcd v.hour).1 (omega arith)),
        field-lem (unfold encode in encode v) 3 0x3f v.day
            ((from_bcd-to_bcd v.day).1 (omega arith)),
        field-lem (unfold encode in encode v) 4 0x07 w
            ((from_bcd-to_bcd w).2 (omega (arith, rtc_weekday-lt v.year v.month v.day))),
        field-lem (unfold encode in encode v) 5 0x1f v.month
            ((from_bcd-to_bcd v.month).3 (omega arith)),
        field-lem (unfold encode in encode v) 6 0xff byte ((from_bcd-to_bcd byte).4 (omega arith)),
        year,
        to_bcd-stop v.second (omega arith),
      )
      (ground (arith, valid-stored v, rtc_weekday-lt v.year v.month v.day))

-- The bits of an adjusted control byte, as a test.
abbrev adjusts : RtcHardwareConfig → ℕ → Bool
adjusts hardware old =
    let new = adjust_control hardware old in
    new / 2 % 2 == 0
    && new % 2 == (if hardware.capacitor_12_5_pf then 1 else 0)
    && new / 4 == old / 4

abbrev with_capacitor : RtcHardwareConfig → Bool → RtcHardwareConfig
with_capacitor hardware large = record hardware { capacitor_12_5_pf = large }

adjusts_table :
    (hardware : RtcHardwareConfig) (large : Bool)
    → all_below 256 (adjusts (with_capacitor hardware large)) ≡ true
unfolding all_below adjust_control
adjusts_table hardware true = refl
adjusts_table hardware false = refl

adjust_control-bits :
    (hardware : RtcHardwareConfig) (old : ℕ)
    → old < 256
    → let new = adjust_control hardware old in
      (new / 2 % 2 ≡ 0)
      × (new % 2 ≡ (if hardware.capacitor_12_5_pf then 1 else 0))
      × (new / 4 ≡ old / 4)
adjust_control-bits hardware old h =
    let all =
      all_below_sound 256 (adjusts hardware) old (adjusts_table hardware hardware.capacitor_12_5_pf)
        h in
    ground (arith, all)

-- The `n` registers from `start` on.
abbrev pub window : (ℕ → ℕ) → ℕ → ℕ → List ℕ
window f start zero = []
window f start (suc n) = f start ∷ window f (start + 1) n

-- A chip that answers and holds what was written to it.
pub record IsMemory {Chip : Type 0} (bus : Bus Chip) : Type 0 where
  pub contents : Chip → ℕ → ℕ
  pub reads : (c : Chip) (start n : ℕ) → bus.read c start n ≡ ok (window (contents c) start n)
  pub answers : (c : Chip) (start : ℕ) (bytes : List ℕ) → (bus.write c start bytes).1 ≡ ok tt
  pub writes :
      (c : Chip) (start : ℕ) (bytes : List ℕ) (r : ℕ)
      → contents (bus.write c start bytes).0 r ≡ (
          if leb start r && ltb r (start + length bytes)
          then get_or bytes (r - start) 0
          else contents c r)

module _ {Chip : Type 0} (bus : Bus Chip) (mem : IsMemory bus) (hardware : RtcHardwareConfig) where
  timed : Chip → RtcDateTime → Chip
  timed c v = (bus.write c seconds_register (encode v)).0

  restarted : Chip → ℕ → RtcDateTime → Chip
  restarted c k v = (bus.write (timed c v) control1_register (k ∷ [])).0

  restarted-window :
      (c : Chip) (k : ℕ) (v : RtcDateTime)
      → window (mem.contents (restarted c k v)) seconds_register 7 ≡ encode v
  unfolding restarted timed encode
  restarted-window c k v = simp mem.writes

  restarted-control :
      (c : Chip) (k : ℕ) (v : RtcDateTime) → mem.contents (restarted c k v) control1_register ≡ k
  unfolding restarted
  restarted-control c k v = simp mem.writes

  confirms-stored : (v : RtcDateTime) → confirms (stored v) v ≡ true
  confirms-stored v = ground arith

  restarted-read :
      (c : Chip) (k : ℕ) (v : RtcDateTime)
      → rtc_datetime_valid v ≡ true
      → read_datetime_unlocked bus (restarted c k v) ≡ ok (stored v)
  unfolding read_datetime_unlocked
  restarted-read c k v h =
      rw (mem.reads (restarted c k v) seconds_register 7, restarted-window c k v)
        (decode-encode v h)

  set_stopped-lem :
      (c : Chip) (k : ℕ) (v : RtcDateTime)
      → rtc_datetime_valid v ≡ true
      → set_stopped bus c k v ≡ (restarted c k v, ok tt)
  unfolding set_stopped write_registers restarted timed encode
  set_stopped-lem c k v h = rw (
    mem.answers c seconds_register (encode v),
    mem.answers (timed c v) control1_register (k ∷ []),
    restarted-read c k v h,
    confirms-stored v,
  )

  -- The date and the control byte that are left.
  pub set_datetime_unlocked-stores :
      (chip : Chip) (v : RtcDateTime)
      → rtc_datetime_valid v ≡ true
      → let (chip', result) = set_datetime_unlocked bus hardware chip v in
        (result ≡ ok tt)
        × (read_datetime_unlocked bus chip' ≡ ok (stored v))
        × (mem.contents chip' control1_register
            ≡ adjust_control hardware (mem.contents chip control1_register))
  unfolding set_datetime_unlocked write_registers
  set_datetime_unlocked-stores chip v h =
      let k = adjust_control hardware (mem.contents chip control1_register) in
      let stop = bit_or k control1_stop ∷ [] in
      let halted = (bus.write chip control1_register stop).0 in
      rw
        (
          mem.reads chip control1_register 1,
          mem.answers chip control1_register stop,
          set_stopped-lem halted k v h,
          set_datetime_unlocked,
        )
        (refl, restarted-read halted k v h, restarted-control halted k v)

  -- On a chip that answers and holds what was written, and whose control register is below 256,
  -- setting a valid date succeeds. The date is read back with its weekday and a running oscillator.
  -- The clock is then in the 24-hour mode (bit 1 is clear), bit 0 selects the capacitor of the
  -- board, and the six other bits are as before; so STOP (bit 5) is set afterwards exactly if it
  -- was.
  pub set_datetime_unlocked-read :
      (chip : Chip) (v : RtcDateTime)
      → rtc_datetime_valid v ≡ true
      → mem.contents chip control1_register < 256
      → let (chip', result) = set_datetime_unlocked bus hardware chip v in
        let old = mem.contents chip control1_register in
        let new = mem.contents chip' control1_register in
        (result ≡ ok tt)
        × (read_datetime_unlocked bus chip' ≡ ok (stored v))
        × (new / 2 % 2 ≡ 0)
        × (new % 2 ≡ (if hardware.capacitor_12_5_pf then 1 else 0))
        × (new / 4 ≡ old / 4)
        × (new / 32 % 2 ≡ old / 32 % 2)
  set_datetime_unlocked-read chip v h byte =
      let (done, read, control) = set_datetime_unlocked-stores chip v h in
      let (mode, capacitor, others) =
        adjust_control-bits hardware (mem.contents chip control1_register) byte in
      rw control (done, read, mode, capacitor, others, omega (arith, others))
