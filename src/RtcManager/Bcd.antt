-- ===== src/RtcManager/Bcd.antt =====
-- The binary-coded decimals of main/rtc_manager.cpp.
use power.Prelude.{
  ℕ, ◌<◌, ◌≡◌, refl, bit_and, Bool, true, false, none, some, ◌==◌, arith, ==_iff, all_below,
  all_below_sound,
}
use power.RtcManager.{to_bcd, from_bcd}

-- The values below `n` come back through the mask, and their byte is below 2^7 there.
abbrev returns : ℕ → ℕ → Bool
returns mask v = elim (from_bcd (to_bcd v) mask) [ none ↦ false | some w ↦ w == v ]

returns_iff : (mask v : ℕ) → returns mask v ≡ true → from_bcd (to_bcd v) mask ≡ some v
returns_iff mask v h = ground arith

seconds_table : all_below 80 (returns 0x7f) ≡ true
unfolding all_below to_bcd from_bcd
seconds_table = refl

hours_table : all_below 40 (returns 0x3f) ≡ true
unfolding all_below to_bcd from_bcd
hours_table = refl

weekdays_table : all_below 8 (returns 0x07) ≡ true
unfolding all_below to_bcd from_bcd
weekdays_table = refl

months_table : all_below 20 (returns 0x1f) ≡ true
unfolding all_below to_bcd from_bcd
months_table = refl

years_table : all_below 100 (returns 0xff) ≡ true
unfolding all_below to_bcd from_bcd
years_table = refl

module _ (v : ℕ) where
  -- Through each mask that the clock's registers have, the decimals that fit its bits come back.
  pub from_bcd-to_bcd :
      (v < 80 → from_bcd (to_bcd v) 0x7f ≡ some v)
      × (v < 40 → from_bcd (to_bcd v) 0x3f ≡ some v)
      × (v < 8 → from_bcd (to_bcd v) 0x07 ≡ some v)
      × (v < 20 → from_bcd (to_bcd v) 0x1f ≡ some v)
      × (v < 100 → from_bcd (to_bcd v) 0xff ≡ some v)
  from_bcd-to_bcd = (
    λ h. returns_iff 0x7f v (all_below_sound 80 (returns 0x7f) v seconds_table h),
    λ h. returns_iff 0x3f v (all_below_sound 40 (returns 0x3f) v hours_table h),
    λ h. returns_iff 0x07 v (all_below_sound 8 (returns 0x07) v weekdays_table h),
    λ h. returns_iff 0x1f v (all_below_sound 20 (returns 0x1f) v months_table h),
    λ h. returns_iff 0xff v (all_below_sound 100 (returns 0xff) v years_table h),
  )

abbrev no_stop : ℕ → Bool
no_stop v = bit_and (to_bcd v) 0x80 == 0

stop_table : all_below 80 no_stop ≡ true
unfolding all_below to_bcd
stop_table = refl

-- The decimals of a second do not touch the bit of the stopped oscillator.
pub to_bcd-stop : (v : ℕ) → v < 80 → bit_and (to_bcd v) 0x80 ≡ 0
to_bcd-stop v h = (==_iff _ 0).0 (all_below_sound 80 no_stop v stop_table h)
