-- ===== src/RelayManager/Registers.antt =====
-- The output register of the TCA9554, as main/relay_manager.cpp changes it.
use power.Prelude.{
  ℕ, ◌/◌, ◌%◌, ◌^◌, ◌<◌, ◌≡◌, refl, Bool, true, false, ◌&&◌, ltb, ◌==◌, if◌then◌else◌, all_below,
  all_below_sound, arith,
}
use power.RelayManager.{write_bit}

-- Bit `channel` of a register.
abbrev pub bit : ℕ → ℕ → ℕ
bit register channel = register / 2 ^ channel % 2

abbrev writes : ℕ → ℕ → ℕ → Bool → Bool
writes register channel other high =
    ltb (write_bit register channel high) 256
    && bit (write_bit register channel high) other
      == (if channel == other then (if high then 1 else 0) else bit register other)

abbrev both : ℕ → ℕ → ℕ → Bool
both register channel other =
    writes register channel other true && writes register channel other false

write_table : all_below 256 (λ r. all_below 8 (λ c. all_below 8 (both r c))) ≡ true
unfolding all_below write_bit
write_table = refl

-- A write of one bit leaves a byte in which that bit has the new value and the others the old.
pub write_bit_lem :
    (register channel other : ℕ) (high : Bool)
    → register < 256
    → channel < 8
    → other < 8
    → (write_bit register channel high < 256)
      × (bit (write_bit register channel high) other
          ≡ (if channel == other then (if high then 1 else 0) else bit register other))
write_bit_lem r c d high hr hc hd =
    let found : both r c d ≡ true =
      all_below_sound 8 (both r c) d
        (all_below_sound 8 (λ c. all_below 8 (both r c)) c
          (all_below_sound 256 (λ r. all_below 8 (λ c. all_below 8 (both r c))) r write_table hr)
          hc)
        hd in
    by_level high found
  where
    by_level :
        (high : Bool)
        → both r c d ≡ true
        → (write_bit r c high < 256)
          × (bit (write_bit r c high) d ≡ (if c == d then (if high then 1 else 0) else bit r d))
    by_level true h = ground arith
    by_level false h = ground arith
