-- ===== src/Prelude/Bits.antt =====
-- One bit of the bitwise operations at variables.
use Prim.Native.Nat.{
  ℕ, zero, suc, ◌+◌, ◌*◌, ◌/◌, ◌%◌, ◌≤◌, min, max, bit_and, bit_or, digits, bitwise,
  bit_and-bitwise, bit_or-bitwise,
}
use mathlib.Core.Path.{◌≡◌, refl, ◌∙◌}
use mathlib.Core.Bool.{◌&&◌}
use native.Mathlib.Omega.{arith}
use power.Prelude.Tests.{◌==◌}

module _ (ended : ℕ → ℕ) (digit : ℕ → ℕ → ℕ) where
  -- More rounds than digits change nothing.
  digits-enough :
      (n m a b : ℕ) → a ≤ n → a ≤ m → digits ended digit n a b ≡ digits ended digit m a b
  digits-enough zero zero a b p q = refl
  digits-enough zero (suc m) zero b p q = refl
  digits-enough zero (suc m) (suc a) b p q = absurd (omega arith)
  digits-enough (suc n) zero zero b p q = refl
  digits-enough (suc n) zero (suc a) b p q = absurd (omega arith)
  digits-enough (suc n) (suc m) zero b p q = refl
  digits-enough (suc n) (suc m) (suc a) b p q =
      omega (arith, digits-enough n m (suc a / 2) (b / 2) (omega arith) (omega arith))

  -- The lowest digit apart.
  bitwise-halves :
      (a b : ℕ)
      → ended b ≡ ended (b / 2) * 2 + digit 0 (b % 2)
      → bitwise ended digit a b ≡ bitwise ended digit (a / 2) (b / 2) * 2 + digit (a % 2) (b % 2)
  bitwise-halves zero b h = h
  bitwise-halves (suc a) b h =
      omega (arith, digits-enough a (suc a / 2) (suc a / 2) (b / 2) (omega arith) (omega arith))

bit_or-halves : (a b : ℕ) → bit_or a b ≡ bit_or (a / 2) (b / 2) * 2 + max (a % 2) (b % 2)
bit_or-halves a b = omega (
  arith,
  bit_or-bitwise a b,
  bit_or-bitwise (a / 2) (b / 2),
  bitwise-halves (λ b. b) max a b (omega arith),
)

bit_and-halves : (a b : ℕ) → bit_and a b ≡ bit_and (a / 2) (b / 2) * 2 + min (a % 2) (b % 2)
bit_and-halves a b = omega (
  arith,
  bit_and-bitwise a b,
  bit_and-bitwise (a / 2) (b / 2),
  bitwise-halves (λ b. zero) min a b (omega arith),
)

digits-none : (n a : ℕ) → digits (λ b. zero) min n a 0 ≡ 0
digits-none zero a = refl
digits-none (suc n) zero = refl
digits-none (suc n) (suc a) = omega (arith, digits-none n (suc a / 2))

bit_and-none : (a : ℕ) → bit_and a 0 ≡ 0
bit_and-none a = bit_and-bitwise a 0 ∙ digits-none a a

bit_and-two : (a : ℕ) → bit_and a 2 ≡ a / 2 % 2 * 2
bit_and-two a =
    omega (arith, bit_and-halves a 2, bit_and-halves (a / 2) 1, bit_and-none (a / 2 / 2))

-- The bit of value 2 is clear in a union exactly when it is clear in both.
pub bit_and-bit_or_two :
    (a b : ℕ) → (bit_and (bit_or a b) 2 == 0) ≡ ((bit_and a 2 == 0) && (bit_and b 2 == 0))
bit_and-bit_or_two a b = ground (
  arith,
  bit_and-two a,
  bit_and-two b,
  bit_and-two (bit_or a b),
  bit_or-halves a b,
  bit_or-halves (a / 2) (b / 2),
)
