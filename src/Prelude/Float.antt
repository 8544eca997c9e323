-- ===== src/Prelude/Float.antt =====
-- The C++ `float`: a type and the operations that the firmware applies to it, as parameters.
use mathlib.Core.Bool.{Bool}
use power.Prelude.Int.{ℤ, pos}
use Prim.Native.Nat.{ℕ}

pub record Float (F : Type 0) : Type 0 where
  pub of_int : ℤ → F
  pub add : F → F → F
  pub sub : F → F → F
  pub div : F → F → F
  pub lt : F → F → Bool

-- A literal such as `100.0f`, and an unsigned integer converted to `float`.
abbrev pub of_nat : {F : Type 0} → Float F → ℕ → F
of_nat f n = f.of_int (pos n)
