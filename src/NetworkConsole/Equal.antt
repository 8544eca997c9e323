-- ===== src/NetworkConsole/Equal.antt =====
-- main/network_console.cpp: constant_time_equal is equality.
use Prim.Native.Nat.{bit_xor}
use power.Prelude.{
  ℕ, ◌<◌, ◌≡◌, ◌↔◌, refl, Bool, true, ◌&&◌, List, [], ◌∷◌, ltb, ◌==◌, eqb, bit_or, length, arith,
  all_below, all_below_sound,
}
use power.NetworkConsole.Authenticate.{difference_from, constant_time_equal}

abbrev xor_good : ℕ → ℕ → Bool
xor_good x y = eqb (bit_xor x y == 0) (x == y) && ltb (bit_xor x y) 256

abbrev or_good : ℕ → ℕ → Bool
or_good x y = eqb (bit_or x y == 0) (x == 0 && y == 0) && ltb (bit_or x y) 256

xors_good : all_below 256 (λ x. all_below 256 (xor_good x)) ≡ true
unfolding all_below
xors_good = refl

ors_good : all_below 256 (λ x. all_below 256 (or_good x)) ≡ true
unfolding all_below
ors_good = refl

xor_lem : (x y : ℕ) → x < 256 → y < 256 → xor_good x y ≡ true
xor_lem x y a b =
    all_below_sound 256 (xor_good x) y
      (all_below_sound 256 (λ x. all_below 256 (xor_good x)) x xors_good a) b

or_lem : (x y : ℕ) → x < 256 → y < 256 → or_good x y ≡ true
or_lem x y a b =
    all_below_sound 256 (or_good x) y
      (all_below_sound 256 (λ x. all_below 256 (or_good x)) x ors_good a) b

-- Every number is a byte.
unfoldable pub AreBytes : List ℕ → Type 0
AreBytes [] = Unit {0}
AreBytes (x ∷ xs) = (x < 256) × AreBytes xs

difference_from-zero :
    (xs ys : List ℕ) (d : ℕ)
    → AreBytes xs
    → AreBytes ys
    → length xs ≡ length ys
    → d < 256
    → (difference_from xs ys d ≡ 0) ↔ ((d ≡ 0) × (xs ≡ ys))
unfolding difference_from AreBytes
difference_from-zero [] [] d a b same below = (λ h. (h, refl), λ h. h.0)
difference_from-zero [] (y ∷ ys) d a b same below = absurd (omega arith)
difference_from-zero (x ∷ xs) [] d a b same below = absurd (omega arith)
difference_from-zero (x ∷ xs) (y ∷ ys) d (x_byte, a) (y_byte, b) same below =
    let xor = xor_lem x y x_byte y_byte in
    let xor_byte : bit_xor x y < 256 = ground (arith, xor) in
    let or = or_lem d (bit_xor x y) below xor_byte in
    let or_byte : bit_or d (bit_xor x y) < 256 = ground (arith, or) in
    let rest = difference_from-zero xs ys (bit_or d (bit_xor x y)) a b (omega arith) or_byte in
    ground (arith, xor, or, rest)

pub constant_time_equal_iff :
    (xs ys : List ℕ)
    → AreBytes xs
    → AreBytes ys
    → length xs ≡ length ys
    → (constant_time_equal xs ys ≡ true) ↔ (xs ≡ ys)
unfolding constant_time_equal
constant_time_equal_iff xs ys a b same =
    ground (arith, difference_from-zero xs ys 0 a b same (omega arith))
