-- ===== src/Checksum/RoundTrip.antt =====
-- Digests to text and back (main/checksum.cpp).
use power.Prelude.{
  ℕ, zero, suc, ◌*◌, ◌/◌, ◌%◌, ◌<◌, ◌≡◌, refl, ap, Bool, true, false, none, some, List, [], ◌∷◌,
  ◌==◌, arith, length, take, Text, all_below, all_below_sound,
}
use power.Checksum.{
  hex_value, hex_digit, hex_of, parse_pairs, checksum_bytes_to_hex, checksum_parse_sha1_hex,
}

abbrev pub AreOctets : List ℕ → Type 0
AreOctets [] = Unit {0}
AreOctets (b ∷ bs) = (b < 256) × AreOctets bs

abbrev is_value : ℕ → Bool
is_value n = elim (hex_value (hex_digit n)) [ none ↦ false | some v ↦ v == n ]

digit_table : all_below 16 is_value ≡ true
unfolding all_below hex_value hex_digit
digit_table = refl

hex_value-hex_digit : (n : ℕ) → n < 16 → hex_value (hex_digit n) ≡ some n
hex_value-hex_digit n h = ground (arith, all_below_sound 16 is_value n digit_table h)

parse_pairs-hex_of : (bs : List ℕ) → AreOctets bs → parse_pairs (hex_of bs) ≡ some bs
unfolding parse_pairs hex_of
parse_pairs-hex_of [] h = refl
parse_pairs-hex_of (b ∷ bs) h =
    rw
      (
        hex_value-hex_digit (b / 16 % 16) (omega arith),
        hex_value-hex_digit (b % 16) (omega arith),
        parse_pairs-hex_of bs h.1,
      )
      (ap (λ n. some (n ∷ bs)) (omega (arith, h.0)))

length-hex_of : (bs : List ℕ) → length (hex_of bs) ≡ length bs * 2
unfolding hex_of
length-hex_of [] = refl
length-hex_of (b ∷ bs) = omega (arith, length-hex_of bs)

take-all : (n : ℕ) (bs : List ℕ) → length bs ≡ n → take n bs ≡ bs
take-all zero [] h = refl
take-all zero (b ∷ bs) h = absurd (omega arith)
take-all (suc n) [] h = refl
take-all (suc n) (b ∷ bs) h = ap (λ r. b ∷ r) (take-all n bs (omega arith))

-- Twenty bytes, written as text into a buffer of 41 characters, are parsed back to themselves.
pub parse-bytes_to_hex :
    (digest : List ℕ)
    → AreOctets digest
    → length digest ≡ 20
    → (text : Text) × (checksum_bytes_to_hex (some digest) 20 true 41 ≡ some text)
      × (checksum_parse_sha1_hex (some text) true ≡ some digest)
unfolding checksum_bytes_to_hex checksum_parse_sha1_hex
parse-bytes_to_hex digest b n = (
  hex_of digest,
  ap (λ d. some (hex_of d)) (take-all 20 digest n),
  ground (arith, length-hex_of digest, parse_pairs-hex_of digest b),
)
