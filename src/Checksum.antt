-- ===== src/Checksum.antt =====
-- main/checksum.hpp and main/checksum.cpp: SHA-1 digests and their hexadecimal text.
-- `psa_hash_compute` is the parameter `hash`: the digest that it writes and the length it reports.
pub mod RoundTrip
mod Tests
use power.Prelude.{
  ℕ, zero, suc, ◌+◌, ◌-◌, ◌*◌, ◌/◌, ◌%◌, Bool, true, false, ◌&&◌, not, Option, none, some, List, [],
  ◌∷◌, ltb, leb, ◌==◌, if◌then◌else◌, get_or, length, take, Text, codes, Result, ok, err, fail,
  invalid_arg,
}

abbrev pub checksum_sha1_bytes : ℕ
checksum_sha1_bytes = 20

abbrev pub checksum_sha1_hex_chars : ℕ
checksum_sha1_hex_chars = checksum_sha1_bytes * 2

-- -1 in the code is `none`.
unfoldable pub hex_value : ℕ → Option ℕ
hex_value c =
    if leb b'0' c && leb c b'9'
    then some (c - b'0')
    else if leb b'a' c && leb c b'f'
    then some (10 + (c - b'a'))
    else if leb b'A' c && leb c b'F'
    then some (10 + (c - b'A'))
    else none

abbrev pub hex_digits : Text
hex_digits = codes "0123456789abcdef"

unfoldable pub hex_digit : ℕ → ℕ
hex_digit n = get_or hex_digits n 0

-- The loop of `checksum_bytes_to_hex` over the bytes that are written.
unfoldable pub hex_of : List ℕ → Text
hex_of [] = []
hex_of (b ∷ bs) = hex_digit (b / 16 % 16) ∷ hex_digit (b % 16) ∷ hex_of bs

-- The text that is written, and ended by a NUL; `none` where nothing is written. `bytes` holds
-- `byte_count` bytes; `given` says that `hex` is not null.
unfoldable pub checksum_bytes_to_hex : Option (List ℕ) → ℕ → Bool → ℕ → Option Text
checksum_bytes_to_hex none byte_count given hex_capacity = none
checksum_bytes_to_hex (some bytes) byte_count given hex_capacity =
    if not given
    then none
    else if hex_capacity == 0
    then none
    else let max_bytes = (hex_capacity - 1) / 2 in
      let bytes_to_write = if ltb byte_count max_bytes then byte_count else max_bytes in
      some (hex_of (take bytes_to_write bytes))

-- One round of the loop: the byte of two digits, before the bytes of the rest.
abbrev pub pair : Option ℕ → Option ℕ → Option (List ℕ) → Option (List ℕ)
pair (some high) (some low) (some bytes) = some (((high * 16 + low) % 256) ∷ bytes)
pair (some high) (some low) none = none
pair (some high) none rest = none
pair none low rest = none

-- The loop of `checksum_parse_sha1_hex`, two characters at a time. What was decoded before a
-- character that is no digit is lost here; the code leaves it in `digest` and returns false.
unfoldable pub parse_pairs : Text → Option (List ℕ)
parse_pairs [] = some []
parse_pairs (c ∷ []) = none
parse_pairs (c ∷ (d ∷ rest)) = pair (hex_value c) (hex_value d) (parse_pairs rest)

unfoldable pub checksum_parse_sha1_hex : Option Text → Bool → Option (List ℕ)
checksum_parse_sha1_hex none given = none
checksum_parse_sha1_hex (some text) given =
    if not given
    then none
    else if not (length text == checksum_sha1_hex_chars)
    then none
    else parse_pairs text

-- The check of what `psa_hash_compute` returned.
abbrev pub finish : Result (List ℕ × ℕ) → Result (List ℕ)
finish (err e) = err fail
finish (ok (digest, n)) = if n == checksum_sha1_bytes then ok digest else err fail

module _ (hash : List ℕ → Result (List ℕ × ℕ)) where
  -- `input` is null or the bytes; `size` is the length that is passed with it.
  unfoldable pub checksum_sha1 : Option (List ℕ) → ℕ → Bool → Result (List ℕ)
  checksum_sha1 input size given = if not given then err invalid_arg else elim input [
    | none ↦ if ltb 0 size then err invalid_arg else finish (hash [])
    | some bytes ↦ finish (hash bytes)
  ]

  unfoldable pub checksum_sha1_hex : Option (List ℕ) → ℕ → Bool → Result (Option Text)
  checksum_sha1_hex input size given =
      if not given then err invalid_arg else elim (checksum_sha1 input size true) [
        | err e ↦ err e
        | ok digest ↦ ok (
            checksum_bytes_to_hex (some digest) checksum_sha1_bytes true
              (checksum_sha1_hex_chars + 1))
      ]
