-- ===== src/Checksum/Tests.antt =====
-- Runs of main/checksum.cpp.
use power.Prelude.{ℕ, ◌≡◌, refl, true, some, List, ◌∷◌, replicate, Text, arith}
use power.Checksum.{checksum_bytes_to_hex, checksum_parse_sha1_hex}
use power.Checksum.RoundTrip.{AreOctets, parse-bytes_to_hex}

abbrev digest : List ℕ
digest = 0xda ∷ 0x39 ∷ replicate 18 0xa3

digest-AreOctets : AreOctets digest
digest-AreOctets = ground arith

parse-bytes_to_hex_example :
    (text : Text) × (checksum_bytes_to_hex (some digest) 20 true 41 ≡ some text)
    × (checksum_parse_sha1_hex (some text) true ≡ some digest)
parse-bytes_to_hex_example = parse-bytes_to_hex digest digest-AreOctets refl
