-- ===== src/NetworkConsole/Tests.antt =====
-- main/network_console.cpp: tests and witnesses.
use power.Prelude.{
  ℕ, ◌≤◌, ◌≡◌, ◌↔◌, refl, subst, true, false, some, List, [], ◌∷◌, ◌++◌, length, arith, Text, codes,
  c_string, replicate, str_eq,
}
use power.NetworkConsole.{NetworkConsole, password_snapshot}
use power.NetworkConsole.Authenticate.{
  Crypto, hmac_nibble, parse_hmac_hex, read_line, read_from, response_valid, constant_time_equal,
  difference_from, base64url_encode, authenticate_client,
}
use power.NetworkConsole.Equal.{AreBytes}
use power.NetworkConsole.Line.{IsLine}
use power.NetworkConsole.Challenge.{IsChallenge}
use power.NetworkConsole.Proof.{IsSha256, Answers, authenticate_client_iff}

abbrev zero_digest : List ℕ
zero_digest = replicate 32 0

abbrev zero_crypto : Crypto
zero_crypto = record {
  base64 = λ capacity input. some (replicate 43 b'+' ++ codes "=");
  hmac = λ password challenge. some zero_digest;
}

zero_crypto-IsSha256 : IsSha256 zero_crypto
unfolding IsSha256 AreBytes
zero_crypto-IsSha256 password challenge digest h =
    let same : zero_digest ≡ digest = cc in
    subst (λ d. AreBytes d × (length d ≡ 32)) same (omega arith)

abbrev open_console : NetworkConsole
open_console = record { has_mutex = true; password = codes "correct horse battery"; started = true }

abbrev answer_line : Text
answer_line = codes "authenticate " ++ replicate 64 b'0'

abbrev answer : List ℕ
answer = answer_line ++ (13 ∷ 10 ∷ [])

authenticate_client_iff_example :
    (authenticate_client zero_crypto open_console true [] true answer true ≡ true) ↔ (
      (true ≡ true)
      × (1 ≤ length open_console.password)
      × (length open_console.password ≤ 128)
      × ((challenge line : Text) × IsChallenge zero_crypto.base64 [] challenge
          × (length challenge ≡ 43)
          × (true ≡ true)
          × IsLine answer line
          × Answers zero_crypto open_console.password challenge (c_string line)
          × (true ≡ true)))
authenticate_client_iff_example =
    authenticate_client_iff zero_crypto zero_crypto-IsSha256 open_console true [] true answer true

answer-accepted : authenticate_client zero_crypto open_console true [] true answer true ≡ true
unfolding authenticate_client password_snapshot base64url_encode read_line read_from response_valid
    str_eq parse_hmac_hex hmac_nibble constant_time_equal difference_from
answer-accepted = refl

-- A command in place of the answer.
command-refused :
    authenticate_client zero_crypto open_console true [] true (codes "status" ++ (10 ∷ [])) true
    ≡ false
unfolding authenticate_client password_snapshot base64url_encode read_line read_from response_valid
    str_eq
command-refused = refl

-- The six characters between 'Z' and 'a' are read as digits.
bracket-digit : hmac_nibble b'[' ≡ some 4
unfolding hmac_nibble
bracket-digit = refl
