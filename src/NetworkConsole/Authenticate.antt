-- ===== src/NetworkConsole/Authenticate.antt =====
-- main/network_console.cpp: the challenge, the answer of the client, and their comparison.
-- What the socket receives is the list of its bytes, up to the first failure of `recv`. Whether a
-- message can be sent is an argument.
use Prim.Native.Nat.{bit_xor}
use power.Prelude.{
  ℕ, zero, suc, ◌+◌, ◌-◌, ◌*◌, Bool, true, false, ◌&&◌, ◌||◌, not, Option, none, some, List, [],
  ◌∷◌, ◌++◌, ltb, leb, ◌==◌, bit_or, if◌then◌else◌, length, take, drop, Text, codes, str_eq,
  c_string,
}
use power.NetworkConsole.{
  NetworkConsole, network_console_password_max_bytes, challenge_text_bytes, password_snapshot,
}

abbrev pub hmac_hex_bytes : ℕ
hmac_hex_bytes = 64

-- Without the CR at its end.
abbrev pub drop_cr : Text → Text
drop_cr [] = []
drop_cr (c ∷ []) = if c == 13 then [] else c ∷ []
drop_cr (c ∷ (d ∷ rest)) = c ∷ drop_cr (d ∷ rest)

-- The loop of `read_line`, with the room that is left and the line so far.
unfoldable pub read_from : ℕ → List ℕ → Text → Option Text
read_from zero input line = none
read_from (suc left) [] line = none
read_from (suc left) (ch ∷ input) line =
    let more = read_from left input (line ++ (ch ∷ [])) in
    if ch == 10 then some (drop_cr line) else more

unfoldable pub read_line : List ℕ → ℕ → Option Text
read_line input capacity = read_from (capacity - 1) input []

-- Without the '=' at the end.
abbrev pub drop_padding_more : ℕ → Text → Text
drop_padding_more c [] = if c == b'=' then [] else c ∷ []
drop_padding_more c (d ∷ ds) = c ∷ (d ∷ ds)

abbrev pub drop_padding : Text → Text
drop_padding [] = []
drop_padding (c ∷ rest) = drop_padding_more c (drop_padding rest)

abbrev pub url_char : ℕ → ℕ
url_char c = if c == b'+' then b'-' else if c == b'/' then b'_' else c

-- `base64` is mbedtls_base64_encode; `none` is a failure of it.
unfoldable pub base64url_encode : (ℕ → List ℕ → Option Text) → List ℕ → ℕ → Text
base64url_encode base64 input capacity = elim (base64 capacity input) [
  | none ↦ []
  | some encoded ↦ power.Prelude.map url_char (drop_padding encoded)
]

abbrev pub tolower : ℕ → ℕ
tolower c = if leb b'A' c && leb c b'Z' then c + 32 else c

-- A digit's value, or what the arithmetic makes of another character; `none` where the code finds
-- it below 0 or above 15.
unfoldable pub hmac_nibble : ℕ → Option ℕ
hmac_nibble c =
    if leb b'0' c && leb c b'9'
    then some (c - b'0')
    else if ltb (tolower c + 10) b'a' || ltb (b'a' + 5) (tolower c)
    then none
    else some (tolower c + 10 - b'a')

abbrev pub hmac_byte : Option ℕ → Option ℕ → Option (List ℕ) → Option (List ℕ)
hmac_byte (some high) (some low) (some bytes) = some ((high * 16 + low) ∷ bytes)
hmac_byte _ _ _ = none

abbrev pub hmac_pairs : Text → Option (List ℕ)
hmac_pairs [] = some []
hmac_pairs (c ∷ []) = none
hmac_pairs (c ∷ (d ∷ rest)) = hmac_byte (hmac_nibble c) (hmac_nibble d) (hmac_pairs rest)

unfoldable pub parse_hmac_hex : Text → Option (List ℕ)
parse_hmac_hex text = if not (length text == hmac_hex_bytes) then none else hmac_pairs text

-- The loop of `constant_time_equal` over the bytes of the two.
unfoldable pub difference_from : List ℕ → List ℕ → ℕ → ℕ
difference_from (x ∷ xs) (y ∷ ys) difference =
    difference_from xs ys (bit_or difference (bit_xor x y))
difference_from [] ys difference = difference
difference_from (x ∷ xs) [] difference = difference

unfoldable pub constant_time_equal : List ℕ → List ℕ → Bool
constant_time_equal a b = difference_from a b 0 == 0

abbrev pub prefix : Text
prefix = codes "authenticate "

-- strncmp with the prefix: what follows it.
abbrev pub after_prefix : Text → Option Text
after_prefix response = if str_eq (take 13 response) prefix then some (drop 13 response) else none

-- mbedtls's functions, with `none` for a failure.
pub record Crypto : Type 0 where
  pub base64 : ℕ → List ℕ → Option Text
  pub hmac : Text → Text → Option (List ℕ)

abbrev pub same_digest : Option (List ℕ) → Option (List ℕ) → Bool
same_digest (some supplied) (some expected) = constant_time_equal supplied expected
same_digest _ _ = false

module _ (crypto : Crypto) where
  -- The answer of the client is right.
  unfoldable pub response_valid : Text → Text → Text → Bool
  response_valid password challenge response = elim (after_prefix response) [
    | none ↦ false
    | some text ↦ same_digest (parse_hmac_hex text) (crypto.hmac password challenge)
  ]

  -- The line that is received, against the challenge; then the prompt is sent.
  abbrev pub check_response : Text → Text → Option Text → Bool → Bool
  check_response password challenge none sent = false
  check_response password challenge (some line) sent =
      response_valid password challenge (c_string line) && sent

  abbrev pub challenge_client : Text → Text → Bool → List ℕ → Bool → Bool
  challenge_client password challenge request_sent input prompt_sent =
      if not (length challenge == challenge_text_bytes)
      then false
      else if not request_sent
      then false
      else check_response password challenge (read_line input 96) prompt_sent

  -- `random` is what esp_fill_random gave, `taken` whether the mutex of the password was taken.
  unfoldable pub authenticate_client : NetworkConsole → Bool → List ℕ → Bool → List ℕ → Bool → Bool
  authenticate_client n taken random request_sent input prompt_sent =
      elim (password_snapshot n (network_console_password_max_bytes + 1) taken) [
        | none ↦ false
        | some password ↦
            challenge_client password (base64url_encode crypto.base64 random 45) request_sent input
              prompt_sent
      ]
