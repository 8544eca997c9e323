-- ===== src/NetworkConsole/Proof.antt =====
-- main/network_console.cpp: a client is accepted exactly when its answer is the HMAC.
use power.Prelude.{
  ℕ, ◌*◌, ◌<◌, ◌≤◌, ◌≡◌, ◌↔◌, ◌++◌, codes, subst, refl, ap, sym, ◌∙◌, Bool, true, Option, none,
  some, List, [], ◌∷◌, ◌==◌, length, Text, c_string, arith, Option-cases, Bool-cases, ==_iff, inl,
  inr,
}
use power.NetworkConsole.{NetworkConsole, password_snapshot}
use power.NetworkConsole.Authenticate.{
  Crypto, hmac_nibble, hmac_pairs, parse_hmac_hex, constant_time_equal, read_line, base64url_encode,
  after_prefix, response_valid, same_digest, check_response, challenge_client, authenticate_client,
}
use power.NetworkConsole.Line.{IsLine, read_line_iff}
use power.NetworkConsole.Challenge.{IsChallenge, base64url_encode_iff}
use power.NetworkConsole.Digits.{Spells, hmac_byte-Parsed, parse_hmac_hex_iff, after_prefix_iff}
use power.NetworkConsole.Equal.{AreBytes, constant_time_equal_iff}

hmac_nibble-below : (c v : ℕ) → hmac_nibble c ≡ some v → v < 16
unfolding hmac_nibble
hmac_nibble-below c v h = ground arith

-- What is parsed is bytes, one for every two characters.
hmac_pairs-AreBytes :
    (text : Text) (bytes : List ℕ)
    → hmac_pairs text ≡ some bytes
    → AreBytes bytes × (length text ≡ 2 * length bytes)
unfolding AreBytes
hmac_pairs-AreBytes [] bytes h = let empty : bytes ≡ [] = cc in rw empty (tt, omega arith)
hmac_pairs-AreBytes (c ∷ []) bytes h = cc
hmac_pairs-AreBytes (c ∷ (d ∷ rest)) bytes h =
    let p = hmac_byte-Parsed (hmac_nibble c) (hmac_nibble d) (hmac_pairs rest) bytes h in
    let (more_bytes, size) = hmac_pairs-AreBytes rest p.more p.more_is in
    let high = hmac_nibble-below c p.high_value p.high_is in
    let low = hmac_nibble-below d p.low_value p.low_is in
    rw p.bytes_are ((omega arith, more_bytes), omega (arith, size))

parse_hmac_hex-AreBytes :
    (text : Text) (bytes : List ℕ)
    → parse_hmac_hex text ≡ some bytes
    → AreBytes bytes × (length bytes ≡ 32)
unfolding parse_hmac_hex
parse_hmac_hex-AreBytes text bytes h = elim (Bool-cases (length text == 64)) [
  | inl whole ↦
      let pairs : hmac_pairs text ≡ some bytes = ground arith in
      let (are, size) = hmac_pairs-AreBytes text bytes pairs in
      let sixty_four = (==_iff (length text) 64).0 whole in (are, omega (arith, size, sixty_four))
  | inr other ↦ absurd (ground arith)
]

-- What HMAC gives is 32 bytes.
unfoldable pub IsSha256 : Crypto → Type 0
IsSha256 crypto =
    (password challenge : Text) (digest : List ℕ)
    → crypto.hmac password challenge ≡ some digest
    → AreBytes digest × (length digest ≡ 32)

-- The word, and then in 64 digits the digest of the challenge under the password.
pub record Answers (crypto : Crypto) (password challenge response : Text) : Type 0 where
  pub text : Text
  pub digest : List ℕ
  pub prefixed : response ≡ codes "authenticate " ++ text
  pub size : length text ≡ 64
  pub spelled : Spells text digest
  pub expected : crypto.hmac password challenge ≡ some digest

password_snapshot_iff :
    (n : NetworkConsole) (taken : Bool) (password : Text)
    → (password_snapshot n 129 taken ≡ some password) ↔ (
        (taken ≡ true)
        × (1 ≤ length n.password)
        × (length n.password ≤ 128)
        × (password ≡ n.password))
unfolding password_snapshot
password_snapshot_iff n taken password = (
  λ h. ground arith,
  λ (there, some_set, few, same). rw (there, same) (ground (arith, some_set, few)),
)

module _ (crypto : Crypto) (sha : IsSha256 crypto) where
  same_digest-equal :
      (text password challenge : Text)
      → same_digest (parse_hmac_hex text) (crypto.hmac password challenge) ≡ true
      → (digest : List ℕ) × (parse_hmac_hex text ≡ some digest)
        × (crypto.hmac password challenge ≡ some digest)
  unfolding IsSha256
  same_digest-equal text password challenge h = elim (Option-cases (parse_hmac_hex text)) [
    | inl none_parsed ↦ absurd (ground arith)
    | inr (a, parsed) ↦ elim (Option-cases (crypto.hmac password challenge)) [
      | inl none_made ↦ absurd (ground arith)
      | inr (b, made) ↦
          let (a_bytes, a_size) = parse_hmac_hex-AreBytes text a parsed in
          let (b_bytes, b_size) = sha password challenge b made in
          let equal : constant_time_equal a b ≡ true = ground arith in
          let same = (constant_time_equal_iff a b a_bytes b_bytes (a_size ∙ sym b_size)).0 equal in
          (a, parsed, made ∙ ap some (sym same))
    ]
  ]

  response_valid_iff :
      (password challenge response : Text)
      → (response_valid crypto password challenge response ≡ true)
        ↔ Answers crypto password challenge response
  unfolding response_valid IsSha256
  response_valid_iff password challenge response = (
    λ h. elim (Option-cases (after_prefix response)) [
      | inl missing ↦ absurd (ground arith)
      | inr (text, found) ↦
          let same : same_digest (parse_hmac_hex text) (crypto.hmac password challenge) ≡ true =
            ground arith in
          let (digest, parsed, made) = same_digest-equal text password challenge same in
          record {
            text = text;
            digest = digest;
            prefixed = (after_prefix_iff response text).0 found;
            size = ((parse_hmac_hex_iff text digest).0 parsed).0;
            spelled = ((parse_hmac_hex_iff text digest).0 parsed).1;
            expected = made;
          }
    ],
    λ a.
        let (are, size) = sha password challenge a.digest a.expected in
        let found = (after_prefix_iff response a.text).1 a.prefixed in
        let parsed = (parse_hmac_hex_iff a.text a.digest).1 (a.size, a.spelled) in
        rw (found, response_valid, parsed, a.expected)
          ((constant_time_equal_iff a.digest a.digest are are refl).1 refl),
  )

  check_response_iff :
      (password challenge : Text) (received : Option Text) (sent : Bool)
      → (check_response crypto password challenge received sent ≡ true) ↔ (
          (line : Text) × (received ≡ some line)
          × Answers crypto password challenge (c_string line)
          × (sent ≡ true))
  check_response_iff password challenge none sent = (λ h. cc, λ (line, e, a, s). cc)
  check_response_iff password challenge (some line) sent = (
    λ h.
        let valid : response_valid crypto password challenge (c_string line) ≡ true =
          ground arith in
        (line, refl, (response_valid_iff password challenge (c_string line)).0 valid, ground arith),
    λ (l, e, a, s).
        let same : l ≡ line = cc in
        let valid = (response_valid_iff password challenge (c_string l)).1 a in
        rw (sym same, valid) s,
  )

  challenge_client_iff :
      (password challenge : Text) (request_sent : Bool) (input : List ℕ) (prompt_sent : Bool)
      → (challenge_client crypto password challenge request_sent input prompt_sent ≡ true) ↔ (
          (length challenge ≡ 43)
          × (request_sent ≡ true)
          × (check_response crypto password challenge (read_line input 96) prompt_sent ≡ true))
  challenge_client_iff password challenge request_sent input prompt_sent = (
    λ h. elim (Bool-cases (length challenge == 43)) [
      | inl whole ↦ ((==_iff (length challenge) 43).0 whole, ground arith, ground arith)
      | inr other ↦ absurd (ground arith)
    ],
    λ (size, sent, answer). rw ((==_iff (length challenge) 43).1 size, sent) answer,
  )

  -- In the words of the code.
  authenticate_client-parts :
      (n : NetworkConsole) (taken : Bool) (random : List ℕ) (request_sent : Bool) (input : List ℕ)
      (prompt_sent : Bool)
      → (authenticate_client crypto n taken random request_sent input prompt_sent ≡ true) ↔ (
          (password line : Text) × (password_snapshot n 129 taken ≡ some password)
          × (length (base64url_encode crypto.base64 random 45) ≡ 43)
          × (request_sent ≡ true)
          × (read_line input 96 ≡ some line)
          × Answers crypto password (base64url_encode crypto.base64 random 45) (c_string line)
          × (prompt_sent ≡ true))
  unfolding authenticate_client
  authenticate_client-parts n taken random request_sent input prompt_sent =
      let challenge = base64url_encode crypto.base64 random 45 in
      (
        λ h. elim (Option-cases (password_snapshot n 129 taken)) [
          | inl missing ↦ absurd (ground arith)
          | inr (password, found) ↦
              let passed : challenge_client crypto password challenge request_sent input prompt_sent
                  ≡ true =
                ground arith in
              let (size, sent, answer) =
                (challenge_client_iff password challenge request_sent input prompt_sent).0 passed in
              let (line, received, answers, prompted) =
                (check_response_iff password challenge (read_line input 96) prompt_sent).0 answer in
              (password, line, found, size, sent, received, answers, prompted)
        ],
        λ (password, line, found, size, sent, received, answers, prompted).
            let answer =
              (check_response_iff password challenge (read_line input 96) prompt_sent).1
                (line, received, answers, prompted) in
            rw (found, authenticate_client)
              ((challenge_client_iff password challenge request_sent input prompt_sent).1
                (size, sent, answer)),
      )

  -- A client is accepted exactly when: the mutex is taken and a password is configured, of 1 to 128
  -- characters; the challenge, 43 characters, is the base64 encoding of the random bytes without
  -- its padding, with '-' and '_' for '+' and '/', and is sent; what is received begins with a line
  -- of fewer than 95 characters before LF; as a C string the line, without a CR at its end, is
  -- "authenticate " and then 64 digits that spell the HMAC of the challenge under the password; and
  -- the prompt is sent. The digits are those of base 16 in both cases, and the six characters
  -- before 'a'. The hypothesis says that the HMAC is always 32 bytes.
  pub authenticate_client_iff :
      (n : NetworkConsole) (taken : Bool) (random : List ℕ) (request_sent : Bool) (input : List ℕ)
      (prompt_sent : Bool)
      → (authenticate_client crypto n taken random request_sent input prompt_sent ≡ true) ↔ (
          (taken ≡ true)
          × (1 ≤ length n.password)
          × (length n.password ≤ 128)
          × ((challenge line : Text) × IsChallenge crypto.base64 random challenge
              × (length challenge ≡ 43)
              × (request_sent ≡ true)
              × IsLine input line
              × Answers crypto n.password challenge (c_string line)
              × (prompt_sent ≡ true)))
  authenticate_client_iff n taken random request_sent input prompt_sent =
      let parts = authenticate_client-parts n taken random request_sent input prompt_sent in
      (
        λ h.
            let (password, line, found, size, sent, received, answers, prompted) = parts.0 h in
            let made = base64url_encode crypto.base64 random 45 in
            let (there, some_set, few, same) = (password_snapshot_iff n taken password).0 found in
            (
              there,
              some_set,
              few,
              (
                made,
                line,
                (base64url_encode_iff crypto.base64 random made size).0 refl,
                size,
                sent,
                (read_line_iff input line).0 received,
                subst (λ p. Answers crypto p made (c_string line)) same answers,
                prompted,
              ),
            ),
        λ (there, some_set, few, (challenge, line, made, size, sent, received, answers, prompted)).
            let same = (base64url_encode_iff crypto.base64 random challenge size).1 made in
            parts.1 (
              n.password,
              line,
              (password_snapshot_iff n taken n.password).1 (there, some_set, few, refl),
              ap length same ∙ size,
              sent,
              (read_line_iff input line).1 received,
              subst (λ c. Answers crypto n.password c (c_string line)) (sym same) answers,
              prompted,
            ),
      )
