-- ===== src/NetworkConsole/Digits.antt =====
-- main/network_console.cpp: the digits of a client's answer, without the loop.
use power.Prelude.{
  ℕ, ◌+◌, ◌*◌, ◌≤◌, ◌≡◌, ◌⊎◌, ◌↔◌, inl, inr, refl, ap, ap₂, sym, ◌∙◌, Option, none, some, List, [],
  ◌∷◌, ◌++◌, length, Text, codes, str_eq, str_eq_iff, take, drop, take-drop, ◌==◌, ==_iff, arith,
  Bool-cases,
}
use power.NetworkConsole.Authenticate.{
  hmac_nibble, hmac_byte, hmac_pairs, parse_hmac_hex, after_prefix,
}

-- The value of a digit: '0' to '9', 'A' to 'F', 'a' to 'f', and the six characters before 'a',
-- which the code also takes.
abbrev pub IsDigit : ℕ → ℕ → Type 0
IsDigit c v =
    ((b'0' ≤ c) × (c ≤ b'9') × (c ≡ b'0' + v))
    ⊎ ((b'A' ≤ c) × (c ≤ b'F') × (c + 10 ≡ b'A' + v))
    ⊎ ((b'[' ≤ c) × (c ≤ b'f') × (c + 10 ≡ b'a' + v))

abbrev pub Spells : Text → List ℕ → Type 0
Spells [] [] = Unit
Spells (c ∷ (d ∷ rest)) (b ∷ bs) =
    ((high low : ℕ) × IsDigit c high × IsDigit d low × (b ≡ high * 16 + low)) × Spells rest bs
Spells [] (b ∷ bs) = ⊥
Spells (c ∷ []) bs = ⊥
Spells (c ∷ (d ∷ rest)) [] = ⊥

hmac_nibble_iff : (c v : ℕ) → (hmac_nibble c ≡ some v) ↔ IsDigit c v
unfolding hmac_nibble
hmac_nibble_iff c v = ground arith

-- The three parts of a byte that is parsed.
pub record Parsed (high low : Option ℕ) (rest : Option (List ℕ)) (bytes : List ℕ) : Type 0 where
  pub high_value : ℕ
  pub low_value : ℕ
  pub more : List ℕ
  pub high_is : high ≡ some high_value
  pub low_is : low ≡ some low_value
  pub more_is : rest ≡ some more
  pub bytes_are : bytes ≡ (high_value * 16 + low_value) ∷ more

pub hmac_byte-Parsed :
    (high low : Option ℕ) (rest : Option (List ℕ)) (bytes : List ℕ)
    → hmac_byte high low rest ≡ some bytes
    → Parsed high low rest bytes
hmac_byte-Parsed none low rest bytes h = cc
hmac_byte-Parsed (some a) none rest bytes h = cc
hmac_byte-Parsed (some a) (some b) none bytes h = cc
hmac_byte-Parsed (some a) (some b) (some more) bytes h = record {
  high_value = a;
  low_value = b;
  more = more;
  high_is = refl;
  low_is = refl;
  more_is = refl;
  bytes_are = cc;
}

hmac_pairs_iff : (text : Text) (bytes : List ℕ) → (hmac_pairs text ≡ some bytes) ↔ Spells text bytes
hmac_pairs_iff [] [] = (λ h. tt, λ h. refl)
hmac_pairs_iff [] (b ∷ bs) = (λ h. cc, λ h. absurd h)
hmac_pairs_iff (c ∷ []) bs = (λ h. cc, λ h. absurd h)
hmac_pairs_iff (c ∷ (d ∷ rest)) [] = (
  λ h.
      let p = hmac_byte-Parsed (hmac_nibble c) (hmac_nibble d) (hmac_pairs rest) [] h in
      let never = p.bytes_are in absurd cc,
  λ h. absurd h,
)
hmac_pairs_iff (c ∷ (d ∷ rest)) (b ∷ bs) = (
  λ h.
      let p = hmac_byte-Parsed (hmac_nibble c) (hmac_nibble d) (hmac_pairs rest) (b ∷ bs) h in
      let are = p.bytes_are in
      let head : b ≡ p.high_value * 16 + p.low_value = cc in
      let tail : p.more ≡ bs = cc in
      (
        (
          p.high_value,
          p.low_value,
          (hmac_nibble_iff c p.high_value).0 p.high_is,
          (hmac_nibble_iff d p.low_value).0 p.low_is,
          head,
        ),
        (hmac_pairs_iff rest bs).0 (p.more_is ∙ ap some tail),
      ),
  λ ((high, low, first, second, e), more).
      rw
        (
          (hmac_nibble_iff c high).1 first,
          (hmac_nibble_iff d low).1 second,
          (hmac_pairs_iff rest bs).1 more,
        )
        (ap (λ x. some (x ∷ bs)) (sym e)),
)

pub parse_hmac_hex_iff :
    (text : Text) (digest : List ℕ)
    → (parse_hmac_hex text ≡ some digest) ↔ ((length text ≡ 64) × Spells text digest)
unfolding parse_hmac_hex
parse_hmac_hex_iff text digest = elim (Bool-cases (length text == 64)) [
  | inl whole ↦ rw whole (
    λ h. ((==_iff (length text) 64).0 whole, (hmac_pairs_iff text digest).0 h),
    λ (size, spelled). (hmac_pairs_iff text digest).1 spelled,
  )
  | inr other ↦ rw other (λ h. absurd cc, λ (size, spelled). absurd (ground (arith, other, size)))
]

pub after_prefix_iff :
    (response text : Text)
    → (after_prefix response ≡ some text) ↔ (response ≡ codes "authenticate " ++ text)
after_prefix_iff response text = (
  λ h. elim (Bool-cases (str_eq (take 13 response) (codes "authenticate "))) [
    | inl same ↦
        let rest : drop 13 response ≡ text = ground arith in
        sym (take-drop 13 response)
        ∙ ap₂ (λ x y. x ++ y) ((str_eq_iff (take 13 response) (codes "authenticate ")).0 same) rest
    | inr other ↦ absurd (ground arith)
  ],
  λ h. rw h (unfold str_eq in refl),
)
