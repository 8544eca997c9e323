-- ===== src/NetworkConsole/Challenge.antt =====
-- main/network_console.cpp: the challenge as an encoding of the random bytes, without the loops.
use power.Prelude.{
  ℕ, zero, suc, ◌≡◌, ◌≢◌, ◌⊎◌, ◌↔◌, inl, inr, refl, ap, ap₂, sym, ◌∙◌, false, Option, some, List,
  [], ◌∷◌, ◌++◌, length, Text, map, replicate, ◌==◌, ==_iff, arith, Option-cases, Bool-cases,
}
use power.NetworkConsole.Authenticate.{drop_padding, drop_padding_more, url_char, base64url_encode}
use power.NetworkConsole.Line.{EndsIn, EndsIn-empty, EndsIn-one, EndsIn-tail, EndsIn-cons}

-- '+' and '/' are replaced.
abbrev pub UrlSafe : ℕ → ℕ → Type 0
UrlSafe c d =
    ((c ≡ b'+') × (d ≡ b'-')) ⊎ ((c ≡ b'/') × (d ≡ b'_')) ⊎ ((c ≢ b'+') × (c ≢ b'/') × (d ≡ c))

abbrev pub AllUrlSafe : Text → Text → Type 0
AllUrlSafe [] [] = Unit
AllUrlSafe (c ∷ cs) (d ∷ ds) = UrlSafe c d × AllUrlSafe cs ds
AllUrlSafe [] (d ∷ ds) = ⊥
AllUrlSafe (c ∷ cs) [] = ⊥

-- The encoding without the '=' at its end, in the alphabet for URLs.
pub record IsChallenge (base64 : ℕ → List ℕ → Option Text) (random : List ℕ) (challenge : Text)
    : Type 0 where
  pub body : Text
  pub padding : ℕ
  pub encoded : base64 45 random ≡ some (body ++ replicate padding b'=')
  pub stripped : EndsIn b'=' body → ⊥
  pub safe : AllUrlSafe body challenge

drop_padding-body :
    (body : Text) (n : ℕ) → (EndsIn b'=' body → ⊥) → drop_padding (body ++ replicate n b'=') ≡ body
drop_padding-body [] zero h = refl
drop_padding-body [] (suc n) h = rw (drop_padding-body [] n h) refl
drop_padding-body (c ∷ []) n h =
    let other : (c == b'=') ≡ false = elim (Bool-cases (c == b'=')) [
      | inl same ↦ absurd (h ([], ap (λ x. x ∷ []) ((==_iff c b'=').0 same)))
      | inr differs ↦ differs
    ] in
    rw (drop_padding-body [] n (EndsIn-empty b'=')) (rw other refl)
drop_padding-body (c ∷ (d ∷ rest)) n h =
    rw (drop_padding-body (d ∷ rest) n (λ e. h (EndsIn-cons b'=' c (d ∷ rest) e))) refl

-- A text is its stripped form and a padding.
abbrev IsStripped : Text → Text → Type 0
IsStripped text stripped =
    ((n : ℕ) × (text ≡ stripped ++ replicate n b'=')) × (EndsIn b'=' stripped → ⊥)

drop_padding_more-strips :
    (c : ℕ) (rest stripped : Text)
    → IsStripped rest stripped
    → IsStripped (c ∷ rest) (drop_padding_more c stripped)
drop_padding_more-strips c rest [] ((n, e), open_end) = elim (Bool-cases (c == b'=')) [
  | inl same ↦ rw same ((suc n, ap₂ (λ x t. x ∷ t) ((==_iff c b'=').0 same) e), EndsIn-empty b'=')
  | inr other ↦
      rw other ((n, ap (λ t. c ∷ t) e), λ h. absurd (ground (arith, other, EndsIn-one b'=' c h)))
]
drop_padding_more-strips c rest (d ∷ ds) ((n, e), open_end) =
    ((n, ap (λ t. c ∷ t) e), λ h. open_end (EndsIn-tail b'=' c d ds h))

drop_padding-strips : (text : Text) → IsStripped text (drop_padding text)
drop_padding-strips [] = ((0, refl), EndsIn-empty b'=')
drop_padding-strips (c ∷ rest) =
    drop_padding_more-strips c rest (drop_padding rest) (drop_padding-strips rest)

url_char_iff : (c d : ℕ) → (url_char c ≡ d) ↔ UrlSafe c d
url_char_iff c d = ground arith

map-url_char_iff :
    (body challenge : Text) → (map url_char body ≡ challenge) ↔ AllUrlSafe body challenge
map-url_char_iff [] [] = (λ h. tt, λ h. refl)
map-url_char_iff [] (d ∷ ds) = (λ h. cc, λ h. absurd h)
map-url_char_iff (c ∷ cs) [] = (λ h. cc, λ h. absurd h)
map-url_char_iff (c ∷ cs) (d ∷ ds) = (
  λ h. ((url_char_iff c d).0 cc, (map-url_char_iff cs ds).0 cc),
  λ (p, ps). ap₂ (λ x t. x ∷ t) ((url_char_iff c d).1 p) ((map-url_char_iff cs ds).1 ps),
)

-- The challenge is not empty: so the encoding succeeded.
pub base64url_encode_iff :
    (base64 : ℕ → List ℕ → Option Text) (random : List ℕ) (challenge : Text)
    → length challenge ≡ 43
    → (base64url_encode base64 random 45 ≡ challenge) ↔ IsChallenge base64 random challenge
unfolding base64url_encode
base64url_encode_iff base64 random challenge size = (
  λ h. elim (Option-cases (base64 45 random)) [
    | inl none_made ↦
        let nothing : base64url_encode base64 random 45 ≡ [] =
          rw (none_made, base64url_encode) refl in
        let empty : length challenge ≡ 0 = ap length (sym h ∙ nothing) in
        absurd (omega (arith, size, empty))
    | inr (encoded, made) ↦
        let ((n, e), open_end) = drop_padding-strips encoded in
        let result : base64url_encode base64 random 45 ≡ map url_char (drop_padding encoded) =
          rw (made, base64url_encode) refl in
        record {
          body = drop_padding encoded;
          padding = n;
          encoded = made ∙ ap some e;
          stripped = open_end;
          safe = (map-url_char_iff (drop_padding encoded) challenge).0 (sym result ∙ h);
        }
  ],
  λ c.
      rw (c.encoded, base64url_encode, drop_padding-body c.body c.padding c.stripped)
        ((map-url_char_iff c.body challenge).1 c.safe),
)
