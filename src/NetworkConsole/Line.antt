-- ===== src/NetworkConsole/Line.antt =====
-- main/network_console.cpp: the line that is received from a client, without the loop.
use power.Prelude.{
  ℕ, zero, suc, ◌<◌, ◌≡◌, ◌≢◌, ◌⊎◌, ◌↔◌, inl, inr, refl, ap, sym, ◌∙◌, false, some, List, [], ◌∷◌,
  ◌++◌, length, Text, ◌==◌, ==_iff, arith, Bool-cases,
}
use mathlib.Core.List.{append_assoc, append-nil}
use power.NetworkConsole.Authenticate.{drop_cr, read_from, read_line}

abbrev pub EndsIn : ℕ → List ℕ → Type 0
EndsIn c xs = (start : List ℕ) × (xs ≡ start ++ (c ∷ []))

abbrev pub HasNo : ℕ → List ℕ → Type 0
HasNo c [] = Unit
HasNo c (x ∷ xs) = (x ≢ c) × HasNo c xs

-- What is received up to LF, without a CR at its end.
pub record IsLine (input : List ℕ) (line : Text) : Type 0 where
  pub raw : List ℕ
  pub rest : List ℕ
  pub input_is : input ≡ raw ++ (10 ∷ rest)
  pub no_lf : HasNo 10 raw
  pub fits : length raw < 95
  pub trimmed : (raw ≡ line ++ (13 ∷ [])) ⊎ ((raw ≡ line) × (EndsIn 13 raw → ⊥))

pub EndsIn-empty : (e : ℕ) → EndsIn e [] → ⊥
EndsIn-empty e ([], p) = absurd cc
EndsIn-empty e (x ∷ start, p) = absurd cc

pub EndsIn-one : (e c : ℕ) → EndsIn e (c ∷ []) → c ≡ e
EndsIn-one e c ([], p) = cc
EndsIn-one e c (x ∷ start, p) = absurd (EndsIn-empty e (start, cc))

pub EndsIn-tail : (e c d : ℕ) (xs : List ℕ) → EndsIn e (c ∷ (d ∷ xs)) → EndsIn e (d ∷ xs)
EndsIn-tail e c d xs ([], p) = absurd cc
EndsIn-tail e c d xs (x ∷ start, p) = (start, cc)

pub EndsIn-cons : (e c : ℕ) (xs : List ℕ) → EndsIn e xs → EndsIn e (c ∷ xs)
EndsIn-cons e c xs (start, p) = (c ∷ start, ap (λ t. c ∷ t) p)

drop_cr-trims :
    (raw : List ℕ) → (raw ≡ drop_cr raw ++ (13 ∷ [])) ⊎ ((raw ≡ drop_cr raw) × (EndsIn 13 raw → ⊥))
drop_cr-trims [] = inr (refl, EndsIn-empty 13)
drop_cr-trims (c ∷ []) = elim (Bool-cases (c == 13)) [
  | inl same ↦ inl (rw same (ap (λ x. x ∷ []) ((==_iff c 13).0 same)))
  | inr other ↦ inr (rw other (refl, λ h. absurd (ground (arith, other, EndsIn-one 13 c h))))
]
drop_cr-trims (c ∷ (d ∷ rest)) = elim (drop_cr-trims (d ∷ rest)) [
  | inl ended ↦ inl (ap (λ t. c ∷ t) ended)
  | inr (same, open_end) ↦ inr (ap (λ t. c ∷ t) same, λ h. open_end (EndsIn-tail 13 c d rest h))
]

drop_cr-append : (line : Text) → drop_cr (line ++ (13 ∷ [])) ≡ line
drop_cr-append [] = refl
drop_cr-append (c ∷ []) = refl
drop_cr-append (c ∷ (d ∷ rest)) = ap (λ t. c ∷ t) (drop_cr-append (d ∷ rest))

drop_cr_iff :
    (raw line : Text)
    → (drop_cr raw ≡ line) ↔ ((raw ≡ line ++ (13 ∷ [])) ⊎ ((raw ≡ line) × (EndsIn 13 raw → ⊥)))
drop_cr_iff raw line = (
  λ h. rw (← h) (drop_cr-trims raw),
  λ h. elim h [
    | inl ended ↦ rw ended (drop_cr-append line)
    | inr (same, open_end) ↦ elim (drop_cr-trims raw) [
      | inl ended ↦ absurd (open_end (drop_cr raw, ended))
      | inr (kept, _) ↦ sym kept ∙ same
    ]
  ],
)

-- The loop finds the first LF, with fewer characters before it than there is room.
read_from-found :
    (left : ℕ) (input acc line : Text)
    → read_from left input acc ≡ some line
    → (raw rest : Text) × (input ≡ raw ++ (10 ∷ rest))
      × HasNo 10 raw
      × (length raw < left)
      × (drop_cr (acc ++ raw) ≡ line)
unfolding read_from
read_from-found zero input acc line h = absurd cc
read_from-found (suc left) [] acc line h = absurd cc
read_from-found (suc left) (ch ∷ input) acc line h = elim (Bool-cases (ch == 10)) [
  | inl same ↦ (
    [],
    input,
    ap (λ c. c ∷ input) ((==_iff ch 10).0 same),
    tt,
    omega arith,
    let done : drop_cr acc ≡ line = ground arith in rw (append-nil acc) done,
  )
  | inr other ↦
      let later : read_from left input (acc ++ (ch ∷ [])) ≡ some line = ground arith in
      let differs : ch ≢ 10 = λ e. absurd (ground (arith, other, e)) in
      let (raw, rest, received, none_in, fits, ended) =
        read_from-found left input (acc ++ (ch ∷ [])) line later in
      (
        ch ∷ raw,
        rest,
        ap (λ t. ch ∷ t) received,
        (differs, none_in),
        omega (arith, fits),
        ap drop_cr (sym (append_assoc acc (ch ∷ []) raw)) ∙ ended,
      )
]

read_from-lf :
    (left : ℕ) (raw rest acc : Text)
    → HasNo 10 raw
    → length raw < left
    → read_from left (raw ++ (10 ∷ rest)) acc ≡ some (drop_cr (acc ++ raw))
unfolding read_from
read_from-lf zero raw rest acc n h = absurd (omega arith)
read_from-lf (suc left) [] rest acc n h = ap (λ t. some (drop_cr t)) (sym (append-nil acc))
read_from-lf (suc left) (c ∷ raw) rest acc (ne, n) h =
    let other : (c == 10) ≡ false = ground (arith, ne) in
    rw other (
      read_from-lf left raw rest (acc ++ (c ∷ [])) n (omega (arith, h))
      ∙ ap (λ t. some (drop_cr t)) (append_assoc acc (c ∷ []) raw))

pub read_line_iff :
    (input : List ℕ) (line : Text) → (read_line input 96 ≡ some line) ↔ IsLine input line
unfolding read_line
read_line_iff input line = (
  λ h.
      let (raw, rest, received, no_lf, fits, ended) = read_from-found 95 input [] line h in
      record {
        raw = raw;
        rest = rest;
        input_is = received;
        no_lf = no_lf;
        fits = fits;
        trimmed = (drop_cr_iff raw line).0 ended;
      },
  λ l. rw l.input_is (
      read_from-lf 95 l.raw l.rest [] l.no_lf l.fits
      ∙ ap some ((drop_cr_iff l.raw line).1 l.trimmed)),
)
