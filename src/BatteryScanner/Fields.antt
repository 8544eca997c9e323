-- ===== src/BatteryScanner/Fields.antt =====
-- main/battery_scanner.cpp: which advertisements parse_raw_adv_summary accepts, and what it makes
-- of them.
use power.Prelude.{
  take-drop, ℕ, zero, suc, ◌≤◌, ◌≡◌, refl, ap, ap₂, sym, ◌∙◌, subst, ◌↔◌, inl, inr, true, false,
  some, List, [], ◌∷◌, ◌++◌, ltb, ◌==◌, length, take, drop, length-drop, length-take, length-append,
  arith, Bool-cases,
}
use power.BatteryScanner.Adv.{
  AdvSummary, empty_summary, see_field, parse_from, parse_raw_adv_summary,
}

-- A field of an advertisement, with at least one byte.
pub record Field : Type 0 where
  pub type : ℕ
  pub first : ℕ
  pub more : List ℕ

abbrev pub payload : Field → List ℕ
payload f = f.first ∷ f.more

-- The bytes of fields, and of what follows them.
unfoldable pub encode_fields : List Field → List ℕ → List ℕ
encode_fields [] tail = tail
encode_fields (f ∷ fs) tail =
    suc (length (payload f)) ∷ (f.type ∷ (payload f ++ encode_fields fs tail))

-- Every field in turn.
unfoldable pub see_fields : AdvSummary → List Field → AdvSummary
see_fields s [] = s
see_fields s (f ∷ fs) = see_fields (see_field s f.type (payload f)) fs

-- What may follow the last field: nothing, or a zero and then anything.
unfoldable pub IsEnd : List ℕ → Type 0
IsEnd [] = Unit {0}
IsEnd (b ∷ rest) = b ≡ 0

take-append : {A : Type 0} (xs ys : List A) → take (length xs) (xs ++ ys) ≡ xs
take-append [] ys = refl
take-append (x ∷ xs) ys = ap (λ zs. x ∷ zs) (take-append xs ys)

drop-append : {A : Type 0} (xs ys : List A) → drop (length xs) (xs ++ ys) ≡ ys
drop-append [] ys = refl
drop-append (x ∷ xs) ys = drop-append xs ys

parse-encode :
    (rounds : ℕ) (fs : List Field) (tail : List ℕ) (s : AdvSummary)
    → length (encode_fields fs tail) ≤ rounds
    → IsEnd tail
    → parse_from rounds (encode_fields fs tail) s ≡ (see_fields s fs, true)
unfolding parse_from encode_fields see_fields IsEnd
parse-encode rounds [] [] s enough end = refl
parse-encode zero [] (b ∷ rest) s enough end = refl
parse-encode (suc rounds) [] (b ∷ rest) s enough end =
    subst (λ b. parse_from (suc rounds) (b ∷ rest) s ≡ (s, true)) (sym end) refl
parse-encode zero (f ∷ fs) tail s enough end = absurd (omega arith)
parse-encode (suc rounds) (f ∷ fs) tail s enough end =
    let rest = encode_fields fs tail in
    let sum = length-append f.more rest in
    let fits : ltb (length (payload f ++ rest)) (length (payload f)) ≡ false = ground arith in
    let enough' : length rest ≤ rounds = omega (arith, sum) in
    let some_data : (length (payload f) == 0) ≡ false = ground arith in
    rw (some_data, fits, take-append f.more rest, drop-append f.more rest)
      (parse-encode rounds fs tail (see_field s f.type (payload f)) enough' end)

-- The bytes are those of fields, and the summary is that of the fields.
abbrev pub IsOf : List ℕ → AdvSummary → AdvSummary → Type 0
IsOf bytes s s' =
    (fs : List Field) × (tail : List ℕ) × (bytes ≡ encode_fields fs tail)
    × IsEnd tail
    × (s' ≡ see_fields s fs)

-- A field in front of the others.
IsOf-field :
    (type b : ℕ) (k : ℕ) (bs : List ℕ) (s s' : AdvSummary)
    → k ≤ length bs
    → IsOf (drop k bs) (see_field s type (b ∷ take k bs)) s'
    → IsOf (suc (suc k) ∷ (type ∷ (b ∷ bs))) s s'
unfolding encode_fields see_fields
IsOf-field type b k bs s s' fits (fs, tail, same, end, seen) =
    let f : Field = record { type = type; first = b; more = take k bs } in
    let size : length (take k bs) ≡ k = omega (arith, length-take k bs) in
    let split : bs ≡ take k bs ++ encode_fields fs tail =
      sym (take-drop k bs) ∙ ap (λ ys. take k bs ++ ys) same in
    (f ∷ fs, tail, ap₂ (λ n ys. suc (suc n) ∷ (type ∷ (b ∷ ys))) (sym size) split, end, seen)

parse-fields :
    (rounds : ℕ) (bytes : List ℕ) (s s' : AdvSummary)
    → length bytes ≤ rounds
    → parse_from rounds bytes s ≡ (s', true)
    → IsOf bytes s s'
unfolding parse_from encode_fields see_fields IsEnd
parse-fields rounds [] s s' enough h = ([], [], refl, tt, sym (ap (λ r. r.0) h))
parse-fields zero (b ∷ rest) s s' enough h = absurd (omega arith)
parse-fields (suc rounds) (zero ∷ rest) s s' enough h =
    ([], zero ∷ rest, refl, refl, sym (ap (λ r. r.0) h))
parse-fields (suc rounds) (suc n ∷ []) s s' enough h = absurd (ground (arith, ap (λ r. r.1) h))
parse-fields (suc rounds) (suc zero ∷ (type ∷ rest)) s s' enough h =
    absurd (ground (arith, ap (λ r. r.1) h))
parse-fields (suc rounds) (suc (suc k) ∷ (type ∷ [])) s s' enough h =
    absurd (ground (arith, ap (λ r. r.1) h))
parse-fields (suc rounds) (suc (suc k) ∷ (type ∷ (b ∷ bs))) s s' enough h =
    elim (Bool-cases (ltb (length (b ∷ bs)) (suc k))) [
      | inl long ↦ absurd (ground (arith, ap (λ r. r.1) h))
      | inr fits ↦
          let next : parse_from rounds (drop k bs) (see_field s type (b ∷ take k bs)) ≡ (s', true) =
            ground arith in
          let room : length (drop k bs) ≤ rounds = omega (arith, length-drop k bs) in
          IsOf-field type b k bs s s' (ground arith)
            (parse-fields rounds (drop k bs) _ s' room next)
    ]

-- For every advertisement and summary: the parser reports a complete advertisement with this
-- summary exactly when the bytes are those of fields of at least one byte of data each, in which
-- the length stands before the type, followed by nothing or by a zero byte and anything, and the
-- summary is what these fields give when they are seen in turn.
pub parse_raw_adv_summary_iff :
    (bytes : List ℕ) (s : AdvSummary)
    → (parse_raw_adv_summary bytes true ≡ (some s, true)) ↔ IsOf bytes empty_summary s
unfolding parse_raw_adv_summary
parse_raw_adv_summary_iff bytes s = (
  λ h.
      let whole : parse_from (length bytes) bytes empty_summary ≡ (s, true) = ground arith in
      parse-fields (length bytes) bytes empty_summary s (omega arith) whole,
  λ (fs, tail, same, end, seen).
      rw (same, seen)
        (ap (λ r. (some r.0, r.1))
          (parse-encode (length (encode_fields fs tail)) fs tail empty_summary (omega arith) end)),
)
