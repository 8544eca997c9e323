-- ===== src/PolicyStorage/Spec.antt =====
-- main/policy_storage.cpp as a pair of programs, which the two operations that write change.
use power.Prelude.{
  take-short, ℕ, suc, ◌≤◌, ◌≡◌, refl, ap, ap₂, sym, ◌∙◌, Bool, true, false, some, List, [], ◌∷◌,
  ltb, leb, ◌==◌, if◌then◌else◌, length, Text, str_eq, Result, ok, err, arith, Option-cases, inl,
  inr, subst, Bool-cases, no_mem, invalid_size,
}
use power.PolicyStorage.{
  PolicySlot, active, staged, Nvs, key_for, active_key, staged_key, policy_program_max_bytes,
  read_blob_alloc, policy_storage_read_alloc, policy_storage_write_staged,
  policy_storage_accept_staged, put_program, missing_ok, and_then, write_opened,
}
use power.PolicyStorage.Contents.{or_empty, IsKept, missing_ok-found, or_empty-erased, or_empty-put}

pub record Programs : Type 0 where
  pub active_program : List ℕ
  pub staged_program : List ℕ

abbrev pub program_of : Programs → PolicySlot → List ℕ
program_of p active = p.active_program
program_of p staged = p.staged_program

-- What a console session does with the programs; `accept` carries whether malloc succeeds.
pub data Command : Type 0 where
  write : List ℕ → Command
  accept : Bool → Command

-- A program that is too long is refused, and so is one for which there is no memory.
unfoldable pub spec_step : Programs → Command → Programs
spec_step p (write program) =
    if leb (length program) policy_program_max_bytes
    then record p { staged_program = program }
    else p
spec_step p (accept allocated) =
    if allocated then record p { active_program = p.staged_program } else p

unfoldable pub spec_run : Programs → List Command → Programs
spec_run p [] = p
spec_run p (c ∷ cs) = spec_run (spec_step p c) cs

-- Both programs have a size that can be read.
abbrev pub IsSized : Programs → Type 0
IsSized p =
    (length p.active_program ≤ policy_program_max_bytes)
    × (length p.staged_program ≤ policy_program_max_bytes)

module _ {Store Stats : Type 0} (nvs : Nvs Store Stats) (kept : IsKept nvs) where
  unfoldable pub view : Store → Programs
  view flash = record {
    active_program = or_empty (kept.contents flash active_key);
    staged_program = or_empty (kept.contents flash staged_key);
  }

  -- One command, as the code does it.
  unfoldable pub step : Store → Command → Store
  step flash (write program) =
      (policy_storage_write_staged nvs flash (some program) (length program)).0
  step flash (accept allocated) = (policy_storage_accept_staged nvs flash allocated).0

  unfoldable pub run : Store → List Command → Store
  run flash [] = flash
  run flash (c ∷ cs) = run (step flash c) cs

  read-size :
      (flash : Store) (key : Text)
      → length (or_empty (kept.contents flash key)) ≤ policy_program_max_bytes
      → read_blob_alloc nvs flash key true ≡ ok (or_empty (kept.contents flash key))
  unfolding read_blob_alloc
  read-size flash key fits = elim (Option-cases (kept.contents flash key)) [
    | inl e ↦ rw (kept.sizes flash key, e) refl
    | inr (bytes, e) ↦
        let fits' : length bytes ≤ policy_program_max_bytes =
          subst (λ c. length (or_empty c) ≤ policy_program_max_bytes) e fits in
        rw (kept.sizes flash key, e) (ground (arith, kept.reads flash key bytes))
  ]

  read-no_mem :
      (flash : Store) (key : Text)
      → length (or_empty (kept.contents flash key)) ≤ policy_program_max_bytes
      → read_blob_alloc nvs flash key false ≡ err no_mem
  unfolding read_blob_alloc
  read-no_mem flash key fits = elim (Option-cases (kept.contents flash key)) [
    | inl e ↦ rw (kept.sizes flash key, e) refl
    | inr (bytes, e) ↦
        let fits' : length bytes ≤ policy_program_max_bytes =
          subst (λ c. length (or_empty c) ≤ policy_program_max_bytes) e fits in
        rw (kept.sizes flash key, e) (ground arith)
  ]

  -- What a put leaves: the program under the key, and the other keys.
  put-contents :
      (flash : Store) (key : Text) (program : List ℕ)
      → let (flash', result) = put_program nvs flash key (length program) program in
        (result ≡ ok tt)
        × ((other : Text)
            → or_empty (kept.contents flash' other)
              ≡ (if str_eq key other then program else or_empty (kept.contents flash other)))
  put-contents flash key [] =
      let (erased, others) = kept.erases flash key in
      (
        ap missing_ok erased ∙ missing_ok-found (kept.contents flash key),
        λ other. ap or_empty (others other) ∙ or_empty-erased (str_eq key other) _,
      )
  put-contents flash key (b ∷ bs) =
      let some_length : (suc (length bs) == 0) ≡ false = ground arith in
      let (written, others) = kept.writes flash key (b ∷ bs) in
      rw some_length
        (written, λ other. ap or_empty (others other) ∙ or_empty-put (str_eq key other) (b ∷ bs) _)

  and_then-ok :
      (first : Store × Result (Unit {0})) (next : Store → Store × Result (Unit {0}))
      → first.1 ≡ ok tt
      → and_then nvs first next ≡ next first.0
  and_then-ok (flash, ok tt) next done = refl
  and_then-ok (flash, err e) next done = cc

  -- The put and the commit behind it.
  put-commit :
      (flash : Store) (key : Text) (program : List ℕ)
      → let (flash', result) =
          and_then nvs (put_program nvs flash key (length program) program) nvs.commit in
        (result ≡ ok tt)
        × ((other : Text)
            → or_empty (kept.contents flash' other)
              ≡ (if str_eq key other then program else or_empty (kept.contents flash other)))
  put-commit flash key program =
      let put = put_program nvs flash key (length program) program in
      let (done, others) = put-contents flash key program in
      let (committed, same) = kept.commits put.0 in
      rw (and_then-ok put nvs.commit done)
        (committed, λ other. ap or_empty (same other) ∙ others other)

  write_staged-view :
      (flash : Store) (program : List ℕ)
      → length program ≤ policy_program_max_bytes
      → let (flash', result) =
          policy_storage_write_staged nvs flash (some program) (length program) in
        (result ≡ ok tt) × (view flash' ≡ record (view flash) { staged_program = program })
  unfolding policy_storage_write_staged view str_eq
  write_staged-view flash program fits =
      let small : ltb policy_program_max_bytes (length program) ≡ false = ground arith in
      let (done, others) = put-commit flash staged_key program in
      rw
        (
          small,
          write_opened,
          kept.opens true flash,
          take-short (length program) program (omega arith),
        )
        (
          done,
          ap₂ (λ a s. record { active_program = a; staged_program = s }) (others active_key)
              (others staged_key),
        )

  accept_staged-view :
      (flash : Store)
      → length (view flash).staged_program ≤ policy_program_max_bytes
      → let (flash', result) = policy_storage_accept_staged nvs flash true in
        (result ≡ ok tt)
        × (view flash' ≡ record (view flash) { active_program = (view flash).staged_program })
  unfolding policy_storage_accept_staged view str_eq
  accept_staged-view flash fits =
      let (done, others) =
        put-commit flash active_key (or_empty (kept.contents flash staged_key)) in
      rw (kept.opens true flash, policy_storage_accept_staged, read-size flash staged_key fits)
        (
          done,
          ap₂ (λ a s. record { active_program = a; staged_program = s }) (others active_key)
              (others staged_key),
        )

  write_staged-large :
      (flash : Store) (program : List ℕ)
      → ltb policy_program_max_bytes (length program) ≡ true
      → policy_storage_write_staged nvs flash (some program) (length program)
        ≡ (flash, err invalid_size)
  unfolding policy_storage_write_staged
  write_staged-large flash program large = rw large refl

  accept_staged-no_mem :
      (flash : Store)
      → length (view flash).staged_program ≤ policy_program_max_bytes
      → policy_storage_accept_staged nvs flash false ≡ (flash, err no_mem)
  unfolding policy_storage_accept_staged view
  accept_staged-no_mem flash fits =
      rw (kept.opens true flash, policy_storage_accept_staged, read-no_mem flash staged_key fits)
        refl

  IsSized-step :
      (flash : Store) (c : Command)
      → IsSized (view flash)
      → (view (step flash c) ≡ spec_step (view flash) c) × IsSized (spec_step (view flash) c)
  unfolding step spec_step
  IsSized-step flash (write program) sized =
      elim (Bool-cases (leb (length program) policy_program_max_bytes)) [
        | inl fits ↦
            let small : length program ≤ policy_program_max_bytes = ground arith in
            rw fits ((write_staged-view flash program small).1, (sized.0, small))
        | inr long ↦
            let large : ltb policy_program_max_bytes (length program) ≡ true = ground arith in
            rw long (ap (λ r. view r.0) (write_staged-large flash program large), sized)
      ]
  IsSized-step flash (accept true) sized =
      ((accept_staged-view flash sized.1).1, (sized.1, sized.1))
  IsSized-step flash (accept false) sized =
      (ap (λ r. view r.0) (accept_staged-no_mem flash sized.1), sized)

  run-Agree :
      (flash : Store) (commands : List Command)
      → IsSized (view flash)
      → (view (run flash commands) ≡ spec_run (view flash) commands)
        × IsSized (view (run flash commands))
  unfolding run spec_run
  run-Agree flash [] sized = (refl, sized)
  run-Agree flash (c ∷ cs) sized =
      let (same, sized') = IsSized-step flash c sized in
      let (rest, kept_size) = run-Agree (step flash c) cs (subst IsSized (sym same) sized') in
      (rest ∙ ap (λ p. spec_run p cs) same, kept_size)

  -- On a flash that holds what is written, whose two programs are at most 16384 bytes long: after
  -- any sequence of writes to the staged program and of acceptances, with or without memory,
  -- what is read of each slot is the program that the specification has there.
  pub policy_storage_read_alloc-Agree :
      (flash : Store) (commands : List Command) (slot : PolicySlot)
      → IsSized (view flash)
      → policy_storage_read_alloc nvs (run flash commands) slot true true
        ≡ ok (program_of (spec_run (view flash) commands) slot)
  unfolding policy_storage_read_alloc key_for view
  policy_storage_read_alloc-Agree flash commands active sized =
      let (same, sized') = run-Agree flash commands sized in
      rw (kept.opens false (run flash commands))
        (read-size (run flash commands) active_key sized'.0 ∙ ap (λ p. ok p.active_program) same)
  policy_storage_read_alloc-Agree flash commands staged sized =
      let (same, sized') = run-Agree flash commands sized in
      rw (kept.opens false (run flash commands))
        (read-size (run flash commands) staged_key sized'.1 ∙ ap (λ p. ok p.staged_program) same)
