-- ===== src/LogBuffer/Recent.antt =====
-- Which text the buffer of main/log_buffer.cpp holds.
use power.Prelude.{
  ℕ, zero, suc, ◌+◌, ◌-◌, ◌≤◌, ◌≡◌, refl, ap, sym, ◌∙◌, Bool-cases, inl, inr, true, List, [], ◌∷◌,
  ◌++◌, map, ltb, arith, length, length-append, length-drop, take, drop, Text,
}
use native.Mathlib.Decide.{dec_le}
use mathlib.Core.List.{append_assoc, append-nil}
use power.LogBuffer.{
  LogBuffer, append_locked, stored_line, log_buffer_vprintf, log_buffer_snapshot, log_buffer_bytes,
}

-- The last `n` bytes of a text.
abbrev pub last : ℕ → Text → Text
last n text = drop (length text - n) text

drop-nil : (k : ℕ) → drop {A = ℕ} k [] ≡ []
drop-nil zero = refl
drop-nil (suc k) = refl

drop-drop : (j k : ℕ) (xs : Text) → drop j (drop k xs) ≡ drop (k + j) xs
drop-drop j zero xs = ap (λ n. drop n xs) (omega arith)
drop-drop j (suc k) [] = drop-nil j ∙ sym (drop-nil (suc k + j))
drop-drop j (suc k) (x ∷ xs) =
    drop-drop j k xs
    ∙ ap (λ n. drop n (x ∷ xs)) (let e : suc (k + j) ≡ suc k + j = omega arith in e)

drop-all : (k : ℕ) (xs : Text) → length xs ≤ k → drop k xs ≡ []
drop-all k [] h = drop-nil k
drop-all zero (x ∷ xs) h = absurd (omega arith)
drop-all (suc k) (x ∷ xs) h = drop-all k xs (omega arith)

drop-none : (k : ℕ) (xs : Text) → k ≡ 0 → drop k xs ≡ xs
drop-none zero xs e = refl
drop-none (suc k) xs e = absurd (omega arith)

drop-append : (k : ℕ) (xs ys : Text) → drop k (xs ++ ys) ≡ drop k xs ++ drop (k - length xs) ys
drop-append k [] ys = rw (drop-nil k) (ap (λ n. drop n ys) (omega arith))
drop-append zero (x ∷ xs) ys =
    ap (λ n. (x ∷ xs) ++ drop n ys) (let e : 0 ≡ 0 - suc (length xs) = omega arith in e)
drop-append (suc k) (x ∷ xs) ys =
    drop-append k xs ys
    ∙ ap (λ n. drop k xs ++ drop n ys)
        (let e : k - length xs ≡ suc k - suc (length xs) = omega arith in e)

last-append :
    (n : ℕ) (xs ys : Text)
    → last n (xs ++ ys) ≡ drop (length xs + length ys - n) xs ++ drop (length ys - n) ys
last-append n xs ys = rw (length-append xs ys) (
    drop-append (length xs + length ys - n) xs ys ∙ elim (dec_le n (length ys)) [
      | yes h ↦ ap (λ k. drop (length xs + length ys - n) xs ++ drop k ys) (omega arith)
      | no h ↦ ap (λ k. drop (length xs + length ys - n) xs ++ drop k ys) (omega arith)
    ])

take-all : (n : ℕ) (xs : Text) → length xs ≤ n → take n xs ≡ xs
take-all zero [] h = refl
take-all zero (x ∷ xs) h = absurd (omega arith)
take-all (suc n) [] h = refl
take-all (suc n) (x ∷ xs) h = ap (λ r. x ∷ r) (take-all n xs (omega arith))

last-append_last : (n : ℕ) (xs ys : Text) → last n (last n xs ++ ys) ≡ last n (xs ++ ys)
last-append_last n xs ys =
    last-append n (last n xs) ys
    ∙ rw (length-drop (length xs - n) xs, drop-drop)
        (ap (λ k. drop k xs ++ drop (length ys - n) ys) (omega arith) ∙ sym (last-append n xs ys))

append_locked-last :
    (buffer text : Text)
    → length buffer ≤ log_buffer_bytes
    → append_locked buffer text ≡ last log_buffer_bytes (buffer ++ text)
unfolding append_locked
append_locked-last b t h =
    rw (last-append log_buffer_bytes b t) (elim (Bool-cases (ltb log_buffer_bytes (length t))) [
      | inl long ↦
          rw (long, length-drop (length t - log_buffer_bytes) t)
            (ap (λ r. r ++ drop (length t - log_buffer_bytes) t)
              (ground (
                arith,
                drop-all (length b + (length t - (length t - log_buffer_bytes)) - log_buffer_bytes)
                    b,
                drop-all (length b + length t - log_buffer_bytes) b,
                drop-all 0 b,
              )))
      | inr short ↦ rw short (
          let none_of : length t - log_buffer_bytes ≡ 0 = ground arith in
          rw none_of (elim (Bool-cases (ltb log_buffer_bytes (length b + length t))) [
            | inl over ↦ rw over
            | inr fits ↦ rw fits (
                let none_of : length b + length t - log_buffer_bytes ≡ 0 = ground arith in
                rw none_of)
          ]))
    ])

-- The entries of a log, one after the other.
abbrev pub joined : List Text → Text
joined [] = []
joined (t ∷ ts) = t ++ joined ts

abbrev pub append_all : Text → List Text → Text
append_all b [] = b
append_all b (t ∷ ts) = append_all (append_locked b t) ts

length-last : (n : ℕ) (xs : Text) → length (last n xs) ≤ n
length-last n xs = omega (arith, length-drop (length xs - n) xs)

-- After any entries the buffer holds the last 16384 bytes of what it held and all of them.
append_all-last :
    (ts : List Text) (b : Text)
    → length b ≤ log_buffer_bytes
    → append_all b ts ≡ last log_buffer_bytes (b ++ joined ts)
append_all-last [] b h =
    let none_of : length b - log_buffer_bytes ≡ 0 = omega arith in rw (append-nil b, none_of)
append_all-last (t ∷ ts) b h =
    append_all-last ts (append_locked b t)
      (rw (append_locked-last b t h) (length-last log_buffer_bytes (b ++ t)))
    ∙ rw (append_locked-last b t h) (
        last-append_last log_buffer_bytes (b ++ t) (joined ts)
        ∙ ap (last log_buffer_bytes) (append_assoc b t (joined ts)))

log_buffer_snapshot-last :
    (b : LogBuffer) (n : ℕ)
    → b.mutex_created ≡ true
    → log_buffer_snapshot b true n true ≡ last n b.text
unfolding log_buffer_snapshot
log_buffer_snapshot-last b n m = ground (
  arith,
  take-all n (last n b.text) (length-last n b.text),
  drop-all (length b.text) b.text,
  take-all (length b.text) b.text,
  drop-none (length b.text - n) b.text,
  drop-none (length b.text - length b.text) b.text,
)

-- Entries that are logged one after the other, each while the mutex can be taken.
pub log_all : LogBuffer → List Text → LogBuffer
log_all b [] = b
log_all b (t ∷ ts) = log_all (log_buffer_vprintf b t true) ts

append_locked-nil : (b : Text) → length b ≤ log_buffer_bytes → append_locked b [] ≡ b
unfolding append_locked
append_locked-nil b h = ground (arith, append-nil b)

vprintf-text :
    (b : LogBuffer) (t : Text)
    → b.mutex_created ≡ true
    → length b.text ≤ log_buffer_bytes
    → log_buffer_vprintf b t true ≡ record b { text = append_locked b.text (stored_line t) }
unfolding log_buffer_vprintf stored_line
vprintf-text b [] m h = ground (arith, append_locked-nil b.text)
vprintf-text b (c ∷ t) m h = ground arith

log_all-text :
    (ts : List Text) (b : LogBuffer)
    → b.mutex_created ≡ true
    → length b.text ≤ log_buffer_bytes
    → log_all b ts ≡ record b { text = append_all b.text (map stored_line ts) }
unfolding log_all
log_all-text [] b m h = refl
log_all-text (t ∷ ts) b m h = rw (vprintf-text b t m h) (
    log_all-text ts (record b { text = append_locked b.text (stored_line t) }) m
      (rw (append_locked-last b.text (stored_line t) h)
        (length-last log_buffer_bytes (b.text ++ stored_line t))))

-- When entries are logged one after the other into a buffer with at most 16384 bytes and a
-- snapshot of `n` bytes is taken, each with the mutex, the snapshot is the last `n` bytes of the last 16384 bytes of the old text and the lines
-- of the entries.
pub log_all-snapshot :
    (ts : List Text) (b : LogBuffer) (n : ℕ)
    → b.mutex_created ≡ true
    → length b.text ≤ log_buffer_bytes
    → log_buffer_snapshot (log_all b ts) true n true
      ≡ last n (last log_buffer_bytes (b.text ++ joined (map stored_line ts)))
log_all-snapshot ts b n m h = rw (log_all-text ts b m h) (
    log_buffer_snapshot-last (record b { text = append_all b.text (map stored_line ts) }) n m
    ∙ ap (last n) (append_all-last (map stored_line ts) b.text h))
