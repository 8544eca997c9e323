-- ===== src/JbdProtocol/Frame.antt =====
-- Frames as the battery sends them to main/jbd_protocol.cpp.
use power.Prelude.{
  ℕ, zero, suc, ◌+◌, ◌-◌, ◌*◌, ◌/◌, ◌%◌, ◌^◌, ◌≤◌, ◌<◌, ◌≡◌, refl, sym, ◌∙◌, ap, ap₂, true, List,
  [], ◌∷◌, ◌++◌, some, arith, length, get_or,
}
use power.Prelude.Memory.{Memory, shift, buffer}
use power.JbdProtocol.{
  sum_from, jbd_checksum, checksum_matches, valid_frame, given, cells_from, jbd_parse_cell_info,
  read_be16,
}

abbrev pub sum : List ℕ → ℕ
sum [] = 0
sum (x ∷ xs) = x + sum xs

-- The two bytes that make the word `word`, high byte first.
abbrev be16 : ℕ → List ℕ
be16 word = word / 256 ∷ word % 256 ∷ []

-- The two's complement of the sum of the bytes.
abbrev checksum_word : List ℕ → ℕ
checksum_word bytes = (2 ^ 16 - sum bytes % 2 ^ 16) % 2 ^ 16

-- A frame: start byte, command, status, length, payload, checksum over status, length and
-- payload, end byte.
abbrev pub frame_of : ℕ → ℕ → List ℕ → List ℕ
frame_of command status payload =
    let body = status ∷ length payload ∷ payload in
    0xdd ∷ command ∷ (body ++ (be16 (checksum_word body) ++ 0x77 ∷ []))

get_or-append_left :
    (xs ys : List ℕ) (i : ℕ) → i < length xs → get_or (xs ++ ys) i 0 ≡ get_or xs i 0
get_or-append_left [] ys i h = absurd (omega arith)
get_or-append_left (x ∷ xs) ys zero h = refl
get_or-append_left (x ∷ xs) ys (suc i) h = get_or-append_left xs ys i (omega arith)

get_or-append_right :
    (xs ys : List ℕ) (i j : ℕ) → j ≡ length xs + i → get_or (xs ++ ys) j 0 ≡ get_or ys i 0
get_or-append_right [] ys i j e = rw e (ap (λ k. get_or ys k 0) (omega arith))
get_or-append_right (x ∷ xs) ys i zero e = absurd (omega arith)
get_or-append_right (x ∷ xs) ys i (suc j) e = get_or-append_right xs ys i j (omega arith)

sum_from-lem :
    (bytes : List ℕ) (m : Memory) (i acc : ℕ)
    → acc < 2 ^ 16
    → ((j : ℕ) → j < length bytes → m (i + j) ≡ get_or bytes j 0)
    → sum_from m (length bytes) i acc ≡ (acc + sum bytes) % 2 ^ 16
unfolding sum_from
sum_from-lem [] m i acc p h = omega arith
sum_from-lem (x ∷ xs) m i acc p h =
    let here : m i ≡ x = ap m (omega arith) ∙ h 0 (omega arith) in
    rw (here, sum_from)
      (sum_from-lem xs m (i + 1) ((acc + x) % 2 ^ 16) (omega arith)
          (λ j q. ap m (omega arith) ∙ h (suc j) (omega arith))
        ∙ omega arith)

-- The checksum that the code computes over a list of bytes.
jbd_checksum-word :
    (bytes : List ℕ) (m : Memory) (n : ℕ)
    → n ≡ length bytes
    → ((j : ℕ) → j < length bytes → m j ≡ get_or bytes j 0)
    → jbd_checksum m n ≡ checksum_word bytes
unfolding jbd_checksum
jbd_checksum-word bytes m n e h =
    rw (e, sum_from-lem bytes m 0 0 (omega arith) (λ j p. ap m (omega arith) ∙ h j p)) (omega arith)

module _ (command status : ℕ) (payload : List ℕ) where
  abbrev frame : Memory
  frame = buffer (frame_of command status payload)

  abbrev body : List ℕ
  body = status ∷ length payload ∷ payload

  frame-body : (j : ℕ) → j < length body → shift frame 2 j ≡ get_or body j 0
  frame-body j p =
      ap (λ i. buffer (frame_of command status payload) i)
        (let e : 2 + j ≡ suc (suc j) = omega arith in e)
      ∙ get_or-append_left body (be16 (checksum_word body) ++ 0x77 ∷ []) j p

  frame-tail :
      (i k : ℕ)
      → k ≡ length payload + 4 + i
      → frame k ≡ get_or (be16 (checksum_word body) ++ 0x77 ∷ []) i 0
  frame-tail i zero e = absurd (omega arith)
  frame-tail i (suc zero) e = absurd (omega arith)
  frame-tail i (suc (suc k)) e =
      get_or-append_right body (be16 (checksum_word body) ++ 0x77 ∷ []) i k (omega arith)

  frame-payload : (j : ℕ) → j < length payload → frame (4 + j) ≡ get_or payload j 0
  frame-payload j p =
      ap (λ i. frame i) (let e : 4 + j ≡ 2 + suc (suc j) = omega arith in e)
      ∙ frame-body (suc (suc j)) (omega arith)

  frame_checksum : jbd_checksum (shift frame 2) (length payload + 2) ≡ checksum_word body
  frame_checksum = jbd_checksum-word body (shift frame 2) _ (omega arith) frame-body

  frame_received : read_be16 (shift frame (4 + length payload)) ≡ checksum_word body
  frame_received =
      rw
        (
          frame-tail 0 (4 + length payload + 0) (omega arith),
          frame-tail 1 (4 + length payload + 1) (omega arith),
        )
        (omega arith)

  -- A frame with any command, status and payload is valid.
  valid_frame-frame_of : valid_frame frame (length payload + 7) command ≡ true
  unfolding valid_frame checksum_matches
  valid_frame-frame_of =
      ground
        (arith, frame-tail 2 (length payload + 7 - 1) (omega arith), frame_checksum, frame_received)

-- The payload that reports the given cell voltages.
abbrev pub cells_payload : List ℕ → List ℕ
cells_payload [] = []
cells_payload (v ∷ vs) = be16 v ++ cells_payload vs

length-cells_payload : (vs : List ℕ) → length (cells_payload vs) ≡ length vs * 2
length-cells_payload [] = refl
length-cells_payload (v ∷ vs) = omega (arith, length-cells_payload vs)

abbrev Words : List ℕ → Type 0
Words [] = Unit {0}
Words (v ∷ vs) = (v < 2 ^ 16) × Words vs

cells_from-lem :
    (vs : List ℕ) (m : Memory) (i : ℕ)
    → Words vs
    → ((j : ℕ) → j < length (cells_payload vs) → m (4 + i * 2 + j) ≡ get_or (cells_payload vs) j 0)
    → cells_from m (length vs) i ≡ vs
unfolding cells_from
cells_from-lem [] m i w h = refl
cells_from-lem (v ∷ vs) m i w h =
    ap₂ ◌∷◌ (rw (h 0 (omega arith), h 1 (omega arith)) (omega (arith, w.0)))
      (cells_from-lem vs m (i + 1) w.1 (λ j p. ap m (omega arith) ∙ h (suc (suc j)) (omega arith)))

module _ (vs : List ℕ) where
  abbrev cell_frame : Memory
  cell_frame = buffer (frame_of 4 0 (cells_payload vs))

  cell_frame-valid : valid_frame cell_frame (length vs * 2 + 7) 4 ≡ true
  cell_frame-valid =
      ap (λ n. valid_frame cell_frame (n + 7) 4) (sym (length-cells_payload vs))
      ∙ valid_frame-frame_of 4 0 (cells_payload vs)

  cell_frame-cells : Words vs → cells_from cell_frame (length (cells_payload vs) / 2) 0 ≡ vs
  cell_frame-cells w =
      ap (λ n. cells_from cell_frame n 0) (omega (arith, length-cells_payload vs))
      ∙ cells_from-lem vs cell_frame 0 w
          (λ j p. ap cell_frame (omega arith) ∙ frame-payload 4 0 (cells_payload vs) j p)

-- A frame that reports between 1 and 32 cell voltages, each a 16-bit word, and as many as are
-- expected, is parsed to exactly those voltages.
pub jbd_parse_cell_info-frame_of :
    (vs : List ℕ)
    → Words vs
    → 1 ≤ length vs
    → length vs ≤ 32
    → jbd_parse_cell_info
        (some (buffer (frame_of 4 0 (cells_payload vs))))
        (length vs * 2 + 7)
        (length vs)
        given
      ≡ some (record { count = length vs; voltage_mv = vs })
unfolding jbd_parse_cell_info
jbd_parse_cell_info-frame_of vs w p q =
    ground (arith, length-cells_payload vs, cell_frame-valid vs, cell_frame-cells vs w)
