-- ===== src/JbdProtocol/Bounds.antt =====
-- Which bytes decide the answers of main/jbd_protocol.cpp.
use power.Prelude.{
  ℕ, zero, suc, ◌+◌, ◌-◌, ◌*◌, ◌/◌, ◌≤◌, ◌<◌, ◌≡◌, inl, inr, refl, ap₂, true, ◌∷◌, Bool-cases, ltb,
  some, arith,
}
use power.Prelude.Float.{Float}
use power.Prelude.Memory.{Memory, shift, Agree}
use power.JbdProtocol.{
  sum_from, jbd_checksum, checksum_matches, valid_frame, find_from, jbd_find_packet, given,
  null_out, Out, temperature_from, read_basic_info, jbd_parse_basic_info, cells_from,
  jbd_parse_cell_info, read_be16, read_be16_signed,
}

module _ (a b : Memory) where
  sum_from-agree :
      (left i sum : ℕ)
      → ((j : ℕ) → j < i + left → a j ≡ b j)
      → sum_from a left i sum ≡ sum_from b left i sum
  unfolding sum_from
  sum_from-agree zero i sum h = refl
  sum_from-agree (suc left) i sum h =
      rw (h i (omega arith)) (sum_from-agree left (i + 1) _ (λ j p. h j (omega arith)))

jbd_checksum-Agree :
    (a b : Memory) (length : ℕ) → Agree length a b → jbd_checksum a length ≡ jbd_checksum b length
unfolding jbd_checksum
jbd_checksum-Agree a b length h = rw (sum_from-agree a b length 0 0 (λ j p. h j (omega arith)))

module _ (a b : Memory) (length : ℕ) (h : Agree length a b) where
  read_be16-agree : (i : ℕ) → i + 2 ≤ length → read_be16 (shift a i) ≡ read_be16 (shift b i)
  read_be16-agree i p = rw (h (i + 0) (omega arith), h (i + 1) (omega arith))

  shift-Agree : (k n : ℕ) → k + n ≤ length → Agree n (shift a k) (shift b k)
  shift-Agree k n p i q = h (k + i) (omega arith)

  checksum_matches-agree :
      (data_len : ℕ)
      → data_len + 7 ≤ length
      → checksum_matches a data_len ≡ checksum_matches b data_len
  unfolding checksum_matches
  checksum_matches-agree n p = rw (
    read_be16-agree (4 + n) (omega arith),
    jbd_checksum-Agree (shift a 2) (shift b 2) (n + 2) (shift-Agree 2 (n + 2) (omega arith)),
    jbd_checksum-Agree (shift a 1) (shift b 1) (n + 3) (shift-Agree 1 (n + 3) (omega arith)),
  )

  valid_frame-agree : (command : ℕ) → valid_frame a length command ≡ valid_frame b length command
  unfolding valid_frame
  valid_frame-agree command = elim (Bool-cases (ltb length 7)) [
    | inl short ↦ rw short
    | inr long ↦ ground (arith, h 0, h 1, h 3, h (b 3 + 7 - 1), checksum_matches-agree (b 3))
  ]

module _ (a b : Memory) (length : ℕ) (h : Agree length a b) where
  valid_frame-shift :
      (i t : ℕ)
      → i + t ≤ length
      → (command : ℕ) → valid_frame (shift a i) t command ≡ valid_frame (shift b i) t command
  valid_frame-shift i t p =
      valid_frame-agree (shift a i) (shift b i) t (shift-Agree a b length h i t p)

  find_from-agree :
      (command left i : ℕ)
      → i + left ≡ length
      → find_from a length command left i ≡ find_from b length command left i
  unfolding find_from
  find_from-agree command zero i e = refl
  find_from-agree command (suc left) i e = ground (
    arith,
    find_from-agree command left (i + 1) (omega arith),
    h i,
    h (i + 1),
    h (i + 3),
    frame_at (b (i + 3) + 7),
  )
    where
      frame_at :
          (t : ℕ)
          → i + t ≤ length
          → valid_frame (shift a i) t command ≡ valid_frame (shift b i) t command
      frame_at t p = valid_frame-shift i t p command

valid_frame-length :
    (frame : Memory) (length command : ℕ)
    → valid_frame frame length command ≡ true
    → length ≡ frame 3 + 7
unfolding valid_frame
valid_frame-length frame length command h = ground arith

cells_from-Agree :
    (a b : Memory) (length left i : ℕ)
    → Agree length a b
    → 4 + (i + left) * 2 ≤ length
    → cells_from a left i ≡ cells_from b left i
unfolding cells_from
cells_from-Agree a b length zero i h p = refl
cells_from-Agree a b length (suc left) i h p =
    ap₂ ◌∷◌ (read_be16-agree a b length h (4 + i * 2) (omega arith))
      (cells_from-Agree a b length left (i + 1) h (omega arith))

module _ {F : Type 0} (f : Float F) (a b : Memory) (length : ℕ) (h : Agree length a b) where
  temperature_from-agree :
      (left i : ℕ) (acc : F)
      → 27 + (i + left) * 2 ≤ length
      → temperature_from f a left i acc ≡ temperature_from f b left i acc
  unfolding temperature_from
  temperature_from-agree zero i acc p = refl
  temperature_from-agree (suc left) i acc p =
      rw (read_be16-agree a b length h (27 + i * 2) (omega arith))
        (temperature_from-agree left (i + 1) _ (omega arith))

  read_basic_info-agree :
      (ntc_count : ℕ)
      → 27 + ntc_count * 2 ≤ length
      → read_basic_info f a ntc_count ≡ read_basic_info f b ntc_count
  unfolding read_basic_info read_be16_signed
  read_basic_info-agree n p = rw (
    read_be16-agree a b length h 4 (omega arith),
    read_be16-agree a b length h 6 (omega arith),
    read_be16-agree a b length h 8 (omega arith),
    read_be16-agree a b length h 10 (omega arith),
    read_be16-agree a b length h 12 (omega arith),
    read_be16-agree a b length h 20 (omega arith),
    h 22 (omega arith),
    h 23 (omega arith),
    h 24 (omega arith),
    h 25 (omega arith),
    temperature_from-agree n 0 _ (omega arith),
  )

-- Two buffers with the same first `length` bytes give the same answer of `jbd_find_packet`,
-- whatever lies behind them, for every command and all pointers.
pub jbd_find_packet-Agree :
    (a b : Memory) (length command : ℕ) (offset packet_len : Out)
    → Agree length a b
    → jbd_find_packet (some a) length command offset packet_len
      ≡ jbd_find_packet (some b) length command offset packet_len
unfolding jbd_find_packet
jbd_find_packet-Agree a b length command null_out packet_len h = refl
jbd_find_packet-Agree a b length command given null_out h = refl
jbd_find_packet-Agree a b length command given given h =
    find_from-agree a b length h command length 0 (omega arith)

-- Two frames with the same first `length` bytes are parsed alike by `jbd_parse_cell_info` and by
-- `jbd_parse_basic_info`, whatever lies behind them.
pub jbd_parse-Agree :
    {F : Type 0} (f : Float F) (a b : Memory) (length expected_cell_count : ℕ) (info : Out)
    → Agree length a b
    → (jbd_parse_cell_info (some a) length expected_cell_count info
        ≡ jbd_parse_cell_info (some b) length expected_cell_count info)
      × (jbd_parse_basic_info f (some a) length info ≡ jbd_parse_basic_info f (some b) length info)
unfolding jbd_parse_cell_info jbd_parse_basic_info
jbd_parse-Agree f a b length expected null_out h = (refl, refl)
jbd_parse-Agree f a b length expected given h = (
  elim (Bool-cases (valid_frame b length 4)) [
    | inl v ↦ ground (
      arith,
      valid_frame-agree a b length h 4,
      valid_frame-length b length 4 v,
      h 2,
      h 3,
      cells_from-Agree a b length (b 3 / 2) 0 h,
    )
    | inr v ↦ rw (valid_frame-agree a b length h 4, v)
  ],
  elim (Bool-cases (valid_frame b length 3)) [
    | inl v ↦ ground (
      arith,
      valid_frame-agree a b length h 3,
      valid_frame-length b length 3 v,
      h 2,
      h 3,
      h 26,
      read_basic_info-agree f a b length h (b 26),
    )
    | inr v ↦ rw (valid_frame-agree a b length h 3, v)
  ],
)
