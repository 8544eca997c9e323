-- ===== src/JbdProtocol/Tests.antt =====
-- Frames of tests/test_jbd_protocol.cpp.
use power.Prelude.{
  ℕ, ◌+◌, ◌-◌, ◌<◌, ◌≡◌, ◌↔◌, refl, true, false, List, [], ◌∷◌, ◌++◌, some, arith, all_below,
  all_below_sound, ==_iff, ◌==◌,
}
use power.Prelude.Float.{Float}
use power.Prelude.Memory.{Memory, buffer, Agree}
use power.JbdProtocol.{
  sum_from, jbd_checksum, checksum_matches, valid_frame, find_from, jbd_find_packet, given,
  jbd_parse_cell_info, jbd_parse_basic_info,
}
use power.JbdProtocol.Frame.{frame_of, jbd_parse_cell_info-frame_of, cells_payload}
use power.JbdProtocol.Find.{Packet, Skips, jbd_find_packet_iff}
use power.JbdProtocol.Bounds.{jbd_find_packet-Agree, jbd_parse-Agree}

abbrev cell_response : List ℕ
cell_response =
    0xdd ∷ 0x04 ∷ 0x00 ∷ 0x08 ∷ 0x0f ∷ 0x23 ∷ 0x0f ∷ 0x1c ∷ 0x0f ∷ 0x12 ∷ 0x0f ∷ 0x1d ∷ 0xff ∷ 0x4e
    ∷ 0x77 ∷ []

cell_response-frame_of :
    frame_of 4 0 (cells_payload (3875 ∷ 3868 ∷ 3858 ∷ 3869 ∷ [])) ≡ cell_response
cell_response-frame_of = refl

abbrev stream : Memory
stream = buffer (0x01 ∷ 0x02 ∷ 0x03 ∷ cell_response)

find-stream : jbd_find_packet (some stream) 20 4 given given ≡ some (3, 15)
unfolding jbd_find_packet find_from valid_frame checksum_matches jbd_checksum sum_from
find-stream = refl

jbd_find_packet_iff_example :
    (jbd_find_packet (some stream) 20 4 given given ≡ some (3, 15))
    ↔ (Packet stream 20 4 3 15 × ((j : ℕ) → j < 3 → Skips stream 20 4 j))
jbd_find_packet_iff_example = jbd_find_packet_iff stream 20 4 3 15

Agree-by_table : (n : ℕ) (a b : Memory) → all_below n (λ i. a i == b i) ≡ true → Agree n a b
Agree-by_table n a b h i lt = (==_iff _ _).0 (all_below_sound n (λ i. a i == b i) i h lt)

-- The same bytes with another byte behind them.
abbrev longer_stream : Memory
longer_stream = buffer (0x01 ∷ 0x02 ∷ 0x03 ∷ (cell_response ++ 0x2a ∷ []))

jbd_find_packet-Agree_example :
    jbd_find_packet (some stream) 18 4 given given
    ≡ jbd_find_packet (some longer_stream) 18 4 given given
jbd_find_packet-Agree_example =
    jbd_find_packet-Agree stream longer_stream 18 4 given given
      (Agree-by_table 18 stream longer_stream (unfold all_below in refl))

-- Whole numbers in place of `float`; what is divided is lost.
abbrev whole : Float ℕ
whole = record {
  of_int = λ n. 0;
  add = λ a b. a + b;
  sub = λ a b. a - b;
  div = λ a b. a;
  lt = λ a b. false;
}

abbrev response : Memory
response = buffer cell_response

abbrev longer_response : Memory
longer_response = buffer (cell_response ++ 0x2a ∷ [])

jbd_parse-Agree_example :
    (jbd_parse_cell_info (some response) 15 4 given
      ≡ jbd_parse_cell_info (some longer_response) 15 4 given)
    × (jbd_parse_basic_info whole (some response) 15 given
        ≡ jbd_parse_basic_info whole (some longer_response) 15 given)
jbd_parse-Agree_example =
    jbd_parse-Agree whole response longer_response 15 4 given
      (Agree-by_table 15 response longer_response (unfold all_below in refl))

jbd_parse_cell_info-frame_of_example :
    jbd_parse_cell_info (some (buffer cell_response)) 15 4 given
    ≡ some (record { count = 4; voltage_mv = 3875 ∷ 3868 ∷ 3858 ∷ 3869 ∷ [] })
jbd_parse_cell_info-frame_of_example =
    jbd_parse_cell_info-frame_of (3875 ∷ 3868 ∷ 3858 ∷ 3869 ∷ [])
      (omega arith, (omega arith, (omega arith, (omega arith, tt)))) (omega arith) (omega arith)
