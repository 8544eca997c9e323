-- ===== src/BatteryScanner/Packets.antt =====
-- main/battery_scanner.cpp: the packet of a request is reported, in any division into chunks.
use power.Prelude.{
  ℕ, ◌+◌, ◌≤◌, ◌≡◌, ◌≢◌, refl, ap, sym, ◌∙◌, subst, true, false, Option, some, List, [], ◌∷◌, ◌++◌,
  ◌==◌, length, length-append, arith, Bool-cases, Option-cases, inl, inr,
}
use power.Prelude.Memory.{buffer}
use power.JbdProtocol.{jbd_find_packet, given}
use power.JbdProtocol.Bounds.{jbd_find_packet-Agree}
use power.BatteryScanner.Probe.{
  ProbeState, notify_rx, probe_gap_event, look_for_packet, expect_packet,
}
use power.BatteryScanner.Assembly.{Chunk, Holds, consume-received}

-- The probe waits for a packet, and holds these bytes.
pub record Waits (p : ProbeState) (handle command : ℕ) (held : List ℕ) : Type 0 where
  pub holds : Holds p held
  pub right : handle ≡ p.notify.val_handle
  pub awaits : p.expected_command ≡ command

abbrev pub found_in : List ℕ → ℕ → Option (ℕ × ℕ)
found_in bytes command = jbd_find_packet (some (buffer bytes)) (length bytes) command given given

-- What is found is reported.
abbrev pub Reports : ProbeState → ℕ × ℕ → Type 0
Reports p (k, t) = (p.bits.packet_done ≡ true) × (p.packet_offset ≡ k) × (p.packet_len ≡ t)

search-held :
    (p : ProbeState) (held : List ℕ) (command : ℕ)
    → Holds p held
    → jbd_find_packet (some p.rx) p.rx_len command given given ≡ found_in held command
search-held p held command holds =
    rw holds.size
      (jbd_find_packet-Agree p.rx (buffer held) (length held) command given given holds.bytes)

look-Waits :
    (p : ProbeState) (handle command : ℕ) (held : List ℕ)
    → Waits p handle command held
    → Waits (look_for_packet p) handle command held
unfolding look_for_packet
look-Waits p handle command held w = elim (Bool-cases (p.expected_command == 0)) [
  | inl idle ↦ rw idle w
  | inr busy ↦
      elim (Option-cases (jbd_find_packet (some p.rx) p.rx_len p.expected_command given given)) [
        | inl nothing ↦ rw (busy, nothing) w
        | inr (kt, found) ↦
            rw (busy, found)
              (record {
                holds = record { size = w.holds.size; bytes = w.holds.bytes };
                right = w.right;
                awaits = w.awaits;
              })
      ]
]

look-Reports :
    (p : ProbeState) (handle command k t : ℕ) (held : List ℕ)
    → Waits p handle command held
    → command ≢ 0
    → found_in held command ≡ some (k, t)
    → Reports (look_for_packet p) (k, t)
unfolding look_for_packet
look-Reports p handle command k t held w some_command found =
    let busy : (p.expected_command == 0) ≡ false = ground (arith, w.awaits) in
    let here =
      search-held p held p.expected_command w.holds ∙ ap (found_in held) w.awaits ∙ found in
    rw (busy, here) (refl, refl, refl)

-- The probe behind a chunk is a search on the bytes with those of the chunk.
chunk-Waits :
    (p : ProbeState) (handle command : ℕ) (held : List ℕ) (c : Chunk)
    → Waits p handle command held
    → length (held ++ c.bytes) ≤ 128
    → (q : ProbeState) × Waits q handle command (held ++ c.bytes)
      × (probe_gap_event p (notify_rx handle (some c.om)) ≡ look_for_packet q)
unfolding probe_gap_event
chunk-Waits p handle command held c w room =
    let (rx, same, whole) = consume-received p held c w.holds handle w.right room in
    (
      record p { rx = rx; rx_len = p.rx_len + c.om.pkt_len },
      record {
        holds = record {
          size = omega (arith, w.holds.size, c.size, length-append held c.bytes);
          bytes = same;
        };
        right = w.right;
        awaits = w.awaits;
      },
      whole,
    )

unfoldable pub all_bytes : List ℕ → List Chunk → List ℕ
all_bytes held [] = held
all_bytes held (c ∷ cs) = all_bytes (held ++ c.bytes) cs

-- The notifications of a handle, in turn.
unfoldable pub notified : ProbeState → ℕ → List Chunk → ProbeState
notified p handle [] = p
notified p handle (c ∷ cs) = notified (probe_gap_event p (notify_rx handle (some c.om))) handle cs

all_bytes-length : (held : List ℕ) (cs : List Chunk) → length held ≤ length (all_bytes held cs)
unfolding all_bytes
all_bytes-length held [] = omega arith
all_bytes-length held (c ∷ cs) =
    omega (arith, all_bytes-length (held ++ c.bytes) cs, length-append held c.bytes)

notified-Waits :
    (p : ProbeState) (handle command k t : ℕ) (held : List ℕ) (c : Chunk) (cs : List Chunk)
    → Waits p handle command held
    → command ≢ 0
    → length (all_bytes held (c ∷ cs)) ≤ 128
    → found_in (all_bytes held (c ∷ cs)) command ≡ some (k, t)
    → let p' = notified p handle (c ∷ cs) in
      Waits p' handle command (all_bytes held (c ∷ cs)) × Reports p' (k, t)
unfolding all_bytes notified
notified-Waits p handle command k t held c [] w some_command room found =
    let (q, waits, same) = chunk-Waits p handle command held c w room in
    rw same (
      look-Waits q handle command (held ++ c.bytes) waits,
      look-Reports q handle command k t (held ++ c.bytes) waits some_command found,
    )
notified-Waits p handle command k t held c (d ∷ ds) w some_command room found =
    let room' : length (held ++ c.bytes) ≤ 128 =
      omega (arith, room, all_bytes-length (held ++ c.bytes) (d ∷ ds)) in
    let (q, waits, same) = chunk-Waits p handle command held c w room' in
    subst
      (λ p'.
        Waits (notified p' handle (d ∷ ds)) handle command (all_bytes (held ++ c.bytes) (d ∷ ds))
        × Reports (notified p' handle (d ∷ ds)) (k, t))
      (sym same)
      (notified-Waits (look_for_packet q) handle command k t (held ++ c.bytes) d ds
        (look-Waits q handle command (held ++ c.bytes) waits) some_command room found)

-- After a request, with a command that is not 0: if the bytes of the notifications that come on
-- the handle that notifies, in any division into chunks of at least one byte, are at most 128
-- together, and the search finds a packet in all of them, then the probe holds these bytes, and
-- reports the packet with the offset and the length that were found.
pub notified-Reports :
    (p : ProbeState) (command k t : ℕ) (c : Chunk) (cs : List Chunk)
    → command ≢ 0
    → length (all_bytes [] (c ∷ cs)) ≤ 128
    → found_in (all_bytes [] (c ∷ cs)) command ≡ some (k, t)
    → let p' = notified (expect_packet p command) p.notify.val_handle (c ∷ cs) in
      Holds p' (all_bytes [] (c ∷ cs)) × Reports p' (k, t)
unfolding expect_packet
notified-Reports p command k t c cs some_command room found =
    let start : Waits (expect_packet p command) p.notify.val_handle command [] = record {
      holds = record { size = refl; bytes = λ i below. absurd (omega arith) };
      right = refl;
      awaits = refl;
    } in
    let (waits, reports) =
      notified-Waits (expect_packet p command) p.notify.val_handle command k t [] c cs start
        some_command room found in
    (waits.holds, reports)
