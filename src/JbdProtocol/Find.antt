-- ===== src/JbdProtocol/Find.antt =====
-- The search of main/jbd_protocol.cpp for a packet in a buffer: which packet it returns.
use power.Prelude.{
  ℕ, zero, suc, ◌+◌, ◌≤◌, ◌<◌, ◌≡◌, ◌≢◌, ◌⊎◌, inl, inr, ◌↔◌, sym, ◌∙◌, true, false, Option, none,
  some, arith, subst,
}
use native.Mathlib.Decide.{ℕ_discrete}
use power.Prelude.Memory.{Memory, shift}
use power.JbdProtocol.{valid_frame, find_from, jbd_find_packet, given}

module _ (data_ : Memory) (length command : ℕ) where
  -- The bytes from `i` on are a whole valid packet of `t` bytes.
  pub record Packet (i t : ℕ) : Type 0 where
    pub start : data_ i ≡ 0xdd
    pub header : i + 7 ≤ length
    pub asked : data_ (i + 1) ≡ command
    pub total : t ≡ data_ (i + 3) + 7
    pub fits : i + t ≤ length
    pub valid : valid_frame (shift data_ i) t command ≡ true

  -- The search passes position `j`: no start byte, another command, or a whole invalid packet.
  abbrev pub Skips : ℕ → Type 0
  Skips j =
      (data_ j ≢ 0xdd)
      ⊎ ((j + 7 ≤ length) × (data_ (j + 1) ≢ command))
      ⊎ ((j + 7 ≤ length)
          × (j + (data_ (j + 3) + 7) ≤ length)
          × (valid_frame (shift data_ j) (data_ (j + 3) + 7) command ≡ false))

  abbrev search_from : ℕ → ℕ → Option (ℕ × ℕ)
  search_from = find_from data_ length command

  find_skip :
      (left i : ℕ)
      → i + suc left ≡ length
      → Skips i
      → search_from (suc left) i ≡ search_from left (i + 1)
  unfolding find_from
  find_skip left i e h = ground arith

  find_hit :
      (left i t : ℕ) → i + suc left ≡ length → Packet i t → search_from (suc left) i ≡ some (i, t)
  unfolding find_from
  find_hit left i t e p =
      rw (p.start, p.asked, ← p.total, p.valid)
        (ground (arith, p.start, p.asked, p.total, p.fits, p.header))

  -- The search gives up at position `j`: the buffer ends within the header, or within the packet.
  abbrev Stops : ℕ → Type 0
  Stops j =
      (data_ j ≡ 0xdd)
      × ((length < j + 7) ⊎ ((data_ (j + 1) ≡ command) × (length < j + (data_ (j + 3) + 7))))

  find_stop : (left i : ℕ) → i + suc left ≡ length → Stops i → search_from (suc left) i ≡ none
  unfolding find_from
  find_stop left i e h = ground arith

  position_cases : (i : ℕ) → Skips i ⊎ Stops i ⊎ Packet i (data_ (i + 3) + 7)
  position_cases i = ground arith

  abbrev Found : ℕ → ℕ → ℕ → Type 0
  Found i k t = (i ≤ k) × Packet k t × ((j : ℕ) → i ≤ j → j < k → Skips j)

  -- A search that succeeds has found a packet past positions that it skips.
  find_sound : (left i k t : ℕ) → i + left ≡ length → search_from left i ≡ some (k, t) → Found i k t
  unfolding find_from
  find_sound zero i k t e h = cc
  find_sound (suc left) i k t e h = elim (position_cases i) [
    | inl skips ↦
        let (le, packet, before) =
          find_sound left (i + 1) k t (omega arith) (sym (find_skip left i e skips) ∙ h) in
        (
          omega arith,
          packet,
          λ j p q. elim (ℕ_discrete i j) [
            | yes same ↦ subst Skips same skips
            | no other ↦ before j (omega arith) q
          ],
        )
    | inr (inl stops) ↦ cc (find_stop left i e stops)
    | inr (inr packet) ↦
        let same : i ≡ k = ground (arith, find_hit left i _ e packet) in
        let total : data_ (i + 3) + 7 ≡ t = ground (arith, find_hit left i _ e packet) in
        rw (← same, ← total) (omega arith, packet, λ j p q. absurd (omega arith))
  ]

  find_complete :
      (left i k t : ℕ) → i + left ≡ length → Found i k t → search_from left i ≡ some (k, t)
  find_complete zero i k t e (le, packet, before) = absurd (omega (arith, packet.header))
  find_complete (suc left) i k t e (le, packet, before) = elim (ℕ_discrete i k) [
    | yes same ↦ rw same (find_hit left k t (rw (← same) e) packet)
    | no other ↦
        find_skip left i e (before i (omega arith) (omega arith))
        ∙ find_complete left (i + 1) k t (omega arith)
            (omega arith, packet, λ j p q. before j (omega arith) q)
  ]

-- On pointers that are not null, `jbd_find_packet` returns offset `k` and length `t` exactly when
-- a whole valid packet of `t` bytes starts at `k` and every position before `k` is one that the
-- search passes.
pub jbd_find_packet_iff :
    (data_ : Memory) (length command k t : ℕ)
    → (jbd_find_packet (some data_) length command given given ≡ some (k, t))
      ↔ (Packet data_ length command k t × ((j : ℕ) → j < k → Skips data_ length command j))
unfolding jbd_find_packet
jbd_find_packet_iff data_ length command k t = (
  λ h.
      let (le, packet, before) = find_sound data_ length command length 0 k t (omega arith) h in
      (packet, λ j q. before j (omega arith) q),
  λ (packet, before).
      find_complete data_ length command length 0 k t (omega arith)
        (omega arith, packet, λ j p q. before j q),
)
