-- ===== src/BatteryScanner/Assembly.antt =====
-- main/battery_scanner.cpp, consume_jbd_notification: a packet that comes in several notifications.
use power.Prelude.{
  take-drop, take-short, ℕ, zero, suc, ◌+◌, ◌-◌, ◌≤◌, ◌<◌, ◌≡◌, refl, ap, sym, ◌∙◌, subst, true,
  false, some, List, [], ◌∷◌, ◌++◌, ltb, ◌==◌, min, if◌then◌else◌, get_or, length, take, drop,
  length-append, length-take, length-drop, arith, Bool-cases, inl, inr,
}
use power.Prelude.Memory.{Memory, buffer, Agree}
use power.BatteryScanner.Probe.{
  ProbeState, Mbuf, copied, consume_jbd_notification, write_at, take_rest, received,
}

-- An mbuf that can be copied, and its bytes.
pub record Chunk : Type 0 where
  pub om : Mbuf
  pub bytes : List ℕ
  pub size : om.pkt_len ≡ length bytes
  pub not_empty : 0 < length bytes
  pub copies :
      (start n : ℕ)
      → start + n ≤ length bytes
      → om.copydata start n ≡ copied (take n (drop start bytes))

-- The first bytes of the buffer.
pub record Holds (p : ProbeState) (held : List ℕ) : Type 0 where
  pub size : p.rx_len ≡ length held
  pub bytes : Agree (length held) p.rx (buffer held)

get_or-append :
    (xs ys : List ℕ) (i : ℕ)
    → get_or (xs ++ ys) i 0
      ≡ (if ltb i (length xs) then get_or xs i 0 else get_or ys (i - length xs) 0)
get_or-append [] ys i = ground arith
get_or-append (x ∷ xs) ys zero = ground arith
get_or-append (x ∷ xs) ys (suc i) = ground (arith, get_or-append xs ys i)

-- Bytes that are written behind those that are held.
write_at-append :
    (m : Memory) (held bytes : List ℕ)
    → Agree (length held) m (buffer held)
    → Agree (length (held ++ bytes)) (write_at m (length held) bytes) (buffer (held ++ bytes))
write_at-append m held bytes same i below =
    ground (arith, get_or-append held bytes i, length-append held bytes, same i)

-- The second part first, and then the first: together the whole.
write_at-parts :
    (m : Memory) (start n : ℕ) (bytes : List ℕ) (i : ℕ)
    → n ≤ length bytes
    → write_at (write_at m (start + n) (drop n bytes)) start (take n bytes) i
      ≡ write_at m start bytes i
write_at-parts m start n bytes i fits =
    let whole : get_or bytes (i - start) 0 ≡ (
        if ltb (i - start) (length (take n bytes))
        then get_or (take n bytes) (i - start) 0
        else get_or (drop n bytes) (i - start - length (take n bytes)) 0) =
      ap (λ xs. get_or xs (i - start) 0) (sym (take-drop n bytes))
      ∙ get_or-append (take n bytes) (drop n bytes) (i - start) in
    let first : length (take n bytes) ≡ n = omega (arith, length-take n bytes) in
    let index : get_or (drop n bytes) (i - (start + n)) 0
        ≡ get_or (drop n bytes) (i - start - length (take n bytes)) 0 =
      ap (λ j. get_or (drop n bytes) j 0) (omega arith) in
    ground (arith, length-drop n bytes)

module _ (p : ProbeState) (held : List ℕ) (c : Chunk) (holds : Holds p held) where
  whole-Agree :
      Agree (length (held ++ c.bytes)) (write_at p.rx p.rx_len c.bytes) (buffer (held ++ c.bytes))
  whole-Agree =
      subst
        (λ n. Agree (length (held ++ c.bytes)) (write_at p.rx n c.bytes) (buffer (held ++ c.bytes)))
        (sym holds.size) (write_at-append p.rx held c.bytes holds.bytes)

  -- Either way of copying writes the whole chunk.
  take_rest-whole :
      (n : ℕ)
      → n ≡ min c.om.pkt_len 64
      → (rx : Memory) × Agree (length (held ++ c.bytes)) rx (buffer (held ++ c.bytes))
        × (take_rest p c.om n (take n c.bytes) ≡ received p c.om.pkt_len rx)
  take_rest-whole n e = elim (Bool-cases (ltb n c.om.pkt_len)) [
    | inr short ↦
        let all : take n c.bytes ≡ c.bytes = take-short n c.bytes (ground (arith, c.size)) in
        (write_at p.rx p.rx_len c.bytes, whole-Agree, rw (short, all) refl)
    | inl long ↦
        let all : take (c.om.pkt_len - n) (drop n c.bytes) ≡ drop n c.bytes =
          take-short _ (drop n c.bytes) (ground (arith, c.size, length-drop n c.bytes)) in
        let rest = c.copies n (c.om.pkt_len - n) (ground (arith, c.size)) ∙ ap copied all in
        let fits : n ≤ length c.bytes = ground (arith, c.size) in
        (
          write_at (write_at p.rx (p.rx_len + n) (drop n c.bytes)) p.rx_len (take n c.bytes),
          λ i below. write_at-parts p.rx p.rx_len n c.bytes i fits ∙ whole-Agree i below,
          rw (long, rest) refl,
        )
  ]

  -- What a notification of the right handle does.
  pub consume-received :
      (handle : ℕ)
      → handle ≡ p.notify.val_handle
      → length (held ++ c.bytes) ≤ 128
      → (rx : Memory) × Agree (length (held ++ c.bytes)) rx (buffer (held ++ c.bytes))
        × (consume_jbd_notification p handle (some c.om) ≡ received p c.om.pkt_len rx)
  unfolding consume_jbd_notification
  consume-received handle right room =
      let n = min c.om.pkt_len 64 in
      let (rx, same, whole) = take_rest-whole n refl in
      let some_bytes : (c.om.pkt_len == 0) ≡ false = ground (arith, c.size, c.not_empty) in
      let first : c.om.copydata 0 n ≡ copied (take n c.bytes) =
        c.copies 0 n (ground (arith, c.size)) in
      let here : (handle == p.notify.val_handle) ≡ true = ground arith in
      let fits : ltb 128 (p.rx_len + c.om.pkt_len) ≡ false =
        ground (arith, c.size, holds.size, length-append held c.bytes) in
      (rx, same, rw (some_bytes, first, here, fits) whole)
