-- ===== src/BleDisconnect/Bounded.antt =====
-- main/ble_disconnect.cpp: how long a disconnect can take.
use power.Prelude.{
  ℕ, zero, suc, ◌+◌, ◌-◌, ◌*◌, ◌%◌, ◌^◌, ◌≤◌, ◌<◌, ◌≡◌, refl, Bool, true, false, ◌||◌, not, leb,
  Option, some, arith, Bool-cases, inl, inr,
}
use power.BleDisconnect.{
  BleHost, Link, is_not_connected, is_success, is_ending, looked_up, found, delayed, wait_gone,
  or_next, attempt, retries, ble_disconnect_peer,
}

-- The difference of two readings of the 32-bit tick counter that are less than its range apart.
ticks_between :
    (now started : ℕ)
    → started ≤ now
    → now < started + 2 ^ 32
    → (now % 2 ^ 32 + 2 ^ 32 - started % 2 ^ 32) % 2 ^ 32 ≡ now - started
ticks_between now started p q = omega arith

module _ (host : BleHost) (short : (n : ℕ) → host.passing n < 2 ^ 31) where
  -- A result, after at most so many lookups and requests more.
  abbrev pub Within : Option (Link × Bool) → Link → ℕ → ℕ → Type 0
  Within result l lookups requests =
      (r : Link × Bool) × (result ≡ some r)
      × (r.0.lookups ≤ l.lookups + lookups)
      × (r.0.requests ≤ l.requests + requests)

  wait_gone-Within :
      (fuel started : ℕ) (l : Link)
      → started ≤ l.now
      → l.now < started + 525
      → 525 ≤ l.now - started + 25 * fuel
      → Within (wait_gone host fuel started l) l fuel 0
  unfolding wait_gone
  wait_gone-Within zero started l p q h = absurd (omega arith)
  wait_gone-Within (suc fuel) started l p q h =
      let checked = looked_up host l in
      let pass = short l.lookups in
      let difference = ticks_between checked.now started (omega arith) (omega arith) in
      elim (Bool-cases (is_not_connected (found host l))) [
        | inl gone ↦ rw gone ((checked, true), refl, omega arith, omega arith)
        | inr linked ↦
            rw linked
              (elim (Bool-cases
                (not (is_success (found host l)) || leb 500 (checked.now - started))) [
                  | inl stops ↦
                      rw (difference, stops) ((checked, false), refl, omega arith, omega arith)
                  | inr goes ↦
                      rw (difference, goes)
                        (let early : checked.now - started < 500 = ground arith in
                          let (r, e, a, b) =
                            wait_gone-Within fuel started (delayed checked) (omega arith)
                              (omega arith) (omega arith) in
                          (r, e, omega arith, omega arith))
                ])
      ]

  or_next-Within :
      (w : Option (Link × Bool)) (next : Link → Option (Link × Bool)) (l : Link) (before k n : ℕ)
      → Within w l before 0
      → ((l' : Link) → Within (next l') l' k n)
      → Within (or_next host w next) l (before + k) n
  or_next-Within w next l before k n ((m, true), e, a, b) later =
      rw e ((m, true), refl, omega arith, omega arith)
  or_next-Within w next l before k n ((m, false), e, a, b) later =
      let (r, e', a', b') = later m in rw e (r, e', omega arith, omega arith)

  attempt-Within :
      (fuel : ℕ) (l : Link) (next : Link → Option (Link × Bool)) (k n : ℕ)
      → 21 ≤ fuel
      → ((l' : Link) → Within (next l') l' k n)
      → Within (attempt host fuel l next) l (fuel + 1 + k) (n + 1)
  unfolding attempt
  attempt-Within fuel l next k n enough later =
      let checked = looked_up host l in
      let ended = record checked { requests = l.requests + 1 } in
      let (r, e, a, b) = later checked in
      let (r', e', a', b') = later ended in
      let waited =
        wait_gone-Within fuel checked.now ended (omega arith) (omega arith) (omega arith) in
      let (r2, e2, a2, b2) =
        or_next-Within (wait_gone host fuel checked.now ended) next ended fuel k n waited later in
      elim (Bool-cases (is_not_connected (found host l))) [
        | inl gone ↦ rw gone ((checked, true), refl, omega arith, omega arith)
        | inr linked ↦ elim (Bool-cases (is_success (found host l))) [
          | inr failed ↦ rw (linked, failed) (r, e, omega arith, omega arith)
          | inl known ↦
              elim (Bool-cases (is_ending (host.terminate l.requests (host.handle l.lookups)))) [
                | inl ending ↦ rw (linked, known, ending) (r2, e2, omega arith, omega arith)
                | inr refused ↦ rw (linked, known, refused) (r', e', omega arith, omega arith)
              ]
        ]
      ]

  retries-Within :
      (fuel left : ℕ) (l : Link)
      → 21 ≤ fuel
      → Within (retries host fuel left l) l (left * (fuel + 1) + 1) left
  unfolding retries
  retries-Within fuel zero l enough = (_, refl, omega arith, omega arith)
  retries-Within fuel (suc left) l enough =
      let (r, e, a, b) =
        attempt-Within fuel (delayed l) (retries host fuel left) (left * (fuel + 1) + 1) left enough
          (λ l'. retries-Within fuel left l' enough) in
      (r, e, omega arith, omega arith)

  -- Where less than 2^31 ticks pass between two lookups beside the delays, each wait needs at most
  -- 21 rounds: with that fuel a disconnect returns, after at most three requests and 67 lookups.
  pub ble_disconnect_peer-Within : (l : Link) → Within (ble_disconnect_peer host 21 l) l 67 3
  unfolding ble_disconnect_peer
  ble_disconnect_peer-Within l =
      let (r, e, a, b) =
        attempt-Within 21 l (retries host 21 2) 45 2 (omega arith)
          (λ l'. retries-Within 21 2 l' (omega arith)) in
      (r, e, omega arith, omega arith)
