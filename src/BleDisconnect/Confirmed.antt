-- ===== src/BleDisconnect/Confirmed.antt =====
-- What the answers of main/ble_disconnect.cpp rest on.
use power.Prelude.{
  ℕ, zero, suc, ◌+◌, ◌-◌, ◌≤◌, ◌≡◌, refl, Bool, true, false, Option, none, some, arith, subst,
}
use power.BleDisconnect.{
  BleHost, Link, is_not_connected, looked_up, delayed, wait_gone, or_next, attempt, retries,
  ble_disconnect_peer,
}

module _ (host : BleHost) where
  -- The answer is what the last lookup of the peer said.
  abbrev pub Confirmed : Link × Bool → Type 0
  Confirmed (l, gone) = (1 ≤ l.lookups) × (gone ≡ is_not_connected (host.find (l.lookups - 1)))

  wait_gone-Confirmed :
      (fuel started : ℕ) (l : Link) (r : Link × Bool)
      → wait_gone host fuel started l ≡ some r
      → r.1 ≡ true
      → Confirmed r
  unfolding wait_gone
  wait_gone-Confirmed zero started l r h g = absurd cc
  wait_gone-Confirmed (suc fuel) started l r h g =
      ground (arith, wait_gone-Confirmed fuel started (delayed (looked_up host l)) r)

  or_next-Confirmed :
      (w : Option (Link × Bool)) (next : Link → Option (Link × Bool)) (r : Link × Bool)
      → ((r' : Link × Bool) → w ≡ some r' → r'.1 ≡ true → Confirmed r')
      → ((l : Link) (r' : Link × Bool) → next l ≡ some r' → Confirmed r')
      → or_next host w next ≡ some r
      → Confirmed r
  or_next-Confirmed none next r waited later h = absurd cc
  or_next-Confirmed (some (l, true)) next r waited later h =
      let e : (l, true) ≡ r = cc in subst (λ x. Confirmed x) e (waited (l, true) refl refl)
  or_next-Confirmed (some (l, false)) next r waited later h = later l r h

  attempt-Confirmed :
      (fuel : ℕ) (l : Link) (next : Link → Option (Link × Bool)) (r : Link × Bool)
      → ((l' : Link) (r' : Link × Bool) → next l' ≡ some r' → Confirmed r')
      → attempt host fuel l next ≡ some r
      → Confirmed r
  unfolding attempt
  attempt-Confirmed fuel l next r later h =
      let checked = looked_up host l in
      let ended = record checked { requests = l.requests + 1 } in
      ground (
        arith,
        or_next-Confirmed (wait_gone host fuel checked.now ended) next r
            (wait_gone-Confirmed fuel checked.now ended) later,
        later checked r,
        later ended r,
      )

  retries-Confirmed :
      (fuel left : ℕ) (l : Link) (r : Link × Bool) → retries host fuel left l ≡ some r → Confirmed r
  unfolding retries
  retries-Confirmed fuel zero l r h = ground arith
  retries-Confirmed fuel (suc left) l r h =
      attempt-Confirmed fuel (delayed l) (retries host fuel left) r (retries-Confirmed fuel left) h

  -- Whatever the host answers: when a disconnect returns, the peer was looked up, and it returns
  -- true exactly when the last lookup said that the peer is not connected.
  pub ble_disconnect_peer-Confirmed :
      (fuel : ℕ) (l : Link) (r : Link × Bool)
      → ble_disconnect_peer host fuel l ≡ some r
      → Confirmed r
  unfolding ble_disconnect_peer
  ble_disconnect_peer-Confirmed fuel l r h =
      attempt-Confirmed fuel l (retries host fuel 2) r (retries-Confirmed fuel 2) h
