-- ===== src/Tickets/Ports.antt =====
-- Which port the scan of the pool selects.
use ninj_os_proxie_edge_fabr.Prelude.{
  ℕ, zero, suc, ◌+◌, ◌≤◌, ◌<◌, ◌≡◌, ◌≢◌, refl, Bool, true, false, arith, Bool-cases, inl, inr, ◌⊎◌,
}
use ninj_os_proxie_edge_fabr.Tickets.Create.{find_port}

module _ (taken : ℕ → Bool) where
  -- A port that is not 0 is in the pool, free, and the first that is.
  pub record IsFirstFree (rounds port p : ℕ) : Type 0 where
    pub from : port ≤ p
    pub below : p < port + rounds
    pub free : taken p ≡ false
    pub first : (q : ℕ) → port ≤ q → q < p → taken q ≡ true

  later :
      (rounds port p : ℕ)
      → taken port ≡ true
      → IsFirstFree rounds (port + 1) p
      → IsFirstFree (suc rounds) port p
  later rounds port p busy f = record {
    from = omega (arith, f.from);
    below = omega (arith, f.below);
    free = f.free;
    first = λ q h k. ground (arith, f.first q);
  }

  pub find_port_sound :
      (rounds port : ℕ)
      → find_port taken rounds port ≢ 0
      → IsFirstFree rounds port (find_port taken rounds port)
  unfolding find_port
  find_port_sound zero port h = absurd (h refl)
  find_port_sound (suc rounds) port h = elim (Bool-cases (taken port)) [
    | inl busy ↦
        rw busy (later rounds port _ busy (find_port_sound rounds (port + 1) (rw busy at h)))
    | inr free ↦ rw free (record {
      from = omega arith;
      below = omega arith;
      free = free;
      first = λ q a b. absurd (omega arith);
    })
  ]

  pub find_port_zero :
      (rounds port : ℕ)
      → 0 < port
      → find_port taken rounds port ≡ 0
      → (q : ℕ) → port ≤ q
      → q < port + rounds
      → taken q ≡ true
  unfolding find_port
  find_port_zero zero port pos h q a b = absurd (omega arith)
  find_port_zero (suc rounds) port pos h q a b = elim (Bool-cases (taken port)) [
    | inl busy ↦ ground (arith, find_port_zero rounds (port + 1) (omega arith) (rw busy at h) q)
    | inr free ↦ absurd (ground arith)
  ]

  -- The scan over a pool of positive ports finds the first free port, or gives 0 when none is.
  pub find_port_first :
      (rounds port : ℕ)
      → 0 < port
      → IsFirstFree rounds port (find_port taken rounds port)
        ⊎ ((find_port taken rounds port ≡ 0)
            × ((q : ℕ) → port ≤ q → q < port + rounds → taken q ≡ true))
  find_port_first rounds port h = pick (find_port taken rounds port) refl
    where
      pick :
          (p : ℕ)
          → find_port taken rounds port ≡ p
          → IsFirstFree rounds port (find_port taken rounds port)
            ⊎ ((find_port taken rounds port ≡ 0)
                × ((q : ℕ) → port ≤ q → q < port + rounds → taken q ≡ true))
      pick zero e = inr (e, find_port_zero rounds port h e)
      pick (suc p) e = inl (find_port_sound rounds port (λ z. absurd (omega arith)))
