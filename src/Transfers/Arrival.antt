-- ===== src/Transfers/Arrival.antt =====
-- Which row an arrival settles, and which rows the time limit settles, in the terms of the SQL
-- statements of dashboard/storage_sqlite.go (confirmArrival, expireTransfers).
use mathlib.Core.List.{Memᴰ}
use ninj_os_proxie_edge_fabr.Prelude.{
  ℕ, ◌≡◌, ◌≢◌, ◌⊎◌, ◌↔◌, refl, true, false, ◌||◌, some, List, [], ◌∷◌, map, arith, Text, ◌==◌,
  text_beq_iff, All, All-weaken, Bool-cases, Option-cases, inl, inr, if◌then◌else◌,
}
use ninj_os_proxie_edge_fabr.Prelude.Int.{ℤ, pos, ◌-ℤ◌, ◌≤ℤ◌}
use ninj_os_proxie_edge_fabr.Transfers.{
  TransferState, ticketed, proxy_connected, arrived, expired, failed, Transaction, in_flight,
  awaits, newest, mark_arrived, confirm_arrival, is_overdue, expire_transfers, timed_out,
}
use ninj_os_proxie_edge_fabr.Transfers.Lifecycle.{newest_none, newest_some}
use ninj_os_proxie_edge_fabr.Transfers.Trace.{confirm_some, confirm_none}

-- The same rows in the same order, each with what `R` allows to become of it.
abbrev pub Each :
    (Transaction → Transaction → Type 0) → List Transaction → List Transaction → Type 0
Each R [] [] = Unit {0}
Each R [] (s ∷ ss) = ⊥
Each R (r ∷ rs) [] = ⊥
Each R (r ∷ rs) (s ∷ ss) = R r s × Each R rs ss

Each-map :
    (R : Transaction → Transaction → Type 0) (f : Transaction → Transaction)
    → ((r : Transaction) → R r (f r))
    → (rows : List Transaction) → Each R rows (map f rows)
Each-map R f h [] = tt
Each-map R f h (r ∷ rows) = (h r, Each-map R f h rows)

abbrev pub IsInFlight : TransferState → Type 0
IsInFlight s = (s ≡ ticketed) ⊎ (s ≡ proxy_connected)

in_flight_iff : (s : TransferState) → (in_flight s ≡ true) ↔ IsInFlight s
in_flight_iff ticketed = (λ _. inl refl, λ _. refl)
in_flight_iff proxy_connected = (λ _. inr refl, λ _. refl)
in_flight_iff arrived = (λ e. cc, elim [ inl e ↦ cc | inr e ↦ cc ])
in_flight_iff expired = (λ e. cc, elim [ inl e ↦ cc | inr e ↦ cc ])
in_flight_iff failed = (λ e. cc, elim [ inl e ↦ cc | inr e ↦ cc ])

-- A transfer of the player to the server, in flight and requested in the five minutes before the time
-- or later.
pub record IsAwaited (xuid server : Text) (timestamp : ℤ) (r : Transaction) : Type 0 where
  pub of_player : r.xuid ≡ xuid
  pub to_server : r.destination ≡ server
  pub unsettled : IsInFlight r.state
  pub recent : (timestamp -ℤ pos 300000) ≤ℤ r.requested_at

awaits_iff :
    (xuid server : Text) (timestamp : ℤ) (r : Transaction)
    → (awaits xuid server timestamp r ≡ true) ↔ IsAwaited xuid server timestamp r
unfolding awaits ◌-ℤ◌
awaits_iff xuid server timestamp r = (
  λ h. record {
    of_player = ground (arith, h, text_beq_iff r.xuid xuid);
    to_server = ground (arith, h, text_beq_iff r.destination server);
    unsettled = (in_flight_iff r.state).0 (ground (arith, h));
    recent = ground (arith, h);
  },
  λ a. ground (
    arith,
    (text_beq_iff r.xuid xuid).1 a.of_player,
    (text_beq_iff r.destination server).1 a.to_server,
    (in_flight_iff r.state).1 a.unsettled,
    a.recent,
  ),
)

-- What an arrival makes of a row: the one with the id arrives at the time, and the others stay.
abbrev pub Arrives : Text → ℤ → Transaction → Transaction → Type 0
Arrives id timestamp r r' =
    ((r.ticket_id ≡ id)
      × (r' ≡ record r { state = arrived; updated_at = timestamp; arrived_at = some timestamp }))
    ⊎ ((r.ticket_id ≢ id) × (r' ≡ r))

mark-Arrives :
    (id : Text) (timestamp : ℤ) (r : Transaction)
    → Arrives id timestamp r (mark_arrived id timestamp r)
mark-Arrives id timestamp r = elim (Bool-cases (r.ticket_id == id)) [
  | inl same ↦ rw same (inl ((text_beq_iff r.ticket_id id).0 same, refl))
  | inr other ↦ rw other (inr (λ e. ground (arith, e, other, text_beq_iff r.ticket_id id), refl))
]

-- The row is an awaited one of the list, and no awaited row was requested later.
pub record IsNewestAwaited (xuid server : Text) (timestamp : ℤ) (rows : List Transaction)
    (r : Transaction) : Type 0 where
  pub awaited : IsAwaited xuid server timestamp r
  pub present : Memᴰ r rows
  pub latest : All (λ s. IsAwaited xuid server timestamp s → s.requested_at ≤ℤ r.requested_at) rows

newest-IsNewestAwaited :
    (xuid server : Text) (timestamp : ℤ) (rows : List Transaction) (r : Transaction)
    → newest (awaits xuid server timestamp) rows ≡ some r
    → IsNewestAwaited xuid server timestamp rows r
newest-IsNewestAwaited xuid server timestamp rows r e =
    let n = newest_some (awaits xuid server timestamp) rows r e in
    record {
      awaited = (awaits_iff xuid server timestamp r).0 n.passes;
      present = n.present;
      latest =
          All-weaken (λ s. awaits xuid server timestamp s ≡ true → s.requested_at ≤ℤ r.requested_at)
            (λ s. IsAwaited xuid server timestamp s → s.requested_at ≤ℤ r.requested_at)
            (λ s k a. k ((awaits_iff xuid server timestamp s).1 a)) rows n.latest;
    }

-- An arrival of a named player on a named server: if some row is a transfer of that player to that
-- server, ticketed or connected to the proxy, and requested no more than 300,000 ms before the time,
-- then the rows with the id of a newest such row become `arrived` at the time, and all other rows
-- stay as they were; if there is none, no row changes.
pub confirm_arrival-IsNewestAwaited :
    (xuid server : Text) (timestamp : ℤ) (rows : List Transaction)
    → xuid ≢ []
    → server ≢ []
    → ((r : Transaction) × IsNewestAwaited xuid server timestamp rows r
        × Each (Arrives r.ticket_id timestamp) rows (confirm_arrival xuid server timestamp rows))
      ⊎ (All (λ r. ¬ IsAwaited xuid server timestamp r) rows
          × (confirm_arrival xuid server timestamp rows ≡ rows))
confirm_arrival-IsNewestAwaited xuid server timestamp rows named placed =
    let given : (xuid == [] || server == []) ≡ false =
      ground (arith, named, placed, text_beq_iff xuid [], text_beq_iff server []) in
    elim (Option-cases (newest (awaits xuid server timestamp) rows)) [
      | inl e ↦ inr (
        All-weaken (λ r. awaits xuid server timestamp r ≡ false)
            (λ r. ¬ IsAwaited xuid server timestamp r)
            (λ r n a. let y = (awaits_iff xuid server timestamp r).1 a in cc) rows
            (newest_none (awaits xuid server timestamp) rows e),
        confirm_none xuid server timestamp rows e,
      )
      | inr (r, e) ↦ inl (
        r,
        newest-IsNewestAwaited xuid server timestamp rows r e,
        rw (confirm_some xuid server timestamp rows r given e) (
            Each-map (Arrives r.ticket_id timestamp) (mark_arrived r.ticket_id timestamp)
              (mark-Arrives r.ticket_id timestamp) rows),
      )
    ]

-- In flight, and requested more than five minutes ago.
abbrev pub IsTooOld : ℕ → Transaction → Type 0
IsTooOld now r = IsInFlight r.state × ¬ ((pos now -ℤ pos 300000) ≤ℤ r.requested_at)

-- What the time limit makes of a row.
abbrev pub Expires : ℕ → Transaction → Transaction → Type 0
Expires now r r' =
    (IsTooOld now r
      × (r' ≡ record r { state = expired; updated_at = pos now; failure_reason = some timed_out }))
    ⊎ (¬ IsTooOld now r × (r' ≡ r))

is_overdue_iff : (now : ℕ) (r : Transaction) → (is_overdue now r ≡ true) ↔ IsTooOld now r
unfolding is_overdue ◌-ℤ◌
is_overdue_iff now r = (
  λ h. ((in_flight_iff r.state).0 (ground (arith, h)), λ k. ground (arith, h, k)),
  λ d. ground (arith, (in_flight_iff r.state).1 d.0, d.1),
)

expire-Expires :
    (now : ℕ) (r : Transaction)
    → Expires now r (
        if is_overdue now r
        then record r { state = expired; updated_at = pos now; failure_reason = some timed_out }
        else r)
expire-Expires now r = elim (Bool-cases (is_overdue now r)) [
  | inl late ↦ rw late (inl ((is_overdue_iff now r).0 late, refl))
  | inr early ↦ rw early (inr (λ d. let y = (is_overdue_iff now r).1 d in cc, refl))
]

-- The time limit turns exactly the rows that are ticketed or connected to the proxy and were requested
-- more than 300,000 ms before the clock into expired ones, with the clock as the time of the change
-- and the reason; every other row stays as it was.
pub expire_transfers-Expires :
    (now : ℕ) (rows : List Transaction) → Each (Expires now) rows (expire_transfers now rows)
unfolding expire_transfers
expire_transfers-Expires now rows = Each-map (Expires now) _ (expire-Expires now) rows
