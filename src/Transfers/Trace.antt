-- ===== src/Transfers/Trace.antt =====
-- The life of a transfer over any sequence of ledger operations.
use mathlib.Core.List.{Memᴰ}
use ninj_os_proxie_edge_fabr.Prelude.{
  ℕ, ◌≡◌, ◌≢◌, refl, sym, ap, subst, ◌∙◌, true, false, ◌||◌, none, some, List, [], ◌∷◌, map, arith,
  Text, ◌==◌, text_beq_iff, All, All-weaken, Bool-cases, Option-cases, inl, inr,
}
use ninj_os_proxie_edge_fabr.Prelude.Int.{ℤ}
use ninj_os_proxie_edge_fabr.Transfers.{
  TransferState, proxy_connected, failed, Transaction, in_flight, update_transfer, awaits, newest,
  mark_arrived, confirm_arrival, expire_transfers,
}
use ninj_os_proxie_edge_fabr.Transfers.Lifecycle.{
  Moves, stay, arrive, DistinctIds, newest_some, connect_row, fail_row, expire_row,
}

All-mem :
    (P : Transaction → Type 0) (rows : List Transaction) (r : Transaction)
    → All P rows
    → Memᴰ r rows
    → P r
All-mem P [] r h m = elim m [ ]
All-mem P (x ∷ rows) r h (Memᴰ.head e) = subst P (sym e) h.0
All-mem P (x ∷ rows) r h (Memᴰ.tail m) = All-mem P rows r h.1 m

-- Where ids are distinct, only the row itself has its id.
unique_id :
    (rows : List Transaction) (r : Transaction)
    → DistinctIds rows
    → Memᴰ r rows
    → All (λ s. s.ticket_id ≡ r.ticket_id → s ≡ r) rows
unique_id [] r d m = elim m [ ]
unique_id (x ∷ rows) r d (Memᴰ.head e) = (
  λ _. sym e,
  All-weaken (λ s. x.ticket_id ≢ s.ticket_id) (λ s. s.ticket_id ≡ r.ticket_id → s ≡ r)
      (λ s ne q. absurd (ne (cc (q, ap (λ (t : Transaction). t.ticket_id) e)))) rows d.0,
)
unique_id (x ∷ rows) r d (Memᴰ.tail m) =
    (λ q. absurd (All-mem (λ s. x.ticket_id ≢ s.ticket_id) rows r d.0 m q), unique_id rows r d.1 m)

-- The ledger's operations, as the program calls them.
pub data Operation : Type 0 where
  connected : Text → Text → ℤ → Operation
  reclaim : Text → Text → ℤ → Operation
  arrival : Text → Text → ℤ → Operation
  time_out : Operation

unfoldable pub apply : ℕ → Operation → List Transaction → List Transaction
apply now (connected id failure ts) = update_transfer now id proxy_connected failure ts
apply now (reclaim id reason ts) = update_transfer now id failed reason ts
apply now (arrival xuid server ts) = confirm_arrival xuid server ts
apply now time_out = expire_transfers now

-- The same rows in the same order, each with its id and a state that `R` allows.
abbrev pub Related :
    (TransferState → TransferState → Type 0) → List Transaction → List Transaction → Type 0
Related R [] [] = Unit {0}
Related R [] (s ∷ ss) = ⊥
Related R (r ∷ rs) [] = ⊥
Related R (r ∷ rs) (s ∷ ss) = ((r.ticket_id ≡ s.ticket_id) × R r.state s.state) × Related R rs ss

abbrev Keeps : Transaction → Transaction → Type 0
Keeps r s = (r.ticket_id ≡ s.ticket_id) × Moves r.state s.state

Related-map :
    (f : Transaction → Transaction) (rows : List Transaction)
    → All (λ r. Keeps r (f r)) rows
    → Related Moves rows (map f rows)
Related-map f [] h = tt
Related-map f (r ∷ rows) h = (h.0, Related-map f rows h.1)

Related-refl : (rows : List Transaction) → Related Moves rows rows
Related-refl [] = tt
Related-refl (r ∷ rows) = ((refl, stay), Related-refl rows)

All-intro :
    (P : Transaction → Type 0) → ((r : Transaction) → P r) → (rows : List Transaction) → All P rows
All-intro P f [] = tt
All-intro P f (r ∷ rows) = (f r, All-intro P f rows)

arrive_row :
    (found : Transaction) (ts : ℤ) (r : Transaction)
    → in_flight found.state ≡ true
    → (r.ticket_id ≡ found.ticket_id → r ≡ found)
    → Keeps r (mark_arrived found.ticket_id ts r)
arrive_row found ts r fly only = elim (Bool-cases (r.ticket_id == found.ticket_id)) [
  | inr other ↦ rw other (refl, stay)
  | inl same ↦ rw same (
    refl,
    arrive {s = r.state} (
        ap (λ (t : Transaction). in_flight t.state)
          (only ((text_beq_iff r.ticket_id found.ticket_id).0 same))
        ∙ fly),
  )
]

pub confirm_some :
    (xuid server : Text) (ts : ℤ) (rows : List Transaction) (r : Transaction)
    → (xuid == [] || server == []) ≡ false
    → newest (awaits xuid server ts) rows ≡ some r
    → confirm_arrival xuid server ts rows ≡ map (mark_arrived r.ticket_id ts) rows
unfolding confirm_arrival
confirm_some xuid server ts rows r b e = ground arith

pub confirm_none :
    (xuid server : Text) (ts : ℤ) (rows : List Transaction)
    → newest (awaits xuid server ts) rows ≡ none
    → confirm_arrival xuid server ts rows ≡ rows
unfolding confirm_arrival
confirm_none xuid server ts rows e = ground arith

confirm_blank :
    (xuid server : Text) (ts : ℤ) (rows : List Transaction)
    → (xuid == [] || server == []) ≡ true
    → confirm_arrival xuid server ts rows ≡ rows
unfolding confirm_arrival
confirm_blank xuid server ts rows b = ground arith

arrival-Related :
    (xuid server : Text) (ts : ℤ) (rows : List Transaction)
    → DistinctIds rows
    → Related Moves rows (confirm_arrival xuid server ts rows)
arrival-Related xuid server ts rows d = elim (Bool-cases (xuid == [] || server == [])) [
  | inl b ↦ rw (confirm_blank xuid server ts rows b) (Related-refl rows)
  | inr b ↦ elim (Option-cases (newest (awaits xuid server ts) rows)) [
    | inl e ↦ rw (confirm_none xuid server ts rows e) (Related-refl rows)
    | inr (r, e) ↦
        let n = newest_some (awaits xuid server ts) rows r e in
        let fly : in_flight r.state ≡ true = unfold awaits in ground (arith, n.passes) in
        rw (confirm_some xuid server ts rows r b e) (
          Related-map (mark_arrived r.ticket_id ts) rows (
            All-weaken (λ s. s.ticket_id ≡ r.ticket_id → s ≡ r)
              (λ s. Keeps s (mark_arrived r.ticket_id ts s)) (λ s only. arrive_row r ts s fly only)
              rows (unique_id rows r d n.present)))
  ]
]

-- Each operation moves each row along the lifecycle and keeps the ids.
pub apply-Related :
    (now : ℕ) (op : Operation) (rows : List Transaction)
    → DistinctIds rows
    → Related Moves rows (apply now op rows)
unfolding apply
apply-Related now (connected id failure ts) rows d =
    unfold update_transfer in
    Related-map _ rows (All-intro _ (λ r. connect_row _ id failure r) rows)
apply-Related now (reclaim id reason ts) rows d =
    unfold update_transfer in Related-map _ rows (All-intro _ (λ r. fail_row _ id reason r) rows)
apply-Related now (arrival xuid server ts) rows d = arrival-Related xuid server ts rows d
apply-Related now time_out rows d =
    unfold expire_transfers in Related-map _ rows (All-intro _ (λ r. expire_row now r) rows)
