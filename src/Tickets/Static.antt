-- ===== src/Tickets/Static.antt =====
-- Taking back the tickets whose port a backend owns (dashboard/backends.go:
-- removeTicketsForStaticPorts).
use ninj_os_proxie_edge_fabr.Prelude.{
  ℕ, suc, ◌≡◌, refl, ◌∙◌, Bool, true, false, not, ◌&&◌, ◌||◌, none, some, List, [], ◌∷◌, ◌++◌, map,
  arith, if◌then◌else◌, Text, ◌==◌, any, select, All, Bool-cases, inl, inr,
}
use ninj_os_proxie_edge_fabr.Prelude.Int.{pos}
use ninj_os_proxie_edge_fabr.GoText.{codes}
use ninj_os_proxie_edge_fabr.Topology.{Backend, has_public_port, static_owner}
use ninj_os_proxie_edge_fabr.Tickets.{
  Ticket, FileRead, contents, load_transfer_tickets, ticket_file, write_transfer_tickets,
}
use ninj_os_proxie_edge_fabr.Transfers.{Transaction, TransferState, failed, update_transfer}

pub record Cleanup : Type 0 where
  pub done : Bool
  pub file : FileRead
  pub rows : List Transaction

abbrev pub is_unowned : List Backend → Ticket → Bool
is_unowned backends t = elim (static_owner t.port backends) [ none ↦ true | some _ ↦ false ]

-- The ledger's part of one round of the loop.
unfoldable pub fail_ticket : List Backend → ℕ → Ticket → List Transaction → List Transaction
fail_ticket backends now t rows = elim (static_owner t.port backends) [
  | none ↦ rows
  | some owner ↦
      update_transfer now t.id failed (codes "port assigned permanently to backend " ++ owner)
        (pos now) rows
]

-- The loop; `clock n` is the reading of the clock for the n-th ticket.
unfoldable pub fail_tickets :
    List Backend → (ℕ → ℕ) → List Ticket → List Transaction → List Transaction
fail_tickets backends clock [] rows = rows
fail_tickets backends clock (t ∷ ts) rows =
    fail_tickets backends (λ n. clock (suc n)) ts (fail_ticket backends (clock 0) t rows)

-- `removeTicketsForStaticPorts`; `loaded_at` and `clock` are the readings of the clock.
unfoldable pub remove_tickets_for_static_ports :
    List Backend → ℕ → (ℕ → ℕ) → Bool → FileRead → List Transaction → Cleanup
remove_tickets_for_static_ports backends loaded_at clock can_write file rows =
    if not (any has_public_port backends)
    then record { done = true; file = file; rows = rows }
    else elim (load_transfer_tickets file loaded_at) [
      | none ↦ record { done = false; file = file; rows = rows }
      | some ts ↦ elim (write_transfer_tickets can_write (select (is_unowned backends) ts)) [
        | none ↦ record { done = false; file = file; rows = fail_tickets backends clock ts rows }
        | some file' ↦ record {
          done = true;
          file = file';
          rows = fail_tickets backends clock ts rows;
        }
      ]
    ]

-- Does one of the tickets, on a port that a backend owns, have this id?
abbrev pub reclaimed : List Backend → List Ticket → Text → Bool
reclaimed backends ts id = any (λ t. not (is_unowned backends t) && id == t.id) ts

abbrev pub fails : (Text → Bool) → Transaction → TransferState
fails p r = if p r.ticket_id then failed else r.state

module _ (backends : List Backend) where
  fail_ticket_states :
      (now : ℕ) (p : Text → Bool) (t : Ticket) (rows : List Transaction)
      → map (fails p) (fail_ticket backends now t rows)
        ≡ map (fails (λ id. (not (is_unowned backends t) && id == t.id) || p id)) rows
  unfolding fail_ticket update_transfer
  fail_ticket_states now p t [] = ground arith
  fail_ticket_states now p t (r ∷ rows) = ground (arith, fail_ticket_states now p t rows)

  fail_tickets_states :
      (clock : ℕ → ℕ) (ts : List Ticket) (rows : List Transaction)
      → map (λ (r : Transaction). r.state) (fail_tickets backends clock ts rows)
        ≡ map (fails (reclaimed backends ts)) rows
  unfolding fail_tickets any
  fail_tickets_states clock [] rows = refl
  fail_tickets_states clock (t ∷ ts) rows =
      fail_tickets_states (λ n. clock (suc n)) ts (fail_ticket backends (clock 0) t rows)
      ∙ fail_ticket_states (clock 0) (reclaimed backends ts) t rows

unowned_left :
    (backends : List Backend) (ts : List Ticket)
    → All (λ t. static_owner t.port backends ≡ none) (select (is_unowned backends) ts)
unfolding select
unowned_left backends [] = tt
unowned_left backends (t ∷ ts) = elim (Bool-cases (is_unowned backends t)) [
  | inl y ↦ rw y (ground arith, unowned_left backends ts)
  | inr n ↦ rw n (unowned_left backends ts)
]

-- After a clean-up that reads and writes the file, no ticket in it lends a port that a backend
-- owns, all others are kept in order, and in the ledger exactly the transfers of the tickets taken
-- back, whatever their state was, have failed.
pub reclaims_static_ports :
    (backends : List Backend) (loaded_at : ℕ) (clock : ℕ → ℕ) (file : FileRead)
    (rows : List Transaction) (ts : List Ticket)
    → any has_public_port backends ≡ true
    → load_transfer_tickets file loaded_at ≡ some ts
    → let c = remove_tickets_for_static_ports backends loaded_at clock true file rows in
      let kept = select (is_unowned backends) ts in
      (c.done ≡ true)
      × (c.file ≡ contents (ticket_file kept))
      × All (λ t. static_owner t.port backends ≡ none) kept
      × (map (λ (r : Transaction). r.state) c.rows ≡ map (fails (reclaimed backends ts)) rows)
unfolding remove_tickets_for_static_ports write_transfer_tickets
reclaims_static_ports backends loaded_at clock file rows ts owned l = (
  ground arith,
  ground arith,
  unowned_left backends ts,
  ground (arith, fail_tickets_states backends clock ts rows),
)
