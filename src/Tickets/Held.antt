-- ===== src/Tickets/Held.antt =====
-- A file that holds a ticket for a port, and what reading it gives.
use ninj_os_proxie_edge_fabr.Prelude.{
  Text, ℕ, ◌+◌, ◌≤◌, ◌<◌, ◌≡◌, ◌≢◌, Bool, true, false, ◌&&◌, some, List, [], ◌∷◌, ◌++◌, map, arith,
  any, select, All, Bool-cases, inl, inr,
}
use ninj_os_proxie_edge_fabr.Prelude.Int.{ℤ, pos, beq_ℤ, leb_ℤ}
use ninj_os_proxie_edge_fabr.GoText.Decimal.{max_int64}
use ninj_os_proxie_edge_fabr.Tickets.{
  Ticket, FileRead, contents, sanitize_ticket_field, load_transfer_tickets, ticket_file,
}
use ninj_os_proxie_edge_fabr.Tickets.Format.{
  sanitize_ticket, sanitize_ticket_field_idem, is_comment,
}
use ninj_os_proxie_edge_fabr.Tickets.RoundTrip.{Storable, is_live, load-ticket_file}
use ninj_os_proxie_edge_fabr.Tickets.Create.{Env}
use ninj_os_proxie_edge_fabr.Tickets.History.{Action, create, refresh}

-- The settings of a call that keep its ticket storable: numbers in the range of int64, and a
-- random id that is no comment sign.
pub record IsSane (env : Env) : Type 0 where
  pub pool : env.pool_end ≤ max_int64
  pub clock : env.now + env.ttl ≤ max_int64
  pub ids : (id : Text) → env.random_id ≡ some id → is_comment (sanitize_ticket_field id) ≡ false

-- The action reads the clock before `deadline`.
abbrev pub Within : ℕ → Action → Type 0
Within deadline (create env request) = IsSane env × (env.loaded_at < deadline)
Within deadline (refresh now can_write) = now < deadline

-- Is this a ticket for the port that lasts until the deadline?
abbrev pub lends : ℤ → ℕ → Ticket → Bool
lends port deadline t = beq_ℤ t.port port && leb_ℤ (pos deadline) t.expires_at

-- The file holds such a ticket.
pub record Lends (port : ℤ) (deadline : ℕ) (file : FileRead) : Type 0 where
  pub tickets : List Ticket
  pub held_by : file ≡ contents (ticket_file tickets)
  pub storable : All Storable tickets
  pub held : any (lends port deadline) tickets ≡ true

pub Storable-sanitize : (t : Ticket) → Storable t → Storable (sanitize_ticket t)
Storable-sanitize t s = record {
  range = record {
    port = s.range.port;
    expires_at = s.range.expires_at;
    created_at = s.range.created_at;
  };
  plain = rw (sanitize_ticket_field_idem t.id) s.plain;
}

unfoldable pub reloaded : ℕ → List Ticket → List Ticket
reloaded now ts = map sanitize_ticket (select (is_live now) ts)

pub Storable-reloaded :
    (now : ℕ) (ts : List Ticket) → All Storable ts → All Storable (reloaded now ts)
unfolding reloaded select
Storable-reloaded now [] h = tt
Storable-reloaded now (t ∷ ts) h = elim (Bool-cases (is_live now t)) [
  | inl live ↦ rw live (Storable-sanitize t h.0, Storable-reloaded now ts h.1)
  | inr dead ↦ rw dead (Storable-reloaded now ts h.1)
]

module _ (port : ℤ) (deadline : ℕ) where
  pub held-reloaded :
      (now : ℕ) (ts : List Ticket)
      → now < deadline
      → any (lends port deadline) ts ≡ true
      → any (lends port deadline) (reloaded now ts) ≡ true
  unfolding reloaded select any
  held-reloaded now [] early h = h
  held-reloaded now (t ∷ ts) early h = ground (arith, held-reloaded now ts early)

  pub held-append :
      (ts us : List Ticket)
      → any (lends port deadline) ts ≡ true
      → any (lends port deadline) (ts ++ us) ≡ true
  unfolding any
  held-append [] us h = cc
  held-append (t ∷ ts) us h = ground (arith, held-append ts us)

  pub held_last :
      (ts : List Ticket) (t : Ticket)
      → lends port deadline t ≡ true
      → any (lends port deadline) (ts ++ (t ∷ [])) ≡ true
  unfolding any
  held_last [] t h = ground arith
  held_last (u ∷ ts) t h = ground (arith, held_last ts t h)

  pub held_taken :
      (ts : List Ticket) (p : ℕ)
      → any (lends port deadline) ts ≡ true
      → any (λ t. beq_ℤ t.port (pos p)) ts ≡ false
      → pos p ≢ port
  unfolding any
  held_taken [] p h f = cc
  held_taken (t ∷ ts) p h f = ground (arith, held_taken ts p)

  pub Lends-load :
      (file : FileRead) (now : ℕ) (l : Lends port deadline file)
      → load_transfer_tickets file now ≡ some (reloaded now l.tickets)
  unfolding reloaded
  Lends-load file now l = rw l.held_by (load-ticket_file now l.tickets l.storable)
