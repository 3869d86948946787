-- ===== src/Tickets/Outcomes.antt =====
-- What an issued ticket and its file are, and that no port is lent twice.
use ninj_os_proxie_edge_fabr.Prelude.{
  ℕ, ◌+◌, ◌-◌, ◌≤◌, ◌<◌, ◌≡◌, ◌≢◌, ap, Bool, true, false, ◌&&◌, none, some, List, [], ◌∷◌, ◌++◌,
  arith, Text, ◌==◌, text_beq_iff, any, All, Option-cases, inl, inr,
}
use ninj_os_proxie_edge_fabr.Prelude.Int.{pos, beq_ℤ}
use ninj_os_proxie_edge_fabr.GoMap.{lookup}
use ninj_os_proxie_edge_fabr.Topology.{static_owner}
use ninj_os_proxie_edge_fabr.Tickets.{
  Ticket, FileRead, contents, load_transfer_tickets, ticket_file, write_transfer_tickets,
}
use ninj_os_proxie_edge_fabr.Tickets.Ports.{find_port_sound, find_port_zero}
use ninj_os_proxie_edge_fabr.Tickets.Create.{
  BackendState, Profile, backend_refusal, profile_refusal, Env, TransferRequest, issued, is_taken,
  selected_port, new_ticket, prepare_request, request_refusal, create_transfer_ticket,
}

-- How an issued ticket came about.
pub record Issued (env : Env) (file : FileRead) (request : TransferRequest) (t : Ticket)
    (file' : FileRead) : Type 0 where
  pub tickets : List Ticket
  pub id : Text
  pub accepted : request_refusal env (prepare_request env request) ≡ none
  pub loaded : load_transfer_tickets file env.loaded_at ≡ some tickets
  pub random : env.random_id ≡ some id
  pub free : selected_port env tickets ≢ 0
  pub made : t ≡ new_ticket env (prepare_request env request) (selected_port env tickets) id
  pub written : file' ≡ contents (ticket_file (tickets ++ (t ∷ [])))

module _ (env : Env) (file : FileRead) (request : TransferRequest) (t : Ticket)
    (file' : FileRead) where
  r : TransferRequest
  r = prepare_request env request

  from_issue :
      (tickets : List Ticket) (id : Text)
      → request_refusal env r ≡ none
      → load_transfer_tickets file env.loaded_at ≡ some tickets
      → env.random_id ≡ some id
      → create_transfer_ticket env file request ≡ issued t file'
      → Issued env file request t file'
  unfolding create_transfer_ticket write_transfer_tickets r
  from_issue tickets id a l i h = record {
    tickets = tickets;
    id = id;
    accepted = a;
    loaded = l;
    random = i;
    free = ground arith;
    made = ground arith;
    written = ground arith;
  }

  pub create-issued :
      create_transfer_ticket env file request ≡ issued t file' → Issued env file request t file'
  unfolding create_transfer_ticket r
  create-issued h = elim (Option-cases (request_refusal env r)) [
    | inr (e, a) ↦ ground arith
    | inl a ↦ elim (Option-cases (load_transfer_tickets file env.loaded_at)) [
      | inl l ↦ ground arith
      | inr (tickets, l) ↦ elim (Option-cases env.random_id) [
        | inl i ↦ ground arith
        | inr (id, i) ↦ from_issue tickets id a l i h
      ]
    ]
  ]

not_lent :
    (ts : List Ticket) (p : ℕ)
    → any (λ u. beq_ℤ u.port (pos p)) ts ≡ false
    → All (λ u. u.port ≢ pos p) ts
unfolding any
not_lent [] p h = tt
not_lent (u ∷ ts) p h = (ground arith, not_lent ts p (ground arith))

-- The ticket lends port `p`, which was free.
pub record LendsFree (env : Env) (file : FileRead) (t : Ticket) (file' : FileRead) : Type 0 where
  pub tickets : List Ticket
  pub p : ℕ
  pub loaded : load_transfer_tickets file env.loaded_at ≡ some tickets
  pub port : t.port ≡ pos p
  pub in_pool : (env.pool_start ≤ p) × (p ≤ env.pool_end)
  pub unlent : All (λ u. u.port ≢ pos p) tickets
  pub unowned : static_owner (pos p) env.static_backends ≡ none
  pub written : file' ≡ contents (ticket_file (tickets ++ (t ∷ [])))
  pub times : (t.created_at ≡ pos env.now) × (t.expires_at ≡ pos (env.now + env.ttl))

-- An issued ticket lends a port of the pool that no live ticket lends and no backend owns, it
-- expires after the time to live, and the new file is the list of live tickets with it at the end.
pub issued-LendsFree :
    (env : Env) (file : FileRead) (request : TransferRequest) (t : Ticket) (file' : FileRead)
    → create_transfer_ticket env file request ≡ issued t file'
    → LendsFree env file t file'
unfolding is_taken
issued-LendsFree env file request t file' h =
    let i = create-issued env file request t file' h in
    let f = find_port_sound (is_taken i.tickets env.static_backends) _ _ i.free in
    record {
      tickets = i.tickets;
      p = selected_port env i.tickets;
      loaded = i.loaded;
      port = ap (λ (u : Ticket). u.port) i.made;
      in_pool = (f.from, omega (arith, f.below, f.from));
      unlent = not_lent i.tickets _ (ground (arith, f.free));
      unowned = ground (arith, f.free);
      written = i.written;
      times = (ap (λ (u : Ticket). u.created_at) i.made, ap (λ (u : Ticket). u.expires_at) i.made);
    }

abbrev is_ready : Text → BackendState → Bool
is_ready destination b = b.name == destination && b.enabled && b.healthy

ready_backend :
    (destination : Text) (bs : List BackendState)
    → backend_refusal destination bs ≡ none
    → any (is_ready destination) bs ≡ true
unfolding backend_refusal any
ready_backend destination [] h = cc
ready_backend destination (b ∷ bs) h = ground (arith, ready_backend destination bs)

-- What the checks before the issue establish of the prepared request.
pub record Admitted (env : Env) (r : TransferRequest) : Type 0 where
  pub destination : r.destination ≢ []
  pub source : env.require_ip ≡ true → r.source_ip ≢ []
  pub backend : any (is_ready r.destination) env.backends ≡ true
  pub profile :
      (p : Profile)
      → r.xuid ≢ []
      → lookup r.xuid env.profiles ≡ some p
      → (p.banned ≡ false) × (lookup r.destination p.access ≢ some false)

-- A ticket is only issued for a destination that is known, enabled and healthy, with a source
-- address where one is required, and never for a player who is banned or refused there.
pub issued-Admitted :
    (env : Env) (file : FileRead) (request : TransferRequest) (t : Ticket) (file' : FileRead)
    → create_transfer_ticket env file request ≡ issued t file'
    → Admitted env (prepare_request env request)
unfolding request_refusal profile_refusal
issued-Admitted env file request t file' h =
    let i = create-issued env file request t file' h in
    let r = prepare_request env request in
    record {
      destination = ground (arith, i.accepted, text_beq_iff r.destination []);
      source = λ q. ground (arith, i.accepted, text_beq_iff r.source_ip []);
      backend = ready_backend r.destination env.backends (ground (arith, i.accepted));
      profile = λ p named found. (
        ground (arith, i.accepted, text_beq_iff r.xuid []),
        ground (arith, i.accepted, text_beq_iff r.xuid []),
      );
    }

-- A request that passes the checks gets a ticket, if the ticket file can be read and written, a
-- random id is there, and some port of a pool of positive ports is neither lent nor owned.
pub free_port_issued :
    (env : Env) (file : FileRead) (request : TransferRequest) (tickets : List Ticket) (id : Text)
    (q : ℕ)
    → request_refusal env (prepare_request env request) ≡ none
    → load_transfer_tickets file env.loaded_at ≡ some tickets
    → env.random_id ≡ some id
    → env.can_write ≡ true
    → 0 < env.pool_start
    → env.pool_start ≤ q
    → q ≤ env.pool_end
    → is_taken tickets env.static_backends q ≡ false
    → (t : Ticket) × (file' : FileRead) × (create_transfer_ticket env file request ≡ issued t file')
unfolding create_transfer_ticket write_transfer_tickets
free_port_issued env file request tickets id q a l i w pos_start from to free =
    let r = prepare_request env request in
    let t = new_ticket env r (selected_port env tickets) id in
    let some_port : selected_port env tickets ≢ 0 = λ none_free. cc (
      free,
      find_port_zero (is_taken tickets env.static_backends) (env.pool_end + 1 - env.pool_start)
          env.pool_start pos_start none_free q from (omega arith),
    ) in
    (t, contents (ticket_file (tickets ++ (t ∷ []))), ground (arith, some_port))
