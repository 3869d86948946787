-- ===== src/Tickets/Create.antt =====
-- Making a transfer ticket (dashboard/main.go: backendAvailable, resolveGatewaySourceIP,
-- createTransferTicket; dashboard/storage_sqlite.go: profileAccess; dashboard/backends.go:
-- availableTransferPorts). The history and event logs are not modelled.
use ninj_os_proxie_edge_fabr.Prelude.{
  ℕ, zero, suc, ◌+◌, ◌-◌, Bool, true, false, not, ◌&&◌, ◌||◌, Option, none, some, List, [], ◌∷◌,
  ◌++◌, nat_beq, if◌then◌else◌, Text, ◌==◌, any,
}
use ninj_os_proxie_edge_fabr.Prelude.Int.{ℤ, pos, beq_ℤ, leb_ℤ}
use ninj_os_proxie_edge_fabr.GoMap.{lookup}
use ninj_os_proxie_edge_fabr.Topology.{Backend, static_owner}
use ninj_os_proxie_edge_fabr.Tickets.{
  Ticket, FileRead, sanitize_ticket_field, load_transfer_tickets, write_transfer_tickets,
}

-- A backend in the combined runtime state.
pub record BackendState : Type 0 where
  pub name : Text
  pub enabled : Bool
  pub healthy : Bool

-- A gateway session; the port is missing where the state file has no number for it.
pub record Session : Type 0 where
  pub upstream_local_port : Option ℤ
  pub backend : Text
  pub ip : Text

-- A player's row in the ledger: the ban, and the destinations that are allowed or refused.
pub record Profile : Type 0 where
  pub banned : Bool
  pub access : List (Text × Bool)

pub record TransferRequest : Type 0 where
  pub destination : Text
  pub source_ip : Text
  pub source_port : ℤ
  pub xuid : Text
  pub player_name : Text
  pub source_server : Text

pub data Refusal : Type 0 where
  no_destination no_source_ip disabled unhealthy unknown banned_player no_access : Refusal
  unreadable_tickets no_ports no_random unwritable_tickets : Refusal

-- `backendAvailable`; `none` is available.
unfoldable pub backend_refusal : Text → List BackendState → Option Refusal
backend_refusal destination [] = some unknown
backend_refusal destination (b ∷ bs) =
    let rest = backend_refusal destination bs in
    if not (b.name == destination)
    then rest
    else if not b.enabled
    then some disabled
    else if not b.healthy
    then some unhealthy
    else none

abbrev on_port : ℤ → Option ℤ → Bool
on_port p none = false
on_port p (some q) = beq_ℤ q p

session_ip : Text → ℤ → List Session → Text
session_ip source port [] = []
session_ip source port (s ∷ ss) =
    let rest = session_ip source port ss in
    if not (on_port port s.upstream_local_port)
    then rest
    else if not (source == []) && not (s.backend == source)
    then rest
    else s.ip

-- `resolveGatewaySourceIP`
unfoldable pub resolve_source_ip : Text → ℤ → List Session → Text
unfolding session_ip
resolve_source_ip source port sessions =
    if leb_ℤ port (pos 0) then [] else session_ip source port sessions

access_refusal : Option Bool → Option Refusal
access_refusal (some false) = some no_access
access_refusal _ = none

-- `profileAccess`; `none` is allowed.
unfoldable pub profile_refusal : Text → Text → List (Text × Profile) → Option Refusal
unfolding access_refusal
profile_refusal xuid destination profiles =
    if xuid == [] then none else elim (lookup xuid profiles) [
      | none ↦ none
      | some p ↦
          if p.banned then some banned_player else access_refusal (lookup destination p.access)
    ]

-- What a call finds: the states and files that it reads, the clock's two readings, the random id
-- and whether the new file can be written. The pool starts at a port that is not negative.
pub record Env : Type 0 where
  pub backends : List BackendState
  pub sessions : List Session
  pub profiles : List (Text × Profile)
  pub require_ip : Bool
  pub static_backends : List Backend
  pub pool_start : ℕ
  pub pool_end : ℕ
  pub loaded_at : ℕ
  pub random_id : Option Text
  pub now : ℕ
  pub ttl : ℕ
  pub can_write : Bool

-- Lent by a ticket, or owned by a backend.
unfoldable pub is_taken : List Ticket → List Backend → ℕ → Bool
is_taken tickets backends port =
    any (λ t. beq_ℤ t.port (pos port)) tickets
    || (elim (static_owner (pos port) backends) [ none ↦ false | some _ ↦ true ])

-- The scan of the pool: the first port that is free of the given number from `port` on, or 0.
unfoldable pub find_port : (ℕ → Bool) → ℕ → ℕ → ℕ
find_port taken zero port = 0
find_port taken (suc rounds) port =
    let rest = find_port taken rounds (port + 1) in if taken port then rest else port

-- `availableTransferPorts`: the ports of the pool that no backend owns.
unfoldable pub free_ports : (ℕ → Bool) → ℕ → ℕ → List ℕ
free_ports owned zero port = []
free_ports owned (suc rounds) port =
    let rest = free_ports owned rounds (port + 1) in if owned port then rest else port ∷ rest

unfoldable pub available_transfer_ports : List Backend → ℕ → ℕ → List ℕ
unfolding free_ports is_taken
available_transfer_ports backends start end =
    free_ports (is_taken [] backends) (end + 1 - start) start

pub data Outcome : Type 0 where
  refused : Refusal → Outcome
  issued : Ticket → FileRead → Outcome

sanitize_request : TransferRequest → TransferRequest
sanitize_request r = record r {
  destination = sanitize_ticket_field r.destination;
  source_ip = sanitize_ticket_field r.source_ip;
  xuid = sanitize_ticket_field r.xuid;
  player_name = sanitize_ticket_field r.player_name;
  source_server = sanitize_ticket_field r.source_server;
}

with_source_ip : List Session → TransferRequest → TransferRequest
with_source_ip sessions r =
    let resolved = resolve_source_ip r.source_server r.source_port sessions in
    if resolved == [] then r else record r { source_ip = resolved }

-- The checks before the file is locked, in their order.
unfoldable pub request_refusal : Env → TransferRequest → Option Refusal
request_refusal env r =
    if r.destination == []
    then some no_destination
    else if env.require_ip && r.source_ip == []
    then some no_source_ip
    else elim (backend_refusal r.destination env.backends) [
      | some e ↦ some e
      | none ↦ profile_refusal r.xuid r.destination env.profiles
    ]

abbrev pub selected_port : Env → List Ticket → ℕ
selected_port env tickets =
    find_port (is_taken tickets env.static_backends) (env.pool_end + 1 - env.pool_start)
      env.pool_start

abbrev pub new_ticket : Env → TransferRequest → ℕ → Text → Ticket
new_ticket env r port id = record {
  id = id;
  port = pos port;
  destination = r.destination;
  source_ip = r.source_ip;
  xuid = r.xuid;
  player_name = r.player_name;
  source_server = r.source_server;
  expires_at = pos (env.now + env.ttl);
  created_at = pos env.now;
}

store_ticket : Env → Ticket → List Ticket → Outcome
store_ticket env t tickets = elim (write_transfer_tickets env.can_write (tickets ++ (t ∷ []))) [
  | none ↦ refused unwritable_tickets
  | some file ↦ issued t file
]

pub issue : Env → TransferRequest → List Ticket → Outcome
unfolding store_ticket
issue env r tickets =
    let port = selected_port env tickets in
    if nat_beq port 0 then refused no_ports else elim env.random_id [
      | none ↦ refused no_random
      | some id ↦ store_ticket env (new_ticket env r port id) tickets
    ]

-- The request as the checks see it.
unfoldable pub prepare_request : Env → TransferRequest → TransferRequest
unfolding sanitize_request with_source_ip
prepare_request env request = with_source_ip env.sessions (sanitize_request request)

-- `createTransferTicket`: the ticket and the new file, or the reason; `file` is the ticket file.
unfoldable pub create_transfer_ticket : Env → FileRead → TransferRequest → Outcome
unfolding issue
create_transfer_ticket env file request =
    let r = prepare_request env request in
    elim (request_refusal env r) [
      | some e ↦ refused e
      | none ↦ elim (load_transfer_tickets file env.loaded_at) [
        | none ↦ refused unreadable_tickets
        | some tickets ↦ issue env r tickets
      ]
    ]
