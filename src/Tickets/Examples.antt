-- ===== src/Tickets/Examples.antt =====
-- Tests of the ticket store, and its theorems at concrete states.
use ninj_os_proxie_edge_fabr.Prelude.{
  ℕ, ◌+◌, ◌%◌, ◌≤◌, ◌<◌, ◌≡◌, ◌≢◌, ◌⊎◌, refl, Bool, true, false, none, some, List, [], ◌∷◌, map,
  arith, nat_beq, sym, subst, ◌∙◌, Text, text_beq, any, select, All,
}
use ninj_os_proxie_edge_fabr.Prelude.Int.{pos}
use ninj_os_proxie_edge_fabr.GoText.{
  codes, trim_space, trim_left, trim_right, is_space, replace_byte, has_prefix, split,
}
use ninj_os_proxie_edge_fabr.GoMap.{lookup}
use ninj_os_proxie_edge_fabr.Topology.{Backend, static_owner}
use ninj_os_proxie_edge_fabr.Tickets.{
  Ticket, FileRead, missing, contents, sanitize_ticket_field, parse_line, parse_lines,
  load_transfer_tickets, ticket_file, write_transfer_tickets,
}
use ninj_os_proxie_edge_fabr.Tickets.Format.{sanitize_ticket}
use ninj_os_proxie_edge_fabr.Tickets.RoundTrip.{Storable, is_live, load-ticket_file}
use ninj_os_proxie_edge_fabr.Tickets.Create.{
  Env, TransferRequest, issued, is_taken, find_port, backend_refusal, profile_refusal,
  resolve_source_ip, prepare_request, request_refusal, create_transfer_ticket,
}
use ninj_os_proxie_edge_fabr.Tickets.Ports.{IsFirstFree, find_port_first}
use ninj_os_proxie_edge_fabr.Tickets.Outcomes.{
  LendsFree, Admitted, issued-LendsFree, issued-Admitted, free_port_issued,
}
use ninj_os_proxie_edge_fabr.Tickets.Format.{is_comment}
use ninj_os_proxie_edge_fabr.Tickets.History.{Action, create, refresh, act_all}
use ninj_os_proxie_edge_fabr.Tickets.Held.{IsSane, Within}
use ninj_os_proxie_edge_fabr.Tickets.Lending.{no_double_lending}
use ninj_os_proxie_edge_fabr.Tickets.Static.{
  remove_tickets_for_static_ports, is_unowned, fails, reclaimed, reclaims_static_ports,
}
use ninj_os_proxie_edge_fabr.Topology.{has_public_port}
use ninj_os_proxie_edge_fabr.Transfers.{Transaction, arrived, failed}

abbrev lobby : Backend
lobby = record {
  id = codes "lobby";
  display_name = codes "Lobby";
  host = codes "127.0.0.1";
  backend_port = pos 19132;
  public_port = pos 20000;
  fallback = false;
  fallback_backend = [];
  profile = codes "lobby";
  enabled = true;
  connection_mode = [];
  backend_adapter = [];
  backend_online_mode = true;
  require_proxy_identity = false;
  capacity = pos 50;
  companion_secret_env = [];
}

abbrev env : Env
env = record {
  backends = record { name = codes "zoo"; enabled = true; healthy = true } ∷ [];
  sessions =
      record { upstream_local_port = some (pos 7); backend = codes "lobby"; ip = codes "10.0.0.9" }
      ∷ [];
  profiles = (codes "x1", record { banned = false; access = [] }) ∷ [];
  require_ip = true;
  static_backends = lobby ∷ [];
  pool_start = 20000;
  pool_end = 20002;
  loaded_at = 1000;
  random_id = some (codes "a1");
  now = 1001;
  ttl = 60000;
  can_write = true;
}

abbrev request : TransferRequest
request = record {
  destination = codes " zoo\n";
  source_ip = codes "1.2.3.4";
  source_port = pos 7;
  xuid = codes "x1";
  player_name = codes "Ann";
  source_server = codes "lobby";
}

abbrev ticket : Ticket
ticket = record {
  id = codes "a1";
  port = pos 20001;
  destination = codes "zoo";
  source_ip = codes "10.0.0.9";
  xuid = codes "x1";
  player_name = codes "Ann";
  source_server = codes "lobby";
  expires_at = pos 61001;
  created_at = pos 1001;
}

abbrev old_ticket : Ticket
old_ticket = record ticket { id = codes "z9"; expires_at = pos 900; port = pos 20002 }

admitted : request_refusal env (prepare_request env request) ≡ none
unfolding request_refusal backend_refusal profile_refusal lookup prepare_request
    sanitize_ticket_field resolve_source_ip trim_space trim_left trim_right is_space replace_byte
    text_beq
admitted = refl

loads_nothing : load_transfer_tickets missing 1000 ≡ some []
unfolding load_transfer_tickets parse_lines parse_line split trim_space trim_left trim_right
    is_space text_beq has_prefix
loads_nothing = refl

second_port_free : is_taken [] (lobby ∷ []) 20001 ≡ false
unfolding is_taken any static_owner
second_port_free = refl

issues_ticket :
    create_transfer_ticket env missing request
    ≡ issued ticket (contents (ticket_file (ticket ∷ [])))
unfolding create_transfer_ticket write_transfer_tickets is_taken any static_owner find_port
    request_refusal backend_refusal profile_refusal lookup load_transfer_tickets parse_lines
    parse_line split has_prefix prepare_request sanitize_ticket_field resolve_source_ip trim_space
    trim_left trim_right is_space replace_byte text_beq
issues_ticket = refl

issued-LendsFree_example : LendsFree env missing ticket (contents (ticket_file (ticket ∷ [])))
issued-LendsFree_example = issued-LendsFree env missing request ticket _ issues_ticket

issued-Admitted_example : Admitted env (prepare_request env request)
issued-Admitted_example =
    issued-Admitted env missing request ticket (contents (ticket_file (ticket ∷ []))) issues_ticket

free_port_issued_example :
    (t : Ticket) × (file' : FileRead) × (create_transfer_ticket env missing request
      ≡ issued t file')
free_port_issued_example =
    free_port_issued env missing request [] (codes "a1") 20001 admitted loads_nothing refl refl
      (omega arith) (omega arith) (omega arith) second_port_free

abbrev is_even_port : ℕ → Bool
is_even_port p = nat_beq (p % 2) 0

find_port_first_example :
    IsFirstFree is_even_port 5 20000 (find_port is_even_port 5 20000)
    ⊎ ((find_port is_even_port 5 20000 ≡ 0)
        × ((q : ℕ) → 20000 ≤ q → q < 20000 + 5 → is_even_port q ≡ true))
find_port_first_example = find_port_first is_even_port 5 20000 (omega arith)

stores : All Storable (old_ticket ∷ ticket ∷ [])
unfolding sanitize_ticket_field trim_space trim_left trim_right is_space replace_byte has_prefix
stores = (
  record {
    range = record { port = omega arith; expires_at = omega arith; created_at = omega arith };
    plain = refl;
  },
  (
    record {
      range = record { port = omega arith; expires_at = omega arith; created_at = omega arith };
      plain = refl;
    },
    tt,
  ),
)

load-ticket_file_example :
    load_transfer_tickets (contents (ticket_file (old_ticket ∷ ticket ∷ []))) 1001
    ≡ some (map sanitize_ticket (select (is_live 1001) (old_ticket ∷ ticket ∷ [])))
load-ticket_file_example = load-ticket_file 1001 (old_ticket ∷ ticket ∷ []) stores

abbrev second_env : Env
second_env = record env { loaded_at = 2000; random_id = some (codes "b2"); now = 2001 }

abbrev later_actions : List Action
later_actions = create second_env request ∷ refresh 30000 true ∷ create second_env request ∷ []

plain_id :
    (given id : Text)
    → is_comment (sanitize_ticket_field given) ≡ false
    → some given ≡ some id
    → is_comment (sanitize_ticket_field id) ≡ false
plain_id given id p e =
    let same : given ≡ id = cc e in subst (λ i. is_comment (sanitize_ticket_field i) ≡ false) same p

a1_plain : is_comment (sanitize_ticket_field (codes "a1")) ≡ false
unfolding sanitize_ticket_field trim_space trim_left trim_right is_space replace_byte has_prefix
a1_plain = refl

b2_plain : is_comment (sanitize_ticket_field (codes "b2")) ≡ false
unfolding sanitize_ticket_field trim_space trim_left trim_right is_space replace_byte has_prefix
b2_plain = refl

env-IsSane : IsSane env
env-IsSane = record {
  pool = omega arith;
  clock = omega arith;
  ids = λ id e. plain_id (codes "a1") id a1_plain e;
}

second_env-IsSane : IsSane second_env
second_env-IsSane = record {
  pool = omega arith;
  clock = omega arith;
  ids = λ id e. plain_id (codes "b2") id b2_plain e;
}

nothing_stored :
    (ts : List Ticket) → load_transfer_tickets missing env.loaded_at ≡ some ts → All Storable ts
nothing_stored ts e =
    let same : some [] ≡ some ts = sym loads_nothing ∙ e in
    let empty : [] ≡ ts = cc same in subst (All Storable) empty tt

within : All (Within (env.now + env.ttl)) later_actions
within = ((second_env-IsSane, omega arith), (omega arith, ((second_env-IsSane, omega arith), tt)))

no_double_lending_example :
    All (λ u. u.port ≢ ticket.port) (act_all later_actions (contents (ticket_file (ticket ∷ [])))).0
no_double_lending_example =
    no_double_lending env missing request ticket (contents (ticket_file (ticket ∷ [])))
      later_actions env-IsSane nothing_stored issues_ticket within

owns_port : any has_public_port (lobby ∷ []) ≡ true
unfolding any
owns_port = refl

-- A ticket on the port that the lobby now owns, and its transfer, which has arrived.
abbrev clash : Ticket
clash = record ticket { id = codes "c3"; port = pos 20000 }

abbrev clash_row : Transaction
clash_row = record {
  ticket_id = codes "c3";
  xuid = codes "x1";
  player_name = codes "Ann";
  source_server = codes "lobby";
  destination = codes "zoo";
  source_ip = codes "10.0.0.9";
  proxy_port = pos 20000;
  state = arrived;
  requested_at = pos 1001;
  updated_at = pos 1002;
  proxy_connected_at = none;
  arrived_at = some (pos 1002);
  failure_reason = none;
}

abbrev clash_file : FileRead
clash_file = contents (ticket_file (clash ∷ ticket ∷ []))

abbrev clash_tickets : List Ticket
clash_tickets = map sanitize_ticket (select (is_live 1003) (clash ∷ ticket ∷ []))

clash_stores : All Storable (clash ∷ ticket ∷ [])
unfolding sanitize_ticket_field trim_space trim_left trim_right is_space replace_byte has_prefix
clash_stores = (
  record {
    range = record { port = omega arith; expires_at = omega arith; created_at = omega arith };
    plain = refl;
  },
  (
    record {
      range = record { port = omega arith; expires_at = omega arith; created_at = omega arith };
      plain = refl;
    },
    tt,
  ),
)

reclaims_static_ports_example :
    let c =
      remove_tickets_for_static_ports
        (lobby ∷ [])
        1003
        (λ n. 1004 + n)
        true
        clash_file
        (clash_row ∷ []) in
    let kept = select (is_unowned (lobby ∷ [])) clash_tickets in
    (c.done ≡ true)
    × (c.file ≡ contents (ticket_file kept))
    × All (λ t. static_owner t.port (lobby ∷ []) ≡ none) kept
    × (map (λ (r : Transaction). r.state) c.rows
        ≡ map (fails (reclaimed (lobby ∷ []) clash_tickets)) (clash_row ∷ []))
reclaims_static_ports_example =
    reclaims_static_ports (lobby ∷ []) 1003 (λ n. 1004 + n) clash_file (clash_row ∷ [])
      clash_tickets owns_port (load-ticket_file 1003 (clash ∷ ticket ∷ []) clash_stores)

-- The transfer that had arrived is failed by the clean-up.
clash_fails : map (fails (reclaimed (lobby ∷ []) clash_tickets)) (clash_row ∷ []) ≡ failed ∷ []
unfolding sanitize_ticket_field trim_space trim_left trim_right is_space replace_byte text_beq
    select any static_owner
clash_fails = refl
