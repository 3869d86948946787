-- ===== src/Transfers.antt =====
-- The ledger's table of transfer transactions (dashboard/storage_sqlite.go: createTransfer,
-- updateTransfer, confirmArrival, expireTransfers). A row is found by its ticket's id, which is also
-- its key. Each SQL statement is the function on the rows that it stands for.
pub mod Lifecycle
pub mod Trace
pub mod Arrival
pub mod Run
mod Examples
use ninj_os_proxie_edge_fabr.Prelude.{
  ℕ, Bool, true, false, ◌&&◌, ◌||◌, not, Option, none, some, List, [], ◌∷◌, ◌++◌, map,
  if◌then◌else◌, Text, ◌==◌, select,
}
use ninj_os_proxie_edge_fabr.Prelude.Int.{ℤ, pos, ◌-ℤ◌, ltb_ℤ, leb_ℤ, beq_ℤ}
use ninj_os_proxie_edge_fabr.GoText.{codes}
use ninj_os_proxie_edge_fabr.Tickets.{Ticket}

pub data TransferState : Type 0 where
  ticketed proxy_connected arrived expired failed : TransferState

pub record Transaction : Type 0 where
  pub ticket_id : Text
  pub xuid : Text
  pub player_name : Text
  pub source_server : Text
  pub destination : Text
  pub source_ip : Text
  pub proxy_port : ℤ
  pub state : TransferState
  pub requested_at : ℤ
  pub updated_at : ℤ
  pub proxy_connected_at : Option ℤ
  pub arrived_at : Option ℤ
  pub failure_reason : Option Text

-- state IN ('ticketed','proxy_connected')
abbrev pub in_flight : TransferState → Bool
in_flight ticketed = true
in_flight proxy_connected = true
in_flight _ = false

abbrev pub is_ticketed : TransferState → Bool
is_ticketed ticketed = true
is_ticketed _ = false

-- `createTransfer`: INSERT OR REPLACE.
unfoldable pub create_transfer : Ticket → List Transaction → List Transaction
create_transfer t rows =
    select (λ r. not (r.ticket_id == t.id)) rows
    ++ (record {
      ticket_id = t.id;
      xuid = t.xuid;
      player_name = t.player_name;
      source_server = t.source_server;
      destination = t.destination;
      source_ip = t.source_ip;
      proxy_port = t.port;
      state = ticketed;
      requested_at = t.created_at;
      updated_at = t.created_at;
      proxy_connected_at = none;
      arrived_at = none;
      failure_reason = none;
    }
        ∷ [])

-- The row that `updateTransfer` leaves of one with the ticket's id. The clock `now` stands in for
-- a timestamp of 0.
unfoldable pub update_row : TransferState → Text → ℤ → Transaction → Transaction
update_row proxy_connected failure ts r =
    if is_ticketed r.state
    then record r {
      state = proxy_connected;
      updated_at = ts;
      proxy_connected_at = some ts;
      failure_reason = some failure;
    }
    else r
update_row arrived failure ts r = record r {
  state = arrived;
  updated_at = ts;
  arrived_at = some ts;
  failure_reason = some failure;
}
update_row s failure ts r = record r { state = s; updated_at = ts; failure_reason = some failure }

-- `updateTransfer`
unfoldable pub update_transfer :
    ℕ → Text → TransferState → Text → ℤ → List Transaction → List Transaction
unfolding update_row
update_transfer now id s failure timestamp rows =
    let ts = if beq_ℤ timestamp (pos 0) then pos now else timestamp in
    map (λ r. if r.ticket_id == id then update_row s failure ts r else r) rows

abbrev pub timeout_millis : ℕ
timeout_millis = 300000

-- The rows that an arrival may confirm.
unfoldable pub awaits : Text → Text → ℤ → Transaction → Bool
awaits xuid server timestamp r =
    r.xuid == xuid
    && r.destination == server
    && in_flight r.state
    && leb_ℤ (timestamp -ℤ pos timeout_millis) r.requested_at

-- ORDER BY requested_at DESC LIMIT 1
unfoldable pub newest : (Transaction → Bool) → List Transaction → Option Transaction
newest p [] = none
newest p (r ∷ rows) =
    let rest = newest p rows in
    if p r
    then elim rest [
      | none ↦ some r
      | some s ↦ if ltb_ℤ r.requested_at s.requested_at then some s else some r
    ]
    else rest

abbrev pub mark_arrived : Text → ℤ → Transaction → Transaction
mark_arrived id timestamp r =
    if r.ticket_id == id
    then record r { state = arrived; updated_at = timestamp; arrived_at = some timestamp }
    else r

-- `confirmArrival`
unfoldable pub confirm_arrival : Text → Text → ℤ → List Transaction → List Transaction
confirm_arrival xuid server timestamp rows =
    if xuid == [] || server == [] then rows else elim (newest (awaits xuid server timestamp) rows) [
      | none ↦ rows
      | some r ↦ map (mark_arrived r.ticket_id timestamp) rows
    ]

abbrev pub timed_out : Text
timed_out = codes "arrival not confirmed before transaction timeout"

unfoldable pub is_overdue : ℕ → Transaction → Bool
is_overdue now r = in_flight r.state && ltb_ℤ r.requested_at (pos now -ℤ pos timeout_millis)

-- `expireTransfers`
unfoldable pub expire_transfers : ℕ → List Transaction → List Transaction
expire_transfers now = map (λ r.
    if is_overdue now r
    then record r { state = expired; updated_at = pos now; failure_reason = some timed_out }
    else r)
