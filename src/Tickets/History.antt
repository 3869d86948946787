-- ===== src/Tickets/History.antt =====
-- The ticket file over time (dashboard/main.go: createTransferTicket and the listing in
-- handleTransfersAPI, which writes the live tickets back).
use ninj_os_proxie_edge_fabr.Prelude.{ℕ, Bool, none, some, List, [], ◌∷◌, ◌++◌}
use ninj_os_proxie_edge_fabr.Tickets.{
  Ticket, FileRead, load_transfer_tickets, write_transfer_tickets,
}
use ninj_os_proxie_edge_fabr.Tickets.Create.{
  Env, TransferRequest, Outcome, refused, issued, create_transfer_ticket,
}

pub data Action : Type 0 where
  create : Env → TransferRequest → Action
  refresh : ℕ → Bool → Action

-- The listing's write: an error of the load or of the write is passed over.
unfoldable pub refresh_file : ℕ → Bool → FileRead → FileRead
refresh_file now can_write file = elim (load_transfer_tickets file now) [
  | none ↦ file
  | some ts ↦ elim (write_transfer_tickets can_write ts) [ none ↦ file | some file' ↦ file' ]
]

pub after : Outcome → FileRead → List Ticket × FileRead
after (refused e) file = ([], file)
after (issued t file') file = (t ∷ [], file')

-- One action: the tickets that it issues, and the file that it leaves.
unfoldable pub act : Action → FileRead → List Ticket × FileRead
unfolding after
act (create env request) file = after (create_transfer_ticket env file request) file
act (refresh now can_write) file = ([], refresh_file now can_write file)

unfoldable pub act_all : List Action → FileRead → List Ticket × FileRead
act_all [] file = ([], file)
act_all (a ∷ as') file =
    let (ts, file') = act a file in let (us, file'') = act_all as' file' in (ts ++ us, file'')
